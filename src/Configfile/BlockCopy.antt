-- ===== src/Configfile/BlockCopy.antt =====
-- configloader/configfile.c: what `config_block_copy` returns and leaves allocated, for every
-- allocator.
use deadline_knapp_verparsed.Base.{
  ℕ, ◌+◌, List, [], ◌∷◌, ◌++◌, some, ◌≡◌, arith, append_assoc, append-nil,
}
use deadline_knapp_verparsed.Runtime.{World, CStr}
use deadline_knapp_verparsed.Runtime.Ensures.{
  Steady, Ensures, holds, Ensures-bind, Obtains, Ensures-obtain, Ensures-update,
}
use deadline_knapp_verparsed.Configfile.Data.{
  Directive, Block, Blocks, block, nil, cons, append_block,
}
use deadline_knapp_verparsed.Configfile.BlockOps.{
  copy_block_args, copy_directives, copy_block, copy_subblocks, config_block_copy,
}
use deadline_knapp_verparsed.Configfile.Memory.{
  size_directive, config_directive_free-Ensures, config_directive_copy-Ensures,
}
use deadline_knapp_verparsed.Configfile.BlockMemory.{
  size_block, append_blocks, append_blocks-nil, append_blocks-append_block,
  config_block_create-Ensures, config_block_free-Ensures, config_block_add_arg-Ensures,
  config_block_add_directive-Ensures, config_block_add_subblock-Ensures,
}

module _ {w₀ : World} where
  copy_block_args-Ensures :
      (more : List CStr) (name : CStr) (args : List CStr) (n : ℕ) {w : World}
      → Steady w₀ w
      → w.live ≡ n + size_block (block name args [] nil)
      → Ensures w₀
          (Obtains w₀ size_block n (block name (args ++ more) [] nil))
          (copy_block_args more (some (block name args [] nil)) w)
  unfolding copy_block_args
  copy_block_args-Ensures [] name args n s e = holds s (rw append-nil, rw append-nil e)
  copy_block_args-Ensures (a ∷ more) name args n s e =
      Ensures-update size_block n 0 _ _ _ (config_block_add_arg-Ensures name args [] nil a n s e)
        (λ w₁ s₁ starved e₁.
          Ensures-bind (config_block_free-Ensures (block name args [] nil) n s₁ (omega arith))
            λ _ w₂ s₂ e₂. holds s₂ (starved, e₂))
        (λ w₁ s₁ e₁.
          rw (append_assoc args (a ∷ []) more) at
            (copy_block_args-Ensures more name (args ++ a ∷ []) n s₁ e₁))

  copy_directives-Ensures :
      (more : List Directive) (name : CStr) (args : List CStr) (ds : List Directive) (n : ℕ)
      {w : World}
      → Steady w₀ w
      → w.live ≡ n + size_block (block name args ds nil)
      → Ensures w₀
          (Obtains w₀ size_block n (block name args (ds ++ more) nil))
          (copy_directives more (some (block name args ds nil)) w)
  unfolding copy_directives
  copy_directives-Ensures [] name args ds n s e = holds s (rw append-nil, rw append-nil e)
  copy_directives-Ensures (d ∷ more) name args ds n s e =
      let b = block name args ds nil in
      Ensures-obtain size_directive (n + size_block b) _ (config_directive_copy-Ensures d _ s e)
        (λ w₁ s₁ starved e₁.
          Ensures-bind (config_block_free-Ensures b n s₁ e₁) λ _ w₂ s₂ e₂. holds s₂ (starved, e₂))
        (λ w₁ s₁ e₁.
          Ensures-update size_block n (size_directive d) _ _ _
            (config_block_add_directive-Ensures name args ds nil d n s₁ e₁)
            (λ w₂ s₂ starved e₂.
              Ensures-bind (config_directive_free-Ensures d (n + size_block b) s₂ e₂) λ _ w₃ s₃ e₃.
                Ensures-bind (config_block_free-Ensures b n s₃ e₃)
                  λ _ w₄ s₄ e₄. holds s₄ (starved, e₄))
            (λ w₂ s₂ e₂.
              rw (append_assoc ds (d ∷ []) more) at
                (copy_directives-Ensures more name args (ds ++ d ∷ []) n s₂ e₂)))

  mutual
    unfolding copy_block

    copy_block-Ensures :
        (b : Block) (n : ℕ) {w : World}
        → Steady w₀ w
        → w.live ≡ n
        → Ensures w₀ (Obtains w₀ size_block n b) (copy_block b w)
    copy_block-Ensures (block name args ds bs) n s e =
        Ensures-obtain size_block n _ (config_block_create-Ensures name n s e)
          (λ w₁ s₁ starved e₁. holds s₁ (starved, e₁))
          (λ w₁ s₁ e₁.
            Ensures-obtain size_block n _ (copy_block_args-Ensures args name [] n s₁ e₁)
              (λ w₂ s₂ starved e₂. holds s₂ (starved, e₂))
              (λ w₂ s₂ e₂.
                Ensures-obtain size_block n _ (copy_directives-Ensures ds name args [] n s₂ e₂)
                  (λ w₃ s₃ starved e₃. holds s₃ (starved, e₃))
                  (λ w₃ s₃ e₃. copy_subblocks-Ensures bs name args ds nil n s₃ e₃)))

    copy_subblocks-Ensures :
        (more : Blocks) (name : CStr) (args : List CStr) (ds : List Directive) (bs : Blocks) (n : ℕ)
        {w : World}
        → Steady w₀ w
        → w.live ≡ n + size_block (block name args ds bs)
        → Ensures w₀
            (Obtains w₀ size_block n (block name args ds (append_blocks bs more)))
            (copy_subblocks more (some (block name args ds bs)) w)
    copy_subblocks-Ensures nil name args ds bs n s e =
        holds s (rw append_blocks-nil, rw append_blocks-nil e)
    copy_subblocks-Ensures (cons b more) name args ds bs n s e =
        let a = block name args ds bs in
        Ensures-obtain size_block (n + size_block a) _ (copy_block-Ensures b _ s e)
          (λ w₁ s₁ starved e₁.
            Ensures-bind (config_block_free-Ensures a n s₁ e₁) λ _ w₂ s₂ e₂. holds s₂ (starved, e₂))
          (λ w₁ s₁ e₁.
            Ensures-update size_block n (size_block b) _ _ _
              (config_block_add_subblock-Ensures name args ds bs b n s₁ e₁)
              (λ w₂ s₂ starved e₂.
                Ensures-bind (config_block_free-Ensures b (n + size_block a) s₂ e₂) λ _ w₃ s₃ e₃.
                  Ensures-bind (config_block_free-Ensures a n s₃ e₃)
                    λ _ w₄ s₄ e₄. holds s₄ (starved, e₄))
              (λ w₂ s₂ e₂.
                rw (append_blocks-append_block bs more b) at
                  (copy_subblocks-Ensures more name args ds (append_block bs b) n s₂ e₂)))

  -- Copying a block, for every allocator: the copy equals the block and owns its own allocations; or
  -- it is NULL, only after a refused request, and then nothing of the copy stays allocated; or the
  -- run faults, again only after a refused request.
  pub config_block_copy-Ensures :
      (b : Block) (n : ℕ) {w : World}
      → Steady w₀ w
      → w.live ≡ n
      → Ensures w₀ (Obtains w₀ size_block n b) (config_block_copy (some b) w)
  unfolding config_block_copy
  config_block_copy-Ensures b n s e = copy_block-Ensures b n s e
