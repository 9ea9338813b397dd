-- ===== src/Configfile/BlockMemory.antt =====
-- configloader/configfile.c, blocks: what each operation returns and how many allocations it
-- leaves, for every allocator.
use deadline_knapp_verparsed.Base.{
  ℕ, ◌+◌, ◌-◌, not, true, List, [], ◌∷◌, ◌++◌, none, some, ◌≡◌, refl, ap, arith, is_empty, is_some,
}
use deadline_knapp_verparsed.Runtime.{World, CStr, realloc}
use deadline_knapp_verparsed.Runtime.Ensures.{
  Steady, Ensures, holds, ensures, Ensures-bind, Obtains, Updates, held, free-Ensures,
}
use deadline_knapp_verparsed.Configfile.Data.{
  Directive, Block, Blocks, block, nil, cons, append_block,
}
use deadline_knapp_verparsed.Configfile.DirectiveOps.{config_realloc_array}
use deadline_knapp_verparsed.Configfile.BlockOps.{
  config_block_create, free_directives, free_array, has_blocks, free_block, free_blocks,
  config_block_free, config_block_add_arg, config_block_add_directive, config_block_add_subblock,
}
use deadline_knapp_verparsed.Configfile.Memory.{
  size_string, size_args, size_directive, free_args-Ensures, append_arg-Ensures, Ensures-stores,
  config_directive_free-Ensures,
}

-- The allocations that belong to a list of directives, and to a block.
abbrev pub size_directives : List Directive → ℕ
size_directives [] = 0
size_directives (d ∷ ds) = size_directive d + size_directives ds

abbrev pub size_array {ℓ} : {A : Type ℓ} → List A → ℕ
size_array items = held (not (is_empty items))

abbrev mutual
  pub size_block : Block → ℕ
  size_block (block name args directives subblocks) =
      1
      + size_string name
      + size_args args
      + (size_array directives + size_directives directives)
      + (held (has_blocks subblocks) + size_blocks subblocks)

  pub size_blocks : Blocks → ℕ
  size_blocks nil = 0
  size_blocks (cons b bs) = size_block b + size_blocks bs

size_directives-append :
    (xs ys : List Directive) → size_directives (xs ++ ys) ≡ size_directives xs + size_directives ys
size_directives-append [] ys = omega arith
size_directives-append (x ∷ xs) ys = omega (arith, size_directives-append xs ys)

size_blocks-append :
    (bs : Blocks) (b : Block) → size_blocks (append_block bs b) ≡ size_blocks bs + size_block b
size_blocks-append nil b = omega arith
size_blocks-append (cons a bs) b = omega (arith, size_blocks-append bs b)

-- The blocks of the first list, and then those of the second.
abbrev pub append_blocks : Blocks → Blocks → Blocks
append_blocks nil cs = cs
append_blocks (cons b bs) cs = cons b (append_blocks bs cs)

pub append_blocks-nil : (bs : Blocks) → append_blocks bs nil ≡ bs
append_blocks-nil nil = refl
append_blocks-nil (cons b bs) = ap (cons b) (append_blocks-nil bs)

pub append_blocks-append_block :
    (bs cs : Blocks) (b : Block)
    → append_blocks (append_block bs b) cs ≡ append_blocks bs (cons b cs)
append_blocks-append_block nil cs b = refl
append_blocks-append_block (cons a bs) cs b = ap (cons a) (append_blocks-append_block bs cs b)

module _ {w₀ : World} where
  pub config_block_create-Ensures :
      (c : CStr) (n : ℕ) {w : World}
      → Steady w₀ w
      → w.live ≡ n
      → Ensures w₀ (Obtains w₀ size_block n (block c [] [] nil)) (config_block_create c w)
  unfolding config_block_create
  config_block_create-Ensures none n s e = ensures _ (ground (arith, s.plentiful))
  config_block_create-Ensures (some t) n s e = ensures _ (ground (arith, s.plentiful))

  free_directives-Ensures :
      (ds : List Directive) (n : ℕ) {w : World}
      → Steady w₀ w
      → w.live ≡ n + size_directives ds
      → Ensures w₀ (λ _ w'. w'.live ≡ n) (free_directives ds w)
  unfolding free_directives
  free_directives-Ensures [] n s e = holds s (omega arith)
  free_directives-Ensures (d ∷ ds) n s e =
      Ensures-bind (config_directive_free-Ensures d (n + size_directives ds) s (omega arith))
        λ _ w₁ s₁ e₁. free_directives-Ensures ds n s₁ e₁

  pub free_array-Ensures {ℓ} :
      {A : Type ℓ} (items : List A) (n : ℕ) {w : World}
      → Steady w₀ w
      → w.live ≡ n + size_array items
      → Ensures w₀ (λ _ w'. w'.live ≡ n) (free_array items w)
  unfolding free_array
  free_array-Ensures items n s e = free-Ensures n (not (is_empty items)) s e

  mutual
    unfolding free_block

    free_block-Ensures :
        (b : Block) (n : ℕ) {w : World}
        → Steady w₀ w
        → w.live ≡ n + size_block b
        → Ensures w₀ (λ _ w'. w'.live ≡ n) (free_block b w)
    free_block-Ensures (block name args ds bs) n s e =
        Ensures-bind
          (free-Ensures
            (n
              + 1
              + size_args args
              + (size_array ds + size_directives ds)
              + (held (has_blocks bs) + size_blocks bs))
            (is_some name) s (omega arith))
          λ _ w₁ s₁ e₁.
            Ensures-bind
              (free_args-Ensures args
                (n
                  + 1
                  + (size_array ds + size_directives ds)
                  + (held (has_blocks bs) + size_blocks bs))
                s₁ (omega arith))
              λ _ w₂ s₂ e₂.
                Ensures-bind
                  (free_directives-Ensures ds
                    (n + 1 + size_array ds + (held (has_blocks bs) + size_blocks bs)) s₂
                    (omega arith))
                  λ _ w₃ s₃ e₃.
                    Ensures-bind
                      (free_array-Ensures ds (n + 1 + (held (has_blocks bs) + size_blocks bs)) s₃
                        (omega arith))
                      λ _ w₄ s₄ e₄.
                        Ensures-bind
                          (free_blocks-Ensures bs (n + 1 + held (has_blocks bs)) s₄ (omega arith))
                          λ _ w₅ s₅ e₅.
                            Ensures-bind (free-Ensures (n + 1) (has_blocks bs) s₅ (omega arith))
                              λ _ w₆ s₆ e₆. free-Ensures n true s₆ e₆

    free_blocks-Ensures :
        (bs : Blocks) (n : ℕ) {w : World}
        → Steady w₀ w
        → w.live ≡ n + size_blocks bs
        → Ensures w₀ (λ _ w'. w'.live ≡ n) (free_blocks bs w)
    free_blocks-Ensures nil n s e = holds s (omega arith)
    free_blocks-Ensures (cons b bs) n s e =
        Ensures-bind (free_block-Ensures b (n + size_blocks bs) s (omega arith))
          λ _ w₁ s₁ e₁. free_blocks-Ensures bs n s₁ e₁

  -- Freeing a block, with everything in it at any depth, gives back exactly the allocations that
  -- belong to it, and never frees more than is allocated.
  pub config_block_free-Ensures :
      (b : Block) (n : ℕ) {w : World}
      → Steady w₀ w
      → w.live ≡ n + size_block b
      → Ensures w₀ (λ _ w'. w'.live ≡ n) (config_block_free (some b) w)
  unfolding config_block_free
  config_block_free-Ensures b n s e = free_block-Ensures b n s e

  -- Adding an argument to a block, for every allocator: it is put behind the other ones, with the
  -- allocations of its copy; or, only after a refused request, the block is as before and nothing
  -- is left over, or the run faults.
  pub config_block_add_arg-Ensures :
      (name : CStr) (args : List CStr) (ds : List Directive) (bs : Blocks) (a : CStr) (n : ℕ)
      {w : World}
      → Steady w₀ w
      → w.live ≡ n + size_block (block name args ds bs)
      → Ensures w₀
          (Updates w₀ size_block n 0 (block name args ds bs) (block name (args ++ a ∷ []) ds bs))
          (config_block_add_arg (some (block name args ds bs)) a w)
  unfolding config_block_add_arg
  config_block_add_arg-Ensures name args ds bs a n s e =
      Ensures-stores (n + (size_block (block name args ds bs) - size_args args)) args a _
        (append_arg-Ensures args a _ s (omega arith))
        (λ w' s' starved e'. holds s' (starved, refl, omega arith))
        (λ w' s' e'. holds s' (refl, omega arith))

  pub config_block_add_directive-Ensures :
      (name : CStr) (args : List CStr) (ds : List Directive) (bs : Blocks) (d : Directive) (n : ℕ)
      {w : World}
      → Steady w₀ w
      → w.live ≡ n + size_block (block name args ds bs) + size_directive d
      → Ensures w₀
          (Updates w₀ size_block n
            (size_directive d)
            (block name args ds bs)
            (block name args (ds ++ d ∷ []) bs))
          (config_block_add_directive (some (block name args ds bs)) (some d) w)
  unfolding config_block_add_directive config_realloc_array realloc
  config_block_add_directive-Ensures name args [] bs d n s e =
      ensures _ (ground (arith, s.plentiful))
  config_block_add_directive-Ensures name args (d' ∷ ds) bs d n s e =
      ensures _ (ground (arith, s.plentiful, size_directives-append ds (d ∷ [])))

  pub config_block_add_subblock-Ensures :
      (name : CStr) (args : List CStr) (ds : List Directive) (bs : Blocks) (sub : Block) (n : ℕ)
      {w : World}
      → Steady w₀ w
      → w.live ≡ n + size_block (block name args ds bs) + size_block sub
      → Ensures w₀
          (Updates w₀ size_block n
            (size_block sub)
            (block name args ds bs)
            (block name args ds (append_block bs sub)))
          (config_block_add_subblock (some (block name args ds bs)) (some sub) w)
  unfolding config_block_add_subblock realloc
  config_block_add_subblock-Ensures name args ds nil sub n s e =
      ensures _ (ground (arith, s.plentiful))
  config_block_add_subblock-Ensures name args ds (cons b bs) sub n s e =
      ensures _ (ground (arith, s.plentiful, size_blocks-append bs sub))
