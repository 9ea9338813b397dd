-- ===== src/Easy/Correct.antt =====
-- configloader/configfile_easy.c: what the functions build, for every allocator.
use deadline_knapp_verparsed.Base.{
  ℕ, ◌+◌, List, [], ◌∷◌, ◌++◌, Option, none, some, append_assoc, append-nil, ◌≡◌, refl, arith,
}
use deadline_knapp_verparsed.Runtime.{
  World, CStr, Outcome, done, fault, out_of_fuel, bind, up_to_null,
}
use deadline_knapp_verparsed.Runtime.Ensures.{Steady, Steady-refl, Ensures, holds, Ensures-update}
use deadline_knapp_verparsed.Configfile.{
  Directive, Block, Blocks, block, nil, append_block, config_block_create,
}
use deadline_knapp_verparsed.Configfile.Memory.{
  size_directive, config_directive_create-Ensures, config_directive_add_arg-Ensures,
}
use deadline_knapp_verparsed.Configfile.BlockMemory.{
  size_block, config_block_create-Ensures, config_block_add_arg-Ensures,
  config_block_add_directive-Ensures, config_block_add_subblock-Ensures,
}
use deadline_knapp_verparsed.Easy.{
  cfgf_easy_add_directive, add_directive_args, cfgf_easy_add_directive_args, add_subblock_args,
  cfgf_easy_add_subblock_args, cfgf_easy_add_subblock,
}
use deadline_knapp_verparsed.Runtime.Ends.{Ends, returns, Ends-obtain, Ends-update}
use deadline_knapp_verparsed.Easy.Endings.{
  Adds, Fills, Ends-fill, quietly, drop_directive, drop_subblock, report_drop_directive,
}

module _ {w₀ : World} where
  add_directive_args-Ensures :
      (more : List CStr) (d : Directive) (n : ℕ) {w : World}
      → Steady w₀ w
      → w.live ≡ n + size_directive d
      → Ensures w₀
          (Fills w₀ size_directive n (record d { args = d.args ++ more }))
          (add_directive_args more (some d) w)
  unfolding add_directive_args
  add_directive_args-Ensures [] d n s e = holds s (rw append-nil refl, rw append-nil e)
  add_directive_args-Ensures (a ∷ more) d n s e =
      Ensures-update size_directive n 0 d _ _ (config_directive_add_arg-Ensures d a n s e)
        (λ w₁ s₁ starved e₁. holds s₁ (starved, (d, refl, omega (arith, e₁))))
        (λ w₁ s₁ e₁.
          rw (append_assoc d.args (a ∷ []) more) at
            (add_directive_args-Ensures more (record d { args = d.args ++ a ∷ [] }) n s₁ e₁))

  add_subblock_args-Ensures :
      (more : List CStr) (name : CStr) (args : List CStr) (n : ℕ) {w : World}
      → Steady w₀ w
      → w.live ≡ n + size_block (block name args [] nil)
      → Ensures w₀
          (Fills w₀ size_block n (block name (args ++ more) [] nil))
          (add_subblock_args more (some (block name args [] nil)) w)
  unfolding add_subblock_args
  add_subblock_args-Ensures [] name args n s e = holds s (rw append-nil refl, rw append-nil e)
  add_subblock_args-Ensures (a ∷ more) name args n s e =
      Ensures-update size_block n 0 _ _ _ (config_block_add_arg-Ensures name args [] nil a n s e)
        (λ w₁ s₁ starved e₁. holds s₁ (starved, (block name args [] nil, refl, omega (arith, e₁))))
        (λ w₁ s₁ e₁.
          rw (append_assoc args (a ∷ []) more) at
            (add_subblock_args-Ensures more name (args ++ a ∷ []) n s₁ e₁))

-- Adding a directive by its name, for every allocator: the block ends with the new directive,
-- which is also returned, and the new allocations are those that the block now owns. Only after a
-- refused request NULL is returned, or the run faults; with NULL the block is as it was, nothing is
-- left over, and while messages of level INFO are off, at most the one message of the failure has
-- gone to the shell, with the name as it was given.
pub cfgf_easy_add_directive-Adds :
    (bname : CStr) (args : List CStr) (ds : List Directive) (bs : Blocks) (name : CStr) (n : ℕ)
    (w₀ : World)
    → w₀.live ≡ n + size_block (block bname args ds bs)
    → Ends w₀
        (Adds w₀ n name
          (record { name = name; args = [] })
          (block bname args ds bs)
          (block bname args (ds ++ record { name = name; args = [] } ∷ []) bs))
        (cfgf_easy_add_directive (some (block bname args ds bs)) name w₀)
unfolding cfgf_easy_add_directive
cfgf_easy_add_directive-Adds bname args ds bs name n w₀ e =
    let b = block bname args ds bs in
    let d : Directive = record { name = name; args = [] } in
    Ends-obtain size_directive (n + size_block b) _
      (config_directive_create-Ensures (n + size_block b) (Steady-refl w₀) name e)
      (λ w s starved e₁. returns (starved, refl, e₁, quietly name s))
      (λ w s e₁.
        Ends-update size_block n (size_directive d) _ _ _
          (config_block_add_directive-Ensures bname args ds bs d n s e₁)
          (λ w₁ s₁ starved e₂. report_drop_directive n name d b _ s₁ starved d e₂)
          (λ w₁ s₁ e₂. returns (s₁, refl, refl, e₂)))

-- Adding a directive with arguments, for every allocator: the block ends with the new directive,
-- with the arguments in front of the first NULL, and the new allocations are those that the block
-- now owns. Only after a refused request NULL is returned, or the run faults; with NULL the block
-- is as it was, nothing is left over, and while messages of level INFO are off, at most the one
-- message of the failure has gone to the shell, with the name as it was given.
pub cfgf_easy_add_directive_args-Adds :
    (bname : CStr) (args : List CStr) (ds : List Directive) (bs : Blocks) (name : CStr)
    (more : List CStr) (n : ℕ) (w₀ : World)
    → w₀.live ≡ n + size_block (block bname args ds bs)
    → Ends w₀
        (Adds w₀ n name
          (record { name = name; args = up_to_null more })
          (block bname args ds bs)
          (block bname args (ds ++ record { name = name; args = up_to_null more } ∷ []) bs))
        (cfgf_easy_add_directive_args (some (block bname args ds bs)) name more w₀)
unfolding cfgf_easy_add_directive_args
cfgf_easy_add_directive_args-Adds bname args ds bs name more n w₀ e =
    let b = block bname args ds bs in
    let d : Directive = record { name = name; args = up_to_null more } in
    Ends-obtain size_directive (n + size_block b) _
      (config_directive_create-Ensures (n + size_block b) (Steady-refl w₀) name e)
      (λ w s starved e₁. returns (starved, refl, e₁, quietly name s))
      (λ w s e₁.
        Ends-fill size_directive (n + size_block b) _
          (add_directive_args-Ensures (up_to_null more) (record { name = name; args = [] })
            (n + size_block b) s e₁)
          (λ partly w₁ s₁ starved e₂. report_drop_directive n name d b _ s₁ starved partly e₂)
          (λ w₁ s₁ e₂.
            Ends-update size_block n (size_directive d) _ _ _
              (config_block_add_directive-Ensures bname args ds bs d n s₁ e₂)
              (λ w₂ s₂ starved e₃. drop_directive n name d b _ s₂ starved d e₃)
              (λ w₂ s₂ e₃. returns (s₂, refl, refl, e₃))))

-- Adding a subblock with arguments, for every allocator: the block ends with the new subblock,
-- with the arguments in front of the first NULL, and the new allocations are those that the block
-- now owns. Only after a refused request NULL is returned, or the run faults; with NULL the block
-- is as it was and nothing is left over.
pub cfgf_easy_add_subblock_args-Adds :
    (bname : CStr) (args : List CStr) (ds : List Directive) (bs : Blocks) (name : CStr)
    (more : List CStr) (n : ℕ) (w₀ : World)
    → w₀.live ≡ n + size_block (block bname args ds bs)
    → Ends w₀
        (Adds w₀ n name
          (block name (up_to_null more) [] nil)
          (block bname args ds bs)
          (block bname args ds (append_block bs (block name (up_to_null more) [] nil))))
        (cfgf_easy_add_subblock_args (some (block bname args ds bs)) name more w₀)
unfolding cfgf_easy_add_subblock_args
cfgf_easy_add_subblock_args-Adds bname args ds bs name more n w₀ e =
    let b = block bname args ds bs in
    let sub = block name (up_to_null more) [] nil in
    Ends-obtain size_block (n + size_block b) _
      (config_block_create-Ensures name (n + size_block b) (Steady-refl w₀) e)
      (λ w s starved e₁. returns (starved, refl, e₁, quietly name s))
      (λ w s e₁.
        Ends-fill size_block (n + size_block b) _
          (add_subblock_args-Ensures (up_to_null more) name [] (n + size_block b) s e₁)
          (λ partly w₁ s₁ starved e₂. drop_subblock n name sub b _ s₁ starved partly e₂)
          (λ w₁ s₁ e₂.
            Ends-update size_block n (size_block sub) _ _ _
              (config_block_add_subblock-Ensures bname args ds bs sub n s₁ e₂)
              (λ w₂ s₂ starved e₃. drop_subblock n name sub b _ s₂ starved sub e₃)
              (λ w₂ s₂ e₃. returns (s₂, refl, refl, e₃))))

bind-ext :
    {A B : Type 0} (r : Outcome A) (f g : A → World → Outcome B)
    → ((a : A) (w : World) → f a w ≡ g a w)
    → bind r f ≡ bind r g
bind-ext (done a w) f g same = same a w
bind-ext fault f g same = refl
bind-ext out_of_fuel f g same = refl

-- Adding a subblock with an argument NULL first is adding it without arguments, in every world,
-- with every effect.
pub cfgf_easy_add_subblock_args-cfgf_easy_add_subblock :
    (b : Option Block) (name : CStr) (more : List CStr) (w : World)
    → cfgf_easy_add_subblock_args b name (none ∷ more) w ≡ cfgf_easy_add_subblock b name w
unfolding cfgf_easy_add_subblock_args cfgf_easy_add_subblock add_subblock_args
cfgf_easy_add_subblock_args-cfgf_easy_add_subblock none name more w = refl
cfgf_easy_add_subblock_args-cfgf_easy_add_subblock (some b) name more w =
    bind-ext (config_block_create name w) _ _ λ o w'. elim o [ none ↦ refl | some c ↦ refl ]
