-- ===== src/Main/Correct.antt =====
-- configloader/main.c: `merge_config_files` from the input streams to the written text.
use deadline_knapp_verparsed.Base.{
  ℕ, ◌+◌, ◌<◌, true, List, [], ◌∷◌, ◌++◌, append-nil, length, Option, none, some, Bytes, ◌≡◌, refl,
  sym, ap, ◌∙◌, ◌⊎◌, inl, inr, subst, arith,
}
use deadline_knapp_verparsed.Runtime.{World, bind, free}
use deadline_knapp_verparsed.Runtime.Ensures.{
  Plentiful, all_granted_same, Steady, Steady-refl, malloc-Ensures, free-Ensures,
}
use deadline_knapp_verparsed.Runtime.Ends.{
  Ends, returns, Ends-bind, Ends-from, Ends-granted, Ends-option, Ensures-part,
}
use deadline_knapp_verparsed.Configfile.{Block}
use deadline_knapp_verparsed.Configfile.BlockMemory.{size_block, config_block_free-Ensures}
use deadline_knapp_verparsed.Configfile.Present.{BlockPresent}
use deadline_knapp_verparsed.Parser.Correct.{IsConfig}
use deadline_knapp_verparsed.Serializer.Render.{render, echoes, block_names}
use deadline_knapp_verparsed.Serializer.Correct.{config_serialize-Returns}
use deadline_knapp_verparsed.Merge.Union.{union_list}
use deadline_knapp_verparsed.Merge.Lifetime.{MergesTo}
use deadline_knapp_verparsed.Merge.Several.{EachPresent}
use deadline_knapp_verparsed.Main.Merging.{
  Error, no_err, invalid_args_err, deserialize_err, merge_err, oo_memory_err, pointers, free_loaded,
  merge_config_blocks, write_merged, merge_config_files,
}
use deadline_knapp_verparsed.Main.Load.{
  AreConfigs, SomeUnreadable, size_loaded, free_loaded-Ensures, load_blocks-Loads,
  merge_config_blocks-MergesTo,
}

-- No block that an input stands for has a NULL string.
abbrev pub Clean : List Bytes → Type 0
Clean [] = Unit
Clean (s ∷ inputs) = ((b : Block) → IsConfig s b → BlockPresent b) × Clean inputs

-- The blocks of the inputs have this union.
abbrev pub UnionOf : List Bytes → Option Block → Type 0
UnionOf inputs u =
    (blocks : List Block) × AreConfigs inputs blocks × (union_list (pointers blocks) ≡ u)

-- What `merge_config_files` returns and has written.
abbrev pub Verdict : World → List Bytes → Error → World → Type 0
Verdict w₀ inputs no_err w = (b : Block) × UnionOf inputs (some b) × (w.out ≡ w₀.out ++ render b)
Verdict w₀ inputs deserialize_err w =
    ((¬ (Plentiful w₀)) ⊎ SomeUnreadable inputs) × (w.out ≡ w₀.out)
Verdict w₀ inputs merge_err w = ((¬ (Plentiful w₀)) ⊎ UnionOf inputs none) × (w.out ≡ w₀.out)
Verdict w₀ inputs oo_memory_err w = (¬ (Plentiful w₀)) × (w.out ≡ w₀.out)
Verdict w₀ inputs invalid_args_err w = (inputs ≡ []) × (w.out ≡ w₀.out)
Verdict w₀ inputs _ w = ⊥

abbrev pub MergesFiles : World → List Bytes → Error → World → Type 0
MergesFiles w₀ inputs err w =
    Verdict w₀ inputs err w × (w.live ≡ w₀.live) × (0 < w₀.visibility → w.commands ≡ w₀.commands)

AreConfigs-EachPresent :
    (inputs : List Bytes) (blocks : List Block)
    → Clean inputs
    → AreConfigs inputs blocks
    → EachPresent (pointers blocks)
AreConfigs-EachPresent [] [] c h = tt
AreConfigs-EachPresent [] (b ∷ blocks) c h = absurd h
AreConfigs-EachPresent (s ∷ inputs) [] c h = tt
AreConfigs-EachPresent (s ∷ inputs) (b ∷ blocks) c h =
    (c.0 b h.0, AreConfigs-EachPresent inputs blocks c.1 h.1)

-- What is merged.
abbrev Merges : World → Option Block → Option Block → Type 0
Merges w₀ u none = (u ≡ none) ⊎ ¬ (Plentiful w₀)
Merges w₀ u (some b) = BlockPresent b × (u ≡ some b)

abbrev size_merged : Option Block → ℕ
size_merged none = 0
size_merged (some b) = size_block b

from_MergesTo :
    {w₀ w₁ : World} (u o : Option Block) (w : World)
    → Steady w₀ w₁
    → MergesTo w₁ u o w
    → (w.live ≡ w₁.live + size_merged o) × Merges w₀ u o
from_MergesTo u none w s (e, why) = (
  omega (arith, e),
  elim why [ inl no_union ↦ inl no_union | inr starved ↦ inr (λ h. starved (s.plentiful h)) ],
)
from_MergesTo u (some b) w s (e, present, same) = (e, (present, same))

echoes-quiet : (level : ℕ) (names : List Bytes) → 0 < level → echoes level names ≡ []
unfolding echoes
echoes-quiet level [] h = refl
echoes-quiet level (name ∷ names) h = ground (arith, echoes-quiet level names h)

module _ {w₀ : World} (inputs : List Bytes) where
  write_merged-MergesFiles :
      (u o : Option Block) {w : World}
      → UnionOf inputs u
      → Merges w₀ u o
      → Steady w₀ w
      → w.live ≡ w₀.live + size_merged o
      → Ends w₀ (MergesFiles w₀ inputs) (write_merged o w)
  unfolding write_merged
  write_merged-MergesFiles u none d why s e = returns (
    (elim why [ inl same ↦ inr (rw same at d) | inr starved ↦ inl starved ], s.out_same),
    omega (arith, e),
    s.commands_same,
  )
  write_merged-MergesFiles u (some b) {w} d (present, same) s e =
      let (w₁, run, out, commands, live, answers, visibility) =
        config_serialize-Returns b w present in
      rw run (
        Ends-from (λ p. all_granted_same answers (s.plentiful p))
          (config_block_free-Ensures b w₀.live (Steady-refl w₁) (live ∙ e))
          λ _ w₂ s₂ e₂. returns (
            (b, rw same at d, s₂.out_same ∙ out ∙ ap (λ t. t ++ render b) s.out_same),
            e₂,
            λ h.
                s₂.commands_same (rw (visibility, s.visibility_same) h)
                ∙ commands
                ∙ ap (λ cs. w.commands ++ cs)
                    (echoes-quiet w.visibility (block_names b) (rw s.visibility_same h))
                ∙ append-nil w.commands
                ∙ s.commands_same h,
          ))

  merge_loaded-MergesFiles :
      (blocks : List Block) {w : World}
      → Clean inputs
      → AreConfigs inputs blocks
      → Steady w₀ w
      → w.live ≡ w₀.live + 1 + size_loaded blocks
      → Ends w₀ (MergesFiles w₀ inputs) (
          bind (merge_config_blocks blocks w) λ out w₁.
            bind (free_loaded blocks w₁) λ _ w₂. bind (free true w₂) λ _ w₃. write_merged out w₃)
  merge_loaded-MergesFiles blocks {w} clean configs s e =
      let u = union_list (pointers blocks) in
      Ends-bind
        (Ensures-part s
          (merge_config_blocks-MergesTo blocks w
            (AreConfigs-EachPresent inputs blocks clean configs))
          (λ o w' p. from_MergesTo u o w' s p))
        λ o w₁ s₁ p.
          Ends-bind
            (free_loaded-Ensures blocks (w₀.live + size_merged o + 1) s₁ (omega (arith, p.0, e)))
            λ _ w₂ s₂ e₂.
              Ends-bind (free-Ensures (w₀.live + size_merged o) true s₂ e₂)
                λ _ w₃ s₃ e₃. write_merged-MergesFiles u o (blocks, configs, refl) p.1 s₃ e₃

-- What a call that is given every input stream returns and writes, for every allocator, if no
-- input stands for a block with a NULL string. It ends, and faults only after a refused request.
-- It returns 0 with the text of the union of all blocks written; DESERIALIZE_ERR only where an
-- input is no configuration, MERGE_ERR only where the blocks have no union, or each after a refused
-- request; OO_MEMORY_ERR only after a refused request; INVALID_ARGS_ERR without an input; and no
-- other value. In every case nothing stays allocated; after an error nothing is written; and while
-- messages of level INFO are off, no command goes to the shell.
pub merge_config_files-MergesFiles :
    (inputs : List Bytes) (w₀ : World)
    → Clean inputs
    → Ends w₀ (MergesFiles w₀ inputs) (merge_config_files (length inputs) (some inputs) w₀)
unfolding merge_config_files
merge_config_files-MergesFiles [] w₀ clean = returns ((refl, refl), refl, λ h. refl)
merge_config_files-MergesFiles (t ∷ rest) w₀ clean =
    let inputs = t ∷ rest in
    Ends-granted w₀.live 1 _ (malloc-Ensures (Steady-refl w₀) refl)
      (λ w₁ s₁ starved e₁. returns ((starved, s₁.out_same), e₁, s₁.commands_same))
      (λ w₁ s₁ e₁.
        Ends-option _ (load_blocks-Loads inputs [] w₀.live s₁ (omega (arith, e₁)))
          (λ w₂ s₂ p. returns ((p.1, s₂.out_same), p.0, s₂.commands_same))
          (λ blocks w₂ s₂ p.
            merge_loaded-MergesFiles inputs blocks clean
              (subst (AreConfigs inputs) (sym p.1.1) p.1.2) s₂ p.0))
