-- ===== src/Main/Load.antt =====
-- configloader/main.c: loading, merging and freeing the blocks.
use deadline_knapp_verparsed.Base.{
  ℕ, ◌+◌, true, List, [], ◌∷◌, ◌++◌, append_assoc, append-nil, Option, none, some, Bytes, ◌≡◌, refl,
  sym, ap, ◌∙◌, subst, ◌⊎◌, inl, inr, arith,
}
use mathlib.Core.Option
use deadline_knapp_verparsed.Runtime.{World, Outcome, done, bind, free}
use deadline_knapp_verparsed.Runtime.Ensures.{
  Plentiful, Steady, Steady-refl, Ensures, holds, faulted, Ensures-bind, Ensures-map, free-Ensures,
  Obtains,
}
use deadline_knapp_verparsed.Runtime.Ends.{Steady-trans}
use deadline_knapp_verparsed.Configfile.{Block}
use deadline_knapp_verparsed.Configfile.BlockCopy.{config_block_copy-Ensures}
use deadline_knapp_verparsed.Configfile.BlockMemory.{size_block, config_block_free-Ensures}
use deadline_knapp_verparsed.Configfile.Present.{BlockPresent}
use deadline_knapp_verparsed.Parser.Correct.{
  IsConfig, Deserializes, config_deserialize-Deserializes,
}
use deadline_knapp_verparsed.Merge.Union.{union, union_other, union_all, union_list}
use deadline_knapp_verparsed.Merge.Lifetime.{MergesTo, config_merge-MergesTo}
use deadline_knapp_verparsed.Merge.Several.{EachPresent, config_merge_n-MergesTo}
use deadline_knapp_verparsed.Main.Merging.{pointers, merge_config_blocks, free_loaded, load_blocks}
use deadline_knapp_verparsed.Parser.{config_deserialize}

-- The blocks are those of the inputs, in order.
abbrev pub AreConfigs : List Bytes → List Block → Type 0
AreConfigs [] [] = Unit
AreConfigs [] (b ∷ blocks) = ⊥
AreConfigs (s ∷ inputs) [] = ⊥
AreConfigs (s ∷ inputs) (b ∷ blocks) = IsConfig s b × AreConfigs inputs blocks

-- One of the inputs is no configuration.
abbrev pub SomeUnreadable : List Bytes → Type 0
SomeUnreadable [] = ⊥
SomeUnreadable (s ∷ inputs) = ((b : Block) → IsConfig s b → ⊥) ⊎ SomeUnreadable inputs

abbrev pub size_loaded : List Block → ℕ
size_loaded [] = 0
size_loaded (b ∷ blocks) = size_block b + size_loaded blocks

size_loaded-append :
    (blocks : List Block) (b : Block)
    → size_loaded (blocks ++ b ∷ []) ≡ size_loaded blocks + size_block b
size_loaded-append [] b = omega arith
size_loaded-append (c ∷ blocks) b = omega (arith, size_loaded-append blocks b)

-- What the loop over the inputs that are left returns.
abbrev pub Loads : World → ℕ → List Bytes → List Block → Option (List Block) → World → Type 0
Loads w₀ n inputs blocks none w = (w.live ≡ n) × ((¬ (Plentiful w₀)) ⊎ SomeUnreadable inputs)
Loads w₀ n inputs blocks (some all) w =
    (w.live ≡ n + 1 + size_loaded all)
    × ((more : List Block) × (all ≡ blocks ++ more) × AreConfigs inputs more)

Loads-cons :
    (w₀ : World) (n : ℕ) (t : Bytes) (inputs : List Bytes) (blocks : List Block) (b : Block)
    → IsConfig t b
    → (o : Option (List Block)) (w : World) → Loads w₀ n inputs (blocks ++ b ∷ []) o w
    → Loads w₀ n (t ∷ inputs) blocks o w
Loads-cons w₀ n t inputs blocks b d none w (l, why) =
    (l, elim why [ inl starved ↦ inl starved | inr bad ↦ inr (inr bad) ])
Loads-cons w₀ n t inputs blocks b d (some all) w (l, (more, same, configs)) =
    (l, (b ∷ more, same ∙ append_assoc blocks (b ∷ []) more, (d, configs)))

module _ {w₀ : World} where
  pub free_loaded-Ensures :
      (blocks : List Block) (n : ℕ) {w : World}
      → Steady w₀ w
      → w.live ≡ n + size_loaded blocks
      → Ensures w₀ (λ _ w'. w'.live ≡ n) (free_loaded blocks w)
  unfolding free_loaded
  free_loaded-Ensures [] n s e = holds s (omega (arith, e))
  free_loaded-Ensures (b ∷ blocks) n s e =
      Ensures-bind (config_block_free-Ensures b (n + size_loaded blocks) s (omega (arith, e)))
        λ _ w₁ s₁ e₁. free_loaded-Ensures blocks n s₁ e₁

  -- The blocks and their array.
  pub free_array-Ensures :
      {A : Type 0} (a : A) {P : A → World → Type 0} (blocks : List Block) (n : ℕ) {w : World}
      → Steady w₀ w
      → w.live ≡ n + 1 + size_loaded blocks
      → ((w' : World) → Steady w₀ w' → w'.live ≡ n → P a w')
      → Ensures w₀ P (bind (free_loaded blocks w) λ _ w₁. bind (free true w₁) λ _ w₂. done a w₂)
  free_array-Ensures a blocks n s e after =
      Ensures-bind (free_loaded-Ensures blocks (n + 1) s e) λ _ w₁ s₁ e₁.
        Ensures-bind (free-Ensures n true s₁ e₁) λ _ w₂ s₂ e₂. holds s₂ (after w₂ s₂ e₂)

  -- One input: its block, or NULL.
  Ensures-loaded :
      {B : Type 0} {Q : B → World → Type 0} (t : Bytes) (n : ℕ)
      (f : Option Block → World → Outcome B) {w : World}
      → Steady w₀ w
      → w.live ≡ n
      → ((w' : World)
          → Steady w₀ w'
          → w'.live ≡ n
          → (¬ (Plentiful w₀)) ⊎ ((b : Block) → IsConfig t b → ⊥)
          → Ensures w₀ Q (f none w'))
      → ((b : Block) (w' : World)
          → Steady w₀ w'
          → w'.live ≡ n + size_block b
          → IsConfig t b
          → Ensures w₀ Q (f (some b) w'))
      → Ensures w₀ Q (bind (config_deserialize (some t) w) f)
  Ensures-loaded {Q} t n f {w} s e on_null on_block = from (config_deserialize-Deserializes t w)
    where
      from :
          {r : Outcome (Option Block)}
          → Ensures w (Deserializes w w.live t) r
          → Ensures w₀ Q (bind r f)
      from (holds {a = none} s' p) =
          on_null _ (Steady-trans s s') (p.0 ∙ e)
            (elim p.1 [ inl starved ↦ inl (λ h. starved (s.plentiful h)) | inr bad ↦ inr bad ])
      from (holds {a = some b} s' p) =
          on_block b _ (Steady-trans s s') (p.0 ∙ ap (λ k. k + size_block b) e) p.1
      from (faulted h) = faulted λ q. h (s.plentiful q)

  pub load_blocks-Loads :
      (inputs : List Bytes) (blocks : List Block) (n : ℕ) {w : World}
      → Steady w₀ w
      → w.live ≡ n + 1 + size_loaded blocks
      → Ensures w₀ (Loads w₀ n inputs blocks) (load_blocks inputs blocks w)
  unfolding load_blocks
  load_blocks-Loads [] blocks n s e = holds s (e, ([], sym (append-nil blocks), tt))
  load_blocks-Loads (t ∷ inputs) blocks n s e =
      Ensures-loaded t (n + 1 + size_loaded blocks) _ s e
        (λ w₁ s₁ e₁ why.
          free_array-Ensures none blocks n s₁ e₁
            λ w₂ s₂ e₂. (e₂, elim why [ inl starved ↦ inl starved | inr bad ↦ inr (inl bad) ]))
        (λ b w₁ s₁ e₁ d.
          Ensures-map
            (load_blocks-Loads inputs (blocks ++ b ∷ []) n s₁
              (omega (arith, e₁, size_loaded-append blocks b)))
            λ o w₂ p. Loads-cons w₀ n t inputs blocks b d o w₂ p)

bind-some : (o : Option Block) → o ≡ Option.bind o some
unfolding Option.bind
bind-some none = refl
bind-some (some b) = refl

-- The three ways of `merge_config_blocks`.
pub merge_config_blocks-MergesTo :
    (blocks : List Block) (w : World)
    → EachPresent (pointers blocks)
    → Ensures w (MergesTo w (union_list (pointers blocks))) (merge_config_blocks blocks w)
unfolding merge_config_blocks union_list union_all union_other Option.bind
merge_config_blocks-MergesTo [] w h = holds (Steady-refl w) (refl, inl refl)
merge_config_blocks-MergesTo (b ∷ []) w h =
    Ensures-map (config_block_copy-Ensures b w.live (Steady-refl w) refl) copied
  where
    copied :
        (o : Option Block) (w' : World)
        → Obtains w size_block w.live b o w'
        → MergesTo w (some b) o w'
    copied none w' (starved, e) = (e, inr starved)
    copied (some c) w' (same, e) = (
      e ∙ ap (λ d. w.live + size_block d) (sym same),
      subst BlockPresent (sym same) h.0,
      ap some (sym same),
    )
merge_config_blocks-MergesTo (b ∷ c ∷ []) w h =
    subst (λ u. Ensures w (MergesTo w u) (merge_config_blocks (b ∷ c ∷ []) w))
      (bind-some (union c b)) (config_merge-MergesTo b c w h.0 h.1.0)
merge_config_blocks-MergesTo (b ∷ c ∷ d ∷ blocks) w h =
    config_merge_n-MergesTo (pointers (b ∷ c ∷ d ∷ blocks)) w h
