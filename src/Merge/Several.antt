-- ===== src/Merge/Several.antt =====
-- configloader/configfile_merge.c: `config_merge_n` and `_config_merge_multi`, for every allocator.
use mathlib.Core.Option
use deadline_knapp_verparsed.Base.{ℕ, ◌+◌, List, [], ◌∷◌, Option, none, some, ◌≡◌, refl, inl, inr}
use deadline_knapp_verparsed.Runtime.{World, Outcome, arg, up_to_null}
use deadline_knapp_verparsed.Runtime.Ensures.{
  Steady, Steady-refl, Ensures, holds, Ensures-bind, Ensures-obtain,
}
use deadline_knapp_verparsed.Logger.{log_debug}
use deadline_knapp_verparsed.Configfile.{Block, block, config_block_copy}
use deadline_knapp_verparsed.Configfile.BlockMemory.{size_block}
use deadline_knapp_verparsed.Configfile.BlockCopy.{config_block_copy-Ensures}
use deadline_knapp_verparsed.Configfile.Present.{BlockPresent}
use deadline_knapp_verparsed.Merge.{
  Merged, no_error, duplicate_partial_directive, out_of_memory, merge_other, merge_all, on_merged,
  config_merge_n, config_merge_multi,
}
use deadline_knapp_verparsed.Merge.Union.{union_other, union_all, union_list}
use deadline_knapp_verparsed.Merge.Correct.{MergesInto, log-Ensures}
use deadline_knapp_verparsed.Merge.Lifetime.{MergesTo, after_error, merge_into-Ensures}

-- No block in the array has a NULL string; a block itself may be NULL.
abbrev pub EachPresent : List (Option Block) → Type 0
EachPresent [] = Unit
EachPresent (none ∷ blocks) = EachPresent blocks
EachPresent (some b ∷ blocks) = BlockPresent b × EachPresent blocks

abbrev FirstPresent : Option Block → Type 0
FirstPresent none = Unit
FirstPresent (some b) = BlockPresent b

first :
    (b : Option Block) (blocks : List (Option Block)) → EachPresent (b ∷ blocks) → FirstPresent b
first none blocks h = tt
first (some b) blocks h = h.0

others :
    (b : Option Block) (blocks : List (Option Block))
    → EachPresent (b ∷ blocks)
    → EachPresent blocks
others none blocks h = h
others (some b) blocks h = h.1

module _ {w₀ : World} where
  merge_other-Ensures :
      (other : Option Block) (into : Block) (n : ℕ) {w : World}
      → FirstPresent other
      → BlockPresent into
      → Steady w₀ w
      → w.live ≡ n + size_block into
      → Ensures w₀ (MergesInto w₀ n (union_other other into)) (merge_other other (some into) w)
  unfolding merge_other log_debug union_other
  merge_other-Ensures (some b) into n h k s e = merge_into-Ensures b into n h k s e
  merge_other-Ensures none (block name args ds bs) n h k s e =
      Ensures-bind
        (log-Ensures 1 (arg name ∷ []) (n + size_block (block name args ds bs)) (k.0, tt) s e)
        λ _ w₁ s₁ e₁. holds s₁ (e₁, k, refl)

  on_merged-Ensures :
      (u : Option Block) (g : Block → Option Block) (m : Merged)
      (next : Option Block → World → Outcome (Option Block)) {w : World}
      → Steady w₀ w
      → MergesInto w₀ w₀.live u m w
      → ((b : Block)
          → w.live ≡ w₀.live + size_block b
          → BlockPresent b
          → Ensures w₀ (MergesTo w₀ (g b)) (next (some b) w))
      → Ensures w₀ (MergesTo w₀ (Option.bind u g)) (on_merged m next w)
  unfolding on_merged Option.bind
  on_merged-Ensures u g (err, none) next s p k = absurd p
  on_merged-Ensures u g (no_error, some b) next s p k = rw p.2 (k b p.0 p.1)
  on_merged-Ensures u g (duplicate_partial_directive, some b) next s p k =
      after_error w₀ _ b (inl (rw p.2 refl)) s p.0
  on_merged-Ensures u g (out_of_memory, some b) next s p k = after_error w₀ _ b (inr p.2) s p.0

  merge_all-MergesTo :
      (blocks : List (Option Block)) (into : Block) {w : World}
      → EachPresent blocks
      → BlockPresent into
      → Steady w₀ w
      → w.live ≡ w₀.live + size_block into
      → Ensures w₀ (MergesTo w₀ (union_all blocks into)) (merge_all blocks (some into) w)
  unfolding merge_all union_all
  merge_all-MergesTo [] into h k s e = holds s (e, k, refl)
  merge_all-MergesTo (b ∷ blocks) into h k s e =
      Ensures-bind (merge_other-Ensures b into w₀.live (first b blocks h) k s e) λ m w₁ s₁ p.
        on_merged-Ensures (union_other b into) (union_all blocks) m _ s₁ p
          λ into' e' k'. merge_all-MergesTo blocks into' (others b blocks h) k' s₁ e'

-- Merging any number of blocks, none of which has a NULL string, ends for every allocator, and
-- faults only after a refused request. A block that it returns is the union of all of them, from
-- the first to the last, and owns exactly what was newly allocated. It returns NULL only where
-- that union does not exist, or after a refused request, and then nothing that it has allocated is
-- left.
pub config_merge_n-MergesTo :
    (blocks : List (Option Block)) (w₀ : World)
    → EachPresent blocks
    → Ensures w₀ (MergesTo w₀ (union_list blocks)) (config_merge_n blocks w₀)
unfolding config_merge_n config_block_copy union_list
config_merge_n-MergesTo [] w₀ h = holds (Steady-refl w₀) (refl, inl refl)
config_merge_n-MergesTo (none ∷ blocks) w₀ h = holds (Steady-refl w₀) (refl, inl refl)
config_merge_n-MergesTo (some b ∷ blocks) w₀ h =
    Ensures-obtain size_block w₀.live _ (config_block_copy-Ensures b w₀.live (Steady-refl w₀) refl)
      (λ w₁ s₁ starved e₁. holds s₁ (e₁, inr starved))
      (λ w₁ s₁ e₁. merge_all-MergesTo blocks b h.1 h.0 s₁ e₁)

up_to_null-EachPresent :
    (blocks : List (Option Block)) → EachPresent blocks → EachPresent (up_to_null blocks)
up_to_null-EachPresent [] h = tt
up_to_null-EachPresent (none ∷ blocks) h = tt
up_to_null-EachPresent (some b ∷ blocks) h = (h.0, up_to_null-EachPresent blocks h.1)

-- Merging blocks by `_config_merge_multi`, none of which has a NULL string, ends for every
-- allocator, and faults only after a refused request. A block that it returns is the union of the
-- arguments in front of the first NULL, and owns exactly what was newly allocated. It returns NULL
-- only where that union does not exist, or after a refused request, and then nothing that it has
-- allocated is left.
pub config_merge_multi-MergesTo :
    (b : Option Block) (blocks : List (Option Block)) (w₀ : World)
    → EachPresent (b ∷ blocks)
    → Ensures w₀ (MergesTo w₀ (union_list (b ∷ up_to_null blocks))) (config_merge_multi b blocks w₀)
unfolding config_merge_multi config_block_copy union_list
config_merge_multi-MergesTo none blocks w₀ h = holds (Steady-refl w₀) (refl, inl refl)
config_merge_multi-MergesTo (some b) blocks w₀ h =
    Ensures-obtain size_block w₀.live _ (config_block_copy-Ensures b w₀.live (Steady-refl w₀) refl)
      (λ w₁ s₁ starved e₁. holds s₁ (e₁, inr starved))
      (λ w₁ s₁ e₁.
        merge_all-MergesTo (up_to_null blocks) b (up_to_null-EachPresent blocks h.1) h.0 s₁ e₁)
