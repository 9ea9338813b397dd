-- ===== src/Merge/Lifetime.antt =====
-- configloader/configfile_merge.c: `merge_into` and `config_merge`, for every allocator.
use mathlib.Core.Option
use deadline_knapp_verparsed.Base.{
  ℕ, ◌+◌, ◌-◌, List, [], ◌∷◌, Option, none, some, ◌≡◌, refl, sym, ◌∙◌, ◌⊎◌, inl, inr, arith,
}
use deadline_knapp_verparsed.Runtime.{World, done, bind, arg, free}
use deadline_knapp_verparsed.Runtime.Ensures.{
  Plentiful, Steady, Steady-refl, Ensures, holds, Ensures-bind, Ensures-obtain, free-Ensures, held,
}
use deadline_knapp_verparsed.Logger.{log_info, log_debug}
use deadline_knapp_verparsed.Configfile.{
  Block, Blocks, block, nil, cons, subblocks_of, has_blocks, config_block_free,
}
use deadline_knapp_verparsed.Configfile.BlockCopy.{config_block_copy-Ensures}
use deadline_knapp_verparsed.Configfile.BlockMemory.{size_block, config_block_free-Ensures}
use deadline_knapp_verparsed.Configfile.Present.{BlockPresent, BlocksPresent}
use deadline_knapp_verparsed.Merge.{
  no_error, duplicate_partial_directive, out_of_memory, Merged, merging_matching, find_matches,
  copy_unmatched, merge_into, merge_matching, put_subblock, unless_error, on_subblock, keep_merged,
  config_merge,
}
use deadline_knapp_verparsed.Merge.Union.{key_of, union}
use deadline_knapp_verparsed.Merge.Matches.{
  merging_matching-AllFormatted, locate, indices, find_matches_lem, index_from_bounds,
}
use deadline_knapp_verparsed.Merge.Stages.{
  with_directives_lem, matched, append_pick, append_pick_lem, finish, union_stages, finish_stages,
  matched-nil, matched-none, matched-some, indices-union,
}
use deadline_knapp_verparsed.Merge.Correct.{
  MergesInto, log-Ensures, merge_directives-Ensures, unless_error-MergesInto,
  copy_unmatched-Ensures,
}
use deadline_knapp_verparsed.Merge.Arrays.{Ensures-request, free_arrays}
use deadline_knapp_verparsed.Merge.Places.{put_subblock-MergesInto}

head_same : {A : Type 0} {x y : A} {xs ys : List A} → (x ∷ xs) ≡ (y ∷ ys) → y ≡ x
head_same p = cc

tail_same : {A : Type 0} {x y : A} {xs ys : List A} → (x ∷ xs) ≡ (y ∷ ys) → xs ≡ ys
tail_same p = cc

module _ {w₀ : World} where
  -- The pairs are found and merged, and the rest is copied; both arrays are freed.
  merge_subblocks-Ensures :
      (subs : Blocks) (into : Block) (n : ℕ) {w : World}
      → BlocksPresent subs
      → BlockPresent into
      → ((m : ℕ) (w' : World)
          → Steady w₀ w'
          → w'.live ≡ m + size_block into
          → Ensures w₀
              (MergesInto w₀ m (matched subs into))
              (merge_matching subs (indices (subblocks_of into) subs) into w'))
      → Steady w₀ w
      → w.live ≡ n + size_block into + held (has_blocks subs) + held (has_blocks subs)
      → Ensures w₀ (MergesInto w₀ n (finish subs into)) (
          bind (find_matches (subblocks_of into) subs w) λ matches w₁.
            bind (merge_matching subs matches into w₁) λ after w₂.
              bind (unless_error after (copy_unmatched subs matches) w₂) λ m w₃.
                bind
                  (free (has_blocks subs) w₃)
                  λ _ w₄. bind (free (has_blocks subs) w₄) λ _ w₅. done m w₅)
  merge_subblocks-Ensures subs (block name args ds bs) n {w} h k merging s e =
      let arrays = held (has_blocks subs) in
      let into = block name args ds bs in
      rw (find_matches_lem bs subs w k.3 h, finish_stages subs into)
        (Ensures-bind (merging (n + arrays + arrays) w s (omega (arith, e))) λ m w₁ s₁ p.
          Ensures-bind
            (unless_error-MergesInto (n + arrays + arrays) (matched subs into) m
              (append_pick subs (indices bs subs)) _ s₁ p
              λ b same e₂ k₂. copies (n + arrays + arrays) (indices bs subs) b s₁ e₂ k₂)
            λ m' w₂ s₂ p'.
              free_arrays subs n
                (Option.bind (matched subs into) (append_pick subs (indices bs subs))) m' s₂ p')
    where
      copies :
          (n' : ℕ) {w' : World} (matches : List (Option ℕ)) (b : Block)
          → Steady w₀ w'
          → w'.live ≡ n' + size_block b
          → BlockPresent b
          → Ensures w₀
              (MergesInto w₀ n' (append_pick subs matches b))
              (copy_unmatched subs matches b w')
      copies n' matches (block name' args' ds' bs') s' e' k' =
          rw (append_pick_lem subs matches name' args' ds' bs')
            (copy_unmatched-Ensures subs matches name' args' ds' bs' n' h k' s' e')

  mutual
    unfolding merge_into merge_matching on_subblock log_debug log_info

    pub merge_into-Ensures :
        (other into : Block) (n : ℕ) {w : World}
        → BlockPresent other
        → BlockPresent into
        → Steady w₀ w
        → w.live ≡ n + size_block into
        → Ensures w₀ (MergesInto w₀ n (union other into)) (merge_into other into w)
    merge_into-Ensures (block other_name other_args more subs) (block name args ds bs) n h k s e =
        let into = block name args ds bs in
        rw
          (
            union_stages other_name other_args more subs into,
            with_directives_lem more ds name args bs,
          )
          (Ensures-bind (log-Ensures 1 (arg name ∷ []) (n + size_block into) (k.0, tt) s e)
            λ _ w₁ s₁ e₁.
              Ensures-bind (merge_directives-Ensures more name args ds bs n h.2 k s₁ e₁)
                λ m w₂ s₂ p. unless_error-MergesInto n _ m (finish subs) _ s₂ p λ b _ e₂ k₂.
                  Ensures-request subs (n + size_block b) _ s₂ e₂
                    (λ w₃ s₃ starved e₃. holds s₃ (e₃, k₂, starved))
                    (λ w₃ s₃ e₃.
                      Ensures-request subs _ _ s₃ e₃
                        (λ w₄ s₄ starved e₄.
                          Ensures-bind (free-Ensures (n + size_block b) (has_blocks subs) s₄ e₄)
                            λ _ w₅ s₅ e₅. holds s₅ (e₅, k₂, starved))
                        (λ w₄ s₄ e₄.
                          merge_subblocks-Ensures subs b n h.3 k₂
                            (λ n' w' s' e'.
                              merge_matching-Ensures subs (indices (subblocks_of b) subs) b n' h.3
                                k₂ refl s' e')
                            s₄ e₄)))

    merge_matching-Ensures :
        (subs : Blocks) (matches : List (Option ℕ)) (into : Block) (n : ℕ) {w : World}
        → BlocksPresent subs
        → BlockPresent into
        → matches ≡ indices (subblocks_of into) subs
        → Steady w₀ w
        → w.live ≡ n + size_block into
        → Ensures w₀ (MergesInto w₀ n (matched subs into)) (merge_matching subs matches into w)
    merge_matching-Ensures nil [] into n h k l s e = holds s (e, k, matched-nil into)
    merge_matching-Ensures nil (m ∷ matches) into n h k l s e = cc
    merge_matching-Ensures (cons b subs) [] into n h k l s e = cc
    merge_matching-Ensures (cons b subs) (none ∷ matches) into n h k l s e =
        rw (matched-none b subs into (head_same l))
          (merge_matching-Ensures subs matches into n h.1 k (tail_same l) s e)
    merge_matching-Ensures (cons b subs) (some i ∷ matches) (block name args ds bs) n h k l s e =
        let found = head_same l in
        let range = index_from_bounds bs (key_of b) 0 i found in
        let there = locate bs i (omega (arith, range.1)) k.3 in
        let into = block name args ds bs in
        rw (matched-some b subs into i there.sub found there.found, there.found)
          (Ensures-bind
            (log-Ensures 0 (merging_matching there.sub) (n + size_block into)
              (merging_matching-AllFormatted there.sub there.present) s e)
            λ _ w₁ s₁ e₁.
              Ensures-bind
                (merge_into-Ensures b there.sub (n + (size_block into - size_block there.sub)) h.0
                  there.present s₁ (omega (arith, e₁, there.smaller)))
                λ m w₂ s₂ p.
                  unless_error-MergesInto n _ (put_subblock into i m) (matched subs) _ s₂
                    (put_subblock-MergesInto w₀ b name args ds bs i n there m w₂ k p)
                    (λ into' same e' k'.
                      merge_matching-Ensures subs matches into' n h.1 k'
                        (tail_same l
                          ∙ sym (indices-union b subs into into' i there.sub there.found same))
                        s₂ e'))

-- What `config_merge` returns, with everything it has allocated: the union `u`; or NULL, with
-- nothing left, where there is no union or a request was refused.
abbrev pub MergesTo : World → Option Block → Option Block → World → Type 0
MergesTo w₀ u none w = (w.live ≡ w₀.live) × ((u ≡ none) ⊎ ¬ (Plentiful w₀))
MergesTo w₀ u (some b) w = (w.live ≡ w₀.live + size_block b) × BlockPresent b × (u ≡ some b)

-- What is returned behind `merge_into`.
pub after_error :
    (w₀ : World) (u : Option Block) (b : Block) (r : (u ≡ none) ⊎ ¬ (Plentiful w₀)) {w : World}
    → Steady w₀ w
    → w.live ≡ w₀.live + size_block b
    → Ensures w₀ (MergesTo w₀ u) (bind (config_block_free (some b) w) λ _ w'. done none w')
after_error w₀ u b r s e =
    Ensures-bind (config_block_free-Ensures b w₀.live s e) λ _ w₁ s₁ e₁. holds s₁ (e₁, r)

-- Merging two blocks without a NULL string ends for every allocator, and faults only after a
-- refused request. A block that it returns is the union of both, has no NULL string and owns
-- exactly what was newly allocated. It returns NULL only where the union does not exist, or after
-- a refused request, and then nothing that it has allocated is left.
pub config_merge-MergesTo :
    (one two : Block) (w₀ : World)
    → BlockPresent one
    → BlockPresent two
    → Ensures w₀ (MergesTo w₀ (union two one)) (config_merge (some one) (some two) w₀)
unfolding config_merge log_info keep_merged
config_merge-MergesTo (block name args ds bs) two w₀ h k =
    Ensures-bind (log-Ensures 0 (arg name ∷ []) w₀.live (h.0, tt) (Steady-refl w₀) refl)
      λ _ w₁ s₁ e₁.
        Ensures-obtain size_block w₀.live _
          (config_block_copy-Ensures (block name args ds bs) w₀.live s₁ e₁)
          (λ w₂ s₂ starved e₂. holds s₂ (e₂, inr starved))
          (λ w₂ s₂ e₂.
            Ensures-bind (merge_into-Ensures two (block name args ds bs) w₀.live k h s₂ e₂) keep)
  where
    keep :
        (m : Merged) (w : World)
        → Steady w₀ w
        → MergesInto w₀ w₀.live (union two (block name args ds bs)) m w
        → Ensures w₀ (MergesTo w₀ (union two (block name args ds bs))) (keep_merged m w)
    keep (err, none) w s p = absurd p
    keep (no_error, some b) w s p = holds s p
    keep (duplicate_partial_directive, some b) w s p = after_error w₀ _ b (inl p.2) s p.0
    keep (out_of_memory, some b) w s p = after_error w₀ _ b (inr p.2) s p.0
