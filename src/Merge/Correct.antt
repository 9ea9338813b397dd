-- ===== src/Merge/Correct.antt =====
-- configloader/configfile_merge.c: what merging leaves allocated, for every allocator.
use deadline_knapp_verparsed.Base.{
  ℕ, ◌+◌, List, [], ◌∷◌, ◌++◌, Option, none, some, ◌≡◌, inl, inr, refl, ap, ◌∙◌, subst,
}
use deadline_knapp_verparsed.Runtime.{World, CStr, Outcome, Piece}
use deadline_knapp_verparsed.Runtime.Ensures.{
  Plentiful, Steady, Ensures, holds, Ensures-bind, Ensures-map, Ensures-obtain, Ensures-update,
}
use deadline_knapp_verparsed.Logger.{vlog, log_warning, log_error}
use deadline_knapp_verparsed.Lexer.Buffers.{vlog-Ensures}
use deadline_knapp_verparsed.Configfile.{Directive, Block, Blocks, block, nil, cons, append_block}
use deadline_knapp_verparsed.Configfile.Memory.{
  size_directive, config_directive_copy-Ensures, config_directive_free-Ensures,
}
use deadline_knapp_verparsed.Configfile.BlockCopy.{config_block_copy-Ensures}
use deadline_knapp_verparsed.Configfile.BlockMemory.{
  size_block, append_blocks, append_blocks-nil, append_blocks-append_block,
  config_block_free-Ensures, config_block_add_directive-Ensures, config_block_add_subblock-Ensures,
}
use deadline_knapp_verparsed.Configfile.Present.{
  DirectivesPresent-append, BlocksPresent-append_block, Present, AllPresent, DirectivesPresent,
  BlockPresent, BlocksPresent,
}
use deadline_knapp_verparsed.Merge.{
  MergeError, no_error, duplicate_partial_directive, out_of_memory, dir_not_eq, dir_partially_eq,
  dir_eq, Merged, cannot_merge, merging_equivalent, scan_directives, merge_directives,
  copy_unmatched, unless_error,
}
use mathlib.Core.Option
use deadline_knapp_verparsed.Merge.Union.{union_directives}
use deadline_knapp_verparsed.Merge.Compare.{Compares, directive_equals-Compares}
use deadline_knapp_verparsed.Merge.Matches.{AllFormatted, vformat-some, arg1-Present, pick}
use deadline_knapp_verparsed.Merge.Lookup.{lookup_args-here, lookup_args-nil}
use deadline_knapp_verparsed.Merge.Scans.{
  ScanSays, ScanSays-skip, add_absent, add_present, add_conflicting, DirEqual-cases, Scan-cases,
}

-- What the result of a merge says of the union `u`.
abbrev pub Says : World → Option Block → MergeError → Block → Type 0
Says w₀ u no_error b = u ≡ some b
Says w₀ u duplicate_partial_directive b = u ≡ none
Says w₀ u out_of_memory b = ¬ (Plentiful w₀)

-- The block, with what it owns.
abbrev pub MergesInto : World → ℕ → Option Block → Merged → World → Type 0
MergesInto w₀ n u (err, none) w = ⊥
MergesInto w₀ n u (err, some b) w = (w.live ≡ n + size_block b) × BlockPresent b × Says w₀ u err b

module _ {w₀ : World} where
  pub log-Ensures :
      (level : ℕ) (ps : List Piece) (n : ℕ) {w : World}
      → AllFormatted ps
      → Steady w₀ w
      → w.live ≡ n
      → Ensures w₀ (λ _ w'. w'.live ≡ n) (vlog level ps w)
  log-Ensures level ps n h s e = vlog-Ensures level ps n (vformat-some ps h).1 s e

  scan_directives-Ensures :
      (ds : List Directive) (d : Directive) (n : ℕ) {w : World}
      → DirectivesPresent ds
      → Present d.name × AllPresent d.args
      → Steady w₀ w
      → w.live ≡ n
      → Ensures w₀ (λ r w'. (w'.live ≡ n) × ScanSays ds d r) (scan_directives ds d w)
  unfolding scan_directives log_error log_warning
  scan_directives-Ensures [] d n h k s e = holds s (e, lookup_args-nil d.name)
  scan_directives-Ensures (d' ∷ ds) d n {w} h k s e =
      let (r, run, c) = directive_equals-Compares d' d w h.0.0 h.0.1 k.0 k.1 in
      elim (DirEqual-cases r) [
        | inl same ↦
            let c' : Compares d' d dir_eq = subst (Compares d' d) same c in
            rw (run, same)
              (Ensures-bind
                (log-Ensures 2 (merging_equivalent d') n (h.0.0, (arg1-Present d'.args h.0.1, tt)) s
                  e)
                λ _ w₁ s₁ e₁. holds s₁ (e₁, lookup_args-here d' ds d.name c'.0 ∙ ap some c'.1))
        | inr (inl partly) ↦
            let c' : Compares d' d dir_partially_eq = subst (Compares d' d) partly c in
            rw (run, partly)
              (Ensures-bind
                (log-Ensures 3 (cannot_merge d' d) n
                  (h.0.0, (arg1-Present d'.args h.0.1, (arg1-Present d.args k.1, tt))) s e)
                λ _ w₁ s₁ e₁. holds s₁ (e₁, (d'.args, lookup_args-here d' ds d.name c'.0, c'.1)))
        | inr (inr other) ↦
            let c' : Compares d' d dir_not_eq = subst (Compares d' d) other c in
            rw (run, other)
              (Ensures-map (scan_directives-Ensures ds d n h.1 k s e)
                λ r' w' p. (p.0, ScanSays-skip d' ds d r' c' p.1))
      ]

  -- The rest of a block behind its directives.
  pub merge_directives-Ensures :
      (more : List Directive) (name : CStr) (args : List CStr) (ds : List Directive) (bs : Blocks)
      (n : ℕ) {w : World}
      → DirectivesPresent more
      → BlockPresent (block name args ds bs)
      → Steady w₀ w
      → w.live ≡ n + size_block (block name args ds bs)
      → Ensures w₀
          (MergesInto w₀ n
            (Option.bind (union_directives more ds) λ ds'. some (block name args ds' bs)))
          (merge_directives more (block name args ds bs) w)
  unfolding merge_directives union_directives Option.bind
  merge_directives-Ensures [] name args ds bs n h k s e = holds s (e, k, refl)
  merge_directives-Ensures (d ∷ more) name args ds bs n h k s e =
      let b = block name args ds bs in
      Ensures-bind (scan_directives-Ensures ds d (n + size_block b) k.2 h.0 s e) λ r w₁ s₁ p.
        elim (Scan-cases r) [
          | inl missing ↦
              rw (missing, add_absent ds d (subst (ScanSays ds d) missing p.1))
                (Ensures-obtain size_directive (n + size_block b) _
                  (config_directive_copy-Ensures d _ s₁ p.0)
                  (λ w₂ s₂ starved e₂. holds s₂ (e₂, k, starved))
                  (λ w₂ s₂ e₂.
                    Ensures-update size_block n (size_directive d) _ _ _
                      (config_block_add_directive-Ensures name args ds bs d n s₂ e₂)
                      (λ w₃ s₃ starved e₃.
                        Ensures-bind (config_directive_free-Ensures d (n + size_block b) s₃ e₃)
                          λ _ w₄ s₄ e₄. holds s₄ (e₄, k, starved))
                      (λ w₃ s₃ e₃.
                        merge_directives-Ensures more name args (ds ++ d ∷ []) bs n h.1
                          (k.0, k.1, DirectivesPresent-append ds d k.2 h.0, k.3) s₃ e₃)))
          | inr (inl there) ↦
              rw (there, add_present ds d (subst (ScanSays ds d) there p.1))
                (merge_directives-Ensures more name args ds bs n h.1 k s₁ p.0)
          | inr (inr conflict) ↦
              rw (conflict, add_conflicting ds d (subst (ScanSays ds d) conflict p.1))
                (holds s₁ (p.0, k, refl))
        ]

  -- Goes on with the block that is merged so far.
  pub unless_error-MergesInto :
      (n : ℕ) (u : Option Block) (m : Merged) (g : Block → Option Block)
      (next : Block → World → Outcome Merged) {w : World}
      → Steady w₀ w
      → MergesInto w₀ n u m w
      → ((b : Block)
          → u ≡ some b
          → w.live ≡ n + size_block b
          → BlockPresent b
          → Ensures w₀ (MergesInto w₀ n (g b)) (next b w))
      → Ensures w₀ (MergesInto w₀ n (Option.bind u g)) (unless_error m next w)
  unfolding unless_error Option.bind
  unless_error-MergesInto n u (err, none) g next s p k = absurd p
  unless_error-MergesInto n u (no_error, some b) g next s p k = rw p.2 (k b p.2 p.0 p.1)
  unless_error-MergesInto n u (duplicate_partial_directive, some b) g next s p k =
      holds s (p.0, p.1, rw p.2 refl)
  unless_error-MergesInto n u (out_of_memory, some b) g next s p k = holds s p

  pub copy_unmatched-Ensures :
      (more : Blocks) (matches : List (Option ℕ)) (name : CStr) (args : List CStr)
      (ds : List Directive) (bs : Blocks) (n : ℕ) {w : World}
      → BlocksPresent more
      → BlockPresent (block name args ds bs)
      → Steady w₀ w
      → w.live ≡ n + size_block (block name args ds bs)
      → Ensures w₀
          (MergesInto w₀ n (some (block name args ds (append_blocks bs (pick more matches)))))
          (copy_unmatched more matches (block name args ds bs) w)
  unfolding copy_unmatched
  copy_unmatched-Ensures nil [] name args ds bs n h k s e =
      holds s (e, k, rw append_blocks-nil refl)
  copy_unmatched-Ensures nil (m ∷ matches) name args ds bs n h k s e =
      holds s (e, k, rw append_blocks-nil refl)
  copy_unmatched-Ensures (cons b more) [] name args ds bs n h k s e =
      holds s (e, k, rw append_blocks-nil refl)
  copy_unmatched-Ensures (cons b more) (some i ∷ matches) name args ds bs n h k s e =
      copy_unmatched-Ensures more matches name args ds bs n h.1 k s e
  copy_unmatched-Ensures (cons b more) (none ∷ matches) name args ds bs n h k s e =
      let into = block name args ds bs in
      Ensures-obtain size_block (n + size_block into) _ (config_block_copy-Ensures b _ s e)
        (λ w₁ s₁ starved e₁. holds s₁ (e₁, k, starved))
        (λ w₁ s₁ e₁.
          Ensures-update size_block n (size_block b) _ _ _
            (config_block_add_subblock-Ensures name args ds bs b n s₁ e₁)
            (λ w₂ s₂ starved e₂.
              Ensures-bind (config_block_free-Ensures b (n + size_block into) s₂ e₂)
                λ _ w₃ s₃ e₃. holds s₃ (e₃, k, starved))
            (λ w₂ s₂ e₂. rw (append_blocks-append_block bs (pick more matches) b) at (
              copy_unmatched-Ensures more matches name args ds (append_block bs b) n h.1
                (k.0, k.1, k.2, BlocksPresent-append_block bs b k.3 h.0) s₂ e₂)))
