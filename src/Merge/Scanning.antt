-- ===== src/Merge/Scanning.antt =====
-- configloader/configfile_merge.c: the directives of `merge_into`, and its result.
use deadline_knapp_verparsed.Base.{
  not, List, [], ◌∷◌, Option, none, some, codes, is_some, if◌then◌else◌,
}
use deadline_knapp_verparsed.Runtime.{
  M, ◌>>=◌, ◌>>◌, pure, crash, CStr, success, failed, Piece, text, arg,
}
use deadline_knapp_verparsed.Logger.{log_warning, log_error}
use deadline_knapp_verparsed.Configfile.{
  Directive, Block, directives_of, config_directive_copy, config_directive_free,
  config_block_add_directive,
}
use deadline_knapp_verparsed.Merge.Equal.{dir_not_eq, dir_partially_eq, dir_eq, directive_equals}

pub data MergeError : Type 0 where
  no_error duplicate_partial_directive out_of_memory : MergeError

-- The macro DIRECTIVE_ARG1_OR_EMPTY.
abbrev pub arg1_or_empty : List CStr → CStr
arg1_or_empty [] = some []
arg1_or_empty (a ∷ args) = a

abbrev pub cannot_merge : Directive → Directive → List Piece
cannot_merge dir_into dir_other =
    text (codes "can't merge duplicate directive '")
    ∷ arg dir_into.name
    ∷ text (codes "' with different args '")
    ∷ arg (arg1_or_empty dir_into.args)
    ∷ text (codes "' and '")
    ∷ arg (arg1_or_empty dir_other.args)
    ∷ text (codes "'")
    ∷ []

abbrev pub merging_equivalent : Directive → List Piece
merging_equivalent dir_into =
    text (codes "merging equivalent directive '")
    ∷ arg dir_into.name
    ∷ text (codes " ")
    ∷ arg (arg1_or_empty dir_into.args)
    ∷ text (codes "'")
    ∷ []

-- How the loop over the directives of `into` ends.
pub data Scan : Type 0 where
  absent already_present conflicting : Scan

unfoldable pub scan_directives : List Directive → Directive → M Scan
scan_directives [] dir_other = pure absent
scan_directives (dir_into ∷ ds) dir_other = do
  equal ← directive_equals dir_into dir_other
  elim equal [
    | dir_not_eq ↦ scan_directives ds dir_other
    | dir_partially_eq ↦ (do log_error (cannot_merge dir_into dir_other); pure conflicting)
    | dir_eq ↦ (do log_warning (merging_equivalent dir_into); pure already_present)
  ]

-- What `merge_into` leaves: its result, and the block it has changed.
abbrev pub Merged : Type 0
Merged = MergeError × Option Block

-- Goes on with the block unless `merge_into` returns here.
unfoldable pub unless_error : Merged → (Block → M Merged) → M Merged
unless_error (no_error, some into) next = next into
unless_error (no_error, none) next = crash
unless_error (duplicate_partial_directive, into) next = pure (duplicate_partial_directive, into)
unless_error (out_of_memory, into) next = pure (out_of_memory, into)

-- The loop over the directives of `other` that are left.
unfoldable pub merge_directives : List Directive → Block → M Merged
unfolding unless_error
merge_directives [] into = pure (no_error, some into)
merge_directives (d ∷ ds) into = do
  found ← scan_directives (directives_of into) d
  elim found [
    | conflicting ↦ pure (duplicate_partial_directive, some into)
    | already_present ↦ merge_directives ds into
    | absent ↦ (do
      dir_other_copy ← config_directive_copy (some d)
      if not (is_some dir_other_copy) then pure (out_of_memory, some into) else (do
        (status, into') ← config_block_add_directive (some into) dir_other_copy
        elim status [
          | success ↦ unless_error (no_error, into') (merge_directives ds)
          | failed ↦ (do config_directive_free dir_other_copy; pure (out_of_memory, into'))
        ]))
  ]
