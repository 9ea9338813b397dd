-- ===== src/Merge.antt =====
-- configloader/configfile_merge.c. `merge_into` changes its first argument in place; here it returns
-- it beside the error. `config_merge_n` takes the list of its blocks, whose length is `n`, and
-- `_config_merge_multi` the list of its arguments up to the first NULL.
mod Equal
mod Scanning
pub mod Union
pub mod Compare
pub mod Matches
pub mod Stages
pub mod Lookup
pub mod Scans
pub mod Correct
pub mod Arrays
pub mod Places
pub mod Lifetime
pub mod Several
pub mod Directives
pub mod Find
pub mod Paths
unfoldable pub use Equal.*
unfoldable pub use Scanning.*
use deadline_knapp_verparsed.Base.{
  ℕ, zero, suc, Bool, true, false, not, ◌&&◌, List, [], ◌∷◌, Option, none, some, Bytes, codes,
  length, is_some, ◌==◌, if◌then◌else◌,
}
use deadline_knapp_verparsed.Runtime.{
  M, ◌>>=◌, ◌>>◌, pure, crash, CStr, Status, success, failed, Piece, text, arg, malloc, free,
  up_to_null,
}
use deadline_knapp_verparsed.Logger.{log_info, log_debug, log_warning, log_error}
use deadline_knapp_verparsed.Sysunsafe.{str_equal}
use deadline_knapp_verparsed.Configfile.{
  Directive, Block, Blocks, block, nil, cons, name_of, args_of, directives_of, subblocks_of,
  get_block?, has_blocks, config_directive_copy, config_directive_free, config_block_copy,
  config_block_free, config_block_add_directive, config_block_add_subblock,
}

-- The index of the first block that equals `b`, counted from `i`.
unfoldable pub find_match : Blocks → Block → ℕ → M (Option ℕ)
find_match nil b i = pure none
find_match (cons subblock_into bs) b i = do
  equal ← block_equals subblock_into b
  elim equal [ true ↦ pure (some i) | false ↦ find_match bs b (suc i) ]

-- The arrays `matching_pairs` and `other_subblock_matched` as one list, with an entry for each
-- subblock of `other`: the index that it is paired with, if it is matched.
unfoldable pub find_matches : Blocks → Blocks → M (List (Option ℕ))
find_matches intos nil = pure []
find_matches intos (cons b bs) = do
  found ← find_match intos b 0
  matches ← find_matches intos bs
  pure (found ∷ matches)

abbrev pub set_block : Blocks → ℕ → Block → Blocks
set_block nil i b = nil
set_block (cons a bs) zero b = cons b bs
set_block (cons a bs) (suc i) b = cons a (set_block bs i b)

abbrev pub set_subblock : Block → ℕ → Block → Block
set_subblock (block name args directives subblocks) i b =
    block name args directives (set_block subblocks i b)

abbrev pub merging_matching : Block → List Piece
merging_matching (block name [] directives subblocks) =
    text (codes "merging matching subblock '") ∷ arg name ∷ text (codes "'") ∷ []
merging_matching (block name (arg1 ∷ args) directives subblocks) =
    text (codes "merging matching subblock '")
    ∷ arg name
    ∷ text (codes " ")
    ∷ arg arg1
    ∷ text (codes "'")
    ∷ []

-- The loop over the subblocks of `other` that have no match.
unfoldable pub copy_unmatched : Blocks → List (Option ℕ) → Block → M Merged
unfolding unless_error
copy_unmatched (cons b bs) (some i ∷ matches) into = copy_unmatched bs matches into
copy_unmatched (cons b bs) (none ∷ matches) into = do
  subblock_other_copy ← config_block_copy (some b)
  if not (is_some subblock_other_copy) then pure (out_of_memory, some into) else (do
    (status, into') ← config_block_add_subblock (some into) subblock_other_copy
    elim status [
      | success ↦ unless_error (no_error, into') (copy_unmatched bs matches)
      | failed ↦ (do config_block_free subblock_other_copy; pure (out_of_memory, into'))
    ])
copy_unmatched _ _ into = pure (no_error, some into)

-- `malloc` or `calloc` of an array with an entry for each subblock; without one none is requested.
unfoldable pub request_array : Blocks → M Bool
unfolding malloc
request_array nil = pure true
request_array (cons b bs) = malloc

-- The subblock has been merged, with this result.
unfoldable pub put_subblock : Block → ℕ → Merged → Merged
put_subblock into i (err, none) = (err, none)
put_subblock into i (err, some sub) = (err, some (set_subblock into i sub))

-- Goes on with a subblock, unless the index was out of range.
unfoldable pub on_subblock : Option Block → (Block → M Merged) → M Merged
on_subblock none next = crash
on_subblock (some subblock) next = next subblock

unfoldable mutual
  unfolding free unless_error put_subblock on_subblock

  -- `merge_into`, with `other` first.
  pub merge_into : Block → Block → M Merged
  merge_into (block other_name other_args directives subblocks) into = do
    log_debug (arg (name_of into) ∷ [])
    merged ← merge_directives directives into
    unless_error merged λ b. (do
      pairs ← request_array subblocks
      if not pairs then pure (out_of_memory, some b) else (do
        matched ← request_array subblocks
        if not matched then (do free (has_blocks subblocks); pure (out_of_memory, some b)) else (do
          matches ← find_matches (subblocks_of b) subblocks
          after ← merge_matching subblocks matches b
          result ← unless_error after (copy_unmatched subblocks matches)
          free (has_blocks subblocks)
          free (has_blocks subblocks)
          pure result)))

  -- The loop over the matching pairs. An index out of range does not occur.
  pub merge_matching : Blocks → List (Option ℕ) → Block → M Merged
  merge_matching (cons b bs) (none ∷ matches) into = merge_matching bs matches into
  merge_matching (cons b bs) (some i ∷ matches) into =
      on_subblock (get_block? (subblocks_of into) i) λ subblock_into. (do
        log_info (merging_matching subblock_into)
        merged ← merge_into b subblock_into
        unless_error (put_subblock into i merged) (merge_matching bs matches))
  merge_matching _ _ into = pure (no_error, some into)

-- A block that is NULL has neither directives nor subblocks.
unfoldable pub merge_other : Option Block → Option Block → M Merged
unfolding merge_into
merge_other other none = crash
merge_other (some b) (some into) = merge_into b into
merge_other none (some into) = do log_debug (arg (name_of into) ∷ []); pure (no_error, some into)

-- The part of the three functions below behind each call of `merge_into`.
unfoldable pub keep_merged : Merged → M (Option Block)
unfolding config_block_free
keep_merged (no_error, merge) = pure merge
keep_merged (_, merge) = do config_block_free merge; pure none

unfoldable pub config_merge : Option Block → Option Block → M (Option Block)
unfolding merge_into keep_merged config_block_copy
config_merge (some one) (some two) = do
  log_info (arg (name_of one) ∷ [])
  copy ← config_block_copy (some one)
  elim copy [
    | none ↦ pure none
    | some merge ↦ (do merged ← merge_into two merge; keep_merged merged)
  ]
config_merge _ _ = pure none

-- Goes on with the block, or frees it after an error.
unfoldable pub on_merged : Merged → (Option Block → M (Option Block)) → M (Option Block)
unfolding config_block_free
on_merged (no_error, merge) next = next merge
on_merged (_, merge) next = do config_block_free merge; pure none

-- The loops of `config_merge_n` and `_config_merge_multi` over the blocks that are left.
unfoldable pub merge_all : List (Option Block) → Option Block → M (Option Block)
unfolding merge_other on_merged
merge_all [] merge = pure merge
merge_all (b ∷ blocks) merge = do merged ← merge_other b merge; on_merged merged (merge_all blocks)

unfoldable pub config_merge_n : List (Option Block) → M (Option Block)
unfolding merge_all config_block_copy
config_merge_n [] = pure none
config_merge_n (b ∷ blocks) = do
  copy ← config_block_copy b
  elim copy [ none ↦ pure none | some merge ↦ merge_all blocks (some merge) ]

unfoldable pub config_merge_multi : Option Block → List (Option Block) → M (Option Block)
unfolding merge_all config_block_copy
config_merge_multi none blocks = pure none
config_merge_multi (some b) blocks = do
  copy ← config_block_copy (some b)
  elim copy [ none ↦ pure none | some merge ↦ merge_all (up_to_null blocks) (some merge) ]
