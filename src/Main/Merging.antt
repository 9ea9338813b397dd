-- ===== src/Main/Merging.antt =====
-- configloader/main.c: `merge_config_blocks` and `merge_config_files`. An input is given by what
-- its stream reads as. The output stream is the one of the World.
use deadline_knapp_verparsed.Base.{
  ℕ, zero, suc, true, not, List, [], ◌∷◌, ◌++◌, Option, none, some, Bytes, if◌then◌else◌,
}
use deadline_knapp_verparsed.Runtime.{M, ◌>>=◌, ◌>>◌, pure, success, failed, malloc, free}
use deadline_knapp_verparsed.Configfile.{Block, config_block_copy, config_block_free}
use deadline_knapp_verparsed.Parser.{config_deserialize}
use deadline_knapp_verparsed.Serializer.{config_serialize}
use deadline_knapp_verparsed.Merge.{config_merge, config_merge_n}

-- `error`, with the value 0.
pub data Error : Type 0 where
  no_err invalid_args_err file_open_err deserialize_err serialize_err merge_err oo_memory_err :
      Error

-- The blocks as an array without a NULL.
abbrev pub pointers : List Block → List (Option Block)
pointers [] = []
pointers (b ∷ blocks) = some b ∷ pointers blocks

unfoldable pub merge_config_blocks : List Block → M (Option Block)
merge_config_blocks [] = pure none
merge_config_blocks (b ∷ []) = config_block_copy (some b)
merge_config_blocks (b ∷ c ∷ []) = config_merge (some b) (some c)
merge_config_blocks (b ∷ c ∷ d ∷ blocks) = config_merge_n (pointers (b ∷ c ∷ d ∷ blocks))

-- The loops that free the blocks.
unfoldable pub free_loaded : List Block → M (Unit {0})
free_loaded [] = pure tt
free_loaded (b ∷ blocks) = do config_block_free (some b); free_loaded blocks

-- The loop over the inputs that are left, with the blocks that are loaded. Without a result it has
-- freed the blocks and their array.
unfoldable pub load_blocks : List Bytes → List Block → M (Option (List Block))
unfolding free_loaded
load_blocks [] blocks = pure (some blocks)
load_blocks (s ∷ inputs) blocks = do
  loaded ← config_deserialize (some s)
  elim loaded [
    | none ↦ (do free_loaded blocks; free true; pure none)
    | some b ↦ load_blocks inputs (blocks ++ b ∷ [])
  ]

-- The end of `merge_config_files`, from the serialization on.
unfoldable pub write_merged : Option Block → M Error
write_merged none = pure merge_err
write_merged (some out_block) = do
  r ← config_serialize out_block
  config_block_free (some out_block)
  elim r [ success ↦ pure no_err | failed ↦ pure serialize_err ]

-- `merge_config_files`, for `n` inputs; `none` stands for NULL.
unfoldable pub merge_config_files : ℕ → Option (List Bytes) → M Error
unfolding load_blocks merge_config_blocks write_merged
merge_config_files zero inputs = pure invalid_args_err
merge_config_files (suc n) none = pure file_open_err
merge_config_files (suc n) (some streams) = do
  granted ← malloc
  if not granted then pure oo_memory_err else (do
    loaded ← load_blocks streams []
    elim loaded [
      | none ↦ pure deserialize_err
      | some blocks ↦ (do
        out_block ← merge_config_blocks blocks
        free_loaded blocks
        free true
        write_merged out_block)
    ])
