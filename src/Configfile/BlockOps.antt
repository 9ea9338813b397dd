-- ===== src/Configfile/BlockOps.antt =====
-- configloader/configfile.c: blocks.
use deadline_knapp_verparsed.Base.{
  ℕ, Bool, true, false, not, ◌&&◌, List, [], ◌∷◌, ◌++◌, Option, none, some, length, get_elem?,
  is_empty, is_some, leb, if◌then◌else◌,
}
use deadline_knapp_verparsed.Runtime.{
  M, ◌>>=◌, ◌>>◌, pure, crash, CStr, Status, success, failed, malloc, realloc, free,
}
use deadline_knapp_verparsed.Configfile.Data.{
  Directive, Block, Blocks, block, nil, cons, name_of, args_of, directives_of, subblocks_of,
  count_blocks, get_block?, append_block,
}
use deadline_knapp_verparsed.Configfile.DirectiveOps.{
  config_strdup, config_realloc_array, entry, free_args, append_arg, config_directive_free,
  config_directive_copy,
}

unfoldable pub config_block_create : CStr → M (Option Block)
unfolding config_strdup malloc free
config_block_create name = do
  granted ← malloc
  if not granted then pure none else (do
    copy ← config_strdup name
    if is_some name && not (is_some copy)
        then (do free true; pure none)
        else pure (some (block copy [] [] nil)))

-- The loop of `config_block_free` over the directives.
unfoldable pub free_directives : List Directive → M (Unit {0})
free_directives [] = pure tt
free_directives (d ∷ ds) = do config_directive_free (some d); free_directives ds

-- `free(array)`, of an array that is NULL exactly if it is empty.
unfoldable pub free_array {ℓ} : {A : Type ℓ} → List A → M (Unit {0})
unfolding free
free_array items = free (not (is_empty items))

abbrev pub has_blocks : Blocks → Bool
has_blocks nil = false
has_blocks (cons b bs) = true

-- `config_block_free` of a block, and its loop over the subblocks.
unfoldable mutual
  pub free_block : Block → M (Unit {0})
  free_block (block name args directives subblocks) = do
    free (is_some name)
    free_args args
    free_directives directives
    free_array directives
    free_blocks subblocks
    free (has_blocks subblocks)
    free true

  pub free_blocks : Blocks → M (Unit {0})
  free_blocks nil = pure tt
  free_blocks (cons b bs) = do free_block b; free_blocks bs

unfoldable pub config_block_free : Option Block → M (Unit {0})
unfolding free_block
config_block_free none = pure tt
config_block_free (some b) = free_block b

unfoldable pub config_block_add_arg : Option Block → CStr → M (Status × Option Block)
config_block_add_arg none a = pure (failed, none)
config_block_add_arg (some (block name args directives subblocks)) a = do
  (status, args') ← append_arg args a
  pure (status, some (block name args' directives subblocks))

unfoldable pub config_block_add_directive :
    Option Block → Option Directive → M (Status × Option Block)
unfolding config_realloc_array
config_block_add_directive none d = pure (failed, none)
config_block_add_directive (some b) none = pure (failed, some b)
config_block_add_directive (some (block name args directives subblocks)) (some d) = do
  granted ← config_realloc_array directives
  if not granted && not (is_empty directives)
      then pure (failed, some (block name args directives subblocks))
      else if not granted
      then crash
      else pure (success, some (block name args (directives ++ d ∷ []) subblocks))

unfoldable pub config_block_add_subblock : Option Block → Option Block → M (Status × Option Block)
unfolding realloc
config_block_add_subblock none sub = pure (failed, none)
config_block_add_subblock (some b) none = pure (failed, some b)
config_block_add_subblock (some (block name args directives subblocks)) (some sub) = do
  granted ← realloc (has_blocks subblocks)
  if not granted && has_blocks subblocks
      then pure (failed, some (block name args directives subblocks))
      else if not granted
      then crash
      else pure (success, some (block name args directives (append_block subblocks sub)))

unfoldable pub config_block_get_name : Option Block → CStr
config_block_get_name none = none
config_block_get_name (some b) = name_of b

unfoldable pub config_block_get_arg_count : Option Block → ℕ
config_block_get_arg_count none = 0
config_block_get_arg_count (some b) = length (args_of b)

unfoldable pub config_block_get_arg : Option Block → ℕ → CStr
config_block_get_arg none index = none
config_block_get_arg (some b) index =
    if leb (length (args_of b)) index then none else entry (args_of b) index

unfoldable pub config_block_get_directive_count : Option Block → ℕ
config_block_get_directive_count none = 0
config_block_get_directive_count (some b) = length (directives_of b)

unfoldable pub config_block_get_directive : Option Block → ℕ → Option Directive
config_block_get_directive none index = none
config_block_get_directive (some b) index =
    if leb (length (directives_of b)) index then none else get_elem? (directives_of b) index

unfoldable pub config_block_get_subblock_count : Option Block → ℕ
config_block_get_subblock_count none = 0
config_block_get_subblock_count (some b) = count_blocks (subblocks_of b)

unfoldable pub config_block_get_subblock : Option Block → ℕ → Option Block
config_block_get_subblock none index = none
config_block_get_subblock (some b) index =
    if leb (count_blocks (subblocks_of b)) index then none else get_block? (subblocks_of b) index

-- The loops of `config_block_copy`, over what is left of the source block.
unfoldable pub copy_block_args : List CStr → Option Block → M (Option Block)
copy_block_args [] copy = pure copy
copy_block_args (a ∷ args) copy = do
  (status, copy') ← config_block_add_arg copy a
  elim status [
    | success ↦ copy_block_args args copy'
    | failed ↦ (do config_block_free copy'; pure none)
  ]

unfoldable pub copy_directives : List Directive → Option Block → M (Option Block)
copy_directives [] copy = pure copy
copy_directives (d ∷ ds) copy = do
  dir_copy ← config_directive_copy (some d)
  if not (is_some dir_copy) then (do config_block_free copy; pure none) else (do
    (status, copy') ← config_block_add_directive copy dir_copy
    elim status [
      | success ↦ copy_directives ds copy'
      | failed ↦ (do config_directive_free dir_copy; config_block_free copy'; pure none)
    ])

-- The three loops run one after the other; each ends with NULL if it has failed.
unfoldable pub and_then : Option Block → (Option Block → M (Option Block)) → M (Option Block)
and_then none loop = pure none
and_then (some copy) loop = loop (some copy)

unfoldable mutual
  unfolding and_then

  pub copy_block : Block → M (Option Block)
  copy_block (block name args directives subblocks) = do
    created ← config_block_create name
    with_args ← and_then created (copy_block_args args)
    with_directives ← and_then with_args (copy_directives directives)
    and_then with_directives (copy_subblocks subblocks)

  pub copy_subblocks : Blocks → Option Block → M (Option Block)
  copy_subblocks nil copy = pure copy
  copy_subblocks (cons b bs) copy = do
    sub_block_copy ← copy_block b
    if not (is_some sub_block_copy) then (do config_block_free copy; pure none) else (do
      (status, copy') ← config_block_add_subblock copy sub_block_copy
      elim status [
        | success ↦ copy_subblocks bs copy'
        | failed ↦ (do config_block_free sub_block_copy; config_block_free copy'; pure none)
      ])

unfoldable pub config_block_copy : Option Block → M (Option Block)
unfolding copy_block
config_block_copy none = pure none
config_block_copy (some b) = copy_block b
