-- ===== src/Easy.antt =====
-- configloader/configfile_easy.c. A call passes its variadic arguments as a list. The functions
-- return the new entry beside the block, which the C code changes in place.
pub mod Endings
pub mod Correct
use deadline_knapp_verparsed.Base.{
  Bool, not, List, [], ◌∷◌, Option, none, some, Bytes, codes, is_some, if◌then◌else◌,
}
use deadline_knapp_verparsed.Runtime.{
  M, ◌>>=◌, ◌>>◌, pure, CStr, Status, success, failed, Piece, text, arg, up_to_null,
}
use deadline_knapp_verparsed.Sysunsafe.{sys_unsafe_log_error}
use deadline_knapp_verparsed.Configfile.{
  Directive, Block, config_directive_create, config_directive_free, config_directive_add_arg,
  config_block_create, config_block_free, config_block_add_arg, config_block_add_directive,
  config_block_add_subblock,
}

abbrev pub main_block_name : Bytes
main_block_name = codes "main"

unfoldable pub cfgf_easy_new_main_block : M (Option Block)
unfolding config_block_create
cfgf_easy_new_main_block = config_block_create (some main_block_name)

abbrev pub failed_to_store : CStr → List Piece
failed_to_store name = text (codes "failed to store '") ∷ arg name ∷ text (codes "'") ∷ []

unfoldable pub cfgf_easy_add_directive : Option Block → CStr → M (Option Directive × Option Block)
cfgf_easy_add_directive none name = pure (none, none)
cfgf_easy_add_directive (some b) name = do
  directive ← config_directive_create name
  if not (is_some directive) then pure (none, some b) else (do
    (status, b') ← config_block_add_directive (some b) directive
    elim status [
      | success ↦ pure (directive, b')
      | failed ↦ (do
        sys_unsafe_log_error (failed_to_store name)
        config_directive_free directive
        pure (none, b'))
    ])

-- The loop of `_cfgf_easy_add_directive_args` over the arguments that are left.
unfoldable pub add_directive_args : List CStr → Option Directive → M (Status × Option Directive)
add_directive_args [] directive = pure (success, directive)
add_directive_args (a ∷ args) directive = do
  (status, directive') ← config_directive_add_arg directive a
  elim status [ success ↦ add_directive_args args directive' | failed ↦ pure (failed, directive') ]

unfoldable pub cfgf_easy_add_directive_args :
    Option Block → CStr → List CStr → M (Option Directive × Option Block)
unfolding add_directive_args
cfgf_easy_add_directive_args none name args = pure (none, none)
cfgf_easy_add_directive_args (some b) name args = do
  created ← config_directive_create name
  if not (is_some created) then pure (none, some b) else (do
    (stored, directive) ← add_directive_args (up_to_null args) created
    elim stored [
      | failed ↦ (do
        sys_unsafe_log_error (failed_to_store name)
        config_directive_free directive
        pure (none, some b))
      | success ↦ (do
        (status, b') ← config_block_add_directive (some b) directive
        elim status [
          | success ↦ pure (directive, b')
          | failed ↦ (do config_directive_free directive; pure (none, b'))
        ])
    ])

-- The loop of `_cfgf_easy_add_subblock_args` over the arguments that are left.
unfoldable pub add_subblock_args : List CStr → Option Block → M (Status × Option Block)
add_subblock_args [] subblock = pure (success, subblock)
add_subblock_args (a ∷ args) subblock = do
  (status, subblock') ← config_block_add_arg subblock a
  elim status [ success ↦ add_subblock_args args subblock' | failed ↦ pure (failed, subblock') ]

unfoldable pub cfgf_easy_add_subblock_args :
    Option Block → CStr → List CStr → M (Option Block × Option Block)
unfolding add_subblock_args
cfgf_easy_add_subblock_args none name args = pure (none, none)
cfgf_easy_add_subblock_args (some b) name args = do
  created ← config_block_create name
  if not (is_some created) then pure (none, some b) else (do
    (stored, subblock) ← add_subblock_args (up_to_null args) created
    elim stored [
      | failed ↦ (do config_block_free subblock; pure (none, some b))
      | success ↦ (do
        (status, b') ← config_block_add_subblock (some b) subblock
        elim status [
          | success ↦ pure (subblock, b')
          | failed ↦ (do config_block_free subblock; pure (none, b'))
        ])
    ])

unfoldable pub cfgf_easy_add_subblock : Option Block → CStr → M (Option Block × Option Block)
cfgf_easy_add_subblock none name = pure (none, none)
cfgf_easy_add_subblock (some b) name = do
  subblock ← config_block_create name
  if not (is_some subblock) then pure (none, some b) else (do
    (status, b') ← config_block_add_subblock (some b) subblock
    elim status [
      | success ↦ pure (subblock, b')
      | failed ↦ (do config_block_free subblock; pure (none, b'))
    ])
