-- ===== src/Serializer.antt =====
-- configloader/configfile_serialize.c. The functions return 0 on every path and no caller of the
-- inner ones looks at the result; only `config_serialize` keeps its status here.
pub mod Render
pub mod Emits
pub mod Correct
use deadline_knapp_verparsed.Base.{
  ℕ, zero, suc, ◌+◌, Bool, true, false, not, List, [], ◌∷◌, none, some, Bytes, codes, is_empty,
  if◌then◌else◌,
}
use deadline_knapp_verparsed.Runtime.{
  M, ◌>>=◌, ◌>>◌, pure, crash, CStr, Status, success, Piece, text, arg,
}
use deadline_knapp_verparsed.Printer.{output, cfg_fprintf}
use deadline_knapp_verparsed.Logger.{log_info, log_debug}
use deadline_knapp_verparsed.Sysunsafe.{str_equal, sys_unsafe_log_info}
use deadline_knapp_verparsed.Configfile.{Directive, Block, Blocks, block, nil, cons}

-- INDENT_BY of defines.h
abbrev pub indent_by : Bytes
indent_by = codes "    "

unfoldable pub indent : ℕ → M (Unit {0})
indent zero = pure tt
indent (suc level) = do cfg_fprintf output (text indent_by ∷ []); indent level

-- The loop over the arguments but the last, and the call for the last.
unfoldable pub write_args : CStr → List CStr → M (Unit {0})
write_args a [] = do cfg_fprintf output (arg a ∷ text (codes ";\n") ∷ []); pure tt
write_args a (a' ∷ args) = do cfg_fprintf output (arg a ∷ text (codes " ") ∷ []); write_args a' args

unfoldable pub write_directive : CStr → List CStr → M (Unit {0})
write_directive name [] = do cfg_fprintf output (arg name ∷ text (codes ";\n") ∷ []); pure tt
write_directive name (a ∷ args) = do
  cfg_fprintf output (arg name ∷ text (codes " ") ∷ [])
  write_args a args

unfoldable pub serialize_directive : Directive → ℕ → M (Unit {0})
serialize_directive d level = do
  log_info (arg d.name ∷ [])
  indent level
  write_directive d.name d.args

-- The loops of `serialize_block` over the arguments and over the directives.
unfoldable pub write_block_args : List CStr → M (Unit {0})
write_block_args [] = pure tt
write_block_args (a ∷ args) = do
  cfg_fprintf output (arg a ∷ text (codes " ") ∷ [])
  write_block_args args

unfoldable pub serialize_directives : List Directive → ℕ → M (Unit {0})
serialize_directives [] level = pure tt
serialize_directives (d ∷ ds) level = do serialize_directive d level; serialize_directives ds level

-- `strncmp(block_name, "main", sizeof("main")) != 0`: five bytes are compared, the last of them the
-- NUL of "main".
unfoldable pub is_not_main : CStr → M Bool
is_not_main none = crash
is_not_main (some name) = pure (not (str_equal name (codes "main")))

unfoldable pub open_context : Bool → CStr → List CStr → ℕ → M (Unit {0})
open_context false name args level = pure tt
open_context true name args level = do
  indent level
  cfg_fprintf output (arg name ∷ text (codes " ") ∷ [])
  write_block_args args
  cfg_fprintf output (text (codes "{\n") ∷ [])
  pure tt

unfoldable pub close_context : Bool → ℕ → M (Unit {0})
close_context false level = pure tt
close_context true level = do indent level; cfg_fprintf output (text (codes "}\n") ∷ []); pure tt

unfoldable pub space_before_subblocks : List Directive → M (Unit {0})
space_before_subblocks [] = pure tt
space_before_subblocks (d ∷ ds) = do cfg_fprintf output (text (codes "\n") ∷ []); pure tt

unfoldable mutual
  pub serialize_block : Block → ℕ → M (Unit {0})
  serialize_block (block name args directives subblocks) level = do
    sys_unsafe_log_info (arg name ∷ [])
    named ← is_not_main name
    let inner = if named then level + 1 else level
    open_context named name args level
    serialize_directives directives inner
    space_before_subblocks directives
    serialize_blocks subblocks inner
    close_context named level

  pub serialize_blocks : Blocks → ℕ → M (Unit {0})
  serialize_blocks nil level = pure tt
  serialize_blocks (cons b bs) level = do serialize_block b level; serialize_blocks bs level

unfoldable pub config_serialize : Block → M Status
config_serialize b = do
  log_debug (text (codes "serializing configuration") ∷ [])
  serialize_block b 0
  pure success
