-- ===== src/Parser/Tokens.antt =====
-- configloader/configfile_deserialize.c: tokens and token lists.
use deadline_knapp_verparsed.Base.{
  not, List, [], ◌∷◌, ◌++◌, Option, is_empty, is_some, if◌then◌else◌,
}
use deadline_knapp_verparsed.Runtime.{
  M, ◌>>=◌, ◌>>◌, pure, CStr, Status, success, failed, arg, realloc, free,
}
use deadline_knapp_verparsed.Logger.{log_info}
use deadline_knapp_verparsed.Configfile.{
  Directive, Block, config_directive_add_arg, config_directive_get_name, config_block_add_arg,
  free_strings, free_array,
}
use deadline_knapp_verparsed.Lexer.{Token}

-- The token itself is a local variable that is not read again.
unfoldable pub token_free : Token → M (Unit {0})
unfolding free
token_free tok = free (is_some tok.lexeme)

-- `token_list_free`; a token list is the list of its texts.
unfoldable pub token_list_free : List CStr → M (Unit {0})
token_list_free items = do free_strings items; free_array items

unfoldable pub token_list_add : List CStr → CStr → M (Status × List CStr)
unfolding realloc
token_list_add items t = do
  granted ← realloc (not (is_empty items))
  pure (if granted then (success, items ++ t ∷ []) else (failed, items))

-- The loops of `add_tokens_to_directive` and `add_tokens_to_block` over the tokens that are left.
unfoldable pub add_directive_tokens : List CStr → Option Directive → M (Status × Option Directive)
add_directive_tokens [] directive = pure (success, directive)
add_directive_tokens (a ∷ args) directive = do
  (status, directive') ← config_directive_add_arg directive a
  elim status [
    | success ↦ add_directive_tokens args directive'
    | failed ↦ pure (failed, directive')
  ]

unfoldable pub add_tokens_to_directive :
    Option Directive → List CStr → M (Status × Option Directive)
add_tokens_to_directive directive args = do
  log_info (arg (config_directive_get_name directive) ∷ [])
  add_directive_tokens args directive

unfoldable pub add_tokens_to_block : List CStr → Option Block → M (Status × Option Block)
add_tokens_to_block [] b = pure (success, b)
add_tokens_to_block (a ∷ args) b = do
  (status, b') ← config_block_add_arg b a
  elim status [ success ↦ add_tokens_to_block args b' | failed ↦ pure (failed, b') ]
