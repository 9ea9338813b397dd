-- ===== src/Tests/Runs.antt =====
-- Runs of the parser on small streams.
use deadline_knapp_verparsed.Base.{
  ℕ, true, false, [], ◌∷◌, Option, none, some, Bytes, codes, ◌≡◌, refl,
}
use deadline_knapp_verparsed.Runtime.{Outcome, done, fault, malloc, realloc, free}
use deadline_knapp_verparsed.Configfile.{
  Block, block, nil, config_block_create, config_block_free, config_block_add_arg,
  config_block_add_directive, config_block_add_subblock, config_directive_create,
  config_directive_free, config_directive_add_arg, config_directive_get_name, append_arg, store_arg,
  config_strdup, config_realloc_array, free_array, free_block, free_directives, free_args,
  free_strings,
}
use deadline_knapp_verparsed.Lexer.{
  lex_token, lex_at, skip_ws_and_comments, lex_quoted, lex_word, buffer_append, buffer_put,
  finish_word, is_delimiter, isspace, lex_failure, unescape,
}
use deadline_knapp_verparsed.Logger.{log_debug, log_info, log_error, vlog, log_level_string}
use deadline_knapp_verparsed.Parser.{
  config_deserialize, parse_contents, token_list_add, store_directive, add_tokens_to_directive,
  add_directive_tokens, add_tokens_to_block, cleanup, drop_directive, drop_subblock, store_subblock,
  stored, token_free, token_list_free,
}
use deadline_knapp_verparsed.Printer.{cfg_err_printf, cfg_err_vprintf, cfg_vfprintf}
use deadline_knapp_verparsed.Sysunsafe.{
  sys_unsafe_log_info, sys_unsafe_vlog, sys_unsafe_log_level_string, sys_unsafe_run,
  system_internal_dispatch, echo_command,
}
use deadline_knapp_verparsed.Tests.{main, quiet_world}

-- What a run returns, the allocations it leaves, and what it wrote to stderr.
abbrev Result : Type 0
Result = Option (Option Block) × ℕ × Bytes

abbrev result : Outcome (Option Block) → Result
result (done r w) = (some r, w.live, w.err)
result _ = (none, 0, [])

-- The sample with a comment, quotes and white space of all kinds: its block, which owns 17
-- allocations.
quoted-read :
    result (config_deserialize (some (codes "# one\n\"l\" '8' ; s\ta{l 8;}")) quiet_world)
    ≡ (some (some main), 17, [])
unfolding config_block_create config_block_free config_block_add_arg config_block_add_directive
    config_block_add_subblock config_directive_create config_directive_free config_directive_add_arg
    config_directive_get_name append_arg store_arg config_strdup config_realloc_array free_array
    free_block free_directives free_args free_strings lex_token lex_at skip_ws_and_comments
    lex_quoted lex_word buffer_append buffer_put finish_word is_delimiter isspace lex_failure
    unescape log_debug log_info log_error vlog log_level_string sys_unsafe_log_level_string
    config_deserialize parse_contents token_list_add store_directive add_tokens_to_directive
    add_directive_tokens add_tokens_to_block cleanup drop_directive drop_subblock store_subblock
    stored token_free token_list_free malloc realloc free cfg_err_printf cfg_err_vprintf
    cfg_vfprintf sys_unsafe_log_info sys_unsafe_vlog sys_unsafe_run system_internal_dispatch
    echo_command
quoted-read = refl

-- An escape sequence inside quotes.
escape-read : result (config_deserialize (some (codes "a \"x\\ny\";")) quiet_world) ≡ (
  some (
      some (
        block
          (some (codes "main"))
          []
          (record { name = some (codes "a"); args = some (codes "x\ny") ∷ [] } ∷ [])
          nil)),
  7,
  [],
)
unfolding config_block_create config_block_free config_block_add_arg config_block_add_directive
    config_block_add_subblock config_directive_create config_directive_free config_directive_add_arg
    config_directive_get_name append_arg store_arg config_strdup config_realloc_array free_array
    free_block free_directives free_args free_strings lex_token lex_at skip_ws_and_comments
    lex_quoted lex_word buffer_append buffer_put finish_word is_delimiter isspace lex_failure
    unescape log_debug log_info log_error vlog log_level_string sys_unsafe_log_level_string
    config_deserialize parse_contents token_list_add store_directive add_tokens_to_directive
    add_directive_tokens add_tokens_to_block cleanup drop_directive drop_subblock store_subblock
    stored token_free token_list_free malloc realloc free cfg_err_printf cfg_err_vprintf
    cfg_vfprintf sys_unsafe_log_info sys_unsafe_vlog sys_unsafe_run system_internal_dispatch
    echo_command
escape-read = refl

-- An argument `""` becomes a NULL pointer, since its buffer is never allocated.
empty_quotes-read : result (config_deserialize (some (codes "a \"\";")) quiet_world) ≡ (
  some (
      some (
        block
          (some (codes "main"))
          []
          (record { name = some (codes "a"); args = none ∷ [] } ∷ [])
          nil)),
  6,
  [],
)
unfolding config_block_create config_block_free config_block_add_arg config_block_add_directive
    config_block_add_subblock config_directive_create config_directive_free config_directive_add_arg
    config_directive_get_name append_arg store_arg config_strdup config_realloc_array free_array
    free_block free_directives free_args free_strings lex_token lex_at skip_ws_and_comments
    lex_quoted lex_word buffer_append buffer_put finish_word is_delimiter isspace lex_failure
    unescape log_debug log_info log_error vlog log_level_string sys_unsafe_log_level_string
    config_deserialize parse_contents token_list_add store_directive add_tokens_to_directive
    add_directive_tokens add_tokens_to_block cleanup drop_directive drop_subblock store_subblock
    stored token_free token_list_free malloc realloc free cfg_err_printf cfg_err_vprintf
    cfg_vfprintf sys_unsafe_log_info sys_unsafe_vlog sys_unsafe_run system_internal_dispatch
    echo_command
empty_quotes-read = refl

-- A closing brace is missing: a message, no block, and nothing is left allocated.
missing_brace-read : result (config_deserialize (some (codes "a {b;")) quiet_world) ≡ (
  some none,
  0,
  codes "[ERROR] failed to store 'a'\n[ERROR] failed to deserialize configuration input\n",
)
unfolding config_block_create config_block_free config_block_add_arg config_block_add_directive
    config_block_add_subblock config_directive_create config_directive_free config_directive_add_arg
    config_directive_get_name append_arg store_arg config_strdup config_realloc_array free_array
    free_block free_directives free_args free_strings lex_token lex_at skip_ws_and_comments
    lex_quoted lex_word buffer_append buffer_put finish_word is_delimiter isspace lex_failure
    unescape log_debug log_info log_error vlog log_level_string sys_unsafe_log_level_string
    config_deserialize parse_contents token_list_add store_directive add_tokens_to_directive
    add_directive_tokens add_tokens_to_block cleanup drop_directive drop_subblock store_subblock
    stored token_free token_list_free malloc realloc free cfg_err_printf cfg_err_vprintf
    cfg_vfprintf sys_unsafe_log_info sys_unsafe_vlog sys_unsafe_run system_internal_dispatch
    echo_command
missing_brace-read = refl

-- The ninth request, the first array of arguments of a directive, is refused: a fault.
refused_array-read :
    config_deserialize (some (codes "a b;")) (record quiet_world {
      answers = true ∷ true ∷ true ∷ true ∷ true ∷ true ∷ true ∷ true ∷ false ∷ [];
    })
    ≡ fault
unfolding config_block_create config_block_free config_block_add_arg config_block_add_directive
    config_block_add_subblock config_directive_create config_directive_free config_directive_add_arg
    config_directive_get_name append_arg store_arg config_strdup config_realloc_array free_array
    free_block free_directives free_args free_strings lex_token lex_at skip_ws_and_comments
    lex_quoted lex_word buffer_append buffer_put finish_word is_delimiter isspace lex_failure
    unescape log_debug log_info log_error vlog log_level_string sys_unsafe_log_level_string
    config_deserialize parse_contents token_list_add store_directive add_tokens_to_directive
    add_directive_tokens add_tokens_to_block cleanup drop_directive drop_subblock store_subblock
    stored token_free token_list_free malloc realloc free cfg_err_printf cfg_err_vprintf
    cfg_vfprintf sys_unsafe_log_info sys_unsafe_vlog sys_unsafe_run system_internal_dispatch
    echo_command
refused_array-read = refl
