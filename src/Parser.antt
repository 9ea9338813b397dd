-- ===== src/Parser.antt =====
-- configloader/configfile_deserialize.c, the parser. The recursion of `parse_contents` and
-- `parse_statement` runs on fuel, one unit for each token that is read.
mod Tokens
pub mod Grammar
pub mod Deterministic
pub mod Steps
pub mod Stores
pub mod Exits
pub mod Correct
pub mod Lifetime
pub mod Fuel
pub mod Present
unfoldable pub use Tokens.*
use deadline_knapp_verparsed.Base.{
  ℕ, zero, suc, Bool, true, false, not, List, [], ◌∷◌, ◌++◌, Option, none, some, Bytes, codes,
  length, is_empty, is_some, if◌then◌else◌,
}
use deadline_knapp_verparsed.Runtime.{
  M, ◌>>=◌, ◌>>◌, pure, CStr, Status, success, failed, Piece, text, arg, Outcome, World, realloc,
  free, out_of_fuel,
}
use deadline_knapp_verparsed.Logger.{log_info, log_debug, log_error}
use deadline_knapp_verparsed.Sysunsafe.{sys_unsafe_log_info}
use deadline_knapp_verparsed.Configfile.{
  Directive, Block, config_directive_create, config_directive_free, config_directive_add_arg,
  config_directive_get_name, config_block_create, config_block_free, config_block_add_arg,
  config_block_add_directive, config_block_add_subblock, free_strings, free_array,
}
use deadline_knapp_verparsed.Lexer.{
  TokenKind, token_eof, token_word, token_lbrace, token_rbrace, token_semicolon, token_error, Token,
  lex_token,
}

-- What a parse function leaves: its result, the block it adds to, and the rest of the stream.
abbrev pub Parsed : Type 0
Parsed = Status × Option Block × Bytes

-- The label `cleanup` of `parse_statement`.
unfoldable pub cleanup : Token → List CStr → Option Block → Bytes → M Parsed
cleanup head args b s = do token_list_free args; token_free head; pure (failed, b, s)

abbrev pub failed_to_store : Token → List Piece
failed_to_store head = text (codes "failed to store '") ∷ arg head.lexeme ∷ text (codes "'") ∷ []

abbrev pub failed_to_lex : Token → List Piece
failed_to_lex head =
    text (codes "failed to lex token while parsing statement '")
    ∷ arg head.lexeme
    ∷ text (codes "'")
    ∷ []

abbrev pub parsing_statement : Token → List Piece
parsing_statement head =
    text (codes "parsing statement starting with '") ∷ arg head.lexeme ∷ text (codes "'") ∷ []

abbrev pub tokenization_failed : List Piece
tokenization_failed = text (codes "tokenization failed while parsing block contents") ∷ []

abbrev pub unexpected_token : List Piece
unexpected_token = text (codes "unexpected token while parsing block contents") ∷ []

-- The way out where a directive, or a subblock, could not be stored.
unfoldable pub drop_directive :
    Token → Token → List CStr → Option Directive → Option Block → Bytes → M Parsed
drop_directive head next args directive b s = do
  log_error (failed_to_store head)
  config_directive_free directive
  token_free next
  cleanup head args b s

unfoldable pub drop_subblock :
    Token → Token → List CStr → Option Block → Option Block → Bytes → M Parsed
drop_subblock head next args subblock b s = do
  log_error (failed_to_store head)
  config_block_free subblock
  token_free next
  cleanup head args b s

-- The end of the branches that have stored something.
unfoldable pub stored : Token → Token → List CStr → Option Block → Bytes → M Parsed
stored head next args b s = do
  token_free next
  token_list_free args
  token_free head
  pure (success, b, s)

-- The branch of `parse_statement` for a semicolon, from the creation of the directive on.
unfoldable pub store_directive : Token → Token → List CStr → Option Block → Bytes → M Parsed
store_directive head next args b s = do
  created ← config_directive_create head.lexeme
  if not (is_some created) then (do token_free next; cleanup head args b s) else (do
    (status, directive) ← add_tokens_to_directive created args
    elim status [
      | failed ↦ drop_directive head next args directive b s
      | success ↦ (do
        (status', b') ← config_block_add_directive b directive
        elim status' [
          | failed ↦ drop_directive head next args directive b' s
          | success ↦ stored head next args b' s
        ])
    ])

-- The branch for an opening brace, behind the call of `parse_contents`.
unfoldable pub store_subblock : Token → Token → List CStr → Option Block → Parsed → M Parsed
store_subblock head next args b (failed, subblock, s) = drop_subblock head next args subblock b s
store_subblock head next args b (success, subblock, s) = do
  (status, b') ← config_block_add_subblock b subblock
  elim status [
    | failed ↦ drop_subblock head next args subblock b' s
    | success ↦ stored head next args b' s
  ]

abbrev pub ended : Bool → Option Block → Bytes → Parsed
ended true b s = (success, b, s)
ended false b s = (failed, b, s)

unfoldable mutual
  -- The loop of `parse_statement`.
  pub statement_loop : ℕ → Token → List CStr → Option Block → Bytes → World → Outcome Parsed
  statement_loop zero head args b s w = out_of_fuel
  statement_loop (suc fuel) head args b s w =
      (do
        (next, s') ← lex_token s
        elim next.kind [
          | token_error ↦ (do
            log_info (failed_to_lex head)
            token_free next
            cleanup head args b s')
          | token_word ↦ (do
            (status, args') ← token_list_add args next.lexeme
            elim status [
              | failed ↦ (do token_free next; cleanup head args b s')
              | success ↦ statement_loop fuel head args' b s'
            ])
          | token_semicolon ↦ store_directive head next args b s'
          | token_lbrace ↦ (do
            created ← config_block_create head.lexeme
            if not (is_some created) then (do token_free next; cleanup head args b s') else (do
              (status, subblock) ← add_tokens_to_block args created
              elim status [
                | failed ↦ drop_subblock head next args subblock b s'
                | success ↦ (do
                  parsed ← parse_contents fuel true subblock s'
                  store_subblock head next args b parsed)
              ]))
          | _ ↦ (do token_free next; cleanup head args b s')
        ])
        w

  -- `parse_contents`, with `expect_closing_brace` second; `parse_statement` is its log call and
  -- the loop.
  pub parse_contents : ℕ → Bool → Option Block → Bytes → World → Outcome Parsed
  parse_contents zero expect b s w = out_of_fuel
  parse_contents (suc fuel) expect b s w =
      (do
        (head, s') ← lex_token s
        elim head.kind [
          | token_error ↦ (do log_info tokenization_failed; token_free head; pure (failed, b, s'))
          | token_eof ↦ (do token_free head; pure (ended (not expect) b s'))
          | token_rbrace ↦ (do token_free head; pure (ended expect b s'))
          | token_word ↦
              (if is_some head.lexeme
                then (do
                  log_debug (parsing_statement head)
                  (status, b', s'') ← statement_loop fuel head [] b s'
                  elim status [
                    | failed ↦ pure (failed, b', s'')
                    | success ↦ parse_contents fuel expect b' s''
                  ])
                else (do log_info unexpected_token; token_free head; pure (failed, b, s')))
          | _ ↦ (do log_info unexpected_token; token_free head; pure (failed, b, s'))
        ])
        w

abbrev pub deserialize_failed : List Piece
deserialize_failed = text (codes "failed to deserialize configuration input") ∷ []

abbrev pub deserialize_succeeded : List Piece
deserialize_succeeded = text (codes "configuration deserialization completed successfully") ∷ []

-- `config_deserialize`; the fuel is enough for every stream.
unfoldable pub config_deserialize : Option Bytes → M (Option Block)
config_deserialize none = pure none
config_deserialize (some stream) = do
  main_block ← config_block_create (some (codes "main"))
  if not (is_some main_block) then pure none else (do
    (status, b, s) ← parse_contents (suc (length stream)) false main_block stream
    elim status [
      | failed ↦ (do log_error deserialize_failed; config_block_free b; pure none)
      | success ↦ (do sys_unsafe_log_info deserialize_succeeded; pure b)
    ])
