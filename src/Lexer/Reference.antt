-- ===== src/Lexer/Reference.antt =====
-- The lexer without its buffers, its allocations and its messages: a pure function that the grammar of
-- the parser and the round trip stand on. It shares the tests on single bytes with the lexer;
-- Lexer/Described says what they have to be.
use deadline_knapp_verparsed.Base.{
  ℕ, ◌||◌, true, false, [], ◌∷◌, Option, none, some, Bytes, ◌==◌, if◌then◌else◌,
}
use deadline_knapp_verparsed.Lexer.{
  token_eof, token_word, token_lbrace, token_rbrace, token_semicolon, Token, plain_token,
  error_token, c_text, isspace, is_delimiter, unescape, skip_ws_and_comments,
}

-- The word token of the bytes that were collected; an empty buffer was never allocated.
abbrev pub text_of : Bytes → Option Bytes
text_of [] = none
text_of (c ∷ t) = some (c ∷ t)

unfoldable pub word_of : Bytes → Token
word_of t = record { kind = token_word; lexeme = c_text (text_of t) }

abbrev pub Ends : Type 0
Ends = Option (Bytes × Bytes)

abbrev pub prepend : ℕ → Ends → Ends
prepend c none = none
prepend c (some (t, s)) = some (c ∷ t, s)

-- The bytes up to the closing quote, with escapes resolved, and the bytes behind it.
unfoldable mutual
  pub quoted : ℕ → Bytes → Ends
  quoted quote [] = none
  quoted quote (c ∷ s) =
      if c == quote
      then some ([], s)
      else elim (c == b'\\') [ true ↦ escaped quote s | false ↦ prepend c (quoted quote s) ]

  pub escaped : ℕ → Bytes → Ends
  escaped quote [] = none
  escaped quote (c ∷ s) = prepend (unescape c) (quoted quote s)

-- A bare word, and what is left behind it: white space that ends it is consumed.
unfoldable pub bare : Bytes → Bytes × Bytes
bare [] = ([], [])
bare (c ∷ s) =
    if isspace c
    then ([], s)
    else if is_delimiter c
    then ([], c ∷ s)
    else (c ∷ (bare s).0, (bare s).1)

unfoldable pub quoted_token : Ends → Token × Bytes
quoted_token none = (error_token, [])
quoted_token (some (t, s)) = (word_of t, s)

unfoldable pub token_at : Bytes → Token × Bytes
token_at [] = (plain_token token_eof, [])
token_at (c ∷ s) =
    if c == b'{'
    then (plain_token token_lbrace, s)
    else if c == b'}'
    then (plain_token token_rbrace, s)
    else if c == b';'
    then (plain_token token_semicolon, s)
    else if c == b'"' || c == b'\''
    then quoted_token (quoted c s)
    else (word_of (bare (c ∷ s)).0, (bare (c ∷ s)).1)

unfoldable pub next_token : Bytes → Token × Bytes
next_token s = token_at (skip_ws_and_comments s)
