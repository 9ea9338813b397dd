-- ===== src/Lexer.antt =====
-- configloader/configfile_deserialize.c, the lexer. A stream is the list of the bytes that are
-- still to be read; at its end `fgetc` returns EOF. `ungetc` of the byte just read succeeds, as
-- the C standard promises for one byte, so its failure has no branch here.
pub mod Reference
pub mod Buffers
pub mod Skipped
pub mod Correct
pub mod Described
pub mod Agrees
pub mod Progress
pub mod Texts
use deadline_knapp_verparsed.Base.{
  ℕ, ◌+◌, ◌*◌, ◌%◌, ◌^◌, Bool, true, false, ◌&&◌, ◌||◌, List, [], ◌∷◌, ◌++◌, Option, none, some,
  Bytes, codes, is_some, leb, ltb, ◌==◌, if◌then◌else◌,
}
use deadline_knapp_verparsed.Runtime.{
  M, ◌>>=◌, ◌>>◌, pure, crash, CStr, Status, success, failed, Piece, text, realloc, free,
}
use deadline_knapp_verparsed.Sysunsafe.{sys_unsafe_log_info}

pub data TokenKind : Type 0 where
  token_eof token_word token_lbrace token_rbrace token_semicolon token_error : TokenKind

pub record Token : Type 0 where
  pub kind : TokenKind
  pub lexeme : CStr

-- The growing byte buffer of `lex_token`: its pointer, with the bytes before the final NUL.
pub record Buffer : Type 0 where
  pub buffer : Option Bytes
  pub len : ℕ
  pub cap : ℕ

abbrev pub no_buffer : Buffer
no_buffer = record { buffer = none; len = 0; cap = 0 }

-- A buffer grows only when the bytes in it have filled it, so the doubling wraps at 64 bits only
-- for a buffer of 2^63 bytes, which no memory holds; the wrap is not modelled.
abbrev pub grown : ℕ → ℕ
grown cap = if cap == 0 then 32 else cap * 2

abbrev pub contents : Option Bytes → Bytes
contents none = []
contents (some t) = t

-- The two stores at the end of `buffer_append`, at `len` and `len + 1`; a store behind the
-- capacity is a fault.
unfoldable pub buffer_put : Option Bytes → Buffer → ℕ → M (Status × Buffer)
buffer_put none b ch = crash
buffer_put (some t) b ch =
    if ltb (b.len + 1) b.cap
    then pure (success, record b { buffer = some (t ++ ch ∷ []); len = b.len + 1 })
    else crash

unfoldable pub buffer_append : Buffer → ℕ → M (Status × Buffer)
unfolding buffer_put realloc
buffer_append b ch =
    if leb b.cap (b.len + 1)
    then (do
      granted ← realloc (is_some b.buffer)
      if granted
          then (let t = contents b.buffer in
              buffer_put (some t) (record b { buffer = some t; cap = grown b.cap }) ch)
          else pure (failed, b))
    else buffer_put b.buffer b ch

-- `isspace` in the C locale.
unfoldable pub isspace : ℕ → Bool
isspace c = c == b' ' || leb 9 c && leb c 13

-- The loop of `skip_ws_and_comments`, and its inner loop over a comment.
unfoldable mutual
  unfolding isspace

  pub skip_ws_and_comments : Bytes → Bytes
  skip_ws_and_comments [] = []
  skip_ws_and_comments (ch ∷ s) = elim (isspace ch) [
    | true ↦ skip_ws_and_comments s
    | false ↦ elim (ch == b'#') [ true ↦ skip_comment s | false ↦ ch ∷ s ]
  ]

  pub skip_comment : Bytes → Bytes
  skip_comment [] = []
  skip_comment (ch ∷ s) = elim (ch == b'\n') [
    | true ↦ skip_ws_and_comments s
    | false ↦ skip_comment s
  ]

-- What is read of a buffer as a C string: the bytes before the first NUL.
abbrev pub c_string : Bytes → Bytes
c_string [] = []
c_string (c ∷ t) = if c == 0 then [] else c ∷ c_string t

abbrev pub c_text : Option Bytes → CStr
c_text none = none
c_text (some t) = some (c_string t)

abbrev pub plain_token : TokenKind → Token
plain_token k = record { kind = k; lexeme = none }

abbrev pub word_token : Buffer → Token
word_token b = record { kind = token_word; lexeme = c_text b.buffer }

abbrev pub error_token : Token
error_token = plain_token token_error

unfoldable pub unescape : ℕ → ℕ
unescape ch =
    if ch == b'n' then b'\n' else if ch == b'r' then b'\r' else if ch == b't' then b'\t' else ch

-- The way out of `lex_token` with an error, freeing the buffer.
unfoldable pub lex_failure : Buffer → Bytes → M (Token × Bytes)
unfolding free
lex_failure b s = do free (is_some b.buffer); pure (error_token, s)

-- `%c` of EOF, which is -1, writes the byte 255.
abbrev pub unterminated_escape : List Piece
unterminated_escape =
    text (codes "unterminated escape sequence encountered during deserialization: ")
    ∷ text (255 ∷ [])
    ∷ []

abbrev pub unterminated_quote : List Piece
unterminated_quote =
    text (codes "unterminated quoted token encountered during deserialization: EOF") ∷ []

-- The loop of `lex_token` inside quotes, and its part behind a backslash.
unfoldable mutual
  pub lex_quoted : ℕ → Buffer → Bytes → M (Token × Bytes)
  lex_quoted quote b [] = do sys_unsafe_log_info unterminated_quote; lex_failure b []
  lex_quoted quote b (ch ∷ s) = if ch == quote then pure (word_token b, s) else elim (ch == b'\\') [
    | true ↦ lex_escaped quote b s
    | false ↦ (do
      (status, b') ← buffer_append b ch
      elim status [ success ↦ lex_quoted quote b' s | failed ↦ lex_failure b' s ])
  ]

  pub lex_escaped : ℕ → Buffer → Bytes → M (Token × Bytes)
  lex_escaped quote b [] = do sys_unsafe_log_info unterminated_escape; lex_failure b []
  lex_escaped quote b (ch ∷ s) = do
    (status, b') ← buffer_append b (unescape ch)
    elim status [ success ↦ lex_quoted quote b' s | failed ↦ lex_failure b' s ]

unfoldable pub is_delimiter : ℕ → Bool
is_delimiter ch = ch == b'{' || ch == b'}' || ch == b';' || ch == b'#' || ch == b'"' || ch == b'\''

-- The end of `lex_token`, behind the loop over a bare word.
unfoldable pub finish_word : Buffer → Bytes → M (Token × Bytes)
finish_word b s = if is_some b.buffer then pure (word_token b, s) else pure (error_token, s)

-- The loop of `lex_token` over a bare word; the head of the stream is `ch`.
unfoldable pub lex_word : Buffer → Bytes → M (Token × Bytes)
lex_word b [] = finish_word b []
lex_word b (ch ∷ s) =
    if isspace ch then finish_word b s else if is_delimiter ch then finish_word b (ch ∷ s) else (do
      (status, b') ← buffer_append b ch
      elim status [ success ↦ lex_word b' s | failed ↦ lex_failure b' s ])

-- `lex_token` behind the call of `skip_ws_and_comments`.
unfoldable pub lex_at : Bytes → M (Token × Bytes)
lex_at [] = pure (plain_token token_eof, [])
lex_at (ch ∷ s) =
    if ch == b'{'
    then pure (plain_token token_lbrace, s)
    else if ch == b'}'
    then pure (plain_token token_rbrace, s)
    else if ch == b';'
    then pure (plain_token token_semicolon, s)
    else if ch == b'"' || ch == b'\''
    then lex_quoted ch no_buffer s
    else lex_word no_buffer (ch ∷ s)

unfoldable pub lex_token : Bytes → M (Token × Bytes)
lex_token s = lex_at (skip_ws_and_comments s)
