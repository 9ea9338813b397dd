-- ===== src/Lexer/Progress.antt =====
-- Every token but the end of the stream, and an error, takes at least a byte off the stream.
use deadline_knapp_verparsed.Base.{
  ℕ, ◌≤◌, ◌<◌, ◌||◌, false, [], ◌∷◌, none, some, Bytes, ◌≡◌, arith, inl, inr, Bool-cases, length,
  ◌==◌,
}
use deadline_knapp_verparsed.Runtime.{CStr}
use deadline_knapp_verparsed.Lexer.{
  token_eof, token_word, token_lbrace, token_rbrace, token_semicolon, Token, plain_token,
  error_token, isspace, is_delimiter, skip_ws_and_comments, skip_comment,
}
use deadline_knapp_verparsed.Lexer.Reference.{
  word_of, Ends, prepend, quoted, escaped, bare, quoted_token, token_at, next_token,
}
use deadline_knapp_verparsed.Lexer.Skipped.{
  IsSkipped, skip_ws_and_comments-IsSkipped, is_delimiter-false,
}

-- A token and the rest of the stream `s` behind it, by kinds.
pub data Reads (s : Bytes) : Token × Bytes → Type 0 where
  ends : {s' : Bytes} → length s' ≤ length s → Reads s (plain_token token_eof, s')
  fails : {s' : Bytes} → length s' ≤ length s → Reads s (error_token, s')
  opens : {s' : Bytes} → length s' < length s → Reads s (plain_token token_lbrace, s')
  closes : {s' : Bytes} → length s' < length s → Reads s (plain_token token_rbrace, s')
  stops : {s' : Bytes} → length s' < length s → Reads s (plain_token token_semicolon, s')
  words :
      {s' : Bytes} (a : CStr)
      → length s' < length s
      → Reads s (record { kind = token_word; lexeme = a }, s')

abbrev Shorter : Ends → Bytes → Type 0
Shorter none s = Unit
Shorter (some (t, s')) s = length s' < length s

Shorter-prepend : (c d : ℕ) (e : Ends) (s : Bytes) → Shorter e s → Shorter (prepend c e) (d ∷ s)
Shorter-prepend c d none s h = tt
Shorter-prepend c d (some (t, s')) s h = omega arith

Shorter-cons : (d : ℕ) (e : Ends) (s : Bytes) → Shorter e s → Shorter e (d ∷ s)
Shorter-cons d none s h = tt
Shorter-cons d (some (t, s')) s h = omega arith

mutual
  unfolding quoted

  quoted-Shorter : (s : Bytes) (quote : ℕ) → Shorter (quoted quote s) s
  quoted-Shorter [] quote = tt
  quoted-Shorter (c ∷ s) quote = elim (Bool-cases (c == quote)) [
    | inl h ↦ rw h (omega arith)
    | inr h ↦ rw h (elim (Bool-cases (c == b'\\')) [
      | inl k ↦ rw k (Shorter-cons c (escaped quote s) s (escaped-Shorter s quote))
      | inr k ↦ rw k (Shorter-prepend c c (quoted quote s) s (quoted-Shorter s quote))
    ])
  ]

  escaped-Shorter : (s : Bytes) (quote : ℕ) → Shorter (escaped quote s) s
  escaped-Shorter [] quote = tt
  escaped-Shorter (c ∷ s) quote = Shorter-prepend _ c (quoted quote s) s (quoted-Shorter s quote)

length-bare : (s : Bytes) → length (bare s).1 ≤ length s
unfolding bare
length-bare [] = omega arith
length-bare (c ∷ s) = ground (arith, length-bare s)

quoted_token-Reads : (c : ℕ) (s : Bytes) (e : Ends) → Shorter e s → Reads (c ∷ s) (quoted_token e)
unfolding quoted_token word_of
quoted_token-Reads c s none h = fails (omega arith)
quoted_token-Reads c s (some (t, s')) h = words _ (omega arith)

word_of-Reads : (c : ℕ) (s t s' : Bytes) → length s' ≤ length s → Reads (c ∷ s) (word_of t, s')
unfolding word_of
word_of-Reads c s t s' h = words _ (omega arith)

bare-first :
    (c : ℕ) (s : Bytes)
    → isspace c ≡ false
    → is_delimiter c ≡ false
    → length (bare (c ∷ s)).1 ≤ length s
unfolding bare
bare-first c s h k = rw (h, k) (length-bare s)

token_at-Reads : (s : Bytes) → IsSkipped s → Reads s (token_at s)
unfolding token_at
token_at-Reads [] h = ends (omega arith)
token_at-Reads (c ∷ s) h = elim (Bool-cases (c == b'{')) [
  | inl yes₁ ↦ rw yes₁ (opens (omega arith))
  | inr no₁ ↦ rw no₁ (elim (Bool-cases (c == b'}')) [
    | inl yes₂ ↦ rw yes₂ (closes (omega arith))
    | inr no₂ ↦ rw no₂ (elim (Bool-cases (c == b';')) [
      | inl yes₃ ↦ rw yes₃ (stops (omega arith))
      | inr no₃ ↦ rw no₃ (elim (Bool-cases (c == b'"' || c == b'\'')) [
        | inl quotes ↦ rw quotes (quoted_token-Reads c s (quoted c s) (quoted-Shorter s c))
        | inr no₄ ↦
            rw no₄ (
              word_of-Reads c s _ _ (bare-first c s h.0 (is_delimiter-false c no₁ no₂ no₃ no₄ h.1)))
      ])
    ])
  ])
]

mutual
  unfolding skip_ws_and_comments

  length-skip_ws : (s : Bytes) → length (skip_ws_and_comments s) ≤ length s
  length-skip_ws [] = omega arith
  length-skip_ws (c ∷ s) = ground (arith, length-skip_ws s, length-skip_comment s)

  length-skip_comment : (s : Bytes) → length (skip_comment s) ≤ length s
  length-skip_comment [] = omega arith
  length-skip_comment (c ∷ s) = ground (arith, length-skip_ws s, length-skip_comment s)

Reads-longer : {s s' : Bytes} {r : Token × Bytes} → length s ≤ length s' → Reads s r → Reads s' r
Reads-longer l (ends h) = ends (omega arith)
Reads-longer l (fails h) = fails (omega arith)
Reads-longer l (opens h) = opens (omega arith)
Reads-longer l (closes h) = closes (omega arith)
Reads-longer l (stops h) = stops (omega arith)
Reads-longer l (words a h) = words a (omega arith)

pub next_token-Reads : (s : Bytes) → Reads s (next_token s)
unfolding next_token
next_token-Reads s =
    Reads-longer (length-skip_ws s)
      (token_at-Reads (skip_ws_and_comments s) (skip_ws_and_comments-IsSkipped s))
