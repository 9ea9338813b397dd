-- ===== src/Lexer/Described.antt =====
-- The tokens of a configuration text, described by tables and searches, with none of the functions
-- of the lexer.
use deadline_knapp_verparsed.Base.{
  ℕ, Bool, true, false, ◌||◌, List, [], ◌∷◌, Option, none, some, Bytes, ◌==◌, if◌then◌else◌,
}
use deadline_knapp_verparsed.Runtime.{CStr}
use deadline_knapp_verparsed.Lexer.{
  TokenKind, token_eof, token_word, token_lbrace, token_rbrace, token_semicolon, token_error, Token,
}

-- Space, tab, newline, carriage return, vertical tab and form feed.
abbrev pub blanks : Bytes
blanks = b' ' ∷ b'\t' ∷ b'\n' ∷ b'\r' ∷ 11 ∷ 12 ∷ []

abbrev pub quotes : Bytes
quotes = b'"' ∷ b'\'' ∷ []

abbrev pub punctuation : List (ℕ × TokenKind)
punctuation = (b'{', token_lbrace) ∷ (b'}', token_rbrace) ∷ (b';', token_semicolon) ∷ []

-- The letters behind a backslash that stand for another byte.
abbrev pub escapes : List (ℕ × ℕ)
escapes = (b'n', b'\n') ∷ (b'r', b'\r') ∷ (b't', b'\t') ∷ []

abbrev pub one_of : ℕ → Bytes → Bool
one_of c [] = false
one_of c (d ∷ ds) = c == d || one_of c ds

abbrev pub entry {ℓ} : {A : Type ℓ} → ℕ → List (ℕ × A) → Option A
entry c [] = none
entry c ((d, a) ∷ table) = if c == d then some a else entry c table

-- A byte that ends a bare word.
abbrev pub ends_word : ℕ → Bool
ends_word c = one_of c blanks || (one_of c quotes || one_of c (b'{' ∷ b'}' ∷ b';' ∷ b'#' ∷ []))

-- The bytes before the first one that passes the test, and the bytes from it on.
unfoldable pub before : (ℕ → Bool) → Bytes → Bytes
before p [] = []
before p (c ∷ s) = if p c then [] else c ∷ before p s

unfoldable pub from : (ℕ → Bool) → Bytes → Bytes
from p [] = []
from p (c ∷ s) = if p c then c ∷ s else from p s

-- The text without the blanks and the comments at its front; the flag tells whether it begins
-- within a comment.
unfoldable pub visible : Bool → Bytes → Bytes
visible comment [] = []
visible true (c ∷ s) = elim (c == b'\n') [ true ↦ visible false s | false ↦ visible true s ]
visible false (c ∷ s) = elim (one_of c blanks) [
  | true ↦ visible false s
  | false ↦ elim (c == b'#') [ true ↦ visible true s | false ↦ c ∷ s ]
]

abbrev pub without_blank : Bytes → Bytes
without_blank [] = []
without_blank (c ∷ s) = if one_of c blanks then s else c ∷ s

-- The lexeme is what a C string shows of the bytes, and NULL if there are none.
abbrev pub shown : Bytes → CStr
shown [] = none
shown (c ∷ t) = some (before (λ d. d == 0) (c ∷ t))

abbrev pub word : Bytes → Token
word t = record { kind = token_word; lexeme = shown t }

abbrev pub sign : TokenKind → Token
sign k = record { kind = k; lexeme = none }

abbrev pub or_itself : ℕ → Option ℕ → ℕ
or_itself c none = c
or_itself c (some d) = d

abbrev pub with_byte : ℕ → Option (Bytes × Bytes) → Option (Bytes × Bytes)
with_byte c none = none
with_byte c (some (t, s)) = some (c ∷ t, s)

-- The text up to the closing quote and what is behind it, if there is one; the flag tells whether
-- a backslash stands before.
unfoldable pub up_to_quote : ℕ → Bool → Bytes → Option (Bytes × Bytes)
up_to_quote quote escape [] = none
up_to_quote quote true (c ∷ s) =
    with_byte (or_itself c (entry c escapes)) (up_to_quote quote false s)
up_to_quote quote false (c ∷ s) = elim (c == quote) [
  | true ↦ some ([], s)
  | false ↦ elim (c == b'\\') [
    | true ↦ up_to_quote quote true s
    | false ↦ with_byte c (up_to_quote quote false s)
  ]
]

abbrev pub quoted_word : Option (Bytes × Bytes) → Token × Bytes
quoted_word none = (sign token_error, [])
quoted_word (some (t, s)) = (word t, s)

-- The token that a text without blanks and comments at its front begins with, and the rest.
unfoldable pub described_at : Bytes → Token × Bytes
described_at [] = (sign token_eof, [])
described_at (c ∷ s) = elim (entry c punctuation) [
  | some k ↦ (sign k, s)
  | none ↦ elim (one_of c quotes) [
    | true ↦ quoted_word (up_to_quote c false s)
    | false ↦ (word (before ends_word (c ∷ s)), without_blank (from ends_word (c ∷ s)))
  ]
]

unfoldable pub described : Bytes → Token × Bytes
described s = described_at (visible false s)
