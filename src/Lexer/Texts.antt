-- ===== src/Lexer/Texts.antt =====
-- Which streams of configloader/configfile_deserialize.c have words without a text. A quoted token
-- with nothing between its quotes never allocates its buffer, so its text is NULL.
use deadline_knapp_verparsed.Base.{
  ℕ, ◌||◌, ◌&&◌, Bool, true, false, [], ◌∷◌, none, some, Bytes, ◌≡◌, ◌≢◌, inl, inr, Bool-cases,
  ◌==◌,
}
use deadline_knapp_verparsed.Lexer.{
  token_word, Token, isspace, is_delimiter, skip_ws_and_comments, skip_comment,
}
use deadline_knapp_verparsed.Lexer.Reference.{
  word_of, Ends, prepend, quoted, escaped, bare, quoted_token, token_at, next_token,
}
use deadline_knapp_verparsed.Lexer.Skipped.{
  IsSkipped, skip_ws_and_comments-IsSkipped, is_delimiter-false,
}

-- A quote, and the same quote next to it.
unfoldable pub is_empty_quote : ℕ → Bytes → Bool
is_empty_quote c [] = false
is_empty_quote c (d ∷ s) = (c == b'"' || c == b'\'') && d == c

unfoldable pub has_empty_quote : Bytes → Bool
unfolding is_empty_quote
has_empty_quote [] = false
has_empty_quote (c ∷ s) = is_empty_quote c s || has_empty_quote s

abbrev pub NoEmptyQuotes : Bytes → Type 0
NoEmptyQuotes [] = Unit
NoEmptyQuotes (c ∷ s) = (is_empty_quote c s ≡ false) × NoEmptyQuotes s

pub has_empty_quote-false : (s : Bytes) → has_empty_quote s ≡ false → NoEmptyQuotes s
unfolding has_empty_quote
has_empty_quote-false [] h = tt
has_empty_quote-false (c ∷ s) h = elim (Bool-cases (is_empty_quote c s)) [
  | inl found ↦ let h' : true ≡ false = rw found at h in cc
  | inr missed ↦ (missed, has_empty_quote-false s (rw missed at h))
]

mutual
  unfolding skip_ws_and_comments

  skip_ws-NoEmptyQuotes : (s : Bytes) → NoEmptyQuotes s → NoEmptyQuotes (skip_ws_and_comments s)
  skip_ws-NoEmptyQuotes [] h = tt
  skip_ws-NoEmptyQuotes (c ∷ s) h = elim (Bool-cases (isspace c)) [
    | inl space ↦ rw (NoEmptyQuotes, space) (skip_ws-NoEmptyQuotes s h.1)
    | inr other ↦
        rw (NoEmptyQuotes, other)
          (elim (Bool-cases (c == b'#')) [
            | inl comment ↦ rw (NoEmptyQuotes, comment) (skip_comment-NoEmptyQuotes s h.1)
            | inr first ↦ rw (NoEmptyQuotes, first) h
          ])
  ]

  skip_comment-NoEmptyQuotes : (s : Bytes) → NoEmptyQuotes s → NoEmptyQuotes (skip_comment s)
  skip_comment-NoEmptyQuotes [] h = tt
  skip_comment-NoEmptyQuotes (c ∷ s) h = elim (Bool-cases (c == b'\n')) [
    | inl stop ↦ rw (NoEmptyQuotes, stop) (skip_ws-NoEmptyQuotes s h.1)
    | inr more ↦ rw (NoEmptyQuotes, more) (skip_comment-NoEmptyQuotes s h.1)
  ]

-- What is left behind a closing quote.
abbrev RestFine : Ends → Type 0
RestFine none = Unit
RestFine (some (t, s)) = NoEmptyQuotes s

RestFine-prepend : (c : ℕ) (e : Ends) → RestFine e → RestFine (prepend c e)
RestFine-prepend c none h = tt
RestFine-prepend c (some (t, s)) h = h

mutual
  unfolding quoted

  quoted-RestFine : (s : Bytes) (quote : ℕ) → NoEmptyQuotes s → RestFine (quoted quote s)
  quoted-RestFine [] quote h = tt
  quoted-RestFine (c ∷ s) quote h = elim (Bool-cases (c == quote)) [
    | inl closes ↦ rw closes h.1
    | inr inside ↦ rw inside (elim (Bool-cases (c == b'\\')) [
      | inl k ↦ rw k (escaped-RestFine s quote h.1)
      | inr k ↦ rw k (RestFine-prepend c (quoted quote s) (quoted-RestFine s quote h.1))
    ])
  ]

  escaped-RestFine : (s : Bytes) (quote : ℕ) → NoEmptyQuotes s → RestFine (escaped quote s)
  escaped-RestFine [] quote h = tt
  escaped-RestFine (c ∷ s) quote h =
      RestFine-prepend _ (quoted quote s) (quoted-RestFine s quote h.1)

bare-NoEmptyQuotes : (s : Bytes) → NoEmptyQuotes s → NoEmptyQuotes (bare s).1
unfolding bare
bare-NoEmptyQuotes [] h = tt
bare-NoEmptyQuotes (c ∷ s) h = elim (Bool-cases (isspace c)) [
  | inl space ↦ rw space h.1
  | inr other ↦ rw other (elim (Bool-cases (is_delimiter c)) [
    | inl stop ↦ rw stop h
    | inr more ↦ rw more (bare-NoEmptyQuotes s h.1)
  ])
]

-- Something stands between the quotes, if they are closed.
abbrev NotEmpty : Ends → Type 0
NotEmpty none = Unit
NotEmpty (some ([], s)) = ⊥
NotEmpty (some (c ∷ t, s)) = Unit

NotEmpty-prepend : (c : ℕ) (e : Ends) → NotEmpty (prepend c e)
NotEmpty-prepend c none = tt
NotEmpty-prepend c (some (t, s)) = tt

escaped-NotEmpty : (quote : ℕ) (s : Bytes) → NotEmpty (escaped quote s)
unfolding quoted
escaped-NotEmpty quote [] = tt
escaped-NotEmpty quote (c ∷ s) = NotEmpty-prepend _ (quoted quote s)

quoted-NotEmpty :
    (quote : ℕ) (s : Bytes)
    → (quote == b'"' || quote == b'\'') ≡ true
    → is_empty_quote quote s ≡ false
    → NotEmpty (quoted quote s)
unfolding quoted is_empty_quote
quoted-NotEmpty quote [] is_quote h = tt
quoted-NotEmpty quote (c ∷ s) is_quote h =
    let other : (c == quote) ≡ false = rw is_quote at h in
    rw other (elim (Bool-cases (c == b'\\')) [
      | inl k ↦ rw k (escaped-NotEmpty quote s)
      | inr k ↦ rw k (NotEmpty-prepend c (quoted quote s))
    ])

-- A token that is no word without a text, with a rest in which there is none to come.
abbrev pub HasText : Token × Bytes → Type 0
HasText (tok, s) = (tok ≢ record { kind = token_word; lexeme = none }) × NoEmptyQuotes s

quoted_token-HasText : (e : Ends) → NotEmpty e → RestFine e → HasText (quoted_token e)
unfolding quoted_token word_of
quoted_token-HasText none h k = (λ e. cc, tt)
quoted_token-HasText (some ([], s)) h k = absurd h
quoted_token-HasText (some (c ∷ t, s)) h k = (λ e. cc, k)

word_of-HasText : (c : ℕ) (t s : Bytes) → NoEmptyQuotes s → HasText (word_of (c ∷ t), s)
unfolding word_of
word_of-HasText c t s h = (λ e. cc, h)

bare-HasText :
    (c : ℕ) (s : Bytes)
    → isspace c ≡ false
    → is_delimiter c ≡ false
    → NoEmptyQuotes s
    → HasText (word_of (bare (c ∷ s)).0, (bare (c ∷ s)).1)
unfolding bare
bare-HasText c s h k l =
    rw (h, k) (word_of-HasText c (bare s).0 (bare s).1 (bare-NoEmptyQuotes s l))

token_at-HasText : (s : Bytes) → IsSkipped s → NoEmptyQuotes s → HasText (token_at s)
unfolding token_at
token_at-HasText [] h l = (λ e. cc, tt)
token_at-HasText (c ∷ s) h l = elim (Bool-cases (c == b'{')) [
  | inl yes₁ ↦ rw yes₁ (λ e. cc, l.1)
  | inr no₁ ↦ rw no₁ (elim (Bool-cases (c == b'}')) [
    | inl yes₂ ↦ rw yes₂ (λ e. cc, l.1)
    | inr no₂ ↦ rw no₂ (elim (Bool-cases (c == b';')) [
      | inl yes₃ ↦ rw yes₃ (λ e. cc, l.1)
      | inr no₃ ↦ rw no₃ (elim (Bool-cases (c == b'"' || c == b'\'')) [
        | inl quotes ↦ rw quotes (
            quoted_token-HasText (quoted c s) (quoted-NotEmpty c s quotes l.0)
              (quoted-RestFine s c l.1))
        | inr no₄ ↦ rw no₄ (bare-HasText c s h.0 (is_delimiter-false c no₁ no₂ no₃ no₄ h.1) l.1)
      ])
    ])
  ])
]

-- Where no quote stands next to the same quote, no word without a text is read, and none is to come.
pub next_token-HasText : (s : Bytes) → NoEmptyQuotes s → HasText (next_token s)
unfolding next_token
next_token-HasText s h =
    token_at-HasText (skip_ws_and_comments s) (skip_ws_and_comments-IsSkipped s)
      (skip_ws-NoEmptyQuotes s h)
