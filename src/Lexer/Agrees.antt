-- ===== src/Lexer/Agrees.antt =====
-- The lexer reads the tokens that the format describes.
use deadline_knapp_verparsed.Base.{
  ℕ, true, false, ◌||◌, [], ◌∷◌, Option, none, some, Bytes, ◌==◌, ◌≡◌, refl, inl, inr, arith,
  Bool-cases, ap, sym, ◌∙◌,
}
use deadline_knapp_verparsed.Runtime.{World}
use deadline_knapp_verparsed.Runtime.Ensures.{Steady, Ensures}
use deadline_knapp_verparsed.Lexer.{
  Token, c_string, isspace, is_delimiter, unescape, skip_ws_and_comments, skip_comment, lex_token,
}
use deadline_knapp_verparsed.Lexer.Reference.{
  word_of, Ends, prepend, quoted, escaped, bare, quoted_token, token_at, next_token,
}
use deadline_knapp_verparsed.Lexer.Described.{
  blanks, quotes, escapes, one_of, entry, ends_word, before, from, visible, without_blank, word,
  or_itself, with_byte, up_to_quote, quoted_word, described_at, described,
}
use deadline_knapp_verparsed.Lexer.Correct.{Lexes, lex_token-Lexes}

isspace-one_of : (c : ℕ) → isspace c ≡ one_of c blanks
unfolding isspace
isspace-one_of c = ground arith

unescape-or_itself : (c : ℕ) → unescape c ≡ or_itself c (entry c escapes)
unfolding unescape
unescape-or_itself c = ground arith

ends_word-is_delimiter : (c : ℕ) → ends_word c ≡ isspace c || is_delimiter c
unfolding isspace is_delimiter
ends_word-is_delimiter c = ground arith

mutual
  unfolding skip_ws_and_comments skip_comment visible

  skip_ws_and_comments-visible : (s : Bytes) → skip_ws_and_comments s ≡ visible false s
  skip_ws_and_comments-visible [] = refl
  skip_ws_and_comments-visible (c ∷ s) = elim (Bool-cases (isspace c)) [
    | inl blank ↦
        let blank' = sym (isspace-one_of c) ∙ blank in
        rw (blank, blank', skip_ws_and_comments, visible) (skip_ws_and_comments-visible s)
    | inr other ↦
        let other' = sym (isspace-one_of c) ∙ other in
        elim (Bool-cases (c == b'#')) [
          | inl comment ↦
              rw (other, other', comment, skip_ws_and_comments, visible) (skip_comment-visible s)
          | inr plain ↦ rw (other, other', plain, skip_ws_and_comments, visible) refl
        ]
  ]

  skip_comment-visible : (s : Bytes) → skip_comment s ≡ visible true s
  skip_comment-visible [] = refl
  skip_comment-visible (c ∷ s) = elim (Bool-cases (c == b'\n')) [
    | inl last ↦ rw (last, skip_comment, visible) (skip_ws_and_comments-visible s)
    | inr more ↦ rw (more, skip_comment, visible) (skip_comment-visible s)
  ]

c_string-before : (t : Bytes) → c_string t ≡ before (λ d. d == 0) t
unfolding before
c_string-before [] = refl
c_string-before (c ∷ t) = rw (c_string-before t) refl

word_of-word : (t : Bytes) → word_of t ≡ word t
unfolding word_of
word_of-word [] = refl
word_of-word (c ∷ t) = rw (c_string-before (c ∷ t)) refl

prepend-with_byte : (c : ℕ) (e f : Option (Bytes × Bytes)) → e ≡ f → prepend c e ≡ with_byte c f
prepend-with_byte c none f h = rw (← h) refl
prepend-with_byte c (some (t, s)) f h = rw (← h) refl

mutual
  unfolding quoted escaped up_to_quote

  quoted-up_to_quote : (quote : ℕ) (s : Bytes) → quoted quote s ≡ up_to_quote quote false s
  quoted-up_to_quote quote [] = refl
  quoted-up_to_quote quote (c ∷ s) = elim (Bool-cases (c == quote)) [
    | inl closes ↦ rw (closes, quoted, up_to_quote) refl
    | inr inside ↦ elim (Bool-cases (c == b'\\')) [
      | inl escape ↦ rw (inside, escape, quoted, up_to_quote) (escaped-up_to_quote quote s)
      | inr plain ↦
          rw (inside, plain, quoted, up_to_quote)
            (prepend-with_byte c _ _ (quoted-up_to_quote quote s))
    ]
  ]

  escaped-up_to_quote : (quote : ℕ) (s : Bytes) → escaped quote s ≡ up_to_quote quote true s
  escaped-up_to_quote quote [] = refl
  escaped-up_to_quote quote (c ∷ s) =
      rw (← unescape-or_itself c) (prepend-with_byte (unescape c) _ _ (quoted-up_to_quote quote s))

bare-before : (s : Bytes) → bare s ≡ (before ends_word s, without_blank (from ends_word s))
unfolding bare before from
bare-before [] = refl
bare-before (c ∷ s) = elim (Bool-cases (isspace c)) [
  | inl blank ↦
      let blank' = sym (isspace-one_of c) ∙ blank in
      let ends : ends_word c ≡ true = ends_word-is_delimiter c ∙ rw blank refl in
      rw (blank, ends, blank', bare, before, from) refl
  | inr other ↦
      let other' = sym (isspace-one_of c) ∙ other in
      elim (Bool-cases (is_delimiter c)) [
        | inl stops ↦
            let ends : ends_word c ≡ true = ends_word-is_delimiter c ∙ rw (other, stops) refl in
            rw (other, stops, ends, other', bare, before, from) refl
        | inr plain ↦
            let more : ends_word c ≡ false = ends_word-is_delimiter c ∙ rw (other, plain) refl in
            rw (other, plain, more, bare, before, from) (ap (λ r. (c ∷ r.0, r.1)) (bare-before s))
      ]
]

quoted_token-quoted_word : (e : Ends) → quoted_token e ≡ quoted_word e
unfolding quoted_token
quoted_token-quoted_word none = refl
quoted_token-quoted_word (some (t, s)) = rw (word_of-word t) refl

token_at-described_at : (s : Bytes) → token_at s ≡ described_at s
unfolding token_at described_at
token_at-described_at [] = refl
token_at-described_at (c ∷ s) = elim (Bool-cases (c == b'{')) [
  | inl opens ↦ rw (opens, token_at, described_at) refl
  | inr a₁ ↦ elim (Bool-cases (c == b'}')) [
    | inl closes ↦ rw (a₁, closes, token_at, described_at) refl
    | inr a₂ ↦ elim (Bool-cases (c == b';')) [
      | inl ends ↦ rw (a₁, a₂, ends, token_at, described_at) refl
      | inr a₃ ↦ other_token a₁ a₂ a₃
    ]
  ]
]
  where
    other_token :
        c == b'{' ≡ false
        → c == b'}' ≡ false
        → c == b';' ≡ false
        → token_at (c ∷ s) ≡ described_at (c ∷ s)
    other_token a₁ a₂ a₃ = elim (Bool-cases (c == b'"' || c == b'\'')) [
      | inl quote ↦
          let quote' : one_of c quotes ≡ true = ground (arith, quote) in
          rw (a₁, a₂, a₃, quote, quote', token_at, described_at, quoted-up_to_quote c s)
            (quoted_token-quoted_word (up_to_quote c false s))
      | inr bare_word ↦
          let bare_word' : one_of c quotes ≡ false = ground (arith, bare_word) in
          rw
            (
              a₁,
              a₂,
              a₃,
              bare_word,
              bare_word',
              token_at,
              described_at,
              bare-before (c ∷ s),
              word_of-word (before ends_word (c ∷ s)),
            )
            refl
    ]

next_token-described : (s : Bytes) → next_token s ≡ described s
unfolding next_token described
next_token-described s =
    token_at-described_at (skip_ws_and_comments s)
    ∙ ap described_at (skip_ws_and_comments-visible s)

-- What a call of `lex_token` on the stream `s` may end with: the token and the rest that `described`
-- gives, with the text of the token as the only new allocation; or, only after a refused request,
-- an error token with nothing allocated.
abbrev pub Reads : World → ℕ → Bytes → Token × Bytes → World → Type 0
Reads w₀ n s = Lexes w₀ n (described s)

-- For every allocator and stream, `lex_token` returns the token and the rest of the stream that
-- `described` gives, with the text of the token as the only new allocation; or, only after a
-- refused request, an error token with nothing allocated. It faults only after a refused request.
pub lex_token-Reads :
    {w₀ w : World} (s : Bytes) (n : ℕ)
    → Steady w₀ w
    → w.live ≡ n
    → Ensures w₀ (Reads w₀ n s) (lex_token s w)
lex_token-Reads {w₀} {w} s n st e = rw (next_token-described s) at (lex_token-Lexes n st e s)
