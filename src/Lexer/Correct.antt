-- ===== src/Lexer/Correct.antt =====
-- `lex_token` reads what the lexer without buffers reads, for every allocator, or reports an error
-- because a request was refused; the bytes of the token are the only allocation that it leaves.
use mathlib.Core.List.{concat-ne-nil}
use deadline_knapp_verparsed.Base.{
  ℕ, ◌+◌, ◌≢◌, ap, ◌∙◌, ◌||◌, true, false, [], ◌∷◌, ◌++◌, Option, none, some, Bytes, ◌≡◌, ◌⊎◌, inl,
  inr, refl, arith, Bool-cases, is_some, append_assoc, append-nil, ◌==◌,
}
use deadline_knapp_verparsed.Runtime.{World, done}
use deadline_knapp_verparsed.Runtime.Ensures.{
  Plentiful, Steady, Ensures, holds, Ensures-bind, held, free-Ensures,
}
use deadline_knapp_verparsed.Lexer.{
  Token, Buffer, no_buffer, word_token, error_token, c_text, isspace, is_delimiter, unescape,
  skip_ws_and_comments, lex_failure, lex_quoted, lex_escaped, finish_word, lex_word, lex_at,
  lex_token, unterminated_quote, unterminated_escape,
}
use deadline_knapp_verparsed.Lexer.Reference.{
  text_of, word_of, Ends, prepend, quoted, escaped, bare, quoted_token, token_at, next_token,
}
use deadline_knapp_verparsed.Lexer.Buffers.{
  Collects, empty-Collects, size_buffer, Ensures-append, sys_unsafe_log_info-Ensures,
}
use deadline_knapp_verparsed.Lexer.Skipped.{
  IsSkipped, skip_ws_and_comments-IsSkipped, is_delimiter-false,
}

-- The token and the rest that are expected where the bytes `t` were collected before.
abbrev collected : Bytes → Ends → Token × Bytes
collected t none = (error_token, [])
collected t (some (u, s)) = (word_of (t ++ u), s)

collected-nil : (e : Ends) → collected [] e ≡ quoted_token e
unfolding quoted_token
collected-nil none = refl
collected-nil (some (u, s)) = refl

collected-prepend :
    (t : Bytes) (c : ℕ) (e : Ends) → collected (t ++ c ∷ []) e ≡ collected t (prepend c e)
collected-prepend t c none = refl
collected-prepend t c (some (u, s)) = rw (append_assoc t (c ∷ []) u)

-- A lexer function reads what is expected, and leaves the text of the token allocated; or it
-- reports an error and leaves nothing, because a request was refused.
abbrev pub Lexes : World → ℕ → Token × Bytes → Token × Bytes → World → Type 0
Lexes w₀ n expected r w =
    ((r ≡ expected) × (w.live ≡ n + held (is_some r.0.lexeme)))
    ⊎ ((r.0 ≡ error_token) × (¬ (Plentiful w₀)) × (w.live ≡ n))

is_some-text_of : (t : Bytes) → t ≢ [] → is_some (text_of t) ≡ true
is_some-text_of [] ne = absurd (ne refl)
is_some-text_of (c ∷ t) ne = refl

is_some-c_text : (o : Option Bytes) → is_some (c_text o) ≡ is_some o
is_some-c_text none = refl
is_some-c_text (some t) = refl

module _ {w₀ : World} where
  lex_failure-starved :
      (b : Buffer) (rest : Bytes) (n : ℕ) (expected : Token × Bytes) {w : World}
      → Steady w₀ w
      → ¬ (Plentiful w₀)
      → w.live ≡ n + size_buffer b
      → Ensures w₀ (Lexes w₀ n expected) (lex_failure b rest w)
  unfolding lex_failure
  lex_failure-starved b rest n expected s starved e =
      Ensures-bind (free-Ensures n (is_some b.buffer) s e)
        λ _ w' s' e'. holds s' (inr (refl, starved, e'))

  lex_failure-unterminated :
      (b : Buffer) (n : ℕ) {w : World}
      → Steady w₀ w
      → w.live ≡ n + size_buffer b
      → Ensures w₀ (Lexes w₀ n (error_token, [])) (lex_failure b [] w)
  unfolding lex_failure
  lex_failure-unterminated b n s e =
      Ensures-bind (free-Ensures n (is_some b.buffer) s e)
        λ _ w' s' e'. holds s' (inl (refl, omega arith))

  word_token-Lexes :
      (b : Buffer) (t rest : Bytes) (n : ℕ) {w : World}
      → Steady w₀ w
      → w.live ≡ n + size_buffer b
      → Collects b t
      → Ensures w₀ (Lexes w₀ n (word_of t, rest)) (done (word_token b, rest) w)
  unfolding word_of
  word_token-Lexes b t rest n s e g =
      holds s (inl (rw g.held_bytes, rw (is_some-c_text b.buffer) e))

  mutual
    unfolding lex_quoted quoted

    lex_quoted-Lexes :
        (s : Bytes) (quote : ℕ) (b : Buffer) (t : Bytes) (n : ℕ) {w : World}
        → Steady w₀ w
        → w.live ≡ n + size_buffer b
        → Collects b t
        → Ensures w₀ (Lexes w₀ n (collected t (quoted quote s))) (lex_quoted quote b s w)
    lex_quoted-Lexes [] quote b t n st e g =
        Ensures-bind (sys_unsafe_log_info-Ensures unterminated_quote _ refl st e)
          λ _ w' s' e'. lex_failure-unterminated b n s' e'
    lex_quoted-Lexes (c ∷ s) quote b t n st e g = elim (Bool-cases (c == quote)) [
      | inl closes ↦ rw (closes, append-nil) (word_token-Lexes b t s n st e g)
      | inr inside ↦ rw inside (elim (Bool-cases (c == b'\\')) [
        | inl escapes ↦ rw escapes (lex_escaped-Lexes s quote b t n st e g)
        | inr plain ↦ rw plain (
            Ensures-append b t c n _ st e g
              (λ w' s' starved e'. lex_failure-starved b s n _ s' starved e')
              (λ b' w' s' g' e'.
                rw (← collected-prepend t c (quoted quote s))
                  (lex_quoted-Lexes s quote b' (t ++ c ∷ []) n s' e' g')))
      ])
    ]

    lex_escaped-Lexes :
        (s : Bytes) (quote : ℕ) (b : Buffer) (t : Bytes) (n : ℕ) {w : World}
        → Steady w₀ w
        → w.live ≡ n + size_buffer b
        → Collects b t
        → Ensures w₀ (Lexes w₀ n (collected t (escaped quote s))) (lex_escaped quote b s w)
    lex_escaped-Lexes [] quote b t n st e g =
        Ensures-bind (sys_unsafe_log_info-Ensures unterminated_escape _ refl st e)
          λ _ w' s' e'. lex_failure-unterminated b n s' e'
    lex_escaped-Lexes (c ∷ s) quote b t n st e g =
        Ensures-append b t (unescape c) n _ st e g
          (λ w' s' starved e'. lex_failure-starved b s n _ s' starved e')
          (λ b' w' s' g' e'.
            rw (← collected-prepend t (unescape c) (quoted quote s))
              (lex_quoted-Lexes s quote b' (t ++ unescape c ∷ []) n s' e' g'))

  finish_word-Lexes :
      (b : Buffer) (t rest : Bytes) (n : ℕ) {w : World}
      → Steady w₀ w
      → w.live ≡ n + size_buffer b
      → Collects b t
      → t ≢ []
      → Ensures w₀ (Lexes w₀ n (word_of (t ++ []), rest)) (finish_word b rest w)
  unfolding finish_word
  finish_word-Lexes b t rest n st e g ne =
      let filled = is_some-text_of t ne in
      rw (ap is_some g.held_bytes ∙ filled, append-nil) (word_token-Lexes b t rest n st e g)

  lex_word-Lexes :
      (s : Bytes) (b : Buffer) (t : Bytes) (n : ℕ) {w : World}
      → Steady w₀ w
      → w.live ≡ n + size_buffer b
      → Collects b t
      → t ≢ []
      → Ensures w₀ (Lexes w₀ n (word_of (t ++ (bare s).0), (bare s).1)) (lex_word b s w)
  unfolding lex_word bare
  lex_word-Lexes [] b t n st e g ne = finish_word-Lexes b t [] n st e g ne
  lex_word-Lexes (c ∷ s) b t n st e g ne = elim (Bool-cases (isspace c)) [
    | inl space ↦ rw space (finish_word-Lexes b t s n st e g ne)
    | inr other ↦ rw other (elim (Bool-cases (is_delimiter c)) [
      | inl ends ↦ rw ends (finish_word-Lexes b t (c ∷ s) n st e g ne)
      | inr plain ↦ rw plain (
          Ensures-append b t c n _ st e g
            (λ w' s' starved e'. lex_failure-starved b s n _ s' starved e')
            (λ b' w' s' g' e'.
              rw (append_assoc t (c ∷ []) (bare s).0) at
                (lex_word-Lexes s b' (t ++ c ∷ []) n s' e' g' (concat-ne-nil c t))))
    ])
  ]

  -- The first byte of a bare word.
  lex_word-first :
      (c : ℕ) (s : Bytes) (n : ℕ) {w : World}
      → Steady w₀ w
      → w.live ≡ n
      → isspace c ≡ false
      → is_delimiter c ≡ false
      → Ensures w₀
          (Lexes w₀ n (word_of (bare (c ∷ s)).0, (bare (c ∷ s)).1))
          (lex_word no_buffer (c ∷ s) w)
  unfolding lex_word bare
  lex_word-first c s n st e other plain =
      rw (other, plain)
        (Ensures-append no_buffer [] c n _ st (omega arith) empty-Collects
          (λ w' s' starved e'. lex_failure-starved no_buffer s n _ s' starved e')
          (λ b' w' s' g' e'. lex_word-Lexes s b' (c ∷ []) n s' e' g' (concat-ne-nil c [])))

module _ {w₀ w : World} (n : ℕ) (st : Steady w₀ w) (e : w.live ≡ n) where
  lex_at-Lexes : (s : Bytes) → IsSkipped s → Ensures w₀ (Lexes w₀ n (token_at s)) (lex_at s w)
  unfolding lex_at token_at
  lex_at-Lexes [] h = holds st (inl (refl, omega arith))
  lex_at-Lexes (c ∷ s) h = elim (Bool-cases (c == b'{')) [
    | inl yes₁ ↦ rw yes₁ (holds st (inl (refl, omega arith)))
    | inr no₁ ↦ rw no₁ (elim (Bool-cases (c == b'}')) [
      | inl yes₂ ↦ rw yes₂ (holds st (inl (refl, omega arith)))
      | inr no₂ ↦ rw no₂ (elim (Bool-cases (c == b';')) [
        | inl yes₃ ↦ rw yes₃ (holds st (inl (refl, omega arith)))
        | inr no₃ ↦ rw no₃ (elim (Bool-cases (c == b'"' || c == b'\'')) [
          | inl opens ↦
              rw (opens, ← collected-nil (quoted c s))
                (lex_quoted-Lexes s c no_buffer [] n st (omega arith) empty-Collects)
          | inr no₄ ↦
              rw no₄ (lex_word-first c s n st e h.0 (is_delimiter-false c no₁ no₂ no₃ no₄ h.1))
        ])
      ])
    ])
  ]

  -- For every allocator, `lex_token` returns the token and the rest of the stream that the
  -- lexer without buffers gives, with the text of the token as the only new allocation; or, only
  -- if a request was refused, an error token with nothing allocated. It never faults with an
  -- allocator that grants every request.
  pub lex_token-Lexes : (s : Bytes) → Ensures w₀ (Lexes w₀ n (next_token s)) (lex_token s w)
  unfolding lex_token next_token
  lex_token-Lexes s = lex_at-Lexes (skip_ws_and_comments s) (skip_ws_and_comments-IsSkipped s)
