-- ===== src/RoundTrip/Words.antt =====
-- How the reference lexer reads the words and the punctuation that the serializer writes.
use deadline_knapp_verparsed.Base.{
  ℕ, zero, suc, true, false, List, [], ◌∷◌, ◌++◌, none, some, Bytes, ◌≡◌, ◌≢◌, refl, ap, ◌∙◌, arith,
  ◌==◌, ◌||◌,
}
use deadline_knapp_verparsed.Runtime.{CStr}
use deadline_knapp_verparsed.Lexer.{
  token_rbrace, token_semicolon, token_lbrace, token_eof, plain_token, c_string, isspace,
  is_delimiter, skip_ws_and_comments, contents,
}
use deadline_knapp_verparsed.Lexer.Reference.{word_of, bare, token_at, next_token}
use deadline_knapp_verparsed.Parser.Grammar.{word}
use deadline_knapp_verparsed.Serializer.Render.{indentation, arg_text}

-- Bytes that need no quotes: neither white space, nor a delimiter, nor NUL.
abbrev pub IsPlain : Bytes → Type 0
IsPlain [] = Unit
IsPlain (c ∷ t) = (isspace c ≡ false) × (is_delimiter c ≡ false) × ((c == 0) ≡ false) × IsPlain t

-- A string that is written as one bare word.
abbrev pub IsWord : CStr → Type 0
IsWord none = ⊥
IsWord (some t) = (t ≢ []) × IsPlain t

c_string-plain : (t : Bytes) → IsPlain t → c_string t ≡ t
c_string-plain [] h = refl
c_string-plain (c ∷ t) h = rw (h.2, c_string-plain t h.3)

bare-space : (t r : Bytes) → IsPlain t → bare (t ++ b' ' ∷ r) ≡ (t, r)
unfolding bare isspace
bare-space [] r h = refl
bare-space (c ∷ t) r h = rw (h.0, h.1, bare-space t r h.3)

bare-semicolon : (t r : Bytes) → IsPlain t → bare (t ++ b';' ∷ r) ≡ (t, b';' ∷ r)
unfolding bare isspace is_delimiter
bare-semicolon [] r h = refl
bare-semicolon (c ∷ t) r h = rw (h.0, h.1, bare-semicolon t r h.3)

not_delimiter :
    (c : ℕ)
    → is_delimiter c ≡ false
    → ((c == b'{') ≡ false)
      × ((c == b'}') ≡ false)
      × ((c == b';') ≡ false)
      × ((c == b'"' || c == b'\'') ≡ false)
      × ((c == b'#') ≡ false)
unfolding is_delimiter
not_delimiter c h = ground arith

skip-plain :
    (c : ℕ) (s : Bytes)
    → isspace c ≡ false
    → (c == b'#') ≡ false
    → skip_ws_and_comments (c ∷ s) ≡ c ∷ s
unfolding skip_ws_and_comments
skip-plain c s h k = ground arith

skip-space :
    (c : ℕ) (s : Bytes) → isspace c ≡ true → skip_ws_and_comments (c ∷ s) ≡ skip_ws_and_comments s
unfolding skip_ws_and_comments
skip-space c s h = ground arith

-- White space in front of a token is skipped.
next_token-space : (c : ℕ) (s : Bytes) → isspace c ≡ true → next_token (c ∷ s) ≡ next_token s
unfolding next_token
next_token-space c s h = ap token_at (skip-space c s h)

next_token-plain :
    (c : ℕ) (s t r : Bytes)
    → isspace c ≡ false
    → is_delimiter c ≡ false
    → bare (c ∷ s) ≡ (t, r)
    → next_token (c ∷ s) ≡ (word_of t, r)
unfolding next_token token_at
next_token-plain c s t r h k e =
    let d = not_delimiter c k in rw (skip-plain c s h d.4, d.0, d.1, d.2, d.3, e)

word_of-plain : (t : Bytes) → t ≢ [] → IsPlain t → word_of t ≡ word (some t)
unfolding word_of
word_of-plain [] ne h = absurd (ne refl)
word_of-plain (c ∷ t) ne h = rw (c_string-plain (c ∷ t) h)

pub next_token-word_space :
    (t r : Bytes) → IsWord (some t) → next_token (t ++ b' ' ∷ r) ≡ (word (some t), r)
next_token-word_space [] r h = absurd (h.0 refl)
next_token-word_space (c ∷ t) r h =
    next_token-plain c (t ++ b' ' ∷ r) (c ∷ t) r h.1.0 h.1.1 (bare-space (c ∷ t) r h.1)
    ∙ ap (λ x. (x, r)) (word_of-plain (c ∷ t) h.0 h.1)

next_token-word_semicolon :
    (t r : Bytes) → IsWord (some t) → next_token (t ++ b';' ∷ r) ≡ (word (some t), b';' ∷ r)
next_token-word_semicolon [] r h = absurd (h.0 refl)
next_token-word_semicolon (c ∷ t) r h =
    next_token-plain c (t ++ b';' ∷ r) (c ∷ t) (b';' ∷ r) h.1.0 h.1.1 (bare-semicolon (c ∷ t) r h.1)
    ∙ ap (λ x. (x, b';' ∷ r)) (word_of-plain (c ∷ t) h.0 h.1)

-- The arguments of a directive without the space in front of the first.
abbrev pub after_word : List CStr → Bytes → Bytes
after_word [] rest = b';' ∷ b'\n' ∷ rest
after_word (a ∷ args) rest = contents a ++ arg_text args rest

-- A word of a directive.
pub next_token-arg_text :
    (t : Bytes) (args : List CStr) (rest : Bytes)
    → IsWord (some t)
    → next_token (t ++ arg_text args rest) ≡ (word (some t), after_word args rest)
next_token-arg_text t [] rest h = next_token-word_semicolon t (b'\n' ∷ rest) h
next_token-arg_text t (a ∷ args) rest h =
    next_token-word_space t (contents a ++ arg_text args rest) h

pub next_token-indentation :
    (level : ℕ) (s : Bytes) → next_token (indentation level s) ≡ next_token s
next_token-indentation zero s = refl
next_token-indentation (suc level) s =
    let inner = indentation level s in
    next_token-space b' ' (b' ' ∷ b' ' ∷ b' ' ∷ inner) space
    ∙ next_token-space b' ' (b' ' ∷ b' ' ∷ inner) space
    ∙ next_token-space b' ' (b' ' ∷ inner) space
    ∙ next_token-space b' ' inner space
    ∙ next_token-indentation level s
  where
    space : isspace b' ' ≡ true
    space = unfold isspace in refl

pub next_token-newline : (s : Bytes) → next_token (b'\n' ∷ s) ≡ next_token s
next_token-newline s = next_token-space b'\n' s (unfold isspace in refl)

pub next_token-semicolon : (s : Bytes) → next_token (b';' ∷ s) ≡ (plain_token token_semicolon, s)
unfolding next_token token_at skip_ws_and_comments
next_token-semicolon s = refl

pub next_token-lbrace : (s : Bytes) → next_token (b'{' ∷ s) ≡ (plain_token token_lbrace, s)
unfolding next_token token_at skip_ws_and_comments
next_token-lbrace s = refl

pub next_token-rbrace : (s : Bytes) → next_token (b'}' ∷ s) ≡ (plain_token token_rbrace, s)
unfolding next_token token_at skip_ws_and_comments
next_token-rbrace s = refl

pub next_token-nil : next_token [] ≡ (plain_token token_eof, [])
unfolding next_token token_at skip_ws_and_comments
next_token-nil = refl
