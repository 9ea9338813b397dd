-- ===== src/Parser/Exits.antt =====
-- One token in a run of the parser, read by kinds, and the exits of its two functions.
use deadline_knapp_verparsed.Base.{
  ℕ, ◌+◌, ◌≤◌, ◌<◌, Bool, true, false, List, [], none, some, Bytes, ◌≡◌, ◌⊎◌, inl, inr, refl, sym,
  arith, length,
}
use deadline_knapp_verparsed.Runtime.{World, CStr, failed, Outcome, done, bind, Piece, vformat}
use deadline_knapp_verparsed.Runtime.Ensures.{Plentiful, Steady, Ensures, holds, Ensures-bind}
use deadline_knapp_verparsed.Logger.{log_info}
use deadline_knapp_verparsed.Configfile.{Block, block, nil}
use deadline_knapp_verparsed.Configfile.Memory.{size_args}
use deadline_knapp_verparsed.Configfile.BlockMemory.{size_block}
use deadline_knapp_verparsed.Lexer.{
  Token, token_eof, token_lbrace, token_rbrace, token_semicolon, plain_token, error_token,
  lex_token,
}
use deadline_knapp_verparsed.Lexer.Buffers.{vlog-Ensures}
use deadline_knapp_verparsed.Lexer.Correct.{Lexes, lex_token-Lexes}
use deadline_knapp_verparsed.Lexer.Progress.{
  Reads, ends, fails, opens, closes, stops, words, next_token-Reads,
}
use deadline_knapp_verparsed.Lexer.Reference.{next_token}
use deadline_knapp_verparsed.Parser.{token_free, ended, cleanup, failed_to_lex}
use deadline_knapp_verparsed.Parser.Grammar.{
  Contents, Statement, word, Statement-after_brace, Contents-after_head,
}
use deadline_knapp_verparsed.Parser.Steps.{
  size_token, token_free-Ensures, token_free-cleanup-Ensures,
}
use deadline_knapp_verparsed.Parser.Stores.{ParsesAs, accepted, rejected, GivesUp-rejected}

-- What was lexed, and the world behind it, for each kind of token.
abbrev pub After : World → Bytes → ℕ → (Token × Bytes → World → Type 0) → Token → Type 0
After w₀ s n P tok =
    (s' : Bytes) (w : World)
    → Steady w₀ w
    → next_token s ≡ (tok, s')
    → length s' < length s
    → w.live ≡ n + size_token tok
    → P (tok, s') w

-- The same where the stream may be at its end.
abbrev pub AfterEnd : World → Bytes → ℕ → (Token × Bytes → World → Type 0) → Token → Type 0
AfterEnd w₀ s n P tok =
    (s' : Bytes) (w : World)
    → Steady w₀ w
    → next_token s ≡ (tok, s')
    → length s' ≤ length s
    → w.live ≡ n
    → P (tok, s') w

-- One token, read by kinds: the run goes on with an error token because a request was refused, or
-- with the token that the reference lexer reads.
pub Ensures-lex :
    {w₀ : World} {B : Type 0} {Q : B → World → Type 0} (s : Bytes) (n : ℕ) {w : World}
    (f : Token × Bytes → World → Outcome B)
    → Steady w₀ w
    → w.live ≡ n
    → ((s' : Bytes) (w' : World)
        → Steady w₀ w'
        → ¬ (Plentiful w₀)
        → w'.live ≡ n
        → Ensures w₀ Q (f (error_token, s') w'))
    → AfterEnd w₀ s n (λ r w'. Ensures w₀ Q (f r w')) error_token
    → AfterEnd w₀ s n (λ r w'. Ensures w₀ Q (f r w')) (plain_token token_eof)
    → After w₀ s n (λ r w'. Ensures w₀ Q (f r w')) (plain_token token_lbrace)
    → After w₀ s n (λ r w'. Ensures w₀ Q (f r w')) (plain_token token_rbrace)
    → After w₀ s n (λ r w'. Ensures w₀ Q (f r w')) (plain_token token_semicolon)
    → ((a : CStr) → After w₀ s n (λ r w'. Ensures w₀ Q (f r w')) (word a))
    → Ensures w₀ Q (bind (lex_token s w) f)
Ensures-lex {w₀} {Q} s n f st e on_refusal on_error on_end on_open on_close on_stop on_word =
    Ensures-bind (lex_token-Lexes n st e s) cases
  where
    by_kind :
        (r : Token × Bytes) (w' : World)
        → Steady w₀ w'
        → next_token s ≡ r
        → Reads s r
        → w'.live ≡ n + size_token r.0
        → Ensures w₀ Q (f r w')
    by_kind r w' st' same (ends l) e' = on_end _ w' st' same l (omega arith)
    by_kind r w' st' same (fails l) e' = on_error _ w' st' same l (omega arith)
    by_kind r w' st' same (opens l) e' = on_open _ w' st' same l e'
    by_kind r w' st' same (closes l) e' = on_close _ w' st' same l e'
    by_kind r w' st' same (stops l) e' = on_stop _ w' st' same l e'
    by_kind r w' st' same (words a l) e' = on_word a _ w' st' same l e'

    cases :
        (r : Token × Bytes) (w' : World)
        → Steady w₀ w'
        → Lexes w₀ n (next_token s) r w'
        → Ensures w₀ Q (f r w')
    cases r w' st' (inl (same, e')) =
        by_kind r w' st' (sym same) (rw (sym same) at (next_token-Reads s)) e'
    cases (tok, s') w' st' (inr (same, starved, e')) = rw same (on_refusal s' w' st' starved e')

-- Why a part was refused is why the whole is.
abbrev pub Refused : World → (Block → Bytes → Type 0) → Type 0
Refused w₀ G = (¬ (Plentiful w₀)) ⊎ ((b : Block) (t : Bytes) → G b t → ⊥)

pub Statement-brace_refused :
    (w₀ : World) {head : Bytes} {args : List CStr} {b : Block} {s s₁ : Bytes}
    → next_token s ≡ (plain_token token_lbrace, s₁)
    → Refused w₀ (Contents true (block (some head) args [] nil) s₁)
    → Refused w₀ (Statement head args b s)
Statement-brace_refused w₀ same (inl starved) = inl starved
Statement-brace_refused w₀ same (inr none_fits) =
    inr λ b' t d. let (sub, d') = Statement-after_brace same d in none_fits sub t d'

pub Contents-Statement_refused :
    (w₀ : World) {e : Bool} {head : Bytes} {b : Block} {s s₁ : Bytes}
    → next_token s ≡ (word (some head), s₁)
    → Refused w₀ (Statement head [] b s₁)
    → Refused w₀ (Contents e b s)
Contents-Statement_refused w₀ same (inl starved) = inl starved
Contents-Statement_refused w₀ same (inr none_fits) =
    inr λ b' t g. let (c, s₂, d, g') = Contents-after_head same g in none_fits c s₂ d

-- A string that is NULL, or not.
pub by_text : (P : CStr → Type 0) → P none → ((t : Bytes) → P (some t)) → (a : CStr) → P a
by_text P h k none = h
by_text P h k (some t) = k t

module _ {w₀ : World} where
  -- The exits of `parse_contents` that log a message and leave the block.
  pub contents_fails :
      (message : List Piece) {t : Bytes} (tok : Token) (b : Block) (n : ℕ) (s s' : Bytes)
      {G : Block → Bytes → Type 0} {w : World}
      → vformat message ≡ some t
      → Steady w₀ w
      → w.live ≡ n + size_block b + size_token tok
      → (¬ (Plentiful w₀)) ⊎ ((b' : Block) (s'' : Bytes) → G b' s'' → ⊥)
      → Ensures w₀ (ParsesAs w₀ n s G) (
          bind
            (log_info message w)
            λ _ w₁. bind (token_free tok w₁) λ _ w₂. done (failed, some b, s') w₂)
  unfolding log_info
  contents_fails message tok b n s s' fmt st e why =
      Ensures-bind (vlog-Ensures 0 message _ fmt st e) λ _ w₁ s₁ e₁.
        Ensures-bind (token_free-Ensures tok (n + size_block b) s₁ e₁)
          λ _ w₂ s₂ e₂. holds s₂ (rejected e₂ why)

  pub statement_fails :
      (head : Bytes) (args : List CStr) (b : Block) (n : ℕ) (s s' : Bytes)
      {G : Block → Bytes → Type 0} {w : World}
      → Steady w₀ w
      → w.live ≡ n + size_block b + 1 + size_args args
      → (¬ (Plentiful w₀)) ⊎ ((b' : Block) (s'' : Bytes) → G b' s'' → ⊥)
      → Ensures w₀ (ParsesAs w₀ n s G) (
          bind (log_info (failed_to_lex (word (some head))) w) λ _ w₁.
            bind (token_free error_token w₁) λ _. cleanup (word (some head)) args (some b) s')
  unfolding log_info
  statement_fails head args b n s s' st e why =
      Ensures-bind (vlog-Ensures 0 (failed_to_lex (word (some head))) _ refl st e) λ _ w₂ st₂ e₂.
        GivesUp-rejected b n why (
          token_free-cleanup-Ensures head args (some b) s' (n + size_block b) error_token st₂
            (omega arith))

  -- The exits of `parse_contents` at an end of the contents, which may be the wrong one.
  pub contents_ends :
      (tok : Token) (fits : Bool) (b : Block) (n : ℕ) (s s' : Bytes) {G : Block → Bytes → Type 0}
      {w : World}
      → Steady w₀ w
      → w.live ≡ n + size_block b + size_token tok
      → length s' ≤ length s
      → (fits ≡ true → G b s')
      → (fits ≡ false → (b' : Block) (s'' : Bytes) → G b' s'' → ⊥)
      → Ensures w₀
          (ParsesAs w₀ n s G)
          (bind (token_free tok w) λ _ w₁. done (ended fits (some b) s') w₁)
  contents_ends tok true b n s s' st e l right wrong =
      Ensures-bind (token_free-Ensures tok (n + size_block b) st e)
        λ _ w₁ s₁ e₁. holds s₁ (accepted e₁ (right refl) l)
  contents_ends tok false b n s s' st e l right wrong =
      Ensures-bind (token_free-Ensures tok (n + size_block b) st e)
        λ _ w₁ s₁ e₁. holds s₁ (rejected e₁ (inr (wrong refl)))
