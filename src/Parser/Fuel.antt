-- ===== src/Parser/Fuel.antt =====
-- The fuel of the parser: more of it does not change a result, and there is enough of it for every
-- stream.
use deadline_knapp_verparsed.Base.{
  ℕ, zero, suc, ◌≤◌, Bool, true, List, [], Option, none, some, Bytes, ◌≡◌, ◌≢◌, ◌<◌, ◌-◌, refl,
  arith, length,
}
use deadline_knapp_verparsed.Runtime.{
  World, CStr, Status, success, failed, Outcome, done, fault, out_of_fuel, bind,
}
use deadline_knapp_verparsed.Runtime.Ensures.{Ensures, holds, faulted, Steady-refl}
use deadline_knapp_verparsed.Configfile.BlockMemory.{size_block}
use deadline_knapp_verparsed.Parser.Correct.{parse_contents-ParsesAs}
use deadline_knapp_verparsed.Configfile.{Block, config_block_create}
use deadline_knapp_verparsed.Lexer.{Token, TokenKind, token_word, token_lbrace, lex_token}
use deadline_knapp_verparsed.Parser.{
  Parsed, statement_loop, parse_contents, token_list_add, add_tokens_to_block, parsing_statement,
}
use deadline_knapp_verparsed.Logger.{log_debug}

-- The right outcome is the left one, unless the left one ran out of fuel.
infix 50 ◌⊑◌
data ◌⊑◌ {A : Type 0} : Outcome A → Outcome A → Type 0 where
  below : {o : Outcome A} → out_of_fuel ⊑ o
  same : {o : Outcome A} → o ⊑ o

bind-⊑ :
    {A B : Type 0} {r r' : Outcome A} {f f' : A → World → Outcome B}
    → r ⊑ r'
    → ((a : A) (w : World) → f a w ⊑ f' a w)
    → bind r f ⊑ bind r' f'
bind-⊑ below h = below
bind-⊑ (same {o = done a w}) h = h a w
bind-⊑ (same {o = fault}) h = same
bind-⊑ (same {o = out_of_fuel}) h = below

bind_status-⊑ :
    {A B : Type 0} {r r' : Outcome (Status × A)} (f f' : Status × A → World → Outcome B)
    → r ⊑ r'
    → ((a : A) (w : World) → f (failed, a) w ⊑ f' (failed, a) w)
    → ((a : A) (w : World) → f (success, a) w ⊑ f' (success, a) w)
    → bind r f ⊑ bind r' f'
bind_status-⊑ f f' h on_failure on_success = bind-⊑ {f = f} {f' = f'} h λ (status, a).
    elim status as (λ st. (w : World) → f (st, a) w ⊑ f' (st, a) w) [
      | failed ↦ on_failure a
      | success ↦ on_success a
    ]

bind_parsed-⊑ :
    {B : Type 0} {r r' : Outcome Parsed} (f f' : Parsed → World → Outcome B)
    → r ⊑ r'
    → ((b : Option Block) (s : Bytes) (w : World) → f (failed, b, s) w ⊑ f' (failed, b, s) w)
    → ((b : Option Block) (s : Bytes) (w : World) → f (success, b, s) w ⊑ f' (success, b, s) w)
    → bind r f ⊑ bind r' f'
bind_parsed-⊑ f f' h on_failure on_success = bind-⊑ {f = f} {f' = f'} h λ (status, b, s).
    elim status as (λ st. (w : World) → f (st, b, s) w ⊑ f' (st, b, s) w) [
      | failed ↦ on_failure b s
      | success ↦ on_success b s
    ]

bind_option-⊑ :
    {A B : Type 0} (r : Outcome (Option A)) (f f' : Option A → World → Outcome B)
    → ((w : World) → f none w ⊑ f' none w)
    → ((a : A) (w : World) → f (some a) w ⊑ f' (some a) w)
    → bind r f ⊑ bind r f'
bind_option-⊑ r f f' on_null on_object =
    bind-⊑ {r = r} {f = f} {f' = f'} same (elim [ none ↦ on_null | some a ↦ on_object a ])

-- A token that is read, which is a word with a text or not.
bind_token-⊑ :
    {B : Type 0} (r : Outcome (Token × Bytes)) (f f' : Token × Bytes → World → Outcome B)
    → ((k : TokenKind) (lexeme : CStr) (s : Bytes) (w : World)
        → f (record { kind = k; lexeme = lexeme }, s) w
          ⊑ f' (record { kind = k; lexeme = lexeme }, s) w)
    → bind r f ⊑ bind r f'
bind_token-⊑ r f f' h =
    bind-⊑ {r = r} {f = f} {f' = f'} same λ (tok, s) w. h tok.kind tok.lexeme s w

mutual
  unfolding statement_loop

  statement_loop-⊑ :
      (n m : ℕ)
      → n ≤ m
      → (head : Token) (args : List CStr) (b : Option Block) (s : Bytes) (w : World)
      → statement_loop n head args b s w ⊑ statement_loop m head args b s w
  statement_loop-⊑ zero m h head args b s w = below
  statement_loop-⊑ (suc n) zero h head args b s w = absurd (omega arith)
  statement_loop-⊑ (suc n) (suc m) h head args b s w = bind_token-⊑ (lex_token s w) _ _ (elim [
    | token_word ↦ λ lexeme s' w₁.
        bind_status-⊑ _ _ (same {o = token_list_add args lexeme w₁}) (λ args' w₂. same)
          λ args' w₂. statement_loop-⊑ n m (omega arith) head args' b s' w₂
    | token_lbrace ↦ λ lexeme s' w₁.
        bind_option-⊑ (config_block_create head.lexeme w₁) _ _ (λ w₂. same)
          λ created w₂.
            bind_status-⊑ _ _ (same {o = add_tokens_to_block args (some created) w₂})
              (λ subblock w₃. same)
              λ subblock w₃.
                bind-⊑ (parse_contents-⊑ n m (omega arith) true subblock s' w₃) λ p w₄. same
    | _ ↦ λ lexeme s' w₁. same
  ])

  parse_contents-⊑ :
      (n m : ℕ)
      → n ≤ m
      → (expect : Bool) (b : Option Block) (s : Bytes) (w : World)
      → parse_contents n expect b s w ⊑ parse_contents m expect b s w
  parse_contents-⊑ zero m h expect b s w = below
  parse_contents-⊑ (suc n) zero h expect b s w = absurd (omega arith)
  parse_contents-⊑ (suc n) (suc m) h expect b s w = bind_token-⊑ (lex_token s w) _ _ (elim [
    | token_word ↦ elim [
      | none ↦ λ s' w₁. same
      | some t ↦ λ s' w₁.
          let head : Token = record { kind = token_word; lexeme = some t } in
          bind-⊑ (same {o = log_debug (parsing_statement head) w₁}) λ _ w₂.
            bind_parsed-⊑ _ _ (statement_loop-⊑ n m (omega arith) head [] b s' w₂)
              (λ b' s'' w₃. same) (λ b' s'' w₃. parse_contents-⊑ n m (omega arith) expect b' s'' w₃)
    ]
    | _ ↦ λ lexeme s' w₁. same
  ])

ended_in_fuel :
    {A : Type 0} {w₀ : World} {P : A → World → Type 0} {r : Outcome A}
    → Ensures w₀ P r
    → r ≢ out_of_fuel
ended_in_fuel (holds st h) = λ e. cc
ended_in_fuel (faulted starved) = λ e. cc

⊑-ended :
    {A : Type 0} {w₀ : World} {P : A → World → Type 0} {r r' : Outcome A}
    → r ⊑ r'
    → Ensures w₀ P r
    → r' ≡ r
⊑-ended same h = refl
⊑-ended below h = elim h [ ]

-- With one unit of fuel for each byte of the stream, and one more, `parse_contents` ends, and
-- more fuel changes nothing: neither the result, nor the rest of the stream, nor the world.
pub parse_contents-enough_fuel :
    (m : ℕ) (expect : Bool) (b : Block) (s : Bytes) (w : World)
    → length s < m
    → size_block b ≤ w.live
    → (parse_contents m expect (some b) s w ≡ parse_contents (suc (length s)) expect (some b) s w)
      × (parse_contents m expect (some b) s w ≢ out_of_fuel)
parse_contents-enough_fuel m expect b s w h l =
    let ends =
      parse_contents-ParsesAs (suc (length s)) expect b s (w.live - size_block b) (omega arith)
        (Steady-refl w) (omega arith) in
    let e = ⊑-ended (parse_contents-⊑ (suc (length s)) m (omega arith) expect (some b) s w) ends in
    (e, rw e (ended_in_fuel ends))
