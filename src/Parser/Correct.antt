-- ===== src/Parser/Correct.antt =====
-- The parser accepts exactly the grammar, for every allocator that grants its requests, within its
-- fuel and without a fault; for every other allocator it accepts, gives up, or faults, and whatever
-- it does not return it has freed.
use deadline_knapp_verparsed.Base.{
  ℕ, zero, suc, ◌+◌, ◌<◌, Bool, true, false, not, List, [], ◌∷◌, ◌++◌, Option, none, some, Bytes,
  ◌≡◌, ◌⊎◌, inl, inr, refl, arith, length, codes,
}
use deadline_knapp_verparsed.Runtime.{World, CStr}
use deadline_knapp_verparsed.Runtime.Ensures.{
  Plentiful, Steady, Steady-refl, Ensures, holds, Ensures-bind, Ensures-obtain,
}
use deadline_knapp_verparsed.Logger.{log_debug, log_error}
use deadline_knapp_verparsed.Configfile.{Block, block, nil}
use deadline_knapp_verparsed.Configfile.Memory.{size_args}
use deadline_knapp_verparsed.Configfile.BlockMemory.{
  size_block, config_block_create-Ensures, config_block_free-Ensures,
}
use deadline_knapp_verparsed.Lexer.{
  token_eof, token_lbrace, token_rbrace, token_semicolon, plain_token, error_token,
}
use deadline_knapp_verparsed.Lexer.Buffers.{vlog-Ensures, sys_unsafe_log_info-Ensures}
use deadline_knapp_verparsed.Parser.{
  statement_loop, parse_contents, config_deserialize, parsing_statement, tokenization_failed,
  unexpected_token, deserialize_failed, deserialize_succeeded,
}
use deadline_knapp_verparsed.Parser.Deterministic.{Contents-after-Statement}
use deadline_knapp_verparsed.Parser.Grammar.{
  Contents, statement, Statement, argument, directive, subblock, word, begins, continues,
  Statement-after_argument, at_end_of, at_brace_of, Contents-refused, Statement-refused,
}
use deadline_knapp_verparsed.Parser.Steps.{
  token_list_add-Ensures, add_tokens_to_block-Ensures, Ensures-added, token_free-cleanup-Ensures,
  drop_subblock-Ensures,
}
use deadline_knapp_verparsed.Parser.Stores.{
  ParsesAs, rejected, Ensures-parsed, Ensures-adds, GivesUp-rejected, store_directive-Ensures,
  Stores-parsed, store_subblock-GivesUp, ParsesAs-step, store_subblock-Ensures,
}
use deadline_knapp_verparsed.Parser.Exits.{
  Ensures-lex, Refused, Statement-brace_refused, Contents-Statement_refused, by_text,
  contents_fails, statement_fails, contents_ends,
}

module _ {w₀ : World} where
  mutual
    unfolding statement_loop begins continues log_debug

    statement_loop-ParsesAs :
        (fuel : ℕ) (head : Bytes) (args : List CStr) (b : Block) (s : Bytes) (n : ℕ) {w : World}
        → length s < fuel
        → Steady w₀ w
        → w.live ≡ n + size_block b + 1 + size_args args
        → Ensures w₀
            (ParsesAs w₀ n s (Statement head args b s))
            (statement_loop fuel (word (some head)) args (some b) s w)
    statement_loop-ParsesAs zero head args b s n f st e = absurd (omega arith)
    statement_loop-ParsesAs (suc fuel) head args (block name outer ds bs) s n f st e =
        let b = block name outer ds bs in
        let m = n + size_block b in
        Ensures-lex s (m + 1 + size_args args) _ st e
          (λ s' w₁ st₁ starved e₁.
            statement_fails head args b n s s' st₁ (omega arith) (inl starved))
          (λ s' w₁ st₁ same l e₁.
            statement_fails head args b n s s' st₁ (omega arith)
              (inr (Statement-refused head args b s same refl)))
          (λ s' w₁ st₁ same l e₁.
            GivesUp-rejected b n (inr (Statement-refused head args b s same refl)) (
              token_free-cleanup-Ensures head args (some b) s' m (plain_token token_eof) st₁
                (omega arith)))
          (λ s' w₁ st₁ same l e₁.
            let k = m + 1 + size_args args in
            let next = plain_token token_lbrace in
            Ensures-obtain size_block k _
              (config_block_create-Ensures (some head) k st₁ (omega arith))
              (λ w₂ st₂ starved e₂.
                GivesUp-rejected b n (inl starved)
                  (token_free-cleanup-Ensures head args (some b) s' m next st₂ (omega arith)))
              (λ w₂ st₂ e₂.
                Ensures-adds size_block k (block (some head) args [] nil) _
                  (add_tokens_to_block-Ensures args (some head) [] [] nil k st₂ e₂)
                  (λ sub w₃ st₃ starved e₃.
                    GivesUp-rejected b n (inl starved)
                      (drop_subblock-Ensures head args (some b) s' m next sub st₃ (omega arith)))
                  (λ w₃ st₃ e₃.
                    Ensures-parsed k _
                      (parse_contents-ParsesAs fuel true (block (some head) args [] nil) s' k
                        (omega arith) st₃ e₃)
                      (λ sub s'' w₄ st₄ e₄ d l'. Stores-parsed (subblock same d) (omega arith) (
                        store_subblock-Ensures head args s'' n next sub name outer ds bs st₄
                          (omega arith)))
                      (λ sub s'' w₄ st₄ e₄ why.
                        GivesUp-rejected b n (Statement-brace_refused w₀ same why)
                          (store_subblock-GivesUp head args s'' n next sub b st₄ (omega arith))))))
          (λ s' w₁ st₁ same l e₁.
            GivesUp-rejected b n (inr (Statement-refused head args b s same refl)) (
              token_free-cleanup-Ensures head args (some b) s' m (plain_token token_rbrace) st₁ e₁))
          (λ s' w₁ st₁ same l e₁. Stores-parsed (directive same) (omega arith) (
            store_directive-Ensures head args s' n (plain_token token_semicolon) name outer ds bs
              st₁ e₁))
          (λ a s' w₁ st₁ same l e₁.
            Ensures-added (m + 1) args a _ (token_list_add-Ensures args a (m + 1) st₁ e₁)
              (λ w₂ st₂ starved e₂.
                GivesUp-rejected b n (inl starved)
                  (token_free-cleanup-Ensures head args (some b) s' m (word a) st₂ e₂))
              (λ w₂ st₂ e₂.
                ParsesAs-step (λ c t d. argument a same d)
                  (λ c t d. Statement-after_argument same d) (omega arith)
                  (statement_loop-ParsesAs fuel head (args ++ a ∷ []) b s' n (omega arith) st₂ e₂)))

    pub parse_contents-ParsesAs :
        (fuel : ℕ) (expect : Bool) (b : Block) (s : Bytes) (n : ℕ) {w : World}
        → length s < fuel
        → Steady w₀ w
        → w.live ≡ n + size_block b
        → Ensures w₀
            (ParsesAs w₀ n s (Contents expect b s))
            (parse_contents fuel expect (some b) s w)
    parse_contents-ParsesAs zero expect b s n f st e = absurd (omega arith)
    parse_contents-ParsesAs (suc fuel) expect b s n f st e =
        Ensures-lex s (n + size_block b) _ st e
          (λ s' w₁ st₁ starved e₁.
            contents_fails tokenization_failed error_token b n s s' refl st₁ (omega arith)
              (inl starved))
          (λ s' w₁ st₁ same l e₁.
            contents_fails tokenization_failed error_token b n s s' refl st₁ (omega arith)
              (inr (Contents-refused expect b s same refl)))
          (λ s' w₁ st₁ same l e₁.
            contents_ends (plain_token token_eof) (not expect) b n s s' st₁ (omega arith) l
              (λ h. at_end_of expect same h) (λ h. Contents-refused expect b s same h))
          (λ s' w₁ st₁ same l e₁.
            contents_fails unexpected_token (plain_token token_lbrace) b n s s' refl st₁
              (omega arith) (inr (Contents-refused expect b s same refl)))
          (λ s' w₁ st₁ same l e₁.
            contents_ends (plain_token token_rbrace) expect b n s s' st₁ e₁ (omega arith)
              (λ h. at_brace_of expect same h) (λ h. Contents-refused expect b s same h))
          (λ s' w₁ st₁ same l e₁.
            contents_fails unexpected_token (plain_token token_semicolon) b n s s' refl st₁
              (omega arith) (inr (Contents-refused expect b s same refl)))
          (by_text _
            (λ s' w₁ st₁ same l e₁.
              contents_fails unexpected_token (word none) b n s s' refl st₁ e₁
                (inr (Contents-refused expect b s same refl)))
            (λ head s' w₁ st₁ same l e₁.
              Ensures-bind (vlog-Ensures 1 (parsing_statement (word (some head))) _ refl st₁ e₁)
                λ _ w₂ st₂ e₂.
                  Ensures-parsed n _
                    (statement_loop-ParsesAs fuel head [] b s' n (omega arith) st₂ (omega arith))
                    (λ b' s'' w₃ st₃ e₃ d l'.
                      ParsesAs-step (λ c t g. statement head same d g)
                        (λ c t g. Contents-after-Statement same d g) (omega arith)
                        (parse_contents-ParsesAs fuel expect b' s'' n (omega arith) st₃ e₃))
                    (λ b' s'' w₃ st₃ e₃ why.
                      holds st₃ (rejected e₃ (Contents-Statement_refused w₀ same why)))))

-- The stream `s` is a configuration file, for the main block `b`.
abbrev pub IsConfig : Bytes → Block → Type 0
IsConfig s b = (rest : Bytes) × Contents false (block (some (codes "main")) [] [] nil) s b rest

-- The result of `config_deserialize`: the block that the grammar gives, with all its allocations;
-- or NULL, with nothing allocated, for a request was refused or the stream is no configuration.
abbrev pub Deserializes : World → ℕ → Bytes → Option Block → World → Type 0
Deserializes w₀ n s none w = (w.live ≡ n) × ((¬ (Plentiful w₀)) ⊎ ((b : Block) → IsConfig s b → ⊥))
Deserializes w₀ n s (some b) w = (w.live ≡ n + size_block b) × IsConfig s b

-- For every allocator and every stream, `config_deserialize` ends within its fuel; it faults only
-- after a refused request; what it returns is what the grammar says of the stream.
pub config_deserialize-Deserializes :
    (s : Bytes) (w₀ : World)
    → Ensures w₀ (Deserializes w₀ w₀.live s) (config_deserialize (some s) w₀)
unfolding config_deserialize log_error
config_deserialize-Deserializes s w₀ =
    let n = w₀.live in
    Ensures-obtain size_block n _
      (config_block_create-Ensures (some (codes "main")) n (Steady-refl w₀) refl)
      (λ w₁ st₁ starved e₁. holds st₁ (e₁, inl starved))
      (λ w₁ st₁ e₁.
        Ensures-parsed n _
          (parse_contents-ParsesAs (suc (length s)) false _ s n (omega arith) st₁ e₁)
          (λ b rest w₂ st₂ e₂ d l.
            Ensures-bind (sys_unsafe_log_info-Ensures deserialize_succeeded _ refl st₂ e₂)
              λ _ w₃ st₃ e₃. holds st₃ (e₃, (rest, d)))
          (λ b rest w₂ st₂ e₂ why.
            Ensures-bind (vlog-Ensures 3 deserialize_failed _ refl st₂ e₂) λ _ w₃ st₃ e₃.
              Ensures-bind (config_block_free-Ensures b n st₃ e₃)
                λ _ w₄ st₄ e₄. holds st₄ (e₄, no_config why)))
  where
    no_config :
        Refused w₀ (Contents false (block (some (codes "main")) [] [] nil) s)
        → (¬ (Plentiful w₀)) ⊎ ((b : Block) → IsConfig s b → ⊥)
    no_config (inl starved) = inl starved
    no_config (inr none_fits) = inr λ b (rest, d). none_fits b rest d
