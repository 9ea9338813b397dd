-- ===== src/Parser/Steps.antt =====
-- configloader/configfile_deserialize.c: the helpers of the parser, for every allocator. They free
-- what they do not pass on.
use deadline_knapp_verparsed.Base.{
  ℕ, ◌+◌, List, [], ◌∷◌, ◌++◌, Option, some, Bytes, ◌≡◌, refl, arith, is_some, append_assoc,
  append-nil,
}
use deadline_knapp_verparsed.Runtime.{World, CStr, Status, success, failed, Outcome, bind, arg}
use deadline_knapp_verparsed.Runtime.Ensures.{
  Plentiful, Steady, Ensures, holds, ensures, Ensures-bind, Ensures-update, free-Ensures,
}
use deadline_knapp_verparsed.Logger.{log_info, log_error}
use deadline_knapp_verparsed.Configfile.{Directive, Block, Blocks, block, config_directive_get_name}
use deadline_knapp_verparsed.Configfile.Memory.{
  size_string, size_args, size_directive, size_strings-append, free_strings-Ensures,
  config_directive_free-Ensures, config_directive_add_arg-Ensures,
}
use deadline_knapp_verparsed.Configfile.BlockMemory.{
  size_array, size_block, free_array-Ensures, config_block_free-Ensures,
  config_block_add_arg-Ensures,
}
use deadline_knapp_verparsed.Lexer.{Token}
use deadline_knapp_verparsed.Lexer.Buffers.{vlog-Ensures}
use deadline_knapp_verparsed.Parser.{
  token_free, token_list_free, token_list_add, add_directive_tokens, add_tokens_to_directive,
  add_tokens_to_block, Parsed, cleanup, failed_to_store, drop_directive, drop_subblock, stored,
}
use deadline_knapp_verparsed.Parser.Grammar.{word}

abbrev pub size_token : Token → ℕ
size_token tok = size_string tok.lexeme

-- The outcome of adding a list of arguments to an object: all are added, or some and then a request
-- was refused.
abbrev pub AddsAll : {A : Type 0} → World → (A → ℕ) → ℕ → A → Status × Option A → World → Type 0
AddsAll w₀ size n a (success, p) w = (p ≡ some a) × (w.live ≡ n + size a)
AddsAll {A} w₀ size n a (failed, p) w =
    (¬ (Plentiful w₀)) × ((a' : A) × (p ≡ some a') × (w.live ≡ n + size a'))

abbrev pub AddsToken : World → ℕ → List CStr → CStr → Status × List CStr → World → Type 0
AddsToken w₀ n items t (success, r) w =
    (r ≡ items ++ t ∷ []) × (w.live ≡ n + size_args (items ++ t ∷ []))
AddsToken w₀ n items t (failed, r) w =
    (¬ (Plentiful w₀)) × (r ≡ items) × (w.live ≡ n + size_args items + size_string t)

-- The parse function gives up, and leaves the block and the allocations as they are.
abbrev pub GivesUp : ℕ → Option Block → Parsed → World → Type 0
GivesUp n b r w = (s : Bytes) × (r ≡ (failed, b, s)) × (w.live ≡ n)

module _ {w₀ : World} where
  pub token_free-Ensures :
      (tok : Token) (n : ℕ) {w : World}
      → Steady w₀ w
      → w.live ≡ n + size_token tok
      → Ensures w₀ (λ _ w'. w'.live ≡ n) (token_free tok w)
  unfolding token_free
  token_free-Ensures tok n s e = free-Ensures n (is_some tok.lexeme) s e

  token_list_free-Ensures :
      (items : List CStr) (n : ℕ) {w : World}
      → Steady w₀ w
      → w.live ≡ n + size_args items
      → Ensures w₀ (λ _ w'. w'.live ≡ n) (token_list_free items w)
  unfolding token_list_free
  token_list_free-Ensures items n s e =
      Ensures-bind (free_strings-Ensures items (n + size_array items) s (omega arith))
        λ _ w₁ s₁ e₁. free_array-Ensures items n s₁ e₁

  pub token_list_add-Ensures :
      (items : List CStr) (t : CStr) (n : ℕ) {w : World}
      → Steady w₀ w
      → w.live ≡ n + size_args items + size_string t
      → Ensures w₀ (AddsToken w₀ n items t) (token_list_add items t w)
  unfolding token_list_add
  token_list_add-Ensures [] t n s e = ensures _ (ground (arith, s.plentiful))
  token_list_add-Ensures (i ∷ items) t n s e =
      ensures _ (ground (arith, s.plentiful, size_strings-append items (t ∷ [])))

  add_directive_tokens-Ensures :
      (args : List CStr) (d : Directive) (n : ℕ) {w : World}
      → Steady w₀ w
      → w.live ≡ n + size_directive d
      → Ensures w₀
          (AddsAll w₀ size_directive n (record d { args = d.args ++ args }))
          (add_directive_tokens args (some d) w)
  unfolding add_directive_tokens
  add_directive_tokens-Ensures [] d n s e = holds s (rw append-nil, rw append-nil e)
  add_directive_tokens-Ensures (a ∷ args) d n s e =
      Ensures-update size_directive n 0 _ _ _ (config_directive_add_arg-Ensures d a n s e)
        (λ w₁ s₁ starved e₁. holds s₁ (starved, (d, refl, omega arith)))
        (λ w₁ s₁ e₁.
          rw (append_assoc d.args (a ∷ []) args) at
            (add_directive_tokens-Ensures args (record d { args = d.args ++ a ∷ [] }) n s₁ e₁))

  pub add_tokens_to_directive-Ensures :
      (args : List CStr) (name : Bytes) (n : ℕ) {w : World}
      → Steady w₀ w
      → w.live ≡ n + size_directive (record { name = some name; args = [] })
      → Ensures w₀
          (AddsAll w₀ size_directive n (record { name = some name; args = args }))
          (add_tokens_to_directive (some (record { name = some name; args = [] })) args w)
  unfolding add_tokens_to_directive log_info config_directive_get_name
  add_tokens_to_directive-Ensures args name n s e =
      Ensures-bind (vlog-Ensures 0 (arg (some name) ∷ []) _ refl s e) λ _ w₁ s₁ e₁.
        add_directive_tokens-Ensures args (record { name = some name; args = [] }) n s₁ e₁

  pub add_tokens_to_block-Ensures :
      (more : List CStr) (name : CStr) (args : List CStr) (ds : List Directive) (bs : Blocks)
      (n : ℕ) {w : World}
      → Steady w₀ w
      → w.live ≡ n + size_block (block name args ds bs)
      → Ensures w₀
          (AddsAll w₀ size_block n (block name (args ++ more) ds bs))
          (add_tokens_to_block more (some (block name args ds bs)) w)
  unfolding add_tokens_to_block
  add_tokens_to_block-Ensures [] name args ds bs n s e = holds s (rw append-nil, rw append-nil e)
  add_tokens_to_block-Ensures (a ∷ more) name args ds bs n s e =
      Ensures-update size_block n 0 _ _ _ (config_block_add_arg-Ensures name args ds bs a n s e)
        (λ w₁ s₁ starved e₁. holds s₁ (starved, (_, refl, omega arith)))
        (λ w₁ s₁ e₁.
          rw (append_assoc args (a ∷ []) more) at
            (add_tokens_to_block-Ensures more name (args ++ a ∷ []) ds bs n s₁ e₁))

  module _ (head : Bytes) (args : List CStr) (b : Option Block) (rest : Bytes) (n : ℕ) where
    pub cleanup-Ensures :
        {w : World}
        → Steady w₀ w
        → w.live ≡ n + 1 + size_args args
        → Ensures w₀ (GivesUp n b) (cleanup (word (some head)) args b rest w)
    unfolding cleanup
    cleanup-Ensures s e = Ensures-bind (token_list_free-Ensures args (n + 1) s e) λ _ w₁ s₁ e₁.
        Ensures-bind (token_free-Ensures (word (some head)) n s₁ e₁)
          λ _ w₂ s₂ e₂. holds s₂ (rest, refl, e₂)

    pub token_free-cleanup-Ensures :
        (next : Token) {w : World}
        → Steady w₀ w
        → w.live ≡ n + 1 + size_args args + size_token next
        → Ensures w₀
            (GivesUp n b)
            (bind (token_free next w) (λ _. cleanup (word (some head)) args b rest))
    token_free-cleanup-Ensures next s e =
        Ensures-bind (token_free-Ensures next _ s e) λ _ w₁ s₁ e₁. cleanup-Ensures s₁ e₁

    pub drop_directive-Ensures :
        (next : Token) (d : Directive) {w : World}
        → Steady w₀ w
        → w.live ≡ n + 1 + size_args args + size_token next + size_directive d
        → Ensures w₀ (GivesUp n b) (drop_directive (word (some head)) next args (some d) b rest w)
    unfolding drop_directive log_error
    drop_directive-Ensures next d s e =
        Ensures-bind (vlog-Ensures 3 (failed_to_store (word (some head))) _ refl s e) λ _ w₁ s₁ e₁.
          Ensures-bind (config_directive_free-Ensures d _ s₁ e₁)
            λ _ w₂ s₂ e₂. token_free-cleanup-Ensures next s₂ e₂

    pub drop_subblock-Ensures :
        (next : Token) (sub : Block) {w : World}
        → Steady w₀ w
        → w.live ≡ n + 1 + size_args args + size_token next + size_block sub
        → Ensures w₀ (GivesUp n b) (drop_subblock (word (some head)) next args (some sub) b rest w)
    unfolding drop_subblock log_error
    drop_subblock-Ensures next sub s e =
        Ensures-bind (vlog-Ensures 3 (failed_to_store (word (some head))) _ refl s e) λ _ w₁ s₁ e₁.
          Ensures-bind (config_block_free-Ensures sub _ s₁ e₁)
            λ _ w₂ s₂ e₂. token_free-cleanup-Ensures next s₂ e₂

    pub stored-Ensures :
        (next : Token) {w : World}
        → Steady w₀ w
        → w.live ≡ n + 1 + size_args args + size_token next
        → Ensures w₀
            (λ r w'. (r ≡ (success, b, rest)) × (w'.live ≡ n))
            (stored (word (some head)) next args b rest w)
    unfolding stored
    stored-Ensures next s e = Ensures-bind (token_free-Ensures next _ s e) λ _ w₁ s₁ e₁.
        Ensures-bind (token_list_free-Ensures args (n + 1) s₁ e₁) λ _ w₂ s₂ e₂.
          Ensures-bind (token_free-Ensures (word (some head)) n s₂ e₂)
            λ _ w₃ s₃ e₃. holds s₃ (refl, e₃)

module _ {w₀ : World} {B : Type 0} {Q : B → World → Type 0} (n : ℕ) where
  pub Ensures-added :
      (items : List CStr) (t : CStr) {r : Outcome (Status × List CStr)}
      (f : Status × List CStr → World → Outcome B)
      → Ensures w₀ (AddsToken w₀ n items t) r
      → ((w : World)
          → Steady w₀ w
          → ¬ (Plentiful w₀)
          → w.live ≡ n + size_args items + size_string t
          → Ensures w₀ Q (f (failed, items) w))
      → ((w : World)
          → Steady w₀ w
          → w.live ≡ n + size_args (items ++ t ∷ [])
          → Ensures w₀ Q (f (success, items ++ t ∷ []) w))
      → Ensures w₀ Q (bind r f)
  Ensures-added items t f h on_failure on_success = Ensures-bind h cases
    where
      cases :
          (o : Status × List CStr) (w : World)
          → Steady w₀ w
          → AddsToken w₀ n items t o w
          → Ensures w₀ Q (f o w)
      cases (failed, p) w s (starved, same, e) = rw same (on_failure w s starved e)
      cases (success, p) w s (same, e) = rw same (on_success w s e)
