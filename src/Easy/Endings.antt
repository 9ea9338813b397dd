-- ===== src/Easy/Endings.antt =====
-- configloader/configfile_easy.c: how the functions end, in success and in failure.
use deadline_knapp_verparsed.Base.{
  ℕ, ◌+◌, ◌<◌, List, length, leb, [], ◌∷◌, ◌++◌, Option, none, some, Bytes, Bool-cases, ltb, ◌≡◌,
  refl, ap, ◌∙◌, ◌⊎◌, inl, inr,
}
use deadline_knapp_verparsed.Runtime.{
  World, CStr, Outcome, done, fault, bind, Status, success, failed, vformat, Piece,
}
use deadline_knapp_verparsed.Runtime.Ensures.{Plentiful, Steady, Steady-refl, Ensures}
use deadline_knapp_verparsed.Runtime.Ends.{Ends, returns, faults, Ends-bind, Ends-restart}
use deadline_knapp_verparsed.Sysunsafe.{
  sys_unsafe_log_error, sys_unsafe_vlog, sys_unsafe_run, system_internal_dispatch, echo_command,
  int_limit,
}
use deadline_knapp_verparsed.Configfile.{Directive, Block, config_directive_free, config_block_free}
use deadline_knapp_verparsed.Configfile.Memory.{size_directive, config_directive_free-Ensures}
use deadline_knapp_verparsed.Configfile.BlockMemory.{size_block, config_block_free-Ensures}
use deadline_knapp_verparsed.Easy.{failed_to_store}

-- The commands of a world that a failed call leaves: it may have added one message.
abbrev pub Reports : CStr → World → World → Type 0
Reports name w₀ w =
    0 < w₀.visibility
    → (w.commands ≡ w₀.commands)
      ⊎ ((message : Bytes) × (vformat (failed_to_store name) ≡ some message)
          × (w.commands ≡ w₀.commands ++ echo_command 3 message ∷ []))

-- What a call may return that is to add `a` to `old`, so that it becomes `new`. Of the `n`
-- allocations beside the block none is touched.
abbrev pub Adds :
    {A : Type 0} (w₀ : World) (n : ℕ) (name : CStr) (a : A) (old new : Block)
    → Option A × Option Block
    → World
    → Type 0
Adds w₀ n name a old new (some a', p) w =
    Steady w₀ w × (a' ≡ a) × (p ≡ some new) × (w.live ≡ n + size_block new)
Adds w₀ n name a old new (none, p) w =
    (¬ (Plentiful w₀)) × (p ≡ some old) × (w.live ≡ n + size_block old) × Reports name w₀ w

-- The result of a loop that adds arguments: all of them, or some.
abbrev pub Fills :
    {A : Type 0} (w₀ : World) (size : A → ℕ) (n : ℕ) (a : A) → Status × Option A → World → Type 0
Fills w₀ size n a (success, p) w = (p ≡ some a) × (w.live ≡ n + size a)
Fills {A} w₀ size n a (failed, p) w =
    (¬ (Plentiful w₀)) × ((partly : A) × (p ≡ some partly) × (w.live ≡ n + size partly))

module _ {A : Type 0} {w₀ : World} {B : Type 0} {Q : B → World → Type 0} (size : A → ℕ)
    (n : ℕ) where
  pub Ends-fill :
      {a : A} {r : Outcome (Status × Option A)} (f : Status × Option A → World → Outcome B)
      → Ensures w₀ (Fills w₀ size n a) r
      → ((partly : A) (w : World)
          → Steady w₀ w
          → ¬ (Plentiful w₀)
          → w.live ≡ n + size partly
          → Ends w₀ Q (f (failed, some partly) w))
      → ((w : World) → Steady w₀ w → w.live ≡ n + size a → Ends w₀ Q (f (success, some a) w))
      → Ends w₀ Q (bind r f)
  Ends-fill {a} f h on_failure on_success = Ends-bind h cases
    where
      cases :
          (o : Status × Option A) (w : World)
          → Steady w₀ w
          → Fills w₀ size n a o w
          → Ends w₀ Q (f o w)
      cases (failed, p) w s (starved, (partly, same, e)) = rw same (on_failure partly w s starved e)
      cases (success, p) w s (same, e) = rw same (on_success w s e)

-- Nothing that is written goes to a shell without a message.
pub quietly : (name : CStr) {w₀ w : World} → Steady w₀ w → Reports name w₀ w
quietly name s h = inl (s.commands_same h)

logged-cases :
    (format : List Piece) (message : Bytes) (w : World)
    → vformat format ≡ some message
    → (sys_unsafe_log_error format w ≡ done tt w)
      ⊎ (sys_unsafe_log_error format w
          ≡ done tt (record w { commands = w.commands ++ echo_command 3 message ∷ [] }))
unfolding sys_unsafe_log_error sys_unsafe_vlog sys_unsafe_run system_internal_dispatch
logged-cases format message w h = elim (Bool-cases (ltb 3 w.visibility)) [
  | inl hidden ↦ inl (rw hidden refl)
  | inr shown ↦ elim (Bool-cases (leb int_limit (length message))) [
    | inl too_long ↦ inl (rw (shown, h, too_long) refl)
    | inr fits ↦ inr (rw (shown, h, fits) refl)
  ]
]

-- The message of a failed call.
sys_unsafe_log_error-cases :
    (name : CStr) (w : World)
    → (sys_unsafe_log_error (failed_to_store name) w ≡ fault)
      ⊎ ((sys_unsafe_log_error (failed_to_store name) w ≡ done tt w)
          ⊎ ((message : Bytes) × (vformat (failed_to_store name) ≡ some message)
              × (sys_unsafe_log_error (failed_to_store name) w
                  ≡ done tt (record w { commands = w.commands ++ echo_command 3 message ∷ [] }))))
unfolding sys_unsafe_log_error sys_unsafe_vlog sys_unsafe_run system_internal_dispatch
sys_unsafe_log_error-cases none w = elim (Bool-cases (ltb 3 w.visibility)) [
  | inl hidden ↦ inr (inl (rw hidden refl))
  | inr shown ↦ inl (rw shown refl)
]
sys_unsafe_log_error-cases (some s) w = elim (logged-cases (failed_to_store (some s)) _ w refl) [
  | inl nothing ↦ inr (inl nothing)
  | inr shown ↦ inr (inr (_, refl, shown))
]

module _ {w₀ : World} where
  -- The end of a call that fails: what was not added is freed.
  module _ {A : Type 0} (n : ℕ) (name : CStr) (a : A) (old new : Block) {w : World}
      (s : Steady w₀ w) (starved : ¬ (Plentiful w₀)) where
    pub drop_directive :
        (d : Directive)
        → w.live ≡ n + size_block old + size_directive d
        → Ends w₀
            (Adds w₀ n name a old new)
            (bind (config_directive_free (some d) w) λ _ w'. done (none, some old) w')
    drop_directive d e =
        Ends-bind (config_directive_free-Ensures d (n + size_block old) s e)
          λ _ w' s' e'. returns (starved, refl, e', quietly name s')

    pub drop_subblock :
        (b : Block)
        → w.live ≡ n + size_block old + size_block b
        → Ends w₀
            (Adds w₀ n name a old new)
            (bind (config_block_free (some b) w) λ _ w'. done (none, some old) w')
    drop_subblock b e =
        Ends-bind (config_block_free-Ensures b (n + size_block old) s e)
          λ _ w' s' e'. returns (starved, refl, e', quietly name s')

    pub report_drop_directive :
        (d : Directive)
        → w.live ≡ n + size_block old + size_directive d
        → Ends w₀ (Adds w₀ n name a old new) (
            bind
              (sys_unsafe_log_error (failed_to_store name) w)
              λ _ w₁. bind (config_directive_free (some d) w₁) λ _ w₂. done (none, some old) w₂)
    report_drop_directive d e = elim (sys_unsafe_log_error-cases name w) [
      | inl crashed ↦ rw crashed (faults starved)
      | inr (inl hidden) ↦ rw hidden (drop_directive d e)
      | inr (inr (message, format, shown)) ↦
          let w₁ = record w { commands = w.commands ++ echo_command 3 message ∷ [] } in
          rw shown (
            Ends-restart starved
              (config_directive_free-Ensures d (n + size_block old) (Steady-refl w₁) e)
              λ _ w₂ s₂ e₂. returns (
                starved,
                refl,
                e₂,
                λ h. inr (
                  message,
                  format,
                  s₂.commands_same (rw s.visibility_same h)
                      ∙ ap (λ cs. cs ++ echo_command 3 message ∷ []) (s.commands_same h),
                ),
              ))
    ]
