-- ===== src/Runtime/Ends.antt =====
-- Postconditions of runs that change more than configurations do: the message of a failure may go
-- to the shell, and the output stream is written to.
use deadline_knapp_verparsed.Base.{Bool, true, false, ℕ, ◌+◌, Option, none, some, ◌≡◌, ◌∙◌}
use deadline_knapp_verparsed.Runtime.{World, Outcome, done, fault, bind, Status, success, failed}
use deadline_knapp_verparsed.Runtime.Ensures.{
  Plentiful, Steady, Ensures, holds, faulted, Obtains, Updates, Granted,
}

pub Steady-trans : {w₀ w₁ w₂ : World} → Steady w₀ w₁ → Steady w₁ w₂ → Steady w₀ w₂
Steady-trans s t = record {
  plentiful = λ p. t.plentiful (s.plentiful p);
  visibility_same = t.visibility_same ∙ s.visibility_same;
  out_same = t.out_same ∙ s.out_same;
  commands_same = λ h. t.commands_same (rw s.visibility_same h) ∙ s.commands_same h;
}

-- A part of a run that is described by the world it starts in.
pub Ensures-part :
    {A : Type 0} {w₀ w₁ : World} {P Q : A → World → Type 0} {r : Outcome A}
    → Steady w₀ w₁
    → Ensures w₁ P r
    → ((a : A) (w : World) → P a w → Q a w)
    → Ensures w₀ Q r
Ensures-part s (holds t p) k = holds (Steady-trans s t) (k _ _ p)
Ensures-part s (faulted h) k = faulted λ p. h (s.plentiful p)

-- `Ensures` for a run of which `P` tells everything, also what it leaves alone.
pub data Ends {A : Type 0} (w₀ : World) (P : A → World → Type 0) : Outcome A → Type 0 where
  returns : {a : A} {w : World} → P a w → Ends w₀ P (done a w)
  faults : ¬ (Plentiful w₀) → Ends w₀ P fault

module _ {A : Type 0} {B : Type 0} {w₀ : World} {P : A → World → Type 0}
    {Q : B → World → Type 0} where
  pub Ends-bind :
      {r : Outcome A} {f : A → World → Outcome B}
      → Ensures w₀ P r
      → ((a : A) (w : World) → Steady w₀ w → P a w → Ends w₀ Q (f a w))
      → Ends w₀ Q (bind r f)
  Ends-bind (holds s p) k = k _ _ s p
  Ends-bind (faulted h) k = faults h

  -- From a later world on.
  pub Ends-from :
      {w₁ : World} {r : Outcome A} {f : A → World → Outcome B}
      → (Plentiful w₀ → Plentiful w₁)
      → Ensures w₁ P r
      → ((a : A) (w : World) → Steady w₁ w → P a w → Ends w₀ Q (f a w))
      → Ends w₀ Q (bind r f)
  Ends-from still (holds s p) k = k _ _ s p
  Ends-from still (faulted h) k = faults λ p. h (still p)

  -- From a later world on, after a refused request.
  pub Ends-restart :
      {w₁ : World} {r : Outcome A} {f : A → World → Outcome B}
      → ¬ (Plentiful w₀)
      → Ensures w₁ P r
      → ((a : A) (w : World) → Steady w₁ w → P a w → Ends w₀ Q (f a w))
      → Ends w₀ Q (bind r f)
  Ends-restart starved (holds s p) k = k _ _ s p
  Ends-restart starved (faulted h) k = faults starved

module _ {A : Type 0} {w₀ : World} {B : Type 0} {Q : B → World → Type 0} (size : A → ℕ)
    (n : ℕ) where
  pub Ends-obtain :
      {a : A} {r : Outcome (Option A)} (f : Option A → World → Outcome B)
      → Ensures w₀ (Obtains w₀ size n a) r
      → ((w : World) → Steady w₀ w → ¬ (Plentiful w₀) → w.live ≡ n → Ends w₀ Q (f none w))
      → ((w : World) → Steady w₀ w → w.live ≡ n + size a → Ends w₀ Q (f (some a) w))
      → Ends w₀ Q (bind r f)
  Ends-obtain {a} f h on_null on_object = Ends-bind h cases
    where
      cases : (o : Option A) (w : World) → Steady w₀ w → Obtains w₀ size n a o w → Ends w₀ Q (f o w)
      cases none w s (starved, e) = on_null w s starved e
      cases (some c) w s (same, e) = rw same (on_object w s e)

  pub Ends-update :
      (k : ℕ) (a b : A) {r : Outcome (Status × Option A)}
      (f : Status × Option A → World → Outcome B)
      → Ensures w₀ (Updates w₀ size n k a b) r
      → ((w : World)
          → Steady w₀ w
          → ¬ (Plentiful w₀)
          → w.live ≡ n + size a + k
          → Ends w₀ Q (f (failed, some a) w))
      → ((w : World) → Steady w₀ w → w.live ≡ n + size b → Ends w₀ Q (f (success, some b) w))
      → Ends w₀ Q (bind r f)
  Ends-update k a b f h on_failure on_success = Ends-bind h cases
    where
      cases :
          (o : Status × Option A) (w : World)
          → Steady w₀ w
          → Updates w₀ size n k a b o w
          → Ends w₀ Q (f o w)
      cases (failed, p) w s (starved, same, e) = rw same (on_failure w s starved e)
      cases (success, p) w s (same, e) = rw same (on_success w s e)

module _ {B : Type 0} {w₀ : World} {Q : B → World → Type 0} where
  pub Ends-granted :
      (n k : ℕ) {r : Outcome Bool} (f : Bool → World → Outcome B)
      → Ensures w₀ (Granted w₀ n k) r
      → ((w : World) → Steady w₀ w → ¬ (Plentiful w₀) → w.live ≡ n → Ends w₀ Q (f false w))
      → ((w : World) → Steady w₀ w → w.live ≡ n + k → Ends w₀ Q (f true w))
      → Ends w₀ Q (bind r f)
  Ends-granted n k f h on_null on_object = Ends-bind h cases
    where
      cases : (o : Bool) (w : World) → Steady w₀ w → Granted w₀ n k o w → Ends w₀ Q (f o w)
      cases false w s (starved, e) = on_null w s starved e
      cases true w s e = on_object w s e

  -- A result that may be NULL.
  pub Ends-option :
      {A : Type 0} {P : Option A → World → Type 0} {r : Outcome (Option A)}
      (f : Option A → World → Outcome B)
      → Ensures w₀ P r
      → ((w : World) → Steady w₀ w → P none w → Ends w₀ Q (f none w))
      → ((a : A) (w : World) → Steady w₀ w → P (some a) w → Ends w₀ Q (f (some a) w))
      → Ends w₀ Q (bind r f)
  Ends-option {A} {P} f h on_null on_object = Ends-bind h cases
    where
      cases : (o : Option A) (w : World) → Steady w₀ w → P o w → Ends w₀ Q (f o w)
      cases none w s p = on_null w s p
      cases (some a) w s p = on_object a w s p
