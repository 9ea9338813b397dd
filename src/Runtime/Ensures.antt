-- ===== src/Runtime/Ensures.antt =====
-- Postconditions of runs. A run starts in a world `w₀`, and its parts are described by what they
-- leave of `w₀`, so that a lemma on a function applies at any point of a run.
use deadline_knapp_verparsed.Base.{
  ℕ, ◌+◌, ◌<◌, Bool, true, false, Option, none, some, List, [], ◌∷◌, ◌&&◌, ◌≡◌, refl, ap, ◌∙◌,
  arith,
}
use deadline_knapp_verparsed.Runtime.{
  World, Outcome, done, fault, out_of_fuel, bind, Status, success, failed, malloc, realloc, free,
}

abbrev pub all_granted : List Bool → Bool
all_granted [] = true
all_granted (granted ∷ later) = granted && all_granted later

-- The allocator grants every request to come: no answer is a refusal.
abbrev pub Plentiful : World → Type 0
Plentiful w = all_granted w.answers ≡ true

pub all_granted_same : {xs ys : List Bool} → ys ≡ xs → all_granted xs ≡ true → all_granted ys ≡ true
all_granted_same e p = ap all_granted e ∙ p

-- What every operation on configurations leaves alone: the log level, the output stream, and, while
-- messages of level INFO are off, the commands handed to the shell.
pub record Steady (w₀ w : World) : Type 0 where
  pub plentiful : Plentiful w₀ → Plentiful w
  pub visibility_same : w.visibility ≡ w₀.visibility
  pub out_same : w.out ≡ w₀.out
  pub commands_same : 0 < w₀.visibility → w.commands ≡ w₀.commands

pub Steady-refl : (w : World) → Steady w w
Steady-refl w = record {
  plentiful = λ p. p;
  visibility_same = refl;
  out_same = refl;
  commands_same = λ h. refl;
}

-- The run ends within its fuel, in a world in which `P` holds, or it has faulted, which it does
-- only if a request was refused.
pub data Ensures {A : Type 0} (w₀ : World) (P : A → World → Type 0) : Outcome A → Type 0 where
  holds : {a : A} {w : World} → Steady w₀ w → P a w → Ensures w₀ P (done a w)
  faulted : ¬ (Plentiful w₀) → Ensures w₀ P fault

-- The same by computation.
abbrev pub Holds : {A : Type 0} → World → (A → World → Type 0) → Outcome A → Type 0
Holds w₀ P (done a w) = Steady w₀ w × P a w
Holds w₀ P fault = ¬ (Plentiful w₀)
Holds w₀ P out_of_fuel = ⊥

module _ {A : Type 0} {w₀ : World} {P : A → World → Type 0} where
  pub ensures : (r : Outcome A) → Holds w₀ P r → Ensures w₀ P r
  ensures (done a w) (s, p) = holds s p
  ensures fault h = faulted h
  ensures out_of_fuel h = elim h [ ]

  pub ensured : {r : Outcome A} → Ensures w₀ P r → Holds w₀ P r
  ensured (holds s p) = (s, p)
  ensured (faulted h) = h

  pub Ensures-bind :
      {B : Type 0} {Q : B → World → Type 0} {r : Outcome A} {f : A → World → Outcome B}
      → Ensures w₀ P r
      → ((a : A) (w : World) → Steady w₀ w → P a w → Ensures w₀ Q (f a w))
      → Ensures w₀ Q (bind r f)
  Ensures-bind (holds s p) k = k _ _ s p
  Ensures-bind (faulted h) k = faulted h

  pub Ensures-map :
      {Q : A → World → Type 0} {r : Outcome A}
      → Ensures w₀ P r
      → ((a : A) (w : World) → P a w → Q a w)
      → Ensures w₀ Q r
  Ensures-map (holds s p) k = holds s (k _ _ p)
  Ensures-map (faulted h) k = faulted h

-- The result of an allocating function: NULL, with nothing more allocated than the `n` before, or
-- a pointer to `a`, which owns as many allocations as `size` says.
module _ {A : Type 0} (w₀ : World) (size : A → ℕ) where
  abbrev pub Obtains : ℕ → A → Option A → World → Type 0
  Obtains n a none w = (¬ (Plentiful w₀)) × (w.live ≡ n)
  Obtains n a (some c) w = (c ≡ a) × (w.live ≡ n + size a)

  -- The result of a function that adds something of `k` allocations to the object `a`, through a
  -- pointer to it. The object then is `b`, or it still is `a`, with what was not added beside it.
  abbrev pub Updates : ℕ → ℕ → A → A → Status × Option A → World → Type 0
  Updates n k a b (failed, p) w = (¬ (Plentiful w₀)) × (p ≡ some a) × (w.live ≡ n + size a + k)
  Updates n k a b (success, p) w = (p ≡ some b) × (w.live ≡ n + size b)

module _ {A : Type 0} {w₀ : World} {B : Type 0} {Q : B → World → Type 0} (size : A → ℕ)
    (n : ℕ) where
  pub Ensures-obtain :
      {a : A} {r : Outcome (Option A)} (f : Option A → World → Outcome B)
      → Ensures w₀ (Obtains w₀ size n a) r
      → ((w : World) → Steady w₀ w → ¬ (Plentiful w₀) → w.live ≡ n → Ensures w₀ Q (f none w))
      → ((w : World) → Steady w₀ w → w.live ≡ n + size a → Ensures w₀ Q (f (some a) w))
      → Ensures w₀ Q (bind r f)
  Ensures-obtain {a} f h on_null on_object = Ensures-bind h cases
    where
      cases :
          (o : Option A) (w : World) → Steady w₀ w → Obtains w₀ size n a o w → Ensures w₀ Q (f o w)
      cases none w s (starved, e) = on_null w s starved e
      cases (some c) w s (same, e) = rw same (on_object w s e)

  pub Ensures-update :
      (k : ℕ) (a b : A) {r : Outcome (Status × Option A)}
      (f : Status × Option A → World → Outcome B)
      → Ensures w₀ (Updates w₀ size n k a b) r
      → ((w : World)
          → Steady w₀ w
          → ¬ (Plentiful w₀)
          → w.live ≡ n + size a + k
          → Ensures w₀ Q (f (failed, some a) w))
      → ((w : World) → Steady w₀ w → w.live ≡ n + size b → Ensures w₀ Q (f (success, some b) w))
      → Ensures w₀ Q (bind r f)
  Ensures-update k a b f h on_failure on_success = Ensures-bind h cases
    where
      cases :
          (o : Status × Option A) (w : World)
          → Steady w₀ w
          → Updates w₀ size n k a b o w
          → Ensures w₀ Q (f o w)
      cases (failed, p) w s (starved, same, e) = rw same (on_failure w s starved e)
      cases (success, p) w s (same, e) = rw same (on_success w s e)

-- `malloc` and `realloc`: the result is not NULL, with `k` more allocations, or it is NULL.
abbrev pub Granted : World → ℕ → ℕ → Bool → World → Type 0
Granted w₀ n k true w = w.live ≡ n + k
Granted w₀ n k false w = (¬ (Plentiful w₀)) × (w.live ≡ n)

-- A new allocation for a pointer that was NULL.
abbrev pub fresh : Bool → ℕ
fresh true = 0
fresh false = 1

module _ {w₀ w : World} {n : ℕ} (s : Steady w₀ w) (e : w.live ≡ n) where
  pub malloc-Ensures : Ensures w₀ (Granted w₀ n 1) (malloc w)
  unfolding malloc
  malloc-Ensures = ensures _ (ground (arith, s.plentiful))

  pub realloc-Ensures : (p : Bool) → Ensures w₀ (Granted w₀ n (fresh p)) (realloc p w)
  unfolding realloc
  realloc-Ensures true = ensures _ (ground (arith, s.plentiful))
  realloc-Ensures false = malloc-Ensures

-- How many allocations a pointer that is not NULL (`true`) or NULL stands for.
abbrev pub held : Bool → ℕ
held true = 1
held false = 0

pub free-Ensures :
    {w₀ w : World} (n : ℕ) (p : Bool)
    → Steady w₀ w
    → w.live ≡ n + held p
    → Ensures w₀ (λ _ w'. w'.live ≡ n) (free p w)
unfolding free
free-Ensures n true s e = ensures _ (ground arith)
free-Ensures n false s e = holds s (omega arith)

-- A result that may be NULL.
pub Ensures-option :
    {A : Type 0} {B : Type 0} {w₀ : World} {P : Option A → World → Type 0} {Q : B → World → Type 0}
    {r : Outcome (Option A)} (f : Option A → World → Outcome B)
    → Ensures w₀ P r
    → ((w : World) → Steady w₀ w → P none w → Ensures w₀ Q (f none w))
    → ((a : A) (w : World) → Steady w₀ w → P (some a) w → Ensures w₀ Q (f (some a) w))
    → Ensures w₀ Q (bind r f)
Ensures-option {A} {B} {w₀} {P} {Q} f h on_null on_object = Ensures-bind h cases
  where
    cases : (o : Option A) (w : World) → Steady w₀ w → P o w → Ensures w₀ Q (f o w)
    cases none w s p = on_null w s p
    cases (some a) w s p = on_object a w s p

pub Ensures-granted :
    {B : Type 0} {w₀ : World} {Q : B → World → Type 0} (n k : ℕ) {r : Outcome Bool}
    (f : Bool → World → Outcome B)
    → Ensures w₀ (Granted w₀ n k) r
    → ((w : World) → Steady w₀ w → ¬ (Plentiful w₀) → w.live ≡ n → Ensures w₀ Q (f false w))
    → ((w : World) → Steady w₀ w → w.live ≡ n + k → Ensures w₀ Q (f true w))
    → Ensures w₀ Q (bind r f)
Ensures-granted {B} {w₀} {Q} n k f h on_null on_object = Ensures-bind h cases
  where
    cases : (o : Bool) (w : World) → Steady w₀ w → Granted w₀ n k o w → Ensures w₀ Q (f o w)
    cases false w s (starved, e) = on_null w s starved e
    cases true w s e = on_object w s e
