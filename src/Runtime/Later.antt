-- ===== src/Runtime/Later.antt =====
-- Later points of a run in which nothing has been written yet, and runs that are described from
-- there.
use deadline_knapp_verparsed.Base.{◌≡◌, refl, ◌∙◌}
use deadline_knapp_verparsed.Runtime.{World, Outcome, bind}
use deadline_knapp_verparsed.Runtime.Ensures.{Plentiful, all_granted_same, Steady}
use deadline_knapp_verparsed.Runtime.Ends.{Ends, returns, faults}
use deadline_knapp_verparsed.Runtime.Leaves.{Kept, Leaves, leaves}

-- A later point of the same run: nothing is written yet, and granted requests stay granted.
pub record Still (w₀ w : World) : Type 0 where
  pub still_plentiful : Plentiful w₀ → Plentiful w
  pub still_out : w.out ≡ w₀.out

pub Still-refl : (w : World) → Still w w
Still-refl w = record { still_plentiful = λ p. p; still_out = refl }

pub Still-Kept : {w₀ w w' : World} → Still w₀ w → Kept w w' → Still w₀ w'
Still-Kept s k = record {
  still_plentiful = λ p. all_granted_same k.answers_kept (s.still_plentiful p);
  still_out = k.out_kept ∙ s.still_out;
}

pub Still-Steady : {w₀ w w' : World} → Still w₀ w → Steady w w' → Still w₀ w'
Still-Steady s t = record {
  still_plentiful = λ p. t.plentiful (s.still_plentiful p);
  still_out = t.out_same ∙ s.still_out;
}

module _ {A : Type 0} {B : Type 0} {w₀ : World} {Q : B → World → Type 0} where
  pub Ends-leaves :
      {P : A → Type 0} {w : World} {r : Outcome A} (f : A → World → Outcome B)
      → Leaves w P r
      → ((a : A) (w' : World) → Kept w w' → P a → Ends w₀ Q (f a w'))
      → Ends w₀ Q (bind r f)
  Ends-leaves f (leaves s p) k = k _ _ s p

  pub Ends-next :
      {P : A → World → Type 0} {r : Outcome A} (f : A → World → Outcome B)
      → Ends w₀ P r
      → ((a : A) (w' : World) → P a w' → Ends w₀ Q (f a w'))
      → Ends w₀ Q (bind r f)
  Ends-next f (returns p) k = k _ _ p
  Ends-next f (faults h) k = faults h

pub Ends-map :
    {A : Type 0} {w₀ : World} {P Q : A → World → Type 0} {r : Outcome A}
    → Ends w₀ P r
    → ((a : A) (w' : World) → P a w' → Q a w')
    → Ends w₀ Q r
Ends-map (returns p) k = returns (k _ _ p)
Ends-map (faults h) k = faults h

pub Ends-rebased :
    {A B : Type 0} {w₀ w : World} {P : A → World → Type 0} {Q : B → World → Type 0} {r : Outcome A}
    (f : A → World → Outcome B)
    → (Plentiful w₀ → Plentiful w)
    → Ends w P r
    → ((a : A) (w₁ : World) → P a w₁ → Ends w₀ Q (f a w₁))
    → Ends w₀ Q (bind r f)
Ends-rebased f still (returns p) k = k _ _ p
Ends-rebased f still (faults h) k = faults λ p. h (still p)
