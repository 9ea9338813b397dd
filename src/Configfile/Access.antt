-- ===== src/Configfile/Access.antt =====
-- configloader/configfile.c: what the getters of a block return behind the functions that add to it.
use deadline_knapp_verparsed.Base.{ℕ, suc, Option, some, ◌≡◌, ◌==◌, if◌then◌else◌}
use deadline_knapp_verparsed.Runtime.{World, Status, success, failed}
use deadline_knapp_verparsed.Runtime.Ensures.{Plentiful, Ensures}

-- Behind an addition, a getter returns the added entry at the old count, and at every other index
-- what it returned before, and there is one entry more; or, only after a refused request, the addition
-- has failed, and the object is the one before.
abbrev pub AddsEntry :
    {A B : Type 0}
    → World
    → (Option B → ℕ → Option A)
    → (Option B → ℕ)
    → B
    → A
    → Status × Option B
    → Type 0
AddsEntry w₀ get count b a (failed, r) = (¬ (Plentiful w₀)) × (r ≡ some b)
AddsEntry w₀ get count b a (success, r) =
    ((i : ℕ) → get r i ≡ (if i == count (some b) then some a else get (some b) i))
    × (count r ≡ suc (count (some b)))
