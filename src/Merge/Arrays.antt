-- ===== src/Merge/Arrays.antt =====
-- configloader/configfile_merge.c: the two arrays of `merge_into`.
use deadline_knapp_verparsed.Base.{ℕ, ◌+◌, Bool, true, false, Option, none, some, ◌≡◌, arith}
use deadline_knapp_verparsed.Runtime.{World, Outcome, done, bind, free}
use deadline_knapp_verparsed.Runtime.Ensures.{
  Plentiful, Steady, Ensures, holds, Ensures-bind, malloc-Ensures, free-Ensures, held, Granted,
}
use deadline_knapp_verparsed.Configfile.{Block, Blocks, nil, cons, has_blocks}
use deadline_knapp_verparsed.Configfile.BlockMemory.{size_block}
use deadline_knapp_verparsed.Merge.{Merged, request_array}
use deadline_knapp_verparsed.Merge.Correct.{MergesInto}

module _ {w₀ : World} where
  request_array-Ensures :
      (bs : Blocks) (n : ℕ) {w : World}
      → Steady w₀ w
      → w.live ≡ n
      → Ensures w₀ (Granted w₀ n (held (has_blocks bs))) (request_array bs w)
  unfolding request_array
  request_array-Ensures nil n s e = holds s (omega (arith, e))
  request_array-Ensures (cons b bs) n s e = malloc-Ensures s e

  -- An array that is requested: NULL, or there.
  pub Ensures-request :
      {B : Type 0} {Q : B → World → Type 0} (bs : Blocks) (n : ℕ) (f : Bool → World → Outcome B)
      {w : World}
      → Steady w₀ w
      → w.live ≡ n
      → ((w' : World) → Steady w₀ w' → ¬ (Plentiful w₀) → w'.live ≡ n → Ensures w₀ Q (f false w'))
      → ((w' : World)
          → Steady w₀ w'
          → w'.live ≡ n + held (has_blocks bs)
          → Ensures w₀ Q (f true w'))
      → Ensures w₀ Q (bind (request_array bs w) f)
  Ensures-request {Q} bs n f s e on_null on_array =
      Ensures-bind (request_array-Ensures bs n s e) cases
    where
      cases :
          (r : Bool) (w' : World)
          → Steady w₀ w'
          → Granted w₀ n (held (has_blocks bs)) r w'
          → Ensures w₀ Q (f r w')
      cases true w' s' p = on_array w' s' p
      cases false w' s' p = on_null w' s' p.0 p.1

  -- The arrays are freed, and the result is passed on.
  pub free_arrays :
      (bs : Blocks) (n : ℕ) (u : Option Block) (m : Merged) {w : World}
      → Steady w₀ w
      → MergesInto w₀ (n + held (has_blocks bs) + held (has_blocks bs)) u m w
      → Ensures w₀
          (MergesInto w₀ n u)
          (bind (free (has_blocks bs) w) λ _ w₁. bind (free (has_blocks bs) w₁) λ _ w₂. done m w₂)
  free_arrays bs n u (err, none) s p = absurd p
  free_arrays bs n u (err, some b) s p =
      Ensures-bind
        (free-Ensures (n + size_block b + held (has_blocks bs)) (has_blocks bs) s
          (omega (arith, p.0)))
        λ _ w₁ s₁ e₁.
          Ensures-bind (free-Ensures (n + size_block b) (has_blocks bs) s₁ e₁)
            λ _ w₂ s₂ e₂. holds s₂ (e₂, p.1, p.2)
