-- ===== src/Runtime/Leaves.antt =====
-- Runs that always return, and that change only what is logged.
use deadline_knapp_verparsed.Base.{
  ℕ, List, some, Bytes, Bool-cases, ltb, leb, length, ◌≡◌, refl, ◌∙◌, inl, inr,
}
use deadline_knapp_verparsed.Runtime.{World, Outcome, done, bind, Piece, vformat}
use deadline_knapp_verparsed.Logger.{vlog}
use deadline_knapp_verparsed.Printer.{cfg_err_printf, cfg_err_vprintf, cfg_vfprintf}
use deadline_knapp_verparsed.Sysunsafe.{
  sys_unsafe_vlog, sys_unsafe_run, system_internal_dispatch, int_limit,
}

-- Memory, log level, output stream and allocator are as before.
pub record Kept (w w' : World) : Type 0 where
  pub answers_kept : w'.answers ≡ w.answers
  pub live_kept : w'.live ≡ w.live
  pub visibility_kept : w'.visibility ≡ w.visibility
  pub out_kept : w'.out ≡ w.out

pub Kept-refl : (w : World) → Kept w w
Kept-refl w = record {
  answers_kept = refl;
  live_kept = refl;
  visibility_kept = refl;
  out_kept = refl;
}

pub Kept-trans : {u v w : World} → Kept u v → Kept v w → Kept u w
Kept-trans s t = record {
  answers_kept = t.answers_kept ∙ s.answers_kept;
  live_kept = t.live_kept ∙ s.live_kept;
  visibility_kept = t.visibility_kept ∙ s.visibility_kept;
  out_kept = t.out_kept ∙ s.out_kept;
}

-- The run returns a value for which `P` holds.
pub data Leaves {A : Type 0} (w : World) (P : A → Type 0) : Outcome A → Type 0 where
  leaves : {a : A} {w' : World} → Kept w w' → P a → Leaves w P (done a w')

module _ {A : Type 0} {B : Type 0} {w : World} {P : A → Type 0} {Q : B → Type 0} where
  pub Leaves-bind :
      {r : Outcome A} {f : A → World → Outcome B}
      → Leaves w P r
      → ((a : A) (w' : World) → P a → Leaves w' Q (f a w'))
      → Leaves w Q (bind r f)
  Leaves-bind (leaves {a} {w'} s p) k = go (k a w' p)
    where
      go : {r : Outcome B} → Leaves w' Q r → Leaves w Q r
      go (leaves t q) = leaves (Kept-trans s t) q

pub Leaves-map :
    {A : Type 0} {w : World} {P Q : A → Type 0} {r : Outcome A}
    → Leaves w P r
    → ((a : A) → P a → Q a)
    → Leaves w Q r
Leaves-map (leaves k p) f = leaves k (f _ p)

pub vlog-Leaves :
    (level : ℕ) (ps : List Piece) {t : Bytes} (w : World)
    → vformat ps ≡ some t
    → Leaves w (λ _. Unit {0}) (vlog level ps w)
unfolding vlog cfg_err_printf cfg_err_vprintf
vlog-Leaves level ps w h = elim (Bool-cases (ltb level w.visibility)) [
  | inl hidden ↦ rw hidden (leaves (Kept-refl w) tt)
  | inr shown ↦
      rw (shown, h, cfg_err_vprintf, cfg_vfprintf)
        (leaves
          (record {
            answers_kept = refl;
            live_kept = refl;
            visibility_kept = refl;
            out_kept = refl;
          })
          tt)
]

pub sys_unsafe_vlog-Leaves :
    (level : ℕ) (ps : List Piece) {t : Bytes} (w : World)
    → vformat ps ≡ some t
    → Leaves w (λ _. Unit {0}) (sys_unsafe_vlog level ps w)
unfolding sys_unsafe_vlog sys_unsafe_run system_internal_dispatch
sys_unsafe_vlog-Leaves level ps {t} w h = elim (Bool-cases (ltb level w.visibility)) [
  | inl hidden ↦ rw hidden (leaves (Kept-refl w) tt)
  | inr shown ↦ elim (Bool-cases (leb int_limit (length t))) [
    | inl too_long ↦ rw (shown, h, too_long) (leaves (Kept-refl w) tt)
    | inr fits ↦
        rw (shown, h, fits)
          (leaves
            (record {
              answers_kept = refl;
              live_kept = refl;
              visibility_kept = refl;
              out_kept = refl;
            })
            tt)
  ]
]
