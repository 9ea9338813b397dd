-- ===== src/Filesystem/Checks.antt =====
-- configloader/filesystem.c and fs_low.c: what the checks of paths and modes admit.
use mathlib.Core.List.{Memᴰ}
use mathlib.Core.List.Memᴰ
use deadline_knapp_verparsed.Base.{
  ℕ, ◌<◌, Bool, true, false, not, ◌||◌, List, [], ◌∷◌, none, some, Bytes, ◌≡◌, ◌≢◌, ◌⊎◌, inl, inr,
  refl, sym, ap, subst, if◌then◌else◌, ◌∙◌, arith, Bool-cases,
}
use deadline_knapp_verparsed.Runtime.{World, done, CStr}
use deadline_knapp_verparsed.Runtime.Files.{iscntrl}
use deadline_knapp_verparsed.Lexer.{isspace}
use deadline_knapp_verparsed.Sysunsafe.{str_equal}
use deadline_knapp_verparsed.Sysunsafe.Guards.{str_equal_iff}
use deadline_knapp_verparsed.FsLow
use deadline_knapp_verparsed.Filesystem.{
  check_bytes, path_sanity_check, valid_modes, among_modes, mode_sanity_check,
}

-- No byte is a control character.
abbrev pub NoControl : Bytes → Type 0
NoControl [] = Unit
NoControl (c ∷ s) = (31 < c) × (c ≢ 127) × NoControl s

-- Some byte is not a blank.
abbrev pub SomeVisible : Bytes → Type 0
SomeVisible [] = ⊥
SomeVisible (c ∷ s) = (c ≢ 32) ⊎ SomeVisible s

abbrev pub SanePath : CStr → Type 0
SanePath none = ⊥
SanePath (some path) = NoControl path × SomeVisible path

abbrev pub ValidMode : CStr → Type 0
ValidMode none = ⊥
ValidMode (some mode) = Memᴰ mode valid_modes

-- A check that returns 0 exactly if `P` holds.
abbrev pub Passes : Type 0 → Bool → Type 0
Passes P r = (P × (r ≡ false)) ⊎ ((¬ P) × (r ≡ true))

byte_cases :
    (c : ℕ)
    → ((iscntrl c ≡ true) × ¬ ((31 < c) × (c ≢ 127)))
      ⊎ (((31 < c) × (c ≢ 127) × (iscntrl c ≡ false))
          × (((c ≢ 32) × (isspace c ≡ false)) ⊎ ((c ≡ 32) × (isspace c ≡ true))))
unfolding iscntrl isspace
byte_cases c = ground arith

or_true : (b : Bool) → (b || true) ≡ true
or_true true = refl
or_true false = refl

or_false : (b : Bool) → (b || false) ≡ b
or_false true = refl
or_false false = refl

check_bytes-Passes :
    (path : Bytes) (saw : Bool)
    → Passes (NoControl path × ((saw ≡ true) ⊎ SomeVisible path)) (check_bytes path saw)
unfolding check_bytes
check_bytes-Passes [] true = inl ((tt, inl refl), refl)
check_bytes-Passes [] false = inr (λ h. elim h.1 [ inl e ↦ cc | inr e ↦ absurd e ], refl)
check_bytes-Passes (c ∷ path) saw = elim (byte_cases c) [
  | inl (control, bad) ↦ inr (λ h. bad (h.0.0, h.0.1), rw control refl)
  | inr ((low, del, fine), seen) ↦ elim seen [
    | inl (visible, space) ↦
        rw (fine, space, or_true saw)
          (elim (check_bytes-Passes path true) [
            | inl (h, e) ↦ inl (((low, del, h.0), inr (inl visible)), e)
            | inr (n, e) ↦ inr (λ h. n (h.0.2, inl refl), e)
          ])
    | inr (blank, space) ↦
        rw (fine, space, or_false saw)
          (elim (check_bytes-Passes path saw) [
            | inl (h, e) ↦
                inl (((low, del, h.0), elim h.1 [ inl s ↦ inl s | inr v ↦ inr (inr v) ]), e)
            | inr (n, e) ↦ inr (
              λ h. n (
                h.0.2,
                elim h.1 [
                  | inl s ↦ inl s
                  | inr v ↦ elim v [ inl visible ↦ absurd (visible blank) | inr v' ↦ inr v' ]
                ],
              ),
              e,
            )
          ])
  ]
]

pub path_sanity_check-Passes : (path : CStr) → Passes (SanePath path) (path_sanity_check path)
unfolding path_sanity_check
path_sanity_check-Passes none = inr (λ h. h, refl)
path_sanity_check-Passes (some []) = inr (λ h. h.1, refl)
path_sanity_check-Passes (some (c ∷ path)) = elim (check_bytes-Passes (c ∷ path) false) [
  | inl (h, e) ↦ inl ((h.0, elim h.1 [ inl s ↦ cc | inr v ↦ v ]), e)
  | inr (n, e) ↦ inr (λ h. n (h.0, inr h.1), e)
]

-- The two copies of the check agree.
check_bytes_same : (path : Bytes) (saw : Bool) → FsLow.check_bytes path saw ≡ check_bytes path saw
unfolding check_bytes FsLow.check_bytes
check_bytes_same [] saw = refl
check_bytes_same (c ∷ path) saw =
    ap (λ r. if iscntrl c then true else r) (check_bytes_same path (saw || not (isspace c)))

pub path_sanity_check_same : (path : CStr) → FsLow.path_sanity_check path ≡ path_sanity_check path
unfolding path_sanity_check FsLow.path_sanity_check
path_sanity_check_same none = refl
path_sanity_check_same (some []) = refl
path_sanity_check_same (some (c ∷ path)) = check_bytes_same (c ∷ path) false

among_modes-cases :
    (modes : List Bytes) (mode : Bytes)
    → (Memᴰ mode modes × (among_modes modes mode ≡ true))
      ⊎ ((¬ (Memᴰ mode modes)) × (among_modes modes mode ≡ false))
unfolding among_modes
among_modes-cases [] mode = inr (Memᴰ.not-nil, refl)
among_modes-cases (valid ∷ modes) mode = elim (Bool-cases (str_equal mode valid)) [
  | inl same ↦ inl (Memᴰ.head ((str_equal_iff mode valid).0 same), rw same refl)
  | inr differs ↦ elim (among_modes-cases modes mode) [
    | inl (m, e) ↦ inl (Memᴰ.tail m, rw differs e)
    | inr (n, e) ↦ inr (
      λ m. elim (Memᴰ.cases_cons m) [
        | inl same ↦ let h : false ≡ true = sym differs ∙ (str_equal_iff mode valid).1 same in cc
        | inr m' ↦ n m'
      ],
      rw differs e,
    )
  ]
]

pub mode_sanity_check-Passes : (mode : CStr) → Passes (ValidMode mode) (mode_sanity_check mode)
unfolding mode_sanity_check
mode_sanity_check-Passes none = inr (λ h. h, refl)
mode_sanity_check-Passes (some []) = elim (among_modes-cases valid_modes []) [
  | inl (m, e) ↦ cc
  | inr (n, e) ↦ inr (n, refl)
]
mode_sanity_check-Passes (some (c ∷ mode)) = elim (among_modes-cases valid_modes (c ∷ mode)) [
  | inl (m, e) ↦ inl (m, rw e refl)
  | inr (n, e) ↦ inr (n, rw e refl)
]

abbrev Each : (Bytes → Type 0) → List Bytes → Type 0
Each P [] = Unit
Each P (m ∷ modes) = P m × Each P modes

at_member :
    (P : Bytes → Type 0) (modes : List Bytes) → Each P modes → (m : Bytes) → Memᴰ m modes → P m
at_member P [] each m h = absurd (Memᴰ.not-nil h)
at_member P (m' ∷ modes) each m h = elim (Memᴰ.cases_cons h) [
  | inl same ↦ subst P (sym same) each.0
  | inr later ↦ at_member P modes each.1 m later
]

-- The lower check admits every mode that the upper one admits.
pub mode_sanity_check_low :
    (mode : CStr) (w : World) → ValidMode mode → FsLow.mode_sanity_check mode w ≡ done false w
unfolding FsLow.mode_sanity_check
mode_sanity_check_low none w h = absurd h
mode_sanity_check_low (some mode) w h =
    at_member (λ m. FsLow.mode_sanity_check (some m) w ≡ done false w) valid_modes
      (refl, (refl, (refl, (refl, (refl, (refl, tt)))))) mode h
