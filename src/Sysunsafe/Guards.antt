-- ===== src/Sysunsafe/Guards.antt =====
-- configloader/sysunsafe.c: which commands the guarded functions hand to the shell.
use mathlib.Core.List.{Memᴰ}
use mathlib.Core.List.Memᴰ
use deadline_knapp_verparsed.Base.{
  ℕ, ◌+◌, ◌-◌, ◌≤◌, ◌<◌, true, false, List, [], ◌∷◌, ◌++◌, Bytes, codes, ◌≡◌, ◌↔◌, ◌⊎◌, inl, inr,
  refl, sym, ◌∙◌, arith, ◌==◌, ==_iff, Bool-cases, length, take_all, length-append,
}
use deadline_knapp_verparsed.Runtime.{World, Outcome, done}
use deadline_knapp_verparsed.Sysunsafe.{
  Dispatch, refused, str_equal, holds_byte, strpbrk, is_command_valid, sys_unsafe_run,
  sys_unsafe_sanitize_run, whitelist_run, sys_unsafe_whitelist_run, disallow_meta_chars,
  sys_safe_commands, echo_command, command_size, int_limit, sys_unsafe_log_level_string,
}

str_equal-true : (s t : Bytes) → str_equal s t ≡ true → s ≡ t
unfolding str_equal
str_equal-true [] [] h = refl
str_equal-true [] (d ∷ t) h = cc
str_equal-true (c ∷ s) [] h = cc
str_equal-true (c ∷ s) (d ∷ t) h = elim (Bool-cases (c == d)) [
  | inl same ↦ rw ((==_iff c d).0 same, str_equal-true s t (rw same at h)) refl
  | inr differs ↦ let h' : false ≡ true = rw differs at h in cc
]

str_equal_refl : (s : Bytes) → str_equal s s ≡ true
unfolding str_equal
str_equal_refl [] = refl
str_equal_refl (c ∷ s) = rw ((==_iff c c).1 refl, str_equal_refl s)

-- `strcmp` gives 0 for equal strings only.
pub str_equal_iff : (s t : Bytes) → (str_equal s t ≡ true) ↔ (s ≡ t)
str_equal_iff s t = (str_equal-true s t, λ e. rw e (str_equal_refl t))

holds_byte-cases :
    (c : ℕ) (s : Bytes)
    → ((holds_byte c s ≡ true) × Memᴰ c s) ⊎ ((holds_byte c s ≡ false) × ¬ (Memᴰ c s))
unfolding holds_byte
holds_byte-cases c [] = inr (refl, Memᴰ.not-nil)
holds_byte-cases c (d ∷ s) = elim (Bool-cases (c == d)) [
  | inl same ↦ inl (rw same, Memᴰ.head ((==_iff c d).0 same))
  | inr differs ↦ elim (holds_byte-cases c s) [
    | inl (found, m) ↦ inl (rw (differs, found), Memᴰ.tail m)
    | inr (missed, n) ↦ inr (
      rw (differs, missed),
      λ m. elim (Memᴰ.cases_cons m) [
        | inl same ↦ let h : false ≡ true = sym differs ∙ (==_iff c d).1 same in cc
        | inr m' ↦ n m'
      ],
    )
  ]
]

-- No byte of the command is one of the forbidden ones.
abbrev pub Avoids : Bytes → Bytes → Type 0
Avoids cmd accept = (c : ℕ) → Memᴰ c cmd → ¬ (Memᴰ c accept)

strpbrk-cases :
    (s accept : Bytes)
    → ((strpbrk s accept ≡ true) × ¬ (Avoids s accept))
      ⊎ ((strpbrk s accept ≡ false) × Avoids s accept)
unfolding strpbrk
strpbrk-cases [] accept = inr (refl, λ c m. absurd (Memᴰ.not-nil m))
strpbrk-cases (c ∷ s) accept = elim (holds_byte-cases c accept) [
  | inl (found, m) ↦ inl (rw found, λ avoids. avoids c (Memᴰ.head refl) m)
  | inr (missed, n) ↦ elim (strpbrk-cases s accept) [
    | inl (found, bad) ↦ inl (rw (missed, found), λ avoids. bad λ d m. avoids d (Memᴰ.tail m))
    | inr (clean, avoids) ↦ inr (
      rw (missed, clean),
      λ d m. elim (Memᴰ.cases_cons m) [ inl same ↦ rw same n | inr m' ↦ avoids d m' ],
    )
  ]
]

-- What a guarded function does: it hands the command to the shell, unchanged, if the command is
-- admitted, and otherwise it returns -1 and changes nothing.
abbrev pub RunsOnlyIf : Type 0 → Bytes → World → Outcome Dispatch → Type 0
RunsOnlyIf Admitted cmd w r =
    (Admitted × (r ≡ sys_unsafe_run cmd w)) ⊎ ((¬ Admitted) × (r ≡ done refused w))

-- `sys_unsafe_sanitize_run` runs exactly the commands that hold none of the meta characters, as
-- they are, and refuses every other command without an effect.
pub sys_unsafe_sanitize_run-RunsOnlyIf :
    (cmd : Bytes) (w : World)
    → RunsOnlyIf (Avoids cmd disallow_meta_chars) cmd w (sys_unsafe_sanitize_run cmd w)
unfolding sys_unsafe_sanitize_run is_command_valid sys_unsafe_run
sys_unsafe_sanitize_run-RunsOnlyIf cmd w = elim (strpbrk-cases cmd disallow_meta_chars) [
  | inl (found, bad) ↦ inr (bad, rw found)
  | inr (clean, avoids) ↦ inl (avoids, rw clean)
]

whitelist_run-RunsOnlyIf :
    (safe : List Bytes) (cmd : Bytes) (w : World)
    → RunsOnlyIf (Memᴰ cmd safe) cmd w (whitelist_run safe cmd w)
unfolding whitelist_run sys_unsafe_run
whitelist_run-RunsOnlyIf [] cmd w = inr (Memᴰ.not-nil, refl)
whitelist_run-RunsOnlyIf (s ∷ others) cmd w = elim (Bool-cases (str_equal cmd s)) [
  | inl same ↦ inl (Memᴰ.head ((str_equal_iff cmd s).0 same), rw same)
  | inr differs ↦ elim (whitelist_run-RunsOnlyIf others cmd w) [
    | inl (m, e) ↦ inl (Memᴰ.tail m, rw differs e)
    | inr (n, e) ↦ inr (
      λ m. elim (Memᴰ.cases_cons m) [
        | inl same ↦ let h : false ≡ true = sym differs ∙ (str_equal_iff cmd s).1 same in cc
        | inr m' ↦ n m'
      ],
      rw differs e,
    )
  ]
]

-- `sys_unsafe_whitelist_run` runs exactly the seven listed commands and refuses every other
-- command without an effect.
pub sys_unsafe_whitelist_run-RunsOnlyIf :
    (cmd : Bytes) (w : World)
    → RunsOnlyIf (Memᴰ cmd sys_safe_commands) cmd w (sys_unsafe_whitelist_run cmd w)
unfolding sys_unsafe_whitelist_run
sys_unsafe_whitelist_run-RunsOnlyIf cmd w = whitelist_run-RunsOnlyIf sys_safe_commands cmd w

sys_unsafe_log_level_string-short : (level : ℕ) → length (sys_unsafe_log_level_string level) ≤ 7
unfolding sys_unsafe_log_level_string
sys_unsafe_log_level_string-short level = ground arith

-- The array of the command is large enough: for every level and every message of less than
-- 2^31 - 32 bytes, for which its size does not overflow an `int`, `snprintf` cuts nothing off the
-- `echo` command.
pub echo_command-whole :
    (level : ℕ) (message : Bytes)
    → length message + 32 < int_limit
    → echo_command level message
      ≡ codes "echo ["
        ++ (sys_unsafe_log_level_string level ++ (codes "] " ++ (message ++ codes " >&2")))
unfolding echo_command
echo_command-whole level message h =
    let size : command_size (length message) ≡ length message + 32 = omega (arith, h) in
    take_all (command_size (length message) - 1) _ (
      omega (
        arith,
        size,
        length-append (sys_unsafe_log_level_string level) (codes "] " ++ (message ++ codes " >&2")),
        length-append message (codes " >&2"),
        sys_unsafe_log_level_string-short level,
      ))
