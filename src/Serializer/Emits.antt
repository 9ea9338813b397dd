-- ===== src/Serializer/Emits.antt =====
-- What a part of a run writes and which commands it hands out, as a postcondition.
use deadline_knapp_verparsed.Base.{
  ℕ, List, [], ◌∷◌, ◌++◌, some, Bytes, ◌≡◌, refl, ap, ◌∙◌, ltb, append_assoc, append-nil,
  Bool-cases, leb, length, inl, inr,
}
use deadline_knapp_verparsed.Runtime.{World, Outcome, done, bind, Piece, text, arg, vformat}
use deadline_knapp_verparsed.Logger.{vlog}
use deadline_knapp_verparsed.Printer.{output, cfg_fprintf, cfg_vfprintf}
use deadline_knapp_verparsed.Sysunsafe.{sys_unsafe_log_info, int_limit}
use deadline_knapp_verparsed.Serializer.Render.{echo}

-- The run returns, and has written the text `T` (in front of whatever is written next) and handed
-- out the commands `cs`; memory, log level and allocator are as before.
pub data Emits {A : Type 0} (w : World) (T : Bytes → Bytes) (cs : List Bytes)
    : Outcome A → Type 0 where
  emits :
      {a : A} {w' : World}
      → ((rest : Bytes) → w'.out ++ rest ≡ w.out ++ T rest)
      → w'.commands ≡ w.commands ++ cs
      → w'.visibility ≡ w.visibility
      → w'.live ≡ w.live
      → w'.answers ≡ w.answers
      → Emits w T cs (done a w')

abbrev pub same_text : Bytes → Bytes
same_text rest = rest

module _ {A B : Type 0} {w : World} {T U : Bytes → Bytes} {cs ds : List Bytes} where
  pub Emits-bind :
      {r : Outcome A} (f : A → World → Outcome B)
      → Emits w T cs r
      → ((a : A) (w' : World) → w'.visibility ≡ w.visibility → Emits w' U ds (f a w'))
      → Emits w (λ rest. T (U rest)) (cs ++ ds) (bind r f)
  Emits-bind f (emits {a} {w'} o c v l n) k = go (k a w' v)
    where
      go : {r : Outcome B} → Emits w' U ds r → Emits w (λ rest. T (U rest)) (cs ++ ds) r
      go (emits o' c' v' l' n') =
          emits (λ rest. o' rest ∙ o (U rest)) (rw (c', c) (append_assoc w.commands cs ds)) (v' ∙ v)
            (l' ∙ l) (n' ∙ n)

module _ {A : Type 0} {w : World} where
  pub Emits-cast :
      {T : Bytes → Bytes} {cs ds : List Bytes} {r : Outcome A}
      → cs ≡ ds
      → Emits w T cs r
      → Emits w T ds r
  Emits-cast e h = rw e at h

  pub Emits-nothing : (a : A) → Emits w same_text [] (done a w)
  Emits-nothing a = emits (λ rest. refl) (rw append-nil) refl refl refl

module _ {w : World} where
  pub Emits-fprintf :
      (format : List Piece) (t : Bytes)
      → vformat format ≡ some t
      → Emits w (◌++◌ t) [] (cfg_fprintf output format w)
  unfolding cfg_fprintf
  Emits-fprintf format t h =
      rw (h, cfg_fprintf, cfg_vfprintf)
        (emits (λ rest. append_assoc w.out t rest) (rw append-nil) refl refl refl)

  -- `%s` and what stands behind it.
  pub Emits-word :
      (t u : Bytes)
      → Emits w (λ rest. t ++ (u ++ rest)) [] (cfg_fprintf output (arg (some t) ∷ text u ∷ []) w)
  unfolding cfg_fprintf
  Emits-word t u =
      emits
        (λ rest.
          append_assoc w.out (t ++ (u ++ [])) rest
          ∙ ap (◌++◌ w.out) (rw append-nil (append_assoc t u rest)))
        (rw append-nil) refl refl refl

  pub Emits-vlog :
      (level : ℕ) (format : List Piece) {t : Bytes}
      → vformat format ≡ some t
      → Emits w same_text [] (vlog level format w)
  unfolding vlog
  Emits-vlog level format h = elim (Bool-cases (ltb level w.visibility)) [
    | inl off ↦ rw off (Emits-nothing tt)
    | inr on ↦ rw (on, h, cfg_vfprintf) (emits (λ rest. refl) (rw append-nil) refl refl refl)
  ]

  pub Emits-echo :
      (name : Bytes)
      → Emits w same_text (echo w.visibility name) (sys_unsafe_log_info (arg (some name) ∷ []) w)
  unfolding sys_unsafe_log_info
  Emits-echo name = elim (Bool-cases (ltb 0 w.visibility)) [
    | inl off ↦ rw off (Emits-nothing tt)
    | inr on ↦ elim (Bool-cases (leb int_limit (length name))) [
      | inl too_long ↦ rw (on, append-nil name, too_long) (Emits-nothing tt)
      | inr fits ↦ rw (on, append-nil name, fits) (emits (λ rest. refl) refl refl refl refl)
    ]
  ]

-- A part of the serializer that hands out no command.
abbrev pub Writes : {A : Type 0} → World → (Bytes → Bytes) → Outcome A → Type 0
Writes w T r = Emits w T [] r
