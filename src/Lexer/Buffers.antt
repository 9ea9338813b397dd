-- ===== src/Lexer/Buffers.antt =====
-- configloader/configfile_deserialize.c: `buffer_append`, and the log calls of the lexer, for every
-- allocator.
use deadline_knapp_verparsed.Base.{
  ℕ, ◌+◌, ◌<◌, List, Option, subst, sym, [], ◌∷◌, ◌++◌, none, some, Bytes, ◌≡◌, refl, arith,
  is_some,
}
use deadline_knapp_verparsed.Runtime.{World, Status, success, failed, Outcome, bind, Piece, vformat}
use deadline_knapp_verparsed.Runtime.Ensures.{
  Plentiful, Steady, Ensures, ensures, Ensures-bind, held,
}
use deadline_knapp_verparsed.Logger.{vlog}
use deadline_knapp_verparsed.Sysunsafe.{sys_unsafe_log_info}
use deadline_knapp_verparsed.Lexer.{Buffer, no_buffer, contents, buffer_append}
use deadline_knapp_verparsed.Lexer.Reference.{text_of}

-- The final NUL of a buffer stands inside its capacity; one that was not allocated has no room.
abbrev pub HasRoom : Option Bytes → ℕ → ℕ → Type 0
HasRoom none len cap = (len ≡ 0) × (cap ≡ 0)
HasRoom (some t) len cap = len < cap

abbrev pub Fits : Buffer → Type 0
Fits b = HasRoom b.buffer b.len b.cap

-- The buffer holds the bytes `t`.
pub record Collects (b : Buffer) (t : Bytes) : Type 0 where
  pub held_bytes : b.buffer ≡ text_of t
  pub fits : Fits b

-- Allocations of a buffer.
abbrev pub size_buffer : Buffer → ℕ
size_buffer b = held (is_some b.buffer)

-- The result of `buffer_append`: the byte stands behind the others, or nothing has changed.
abbrev pub Appended : World → ℕ → Buffer → ℕ → Status × Buffer → World → Type 0
Appended w₀ n b c (success, b') w =
    (b'.buffer ≡ some (contents b.buffer ++ c ∷ [])) × (b'.len < b'.cap) × (w.live ≡ n + 1)
Appended w₀ n b c (failed, b') w = (¬ (Plentiful w₀)) × (b' ≡ b) × (w.live ≡ n + size_buffer b)

pub contents-text_of : (t : Bytes) → contents (text_of t) ≡ t
contents-text_of [] = refl
contents-text_of (c ∷ t) = refl

pub empty-Collects : Collects no_buffer []
empty-Collects = record { held_bytes = refl; fits = (refl, refl) }

pub Collects-concat :
    (b : Buffer) (t : Bytes) (c : ℕ)
    → b.buffer ≡ some (t ++ c ∷ [])
    → b.len < b.cap
    → Collects b (t ++ c ∷ [])
Collects-concat b [] c e l = record {
  held_bytes = e;
  fits = subst (λ o. HasRoom o b.len b.cap) (sym e) l;
}
Collects-concat b (d ∷ t) c e l = record {
  held_bytes = e;
  fits = subst (λ o. HasRoom o b.len b.cap) (sym e) l;
}

module _ {w₀ : World} where
  buffer_append-Appended :
      (o : Option Bytes) (len cap c n : ℕ) {w : World}
      → Steady w₀ w
      → w.live ≡ n + held (is_some o)
      → HasRoom o len cap
      → Ensures w₀
          (Appended w₀ n (record { buffer = o; len = len; cap = cap }) c)
          (buffer_append (record { buffer = o; len = len; cap = cap }) c w)
  unfolding buffer_append
  buffer_append-Appended none len cap c n s e g = ensures _ (ground (arith, s.plentiful, g.0, g.1))
  buffer_append-Appended (some t) len cap c n s e g = ensures _ (ground (arith, s.plentiful, g))

  pub Ensures-append :
      {B : Type 0} {Q : B → World → Type 0} (b : Buffer) (t : Bytes) (c n : ℕ) {w : World}
      (f : Status × Buffer → World → Outcome B)
      → Steady w₀ w
      → w.live ≡ n + size_buffer b
      → Collects b t
      → ((w' : World)
          → Steady w₀ w'
          → ¬ (Plentiful w₀)
          → w'.live ≡ n + size_buffer b
          → Ensures w₀ Q (f (failed, b) w'))
      → ((b' : Buffer) (w' : World)
          → Steady w₀ w'
          → Collects b' (t ++ c ∷ [])
          → w'.live ≡ n + size_buffer b'
          → Ensures w₀ Q (f (success, b') w'))
      → Ensures w₀ Q (bind (buffer_append b c w) f)
  Ensures-append {Q} b t c n f s e g on_failure on_success =
      Ensures-bind (buffer_append-Appended b.buffer b.len b.cap c n s e g.fits) cases
    where
      cases :
          (r : Status × Buffer) (w' : World)
          → Steady w₀ w'
          → Appended w₀ n b c r w'
          → Ensures w₀ Q (f r w')
      cases (failed, b') w' s' (starved, same, e') = rw same (on_failure w' s' starved e')
      cases (success, b') w' s' (stored, l, e') =
          on_success b' w' s'
            (Collects-concat b' t c (rw (g.held_bytes, contents-text_of t) at stored) l)
            (rw stored e')

  pub sys_unsafe_log_info-Ensures :
      (format : List Piece) (n : ℕ) {t : Bytes} {w : World}
      → vformat format ≡ some t
      → Steady w₀ w
      → w.live ≡ n
      → Ensures w₀ (λ _ w'. w'.live ≡ n) (sys_unsafe_log_info format w)
  unfolding sys_unsafe_log_info
  sys_unsafe_log_info-Ensures format n f s e = ensures _ (ground (arith, s.commands_same))

  pub vlog-Ensures :
      (level : ℕ) (format : List Piece) (n : ℕ) {t : Bytes} {w : World}
      → vformat format ≡ some t
      → Steady w₀ w
      → w.live ≡ n
      → Ensures w₀ (λ _ w'. w'.live ≡ n) (vlog level format w)
  unfolding vlog
  vlog-Ensures level format n f s e = ensures _ (ground (arith, s.commands_same))
