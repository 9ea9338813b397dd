-- ===== src/Sysinfo/Buffer.antt =====
-- The buffer that `sysinfo_get_uname_a` of configloader/sysinfo.c fills.
use deadline_knapp_verparsed.Base.{
  ℕ, zero, suc, ◌+◌, ◌-◌, ◌%◌, ◌^◌, ◌≤◌, ◌<◌, [], ◌∷◌, ◌++◌, Option, none, some, Bytes, codes,
  length, take, drop, take_all, take-append, arith, refl, ◌≡◌, ltb, inl, inr, ltb-cases,
  if◌then◌else◌, length-take, length-zero,
}
use deadline_knapp_verparsed.Runtime.{World, Outcome, done, fault, bind}
use deadline_knapp_verparsed.Sysinfo.{
  Pipes, store, store_all, sysinfo_get_uname_a, system_internal_run, system_internal_run_close,
}

-- A store in the array replaces one byte, and a store behind it faults.
store-inside :
    (i c : ℕ) (buf : Bytes) (w : World)
    → i < length buf
    → store i c buf w ≡ done (take i buf ++ c ∷ drop (suc i) buf) w
unfolding store
store-inside i c [] w h = absurd (omega arith)
store-inside zero c (b ∷ buf) w h = refl
store-inside (suc i) c (b ∷ buf) w h = rw (store-inside i c buf w (omega arith)) refl

store-outside : (i c : ℕ) (buf : Bytes) (w : World) → length buf ≤ i → store i c buf w ≡ fault
unfolding store
store-outside i c [] w h = refl
store-outside zero c (b ∷ buf) w h = absurd (omega arith)
store-outside (suc i) c (b ∷ buf) w h = rw (store-outside i c buf w (omega arith)) refl

store_all-inside :
    (t buf : Bytes) (w : World)
    → length t ≤ length buf
    → store_all t buf w ≡ done (t ++ drop (length t) buf) w
unfolding store_all
store_all-inside [] buf w h = refl
store_all-inside (c ∷ t) [] w h = absurd (omega arith)
store_all-inside (c ∷ t) (b ∷ buf) w h = rw (store_all-inside t buf w (omega arith)) refl

-- The array behind `fread`: as long as before, and as before from the end of what was read on.
length_overwritten :
    (t buf : Bytes) → length t ≤ length buf → length (t ++ drop (length t) buf) ≡ length buf
length_overwritten [] buf h = refl
length_overwritten (c ∷ t) [] h = absurd (omega arith)
length_overwritten (c ∷ t) (b ∷ buf) h = omega (arith, length_overwritten t buf (omega arith))

drop_overwritten :
    (m : ℕ) (t buf : Bytes)
    → length t ≤ length buf
    → length t ≤ m
    → drop m (t ++ drop (length t) buf) ≡ drop m buf
drop_overwritten m [] buf h l = refl
drop_overwritten m (c ∷ t) [] h l = absurd (omega arith)
drop_overwritten zero (c ∷ t) (b ∷ buf) h l = absurd (omega arith)
drop_overwritten (suc m) (c ∷ t) (b ∷ buf) h l =
    drop_overwritten m t buf (omega arith) (omega arith)

-- A NUL behind what was read, or in place of its last byte.
terminated :
    (i : ℕ) (t buf : Bytes) (w : World)
    → i ≤ length t
    → length t ≤ suc i
    → length t ≤ length buf
    → i < length buf
    → store i 0 (t ++ drop (length t) buf) w ≡ done (take i t ++ 0 ∷ drop (suc i) buf) w
terminated i t buf w h k l m =
    rw (← take-append i t (drop (length t) buf) h, ← drop_overwritten (suc i) t buf l k)
      (store-inside i 0 (t ++ drop (length t) buf) w (omega (arith, length_overwritten t buf l)))

-- The world behind the opening of a pipe.
abbrev pub running : World → World
running w = record w { commands = w.commands ++ codes "uname -a" ∷ [] }

-- What the call leaves: without a pipe -1 and the array as it was; with one, in an array of which
-- `len` bytes may be used, the first `len - 1` bytes that were read, a NUL, and the rest of the array as it was. For a `len` of 0
-- there is no room for the NUL, and the call faults.
abbrev pub Fills :
    (pipes : Pipes) → Option pipes.Pipe → Bytes → ℕ → World → Outcome (Option ℕ × Bytes) → Type 0
Fills pipes none buf len w r = r ≡ done (none, buf) w
Fills pipes (some p) buf zero w r = r ≡ fault
Fills pipes (some p) buf (suc n) w r =
    let kept = take n (pipes.fread (suc n) p) in
    r ≡ done (pipes.pclose p, kept ++ 0 ∷ drop (suc (length kept)) buf) (running w)

wraps : (n : ℕ) → n < 2 ^ 64 → (suc n + (2 ^ 64 - 1)) % 2 ^ 64 ≡ n
wraps n h = omega arith

filled :
    (n : ℕ) (t buf : Bytes) (w : World)
    → length t ≤ suc n
    → suc n ≤ length buf
    → length buf < 2 ^ 64
    → ((if ltb (length t) (suc n)
          then store (length t) 0 (t ++ drop (length t) buf)
          else store ((suc n + (2 ^ 64 - 1)) % 2 ^ 64) 0 (t ++ drop (length t) buf))
        w)
      ≡ done (take n t ++ 0 ∷ drop (suc (length (take n t))) buf) w
filled n t buf w h k l = elim (ltb-cases (length t) (suc n)) [
  | inl (less, l') ↦
      rw (less, take_all n t (omega arith))
        (rw (take_all (length t) t (omega arith)) at
          (terminated (length t) t buf w (omega arith) (omega arith) (omega arith) (omega arith)))
  | inr (more, l') ↦
      rw (more, wraps n (omega arith), length-take n t (omega arith))
        (terminated n t buf w (omega arith) (omega arith) (omega arith) (omega arith))
]

-- The same, once it is known what `popen` gives.
Fills-opened :
    (pipes : Pipes) (opened : Option pipes.Pipe) (buf : Bytes) (len : ℕ) (w : World)
    → pipes.popen (codes "uname -a") (codes "r") ≡ opened
    → ((n : ℕ) (p : pipes.Pipe) → length (pipes.fread n p) ≤ n)
    → len ≤ length buf
    → length buf < 2 ^ 64
    → Fills pipes opened buf len w (sysinfo_get_uname_a pipes buf len w)
unfolding sysinfo_get_uname_a system_internal_run system_internal_run_close store_all
Fills-opened pipes none buf len w e few h l = rw (system_internal_run, bind, e) refl
Fills-opened pipes (some p) buf zero w e few h l =
    rw
      (
        system_internal_run,
        bind,
        e,
        length-zero (pipes.fread 0 p) (few 0 p),
        store-outside (2 ^ 64 - 1) 0 buf (running w) (omega arith),
      )
      refl
Fills-opened pipes (some p) buf (suc n) w e few h l =
    let t = pipes.fread (suc n) p in
    rw
      (
        system_internal_run,
        bind,
        e,
        store_all-inside t buf (running w) (omega (arith, few (suc n) p)),
        filled n t buf (running w) (few (suc n) p) h l,
      )
      refl

-- `sysinfo_get_uname_a`, in an array of at least `len` bytes, and where `fread` reads no more bytes
-- than are asked for: without a pipe it returns -1 and leaves the array. With one it hands
-- `uname -a` to the shell and returns what `pclose` returns; the array then has the first `len - 1`
-- bytes that were read, or all of them if they are fewer, a NUL behind them, and all else as it
-- was; for a `len` of 0 it faults.
pub sysinfo_get_uname_a-Fills :
    (pipes : Pipes) (buf : Bytes) (len : ℕ) (w : World)
    → ((n : ℕ) (p : pipes.Pipe) → length (pipes.fread n p) ≤ n)
    → len ≤ length buf
    → length buf < 2 ^ 64
    → Fills pipes
        (pipes.popen (codes "uname -a") (codes "r"))
        buf
        len
        w
        (sysinfo_get_uname_a pipes buf len w)
sysinfo_get_uname_a-Fills pipes buf len w few h l = Fills-opened pipes _ buf len w refl few h l
