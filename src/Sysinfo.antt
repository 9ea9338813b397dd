-- ===== src/Sysinfo.antt =====
-- configloader/sysinfo.c, with the macros of configloader/system.h that open and close a pipe.
pub mod Buffer
use deadline_knapp_verparsed.Base.{
  ℕ, zero, suc, ◌+◌, ◌-◌, ◌%◌, ◌^◌, List, [], ◌∷◌, ◌++◌, Option, none, some, Bytes, codes, length,
  ltb, if◌then◌else◌,
}
use deadline_knapp_verparsed.Runtime.{M, ◌>>=◌, pure, crash, done}
use deadline_knapp_verparsed.Sysunsafe.{Dispatch, sys_unsafe_whitelist_run}

unfoldable pub sysinfo_print_date : M Dispatch
unfolding sys_unsafe_whitelist_run
sysinfo_print_date = sys_unsafe_whitelist_run (codes "date")

unfoldable pub sysinfo_print_uname_a : M Dispatch
unfolding sys_unsafe_whitelist_run
sysinfo_print_uname_a = sys_unsafe_whitelist_run (codes "uname -a")

-- Pipes of the C library, from a command. `popen` gives NULL or a pipe; `fread` gives the bytes
-- that it stores for a request of so many; `pclose` gives a status, or -1, which is `none`.
pub record Pipes : Type 1 where
  pub Pipe : Type 0
  pub popen : Bytes → Bytes → Option Pipe
  pub fread : ℕ → Pipe → Bytes
  pub pclose : Pipe → Option ℕ

-- A store into an array of bytes; a store behind its end is undefined.
unfoldable pub store : ℕ → ℕ → Bytes → M Bytes
store i c [] = crash
store zero c (b ∷ buf) = pure (c ∷ buf)
store (suc i) c (b ∷ buf) = do buf' ← store i c buf; pure (b ∷ buf')

-- The stores of `fread` from the start of the array on.
unfoldable pub store_all : Bytes → Bytes → M Bytes
store_all [] buf = pure buf
store_all (c ∷ t) [] = crash
store_all (c ∷ t) (b ∷ buf) = do buf' ← store_all t buf; pure (c ∷ buf')

module _ (pipes : Pipes) where
  -- The macro SYSTEM_INTERNAL_RUN.
  unfoldable pub system_internal_run : Bytes → Bytes → M (Option pipes.Pipe)
  system_internal_run cmd type w = elim (pipes.popen cmd type) [
    | none ↦ done none w
    | some p ↦ done (some p) (record w { commands = w.commands ++ cmd ∷ [] })
  ]

  -- The macro SYSTEM_INTERNAL_RUN_CLOSE.
  unfoldable pub system_internal_run_close : pipes.Pipe → M (Option ℕ)
  system_internal_run_close stream = pure (pipes.pclose stream)

  -- `sysinfo_get_uname_a`; `buf` is the array of the caller, which comes back with the result, and
  -- `none` is -1. `size_t` has 64 bits, so `len - 1` wraps.
  unfoldable pub sysinfo_get_uname_a : Bytes → ℕ → M (Option ℕ × Bytes)
  unfolding system_internal_run system_internal_run_close
  sysinfo_get_uname_a buf len = do
    opened ← system_internal_run (codes "uname -a") (codes "r")
    elim opened [
      | none ↦ pure (none, buf)
      | some p ↦ (do
        let t = pipes.fread len p
        buf₁ ← store_all t buf
        buf₂ ←
            if ltb (length t) len
            then store (length t) 0 buf₁
            else store ((len + (2 ^ 64 - 1)) % 2 ^ 64) 0 buf₁
        r ← system_internal_run_close p
        pure (r, buf₂))
    ]
