-- ===== src/Filesystem/Open.antt =====
-- configloader/filesystem.c: opening and closing.
use deadline_knapp_verparsed.Base.{
  ℕ, zero, suc, Bool, true, false, List, [], ◌∷◌, Option, none, some, Bytes, codes, ◌≡◌, ◌⊎◌, inl,
  inr, refl, ◌+◌, ◌++◌, ◌<◌, ◌↔◌, arith,
}
use deadline_knapp_verparsed.Runtime.{World, done, bind, CStr, Piece, vformat}
use deadline_knapp_verparsed.Runtime.Files.{Files, File, fopen, fclose, next_close, closed}
use deadline_knapp_verparsed.Runtime.Leaves.{
  Kept-refl, Leaves, leaves, Leaves-bind, vlog-Leaves, sys_unsafe_vlog-Leaves,
}
use deadline_knapp_verparsed.Logger.{vlog, log_debug, log_info, log_error}
use deadline_knapp_verparsed.Sysunsafe.{sys_unsafe_vlog, sys_unsafe_log_error, sys_unsafe_log_info}
use deadline_knapp_verparsed.FsLow
use deadline_knapp_verparsed.FsLow.{fs_low_open, fs_low_close, open_file, close_file}
use deadline_knapp_verparsed.Filesystem.{
  path_sanity_check, report_open, open_checked, report_close, file_sanity_check, filesystem_open,
  filesystem_close, or_null, opening, invalid_mode, invalid_path, with_path_mode, invalid_handle,
  close_failed, closed_handle,
}
use deadline_knapp_verparsed.Filesystem.Checks.{
  SanePath, ValidMode, path_sanity_check-Passes, path_sanity_check_same, mode_sanity_check-Passes,
  mode_sanity_check_low,
}

-- What `fopen` does with strings that are there.
abbrev pub try_open : CStr → CStr → Files → Option File × Files
try_open (some path) (some mode) fs = fopen path mode fs
try_open _ _ fs = (none, fs)

-- A file is opened by `fopen` if path and mode are valid, and otherwise not at all.
abbrev pub OpensIfValid : CStr → CStr → Files → Option File × Files → Type 0
OpensIfValid path mode fs r =
    ((SanePath path × ValidMode mode) × (r ≡ try_open path mode fs))
    ⊎ ((¬ (SanePath path × ValidMode mode)) × (r ≡ (none, fs)))

or_null-some : (s : CStr) → (t : Bytes) × (or_null s ≡ some t)
or_null-some none = (_, refl)
or_null-some (some t) = (t, refl)

opening-formatted : (path mode : CStr) → (t : Bytes) × (vformat (opening path mode) ≡ some t)
opening-formatted path mode =
    let (p, e) = or_null-some path in let (m, f) = or_null-some mode in rw (e, f) (_, refl)

invalid_mode-formatted : (mode : CStr) → (t : Bytes) × (vformat (invalid_mode mode) ≡ some t)
invalid_mode-formatted none = (_, refl)
invalid_mode-formatted (some []) = (_, refl)
invalid_mode-formatted (some (c ∷ mode)) = (_, refl)

-- Behind the checks of filesystem.c, those of fs_low.c let everything pass.
fs_low_open_lem :
    (path mode : CStr) (fs : Files) (w : World)
    → SanePath path
    → path_sanity_check path ≡ false
    → ValidMode mode
    → fs_low_open path mode fs w ≡ done (try_open path mode fs) w
unfolding fs_low_open open_file
fs_low_open_lem none mode fs w sane fine valid = absurd sane
fs_low_open_lem (some path) none fs w sane fine valid = absurd valid
fs_low_open_lem (some path) (some mode) fs w sane fine valid =
    rw (mode_sanity_check_low (some mode) w valid, path_sanity_check_same (some path), fine) refl

module _ {P : Option File × Files → Type 0} where
  -- A message, and then a result.
  told :
      (level : ℕ) (ps : List Piece) {t : Bytes} (r : Option File × Files) (w : World)
      → vformat ps ≡ some t
      → P r
      → Leaves w P (bind (vlog level ps w) λ _. done r)
  told level ps r w h p = Leaves-bind (vlog-Leaves level ps w h) λ _ w' _. leaves (Kept-refl w') p

  refused :
      (ps : List Piece) {t : Bytes} (r : Option File × Files) (w : World)
      → vformat ps ≡ some t
      → P r
      → Leaves w P (bind (sys_unsafe_vlog 3 ps w) λ _. done r)
  refused ps r w h p =
      Leaves-bind (sys_unsafe_vlog-Leaves 3 ps w h) λ _ w' _. leaves (Kept-refl w') p

report_open-OpensIfValid :
    (path mode : CStr) (fs : Files) (w : World)
    → SanePath path
    → ValidMode mode
    → Leaves w (OpensIfValid path mode fs) (report_open path mode (try_open path mode fs) w)
unfolding report_open log_error log_info
report_open-OpensIfValid none mode fs w sane valid = absurd sane
report_open-OpensIfValid (some path) none fs w sane valid = absurd valid
report_open-OpensIfValid (some path) (some mode) fs w sane valid =
    reported (fopen path mode fs) (λ r e. inl ((sane, valid), e))
  where
    reported :
        (r : Option File × Files)
        → ((r' : Option File × Files) → r' ≡ r → OpensIfValid (some path) (some mode) fs r')
        → Leaves w
            (OpensIfValid (some path) (some mode) fs)
            (report_open (some path) (some mode) r w)
    reported (none, fs') p =
        told 3 (with_path_mode (codes "failed to open path='") (some path) (some mode)) (none, fs')
          w refl (p (none, fs') refl)
    reported (some file, fs') p =
        told 0 (with_path_mode (codes "opened path='") (some path) (some mode)) (some file, fs') w
          refl (p (some file, fs') refl)

open_checked-OpensIfValid :
    (path mode : CStr) (fs : Files) (w : World)
    → Leaves w (OpensIfValid path mode fs) (open_checked path mode fs w)
unfolding open_checked sys_unsafe_log_error
open_checked-OpensIfValid path mode fs w = elim (path_sanity_check-Passes path) [
  | inr (bad, e) ↦ rw e (refused invalid_path (none, fs) w refl (inr (λ h. bad h.0, refl)))
  | inl (sane, e) ↦ elim (mode_sanity_check-Passes mode) [
    | inr (bad, e') ↦
        rw (e, e')
          (refused (invalid_mode mode) (none, fs) w (invalid_mode-formatted mode).1
            (inr (λ h. bad h.1, refl)))
    | inl (valid, e') ↦
        rw (e, e', fs_low_open_lem path mode fs w sane e valid)
          (report_open-OpensIfValid path mode fs w sane valid)
  ]
]

pub filesystem_open-OpensIfValid :
    (path mode : CStr) (fs : Files) (w : World)
    → Leaves w (OpensIfValid path mode fs) (filesystem_open path mode fs w)
unfolding filesystem_open log_debug
filesystem_open-OpensIfValid path mode fs w =
    Leaves-bind (vlog-Leaves 1 (opening path mode) w (opening-formatted path mode).1)
      λ _ w₁ _. open_checked-OpensIfValid path mode fs w₁

-- What closing leaves: NULL is refused without an effect; a stream is closed, and the result is
-- EOF exactly if `fclose` fails; that stream and no other is closed.
abbrev pub Closes : Option File → Files → Bool × Files → Type 0
Closes none fs r = r ≡ (true, fs)
Closes (some f) fs (eof, fs') =
    (fs'.open_files + 1 ≡ fs.open_files)
    × (fs'.closed_streams ≡ fs.closed_streams ++ f ∷ [])
    × ((eof ≡ true) ↔ ((later : List Bool) × (fs.close_fails ≡ true ∷ later)))
    × (fs'.contents ≡ fs.contents)

next_close_iff :
    (answers : List Bool)
    → ((next_close answers).0 ≡ true) ↔ ((later : List Bool) × (answers ≡ true ∷ later))
next_close_iff [] = (λ e. cc, λ h. cc)
next_close_iff (true ∷ later) = (λ e. (later, refl), λ h. refl)
next_close_iff (false ∷ later) = (λ e. cc, λ h. cc)

closed-Closes :
    (f : File) (fs : Files) (n : ℕ) (w : World)
    → fs.open_files ≡ n
    → 0 < n
    → Leaves w (Closes (some f) fs) (closed n f fs w)
unfolding closed
closed-Closes f fs zero w e h = absurd (omega (arith, h))
closed-Closes f fs (suc n) w e h =
    leaves (Kept-refl w) (omega (arith, e), refl, next_close_iff fs.close_fails, refl)

report_close-Closes :
    (f : File) (fs : Files) (r : Bool × Files) (w : World)
    → Closes (some f) fs r
    → Leaves w (Closes (some f) fs) (report_close (some f) fs r w)
unfolding report_close sys_unsafe_log_error sys_unsafe_log_info
report_close-Closes f fs (true, fs') w h =
    Leaves-bind (sys_unsafe_vlog-Leaves 3 (close_failed (some f) fs) w refl)
      λ _ w' _. leaves (Kept-refl w') h
report_close-Closes f fs (false, fs') w h =
    Leaves-bind (sys_unsafe_vlog-Leaves 0 (closed_handle (some f) fs) w refl)
      λ _ w' _. leaves (Kept-refl w') h

-- Closing, while a stream is open: the call always returns and changes nothing in memory. NULL is
-- refused with EOF and without an effect on the file system; the stream that is given, and no other,
-- is closed, whether `fclose` succeeds or not, and the result is EOF exactly if it does not.
pub filesystem_close-Closes :
    (file : Option File) (fs : Files) (w : World)
    → 0 < fs.open_files
    → Leaves w (Closes file fs) (filesystem_close file fs w)
unfolding filesystem_close sys_unsafe_log_error fs_low_close file_sanity_check
    FsLow.file_sanity_check close_file fclose
filesystem_close-Closes none fs w h =
    Leaves-bind (sys_unsafe_vlog-Leaves 3 invalid_handle w refl)
      λ _ w' _. leaves (Kept-refl w') refl
filesystem_close-Closes (some f) fs w h =
    Leaves-bind (closed-Closes f fs fs.open_files w refl h)
      λ r w' p. report_close-Closes f fs r w' p
