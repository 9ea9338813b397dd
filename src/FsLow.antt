-- ===== src/FsLow.antt =====
-- configloader/fs_low.c and the macros of configloader/fsops.h.
use deadline_knapp_verparsed.Base.{
  Bool, true, false, not, ◌||◌, [], ◌∷◌, Option, none, some, Bytes, ◌==◌, if◌then◌else◌,
}
use deadline_knapp_verparsed.Runtime.{M, ◌>>=◌, pure, crash, CStr}
use deadline_knapp_verparsed.Runtime.Files.{Files, File, fopen, fclose, iscntrl}
use deadline_knapp_verparsed.Lexer.{isspace}

-- The loop of `path_sanity_check`: whether it returns 1.
unfoldable pub check_bytes : Bytes → Bool → Bool
unfolding iscntrl isspace
check_bytes [] saw_non_space = not saw_non_space
check_bytes (c ∷ path) saw_non_space =
    if iscntrl c then true else check_bytes path (saw_non_space || not (isspace c))

-- Whether the result is 1.
unfoldable pub path_sanity_check : CStr → Bool
unfolding check_bytes
path_sanity_check none = true
path_sanity_check (some []) = true
path_sanity_check (some (c ∷ path)) = check_bytes (c ∷ path) false

-- Whether the result is INVALID_MODE. `strlen` of NULL is a fault.
unfoldable pub mode_sanity_check : CStr → M Bool
mode_sanity_check none = crash
mode_sanity_check (some []) = pure true
mode_sanity_check (some (first ∷ mode)) =
    pure (not (first == b'r' || (first == b'w' || first == b'a')))

unfoldable pub file_sanity_check : Option File → Bool
file_sanity_check none = true
file_sanity_check (some f) = false

-- The macros FSOPS_FOPEN and FSOPS_FCLOSE. The path and the mode have been checked, so they are not
-- NULL, and neither is the stream.
unfoldable pub fsops_fopen : CStr → CStr → Files → M (Option File × Files)
unfolding fopen
fsops_fopen (some path) (some mode) fs = pure (fopen path mode fs)
fsops_fopen _ _ fs = crash

-- Whether the result is EOF.
unfoldable pub fsops_fclose : Option File → Files → M (Bool × Files)
unfolding fclose
fsops_fclose none fs = crash
fsops_fclose (some f) fs = fclose f fs

unfoldable pub open_file : CStr → CStr → Files → M (Option File × Files)
unfolding fsops_fopen
open_file path mode fs = fsops_fopen path mode fs

unfoldable pub close_file : Option File → Files → M (Bool × Files)
unfolding fsops_fclose
close_file f fs = fsops_fclose f fs

unfoldable pub fs_low_open : CStr → CStr → Files → M (Option File × Files)
unfolding mode_sanity_check path_sanity_check open_file
fs_low_open path mode fs = do
  invalid ← mode_sanity_check mode
  if invalid
      then pure (none, fs)
      else if path_sanity_check path
      then pure (none, fs)
      else open_file path mode fs

unfoldable pub fs_low_close : Option File → Files → M (Bool × Files)
unfolding file_sanity_check close_file
fs_low_close file fs = if file_sanity_check file then pure (true, fs) else close_file file fs
