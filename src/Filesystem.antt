-- ===== src/Filesystem.antt =====
-- configloader/filesystem.c.
pub mod Checks
pub mod Open
pub mod Counts
use deadline_knapp_verparsed.Base.{
  ℕ, Bool, true, false, not, ◌||◌, List, [], ◌∷◌, Option, none, some, Bytes, codes, ◌==◌,
  if◌then◌else◌,
}
use deadline_knapp_verparsed.Runtime.{M, ◌>>=◌, ◌>>◌, pure, CStr, Piece, text, arg}
use deadline_knapp_verparsed.Runtime.Files.{Files, File, iscntrl}
use deadline_knapp_verparsed.Logger.{log_debug, log_info, log_error}
use deadline_knapp_verparsed.Lexer.{isspace}
use deadline_knapp_verparsed.Sysunsafe.{str_equal, sys_unsafe_log_error, sys_unsafe_log_info}
use deadline_knapp_verparsed.FsLow.{fs_low_open, fs_low_close}

-- The modes of filesystem.h.
abbrev pub readonly : Bytes
readonly = codes "r"

abbrev pub readwrite : Bytes
readwrite = codes "r+"

abbrev pub writeonlytrunc : Bytes
writeonlytrunc = codes "w"

abbrev pub readwritetrunc : Bytes
readwritetrunc = codes "w+"

abbrev pub appendonly : Bytes
appendonly = codes "a"

abbrev pub appendwrite : Bytes
appendwrite = codes "a+"

abbrev pub valid_modes : List Bytes
valid_modes = readonly ∷ readwrite ∷ writeonlytrunc ∷ readwritetrunc ∷ appendonly ∷ appendwrite ∷ []

-- The loop of `path_sanity_check`: whether it returns 1.
unfoldable pub check_bytes : Bytes → Bool → Bool
unfolding iscntrl isspace
check_bytes [] saw_non_space = not saw_non_space
check_bytes (c ∷ path) saw_non_space =
    if iscntrl c then true else check_bytes path (saw_non_space || not (isspace c))

-- Whether the result is 1.
unfoldable pub path_sanity_check : CStr → Bool
unfolding check_bytes
path_sanity_check none = true
path_sanity_check (some []) = true
path_sanity_check (some (c ∷ path)) = check_bytes (c ∷ path) false

-- The loop over the modes that are left: whether it returns 0.
unfoldable pub among_modes : List Bytes → Bytes → Bool
unfolding str_equal
among_modes [] mode = false
among_modes (valid ∷ modes) mode = if str_equal mode valid then true else among_modes modes mode

-- Whether the result is 1.
unfoldable pub mode_sanity_check : CStr → Bool
unfolding among_modes
mode_sanity_check none = true
mode_sanity_check (some []) = true
mode_sanity_check (some (c ∷ mode)) = not (among_modes valid_modes (c ∷ mode))

unfoldable pub file_sanity_check : Option File → Bool
file_sanity_check none = true
file_sanity_check (some f) = false

abbrev pub or_null : CStr → CStr
or_null none = some (codes "(null)")
or_null (some s) = some s

abbrev pub opening : CStr → CStr → List Piece
opening path mode =
    text (codes "filesystem_open: path='")
    ∷ arg (or_null path)
    ∷ text (codes "', mode='")
    ∷ arg (or_null mode)
    ∷ text (codes "'")
    ∷ []

abbrev pub invalid_path : List Piece
invalid_path = text (codes "can not open file of invalid path") ∷ []

abbrev pub with_path_mode : Bytes → CStr → CStr → List Piece
with_path_mode what path mode =
    text what ∷ arg path ∷ text (codes "' with mode='") ∷ arg mode ∷ text (codes "'") ∷ []

-- The character of an empty mode is its NUL, with which the message ends.
abbrev pub invalid_mode : CStr → List Piece
invalid_mode none = text (codes "can not open file with invalid mode '?'") ∷ []
invalid_mode (some []) = text (codes "can not open file with invalid mode '") ∷ []
invalid_mode (some (c ∷ mode)) =
    text (codes "can not open file with invalid mode '") ∷ text (c ∷ []) ∷ text (codes "'") ∷ []

-- The end of `filesystem_open`, behind the call of `fs_low_open`.
unfoldable pub report_open : CStr → CStr → Option File × Files → M (Option File × Files)
report_open path mode (none, fs) = do
  log_error (with_path_mode (codes "failed to open path='") path mode)
  pure (none, fs)
report_open path mode (some file, fs) = do
  log_info (with_path_mode (codes "opened path='") path mode)
  pure (some file, fs)

-- `filesystem_open` behind its first message.
unfoldable pub open_checked : CStr → CStr → Files → M (Option File × Files)
unfolding path_sanity_check mode_sanity_check report_open
open_checked path mode fs =
    if path_sanity_check path
    then (do sys_unsafe_log_error invalid_path; pure (none, fs))
    else if mode_sanity_check mode
    then (do sys_unsafe_log_error (invalid_mode mode); pure (none, fs))
    else (do result ← fs_low_open path mode fs; report_open path mode result)

unfoldable pub filesystem_open : CStr → CStr → Files → M (Option File × Files)
unfolding open_checked
filesystem_open path mode fs = do log_debug (opening path mode); open_checked path mode fs

unfoldable pub filesystem_open_readonly : CStr → Files → M (Option File × Files)
unfolding filesystem_open
filesystem_open_readonly path = filesystem_open path (some readonly)

-- What `%p` prints.
abbrev handle : Option File → Files → Piece
handle none fs = text (codes "(nil)")
handle (some f) fs = text (fs.pointer_text f.path)

abbrev pub invalid_handle : List Piece
invalid_handle = text (codes "filesystem_close: invalid file handle") ∷ []

abbrev pub close_failed : Option File → Files → List Piece
close_failed file fs =
    text (codes "filesystem_close: close failed for file handle ") ∷ handle file fs ∷ []

abbrev pub closed_handle : Option File → Files → List Piece
closed_handle file fs = text (codes "filesystem_close: closed handle=") ∷ handle file fs ∷ []

-- The end of `filesystem_close`, behind the call of `fs_low_close`; `fs` is from before it.
unfoldable pub report_close : Option File → Files → Bool × Files → M (Bool × Files)
report_close file fs (true, fs') = do sys_unsafe_log_error (close_failed file fs); pure (true, fs')
report_close file fs (false, fs') = do
  sys_unsafe_log_info (closed_handle file fs)
  pure (false, fs')

-- Whether the result is EOF.
unfoldable pub filesystem_close : Option File → Files → M (Bool × Files)
unfolding file_sanity_check report_close
filesystem_close file fs =
    if file_sanity_check file
    then (do sys_unsafe_log_error invalid_handle; pure (true, fs))
    else (do result ← fs_low_close file fs; report_close file fs result)
