-- ===== src/Sysunsafe.antt =====
-- configloader/sysunsafe.c: commands handed to `system`, three ways to admit them, and the log
-- functions that write through the shell. What the shell then does is not modelled; the commands
-- are collected in order.
pub mod Guards
use deadline_knapp_verparsed.Base.{
  ℕ, ◌+◌, Bool, true, false, not, ◌||◌, ◌&&◌, List, [], ◌∷◌, ◌++◌, none, some, Bytes, codes, length,
  take, leb, ltb, ◌-◌, ◌%◌, ◌==◌, if◌then◌else◌,
}
use deadline_knapp_verparsed.Runtime.{M, ◌>>◌, pure, crash, done, Piece, vformat}
use deadline_knapp_verparsed.Logger.{
  log_set_lvl_visibility, log_info_level, log_debug_level, log_warning_level, log_error_level,
}

-- The value of a function that runs a command: what `system` returned, or -1 for a refusal.
pub data Dispatch : Type 0 where
  dispatched refused : Dispatch

-- The macro SYSTEM_INTERNAL_DISPATCH of system.h.
unfoldable pub system_internal_dispatch : Bytes → M Dispatch
system_internal_dispatch cmd w = done dispatched (record w { commands = w.commands ++ cmd ∷ [] })

-- `strcmp` as a test for equality.
unfoldable pub str_equal : Bytes → Bytes → Bool
str_equal [] [] = true
str_equal (c ∷ s) (d ∷ t) = c == d && str_equal s t
str_equal _ _ = false

abbrev pub disallow_meta_chars : Bytes
disallow_meta_chars = codes ";|&><$`\\\"''"

abbrev pub sys_safe_commands : List Bytes
sys_safe_commands =
    codes "hostname"
    ∷ codes "uname -a"
    ∷ codes "date"
    ∷ codes "whoami"
    ∷ codes "true"
    ∷ codes "false"
    ∷ codes "pwd"
    ∷ []

-- Whether a byte occurs in a text.
unfoldable pub holds_byte : ℕ → Bytes → Bool
holds_byte c [] = false
holds_byte c (d ∷ s) = c == d || holds_byte c s

-- `strpbrk(s, accept) != NULL`
unfoldable pub strpbrk : Bytes → Bytes → Bool
unfolding holds_byte
strpbrk [] accept = false
strpbrk (c ∷ s) accept = holds_byte c accept || strpbrk s accept

unfoldable pub is_command_valid : Bytes → Bool
unfolding strpbrk
is_command_valid cmd = not (strpbrk cmd disallow_meta_chars)

unfoldable pub sys_unsafe_run : Bytes → M Dispatch
unfolding system_internal_dispatch
sys_unsafe_run cmd = system_internal_dispatch cmd

unfoldable pub sys_unsafe_sanitize_run : Bytes → M Dispatch
unfolding is_command_valid system_internal_dispatch
sys_unsafe_sanitize_run cmd =
    if is_command_valid cmd then system_internal_dispatch cmd else pure refused

-- The loop of `sys_unsafe_whitelist_run` over the commands that are left.
unfoldable pub whitelist_run : List Bytes → Bytes → M Dispatch
unfolding str_equal system_internal_dispatch
whitelist_run [] cmd w = done refused w
whitelist_run (safe ∷ others) cmd w =
    if str_equal cmd safe then system_internal_dispatch cmd w else whitelist_run others cmd w

unfoldable pub sys_unsafe_whitelist_run : Bytes → M Dispatch
unfolding whitelist_run
sys_unsafe_whitelist_run cmd = whitelist_run sys_safe_commands cmd

unfoldable pub sys_unsafe_log_level_string : ℕ → Bytes
sys_unsafe_log_level_string level =
    if ltb log_error_level level
    then codes "UNKNOWN"
    else if level == log_info_level
    then codes "INFO"
    else if level == log_debug_level
    then codes "DEBUG"
    else if level == log_warning_level
    then codes "WARNING"
    else codes "ERROR"

-- The first number that does not fit in an `int`.
abbrev pub int_limit : ℕ
int_limit = 2147483648

-- The size of `command`, message_len + 32 in 32-bit arithmetic. From 2^31 - 32 bytes on, the sum of
-- the two `int`s overflows, which C leaves undefined; here it is the sum without its sign.
abbrev pub command_size : ℕ → ℕ
command_size message_len = (message_len + 32) % 4294967296

-- What `snprintf` leaves in `command`: as much as fits, with a byte for the NUL.
unfoldable pub echo_command : ℕ → Bytes → Bytes
unfolding sys_unsafe_log_level_string
echo_command level message = take (command_size (length message) - 1) (
    codes "echo ["
    ++ (sys_unsafe_log_level_string level ++ (codes "] " ++ (message ++ codes " >&2"))))

-- `vsnprintf` gives a negative number for a text whose length is no `int`; then nothing is logged.
unfoldable pub sys_unsafe_vlog : ℕ → List Piece → M (Unit {0})
unfolding echo_command sys_unsafe_run
sys_unsafe_vlog level format w =
    if ltb level w.visibility then done tt w else elim (vformat format) [
      | none ↦ crash w
      | some message ↦
          (if leb int_limit (length message)
              then pure tt
              else (do sys_unsafe_run (echo_command level message); pure tt))
            w
    ]

unfoldable pub sys_unsafe_log_set_lvl_visibility : ℕ → M (Unit {0})
unfolding log_set_lvl_visibility
sys_unsafe_log_set_lvl_visibility level = log_set_lvl_visibility level

unfoldable pub sys_unsafe_log_lvl : ℕ → List Piece → M (Unit {0})
unfolding sys_unsafe_vlog
sys_unsafe_log_lvl level format = sys_unsafe_vlog level format

unfoldable pub sys_unsafe_log_info : List Piece → M (Unit {0})
unfolding sys_unsafe_vlog
sys_unsafe_log_info format = sys_unsafe_vlog log_info_level format

unfoldable pub sys_unsafe_log_error : List Piece → M (Unit {0})
unfolding sys_unsafe_vlog
sys_unsafe_log_error format = sys_unsafe_vlog log_error_level format

unfoldable pub sys_unsafe_log_debug : List Piece → M (Unit {0})
unfolding sys_unsafe_vlog
sys_unsafe_log_debug format = sys_unsafe_vlog log_debug_level format

unfoldable pub sys_unsafe_log_warning : List Piece → M (Unit {0})
unfolding sys_unsafe_vlog
sys_unsafe_log_warning format = sys_unsafe_vlog log_warning_level format
