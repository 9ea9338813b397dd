-- ===== src/Logger.antt =====
-- configloader/logger.c. A log level is an `int` there; the program uses the four constants only,
-- so negative levels are not modelled.
use deadline_knapp_verparsed.Base.{ℕ, List, [], ◌∷◌, some, Bytes, codes, ltb, ◌==◌, if◌then◌else◌}
use deadline_knapp_verparsed.Runtime.{M, ◌>>◌, pure, done, Piece, text, arg}
use deadline_knapp_verparsed.Printer.{cfg_err_printf, cfg_err_vprintf}

abbrev pub log_info_level : ℕ
log_info_level = 0

abbrev pub log_debug_level : ℕ
log_debug_level = 1

abbrev pub log_warning_level : ℕ
log_warning_level = 2

abbrev pub log_error_level : ℕ
log_error_level = 3

-- The value with which the global LOG_LVL_VISIBILITY begins.
abbrev pub log_lvl_visibility : ℕ
log_lvl_visibility = log_warning_level

unfoldable pub log_level_string : ℕ → Bytes
log_level_string level =
    if ltb log_error_level level
    then codes "UNKNOWN"
    else if level == log_info_level
    then codes "INFO"
    else if level == log_debug_level
    then codes "DEBUG"
    else if level == log_warning_level
    then codes "WARNING"
    else codes "ERROR"

unfoldable pub vlog : ℕ → List Piece → M (Unit {0})
unfolding cfg_err_printf cfg_err_vprintf log_level_string
vlog level format w =
    if ltb level w.visibility
    then done tt w
    else (do
      cfg_err_printf
          (text (codes "[") ∷ arg (some (log_level_string level)) ∷ text (codes "] ") ∷ [])
      cfg_err_vprintf format
      cfg_err_printf (text (codes "\n") ∷ [])
      pure tt)
        w

unfoldable pub log_set_lvl_visibility : ℕ → M (Unit {0})
log_set_lvl_visibility level w = done tt (record w { visibility = level })

unfoldable pub log_lvl : ℕ → List Piece → M (Unit {0})
unfolding vlog
log_lvl level format = vlog level format

unfoldable pub log_info : List Piece → M (Unit {0})
unfolding vlog
log_info format = vlog log_info_level format

unfoldable pub log_debug : List Piece → M (Unit {0})
unfolding vlog
log_debug format = vlog log_debug_level format

unfoldable pub log_warning : List Piece → M (Unit {0})
unfolding vlog
log_warning format = vlog log_warning_level format

unfoldable pub log_error : List Piece → M (Unit {0})
unfolding vlog
log_error format = vlog log_error_level format
