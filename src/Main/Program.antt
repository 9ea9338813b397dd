-- ===== src/Main/Program.antt =====
-- configloader/main.c: opening and closing the files, and `run`. The text that is written to the
-- output file is what the World has written; it is not put into the file system.
use deadline_knapp_verparsed.Base.{
  ℕ, suc, true, not, List, [], ◌∷◌, ◌++◌, Option, none, some, Bytes, codes, length, if◌then◌else◌,
}
use deadline_knapp_verparsed.Runtime.{
  M, ◌>>=◌, ◌>>◌, pure, crash, CStr, Piece, text, arg, malloc, free,
}
use deadline_knapp_verparsed.Runtime.Files.{Files, File, standard_out}
use deadline_knapp_verparsed.Logger.{log_error, log_info, log_set_lvl_visibility, log_info_level}
use deadline_knapp_verparsed.Sysunsafe.{str_equal}
use deadline_knapp_verparsed.Sysinfo.{sysinfo_print_date, sysinfo_print_uname_a}
use deadline_knapp_verparsed.Filesystem.{filesystem_open, filesystem_close}
use deadline_knapp_verparsed.Cli.{Cli, Key, cli_create, cli_parse}
use deadline_knapp_verparsed.Main.Merging.{
  Error, no_err, invalid_args_err, file_open_err, deserialize_err, serialize_err, merge_err,
  oo_memory_err, merge_config_files,
}

unfoldable pub open_input_file : CStr → Files → M (Option File × Files)
open_input_file path fs = filesystem_open path (some (codes "r")) fs

-- The loop of `open_input_files` over the paths that are left, with the files that are open. Where
-- it fails, the array is freed; the files stay open.
unfoldable pub open_inputs : List CStr → List File → Files → M (Option (List File) × Files)
unfolding open_input_file
open_inputs [] files fs = pure (some files, fs)
open_inputs (path ∷ paths) files fs = do
  (file, fs') ← open_input_file path fs
  elim file [
    | none ↦ (do free true; pure (none, fs'))
    | some f ↦ open_inputs paths (files ++ f ∷ []) fs'
  ]

unfoldable pub open_input_files : List CStr → Files → M (Option (List File) × Files)
unfolding open_inputs
open_input_files [] fs = pure (none, fs)
open_input_files (path ∷ paths) fs = do
  granted ← malloc
  if not granted then pure (none, fs) else open_inputs (path ∷ paths) [] fs

-- The loop of `close_input_files_and_free`; no entry is NULL.
unfoldable pub close_inputs : List File → Files → M Files
close_inputs [] fs = pure fs
close_inputs (f ∷ files) fs = do (eof, fs') ← filesystem_close (some f) fs; close_inputs files fs'

unfoldable pub close_input_files_and_free : Option (List File) → Files → M Files
unfolding close_inputs
close_input_files_and_free none fs = pure fs
close_input_files_and_free (some files) fs = do fs' ← close_inputs files fs; free true; pure fs'

unfoldable pub open_output_file : CStr → Files → M (Option File × Files)
open_output_file none fs = pure (none, fs)
open_output_file (some []) fs = pure (none, fs)
open_output_file (some (c ∷ name)) fs =
    if str_equal (c ∷ name) (codes "-")
    then pure (some standard_out, fs)
    else filesystem_open (some (c ∷ name)) (some (codes "w")) fs

abbrev pub error_text : Error → List Piece
error_text invalid_args_err = text (codes "no input config files provided.") ∷ []
error_text file_open_err = text (codes "input config file can not be opened.") ∷ []
error_text deserialize_err = text (codes "input config file can not be loaded.") ∷ []
error_text serialize_err = text (codes "merged config file can not be written.") ∷ []
error_text merge_err =
    text (codes "input files can not be merged. Duplicate directives were found.") ∷ []
error_text oo_memory_err = text (codes "could not allocate memory.") ∷ []
error_text no_err = []

unfoldable pub main_log_error : Error → M (Unit {0})
main_log_error no_err = pure tt
main_log_error err = log_error (error_text err)

-- What the streams of the inputs read as.
abbrev pub texts : List File → List Bytes
texts [] = []
texts (f ∷ files) = f.reads ∷ texts files

-- `run` behind the opening of the files.
unfoldable pub run_opened : ℕ → Option File → Option (List File) → Files → M (Error × Files)
unfolding close_input_files_and_free main_log_error
run_opened n (some out_file) (some in_files) fs = do
  err ← merge_config_files n (some (texts in_files))
  main_log_error err
  (eof, fs') ← filesystem_close (some out_file) fs
  fs'' ← close_input_files_and_free (some in_files) fs'
  pure (err, fs'')
run_opened n out_file in_files fs = do
  main_log_error file_open_err
  (eof, fs') ← filesystem_close out_file fs
  fs'' ← close_input_files_and_free in_files fs'
  pure (file_open_err, fs'')

unfoldable pub run : Cli → Files → M (Error × Files)
unfolding open_output_file open_input_files run_opened
run cli fs = do
  (out_file, fs') ← open_output_file cli.output_file fs
  (in_files, fs'') ← open_input_files cli.args fs'
  run_opened (length cli.args) out_file in_files fs''

unfoldable pub set_log_lvl : Cli → M (Unit {0})
set_log_lvl cli = if cli.verbose then log_set_lvl_visibility log_info_level else pure tt

-- The loop of `start_up_check`; `%d` is printed by `number`.
unfoldable pub log_inputs : (ℕ → Bytes) → ℕ → List CStr → M (Unit {0})
log_inputs number i [] = pure tt
log_inputs number i (path ∷ paths) = do
  log_info (text (codes "Input ") ∷ text (number (suc i)) ∷ text (codes ": ") ∷ arg path ∷ [])
  log_inputs number (suc i) paths

unfoldable pub start_up_check : (ℕ → Bytes) → Cli → M (Unit {0})
unfolding log_inputs
start_up_check number cli = do
  if cli.verbose then (do sysinfo_print_date; sysinfo_print_uname_a; pure tt) else pure tt
  log_info (text (codes "Output File: ") ∷ arg cli.output_file ∷ [])
  log_inputs number 0 cli.args

-- `main` behind `cli_create`, whose NULL is dereferenced. Without a result, `argp_usage` has ended
-- the program.
unfoldable pub main_created :
    (ℕ → Bytes) → List Key → Files → Option Cli → M (Option (Error × Files))
unfolding cli_parse set_log_lvl start_up_check run
main_created number keys fs none = crash
main_created number keys fs (some cli) = do
  parsed ← cli_parse keys cli
  elim parsed [
    | none ↦ pure none
    | some cli' ↦ (do
      set_log_lvl cli'
      start_up_check number cli'
      result ← run cli' fs
      pure (some result))
  ]

unfoldable pub main : (ℕ → Bytes) → List Key → Files → M (Option (Error × Files))
unfolding main_created
main number keys fs = do created ← cli_create; main_created number keys fs created
