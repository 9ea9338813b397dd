-- ===== src/Main/Starting.antt =====
-- configloader/main.c: `set_log_lvl` and `start_up_check`, what they log and which commands they run.
use deadline_knapp_verparsed.Base.{
  ℕ, suc, Bool, Bool-cases, List, [], ◌∷◌, ◌++◌, append_assoc, append-nil, some, Bytes, codes, ◌≡◌,
  refl, ap, ◌∙◌, inl, inr, ltb, if◌then◌else◌,
}
use deadline_knapp_verparsed.Runtime.{World, M, done, bind, CStr, Piece, text, arg, vformat}
use deadline_knapp_verparsed.Printer.{cfg_err_printf, cfg_err_vprintf, cfg_vfprintf}
use deadline_knapp_verparsed.Logger.{vlog, log_info, log_level_string, log_set_lvl_visibility}
use deadline_knapp_verparsed.Sysunsafe.{
  system_internal_dispatch, sys_unsafe_whitelist_run, whitelist_run, str_equal,
}
use deadline_knapp_verparsed.Sysinfo.{sysinfo_print_date, sysinfo_print_uname_a}
use deadline_knapp_verparsed.Cli.{Cli}
use deadline_knapp_verparsed.Main.Program.{set_log_lvl, log_inputs, start_up_check}

-- A message on the standard error stream, if the level of the World lets it through.
abbrev pub heard : World → Bytes → World
heard w t = if ltb 0 w.visibility then w else record w { err = w.err ++ t }

abbrev pub info_line : Bytes → Bytes
info_line t = codes "[INFO] " ++ (t ++ codes "\n")

-- The lines for the inputs, numbered from `i + 1` on.
abbrev pub input_lines : (ℕ → Bytes) → ℕ → List Bytes → Bytes
input_lines number i [] = []
input_lines number i (path ∷ paths) =
    info_line (codes "Input " ++ (number (suc i) ++ (codes ": " ++ path)))
    ++ input_lines number (suc i) paths

abbrev pub strings : List Bytes → List CStr
strings [] = []
strings (path ∷ paths) = some path ∷ strings paths

-- With `-v`, messages of level INFO are on, and `date` and `uname -a` are run; without it, neither.
-- Then the names of the output file and of the inputs are logged.
abbrev pub started : (ℕ → Bytes) → Bool → Bytes → List Bytes → World → World
started number verbose name paths w =
    heard
      (if verbose
        then record w {
          visibility = 0;
          commands = w.commands ++ codes "date" ∷ codes "uname -a" ∷ [];
        }
        else w)
      (info_line (codes "Output File: " ++ name) ++ input_lines number 0 paths)

log_info-heard :
    (ps : List Piece) (t : Bytes) (w : World)
    → vformat ps ≡ some t
    → log_info ps w ≡ done tt (heard w (info_line t))
unfolding log_info vlog cfg_err_printf cfg_err_vprintf log_level_string
log_info-heard ps t w h = elim (Bool-cases (ltb 0 w.visibility)) [
  | inl off ↦ rw off refl
  | inr on ↦ rw (on, h, cfg_err_vprintf, cfg_vfprintf, append_assoc, append_assoc) refl
]

heard-nil : (w : World) → w ≡ heard w []
heard-nil w = elim (Bool-cases (ltb 0 w.visibility)) [
  | inl off ↦ rw off refl
  | inr on ↦ rw (on, append-nil) refl
]

heard-heard : (w : World) (s t : Bytes) → heard (heard w s) t ≡ heard w (s ++ t)
heard-heard w s t = elim (Bool-cases (ltb 0 w.visibility)) [
  | inl off ↦ rw (off, off) refl
  | inr on ↦ rw (on, on, append_assoc) refl
]

-- The first line, and what is logged behind it.
then_heard :
    (ps : List Piece) (s t : Bytes) (k : M (Unit {0})) (w : World)
    → vformat ps ≡ some s
    → ((w' : World) → k w' ≡ done tt (heard w' t))
    → bind (log_info ps w) (λ _. k) ≡ done tt (heard w (info_line s ++ t))
then_heard ps s t k w h next =
    ap (λ r. bind r λ _. k) (log_info-heard ps s w h)
    ∙ next (heard w (info_line s))
    ∙ ap (λ w'. done tt w') (heard-heard w (info_line s) t)

module _ (number : ℕ → Bytes) where
  log_inputs-heard :
      (i : ℕ) (paths : List Bytes) (w : World)
      → log_inputs number i (strings paths) w ≡ done tt (heard w (input_lines number i paths))
  unfolding log_inputs
  log_inputs-heard i [] w = ap (λ w'. done tt w') (heard-nil w)
  log_inputs-heard i (path ∷ paths) w =
      then_heard _ (codes "Input " ++ (number (suc i) ++ (codes ": " ++ path))) _
        (log_inputs number (suc i) (strings paths)) w (rw append-nil refl)
        (log_inputs-heard (suc i) paths)

  names-heard :
      (name : Bytes) (paths : List Bytes) (w : World)
      → bind
          (log_info (text (codes "Output File: ") ∷ arg (some name) ∷ []) w)
          (λ _. log_inputs number 0 (strings paths))
        ≡ done tt
            (heard w (info_line (codes "Output File: " ++ name) ++ input_lines number 0 paths))
  names-heard name paths w =
      then_heard _ (codes "Output File: " ++ name) _ (log_inputs number 0 (strings paths)) w
        (rw append-nil refl) (log_inputs-heard 0 paths)

  commands_run :
      (w : World)
      → bind (sysinfo_print_date w) (λ _ w₁. bind (sysinfo_print_uname_a w₁) λ _ w₂. done tt w₂)
        ≡ done tt (record w { commands = w.commands ++ codes "date" ∷ codes "uname -a" ∷ [] })
  unfolding sysinfo_print_date sysinfo_print_uname_a sys_unsafe_whitelist_run whitelist_run
      str_equal system_internal_dispatch
  commands_run w = rw (append_assoc w.commands (codes "date" ∷ []) (codes "uname -a" ∷ [])) refl

  -- `set_log_lvl` and then `start_up_check`, with the name of the output file and those of the
  -- inputs there, always return. With `-v` they turn the messages of level INFO on and run `date`
  -- and `uname -a`, in this order, and without it they do neither; then, if such messages are on,
  -- they log one line for the output file and one for each input, numbered from 1; and they change
  -- nothing else.
  pub start_up_check-set_log_lvl :
      (cli : Cli) (name : Bytes) (paths : List Bytes) (w : World)
      → cli.output_file ≡ some name
      → cli.args ≡ strings paths
      → bind (set_log_lvl cli w) (λ _. start_up_check number cli)
        ≡ done tt (started number cli.verbose name paths w)
  unfolding set_log_lvl start_up_check log_set_lvl_visibility
  start_up_check-set_log_lvl cli name paths w o a = elim (Bool-cases cli.verbose) [
    | inl e ↦
        rw (e, o, a, commands_run (record w { visibility = 0 }))
          (names-heard name paths (record w {
            visibility = 0;
            commands = w.commands ++ codes "date" ∷ codes "uname -a" ∷ [];
          }))
    | inr e ↦ rw (e, o, a) (names-heard name paths w)
  ]
