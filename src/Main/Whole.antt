-- ===== src/Main/Whole.antt =====
-- configloader/main.c: `main`, from the options to the exit code.
use deadline_knapp_verparsed.Base.{
  ℕ, suc, Bool-cases, ◌+◌, ◌<◌, false, List, [], ◌∷◌, ◌++◌, Option, none, some, Bytes, codes, ◌≡◌,
  refl, sym, ap, ◌∙◌, inl, inr, subst,
}
use deadline_knapp_verparsed.Runtime.{World, done, bind, CStr, text, arg, vformat}
use deadline_knapp_verparsed.Runtime.Ensures.{Plentiful, all_granted_same, Steady}
use deadline_knapp_verparsed.Runtime.Ends.{Ends, returns, faults, Ends-option, Ensures-part}
use deadline_knapp_verparsed.Runtime.Files.{Files, File}
use deadline_knapp_verparsed.Runtime.Leaves.{Kept-refl, Leaves, leaves, Leaves-bind, vlog-Leaves}
use deadline_knapp_verparsed.Runtime.Later.{
  Still, Still-refl, Still-Kept, Still-Steady, Ends-leaves, Ends-rebased,
}
use deadline_knapp_verparsed.Logger.{log_info, log_set_lvl_visibility}
use deadline_knapp_verparsed.Sysunsafe.{
  system_internal_dispatch, sys_unsafe_whitelist_run, whitelist_run, str_equal,
}
use deadline_knapp_verparsed.Sysinfo.{sysinfo_print_date, sysinfo_print_uname_a}
use deadline_knapp_verparsed.Configfile.Present.{Present, AllPresent}
use deadline_knapp_verparsed.Cli.{Cli, Key}
use deadline_knapp_verparsed.Cli.Correct.{
  Parses, positional, last_output, cli_create-Creates, cli_parse-Parses,
}
use deadline_knapp_verparsed.Main.Merging.{Error}
use deadline_knapp_verparsed.Main.Program.{
  set_log_lvl, log_inputs, start_up_check, run, main_created, main, texts,
}
use deadline_knapp_verparsed.Main.Opening.{OpensOutput}
use deadline_knapp_verparsed.Main.Run.{NotOpened, Concludes, CleanInputs, run-Runs}
use deadline_knapp_verparsed.Main.Verdicts.{Verdict-Still}

module _ (number : ℕ → Bytes) where
  log_inputs-Leaves :
      (i : ℕ) (paths : List CStr) (w : World)
      → AllPresent paths
      → Leaves w (λ _. Unit {0}) (log_inputs number i paths w)
  unfolding log_inputs log_info
  log_inputs-Leaves i [] w h = leaves (Kept-refl w) tt
  log_inputs-Leaves i (none ∷ paths) w h = absurd h.0
  log_inputs-Leaves i (some path ∷ paths) w h =
      Leaves-bind
        (vlog-Leaves 0
          (text (codes "Input ") ∷ text (number (suc i)) ∷ text (codes ": ") ∷ arg (some path) ∷ [])
          w refl)
        λ _ w₁ _. log_inputs-Leaves (suc i) paths w₁ h.1

  commands-Leaves :
      (w : World)
      → Leaves w
          (λ _. Unit {0})
          (bind (sysinfo_print_date w) λ _ w₁. bind (sysinfo_print_uname_a w₁) λ _ w₂. done tt w₂)
  unfolding sysinfo_print_date sysinfo_print_uname_a sys_unsafe_whitelist_run whitelist_run
      str_equal system_internal_dispatch
  commands-Leaves w =
      leaves
        (record { answers_kept = refl; live_kept = refl; visibility_kept = refl; out_kept = refl })
        tt

  start_up_check-Leaves :
      (cli : Cli) (w : World)
      → Present cli.output_file
      → AllPresent cli.args
      → Leaves w (λ _. Unit {0}) (start_up_check number cli w)
  unfolding start_up_check log_info
  start_up_check-Leaves cli w h k = elim (Bool-cases cli.verbose) [
    | inl e ↦ rw e (Leaves-bind (commands-Leaves w) λ _ w₁ _. named w₁)
    | inr e ↦ rw e (named w)
  ]
    where
      output_name :
          (s : CStr)
          → Present s
          → (t : Bytes) × (vformat (text (codes "Output File: ") ∷ arg s ∷ []) ≡ some t)
      output_name none p = absurd p
      output_name (some t) p = (_, refl)

      named :
          (w' : World)
          → Leaves w'
              (λ _. Unit {0})
              (bind
                (log_info (text (codes "Output File: ") ∷ arg cli.output_file ∷ []) w')
                λ _. log_inputs number 0 cli.args)
      named w' =
          Leaves-bind
            (vlog-Leaves 0 (text (codes "Output File: ") ∷ arg cli.output_file ∷ []) w'
              (output_name cli.output_file h).1)
            λ _ w₁ _. log_inputs-Leaves 0 cli.args w₁ k

-- Setting the level changes nothing else.
set_log_lvl_lem :
    (cli : Cli) (w : World)
    → (w' : World) × (set_log_lvl cli w ≡ done tt w')
      × (w'.answers ≡ w.answers)
      × (w'.live ≡ w.live)
      × (w'.out ≡ w.out)
unfolding set_log_lvl log_set_lvl_visibility
set_log_lvl_lem cli w = elim (Bool-cases cli.verbose) [
  | inl e ↦ (record w { visibility = 0 }, rw e refl, refl, refl, refl)
  | inr e ↦ (w, rw e refl, refl, refl, refl)
]

NotOpened-Still :
    {w₀ w : World} (cli : Cli) (out : Option File × Files)
    → Still w₀ w
    → NotOpened w cli out
    → NotOpened w₀ cli out
NotOpened-Still cli out s (inl missing) = inl missing
NotOpened-Still cli out s (inr (inl starved)) = inr (inl λ h. starved (s.still_plentiful h))
NotOpened-Still cli out s (inr (inr other)) = inr (inr other)

Concludes-Still :
    {w₀ w : World} (cli : Cli) (fs : Files) (out : Option File × Files) (r : Error × Files)
    (w' : World)
    → Still w₀ w
    → Concludes w cli fs out r w'
    → Concludes w₀ cli fs out r w'
Concludes-Still cli fs out (err, fs') w' s (inl (e, o, why)) =
    inl (e, o ∙ s.still_out, NotOpened-Still cli out s why)
Concludes-Still cli fs out (err, fs') w' s (inr (there, some_args, (files, opened, all, v, l, m))) =
    inr
      (there, some_args, (files, opened, all, Verdict-Still (texts files) err w' w' s refl v, l, m))

-- What the program leaves: the structure with the options is still allocated.
abbrev pub MainRuns : World → List Key → Files → Option (Error × Files) → World → Type 0
MainRuns w₀ keys fs none w = ¬ (Plentiful w₀)
MainRuns w₀ keys fs (some r) w =
    (w.live ≡ w₀.live + 2)
    × ((cli : Cli) × (cli.args ≡ positional keys)
        × (cli.output_file ≡ last_output keys (some (codes "-")))
        × ((out : Option File × Files) × OpensOutput cli.output_file fs out
            × Concludes w₀ cli fs out r w))

module _ (number : ℕ → Bytes) (keys : List Key) (fs : Files) {w₀ : World}
    (outputs : Present (last_output keys (some (codes "-"))))
    (inputs : AllPresent (positional keys))
    (clean : (cli : Cli)
      → cli.args ≡ positional keys
      → cli.output_file ≡ last_output keys (some (codes "-"))
      → CleanInputs cli fs)
    (open_out : 0 < fs.open_files) where
  started-MainRuns :
      (cli : Cli) (w : World)
      → Still w₀ w
      → w.live ≡ w₀.live + 2
      → cli.args ≡ positional keys
      → cli.output_file ≡ last_output keys (some (codes "-"))
      → Ends w₀ (MainRuns w₀ keys fs) (
          bind (set_log_lvl cli w) λ _ w₁.
            bind
              (start_up_check number cli w₁)
              λ _ w₂. bind (run cli fs w₂) λ result w₃. done (some result) w₃)
  started-MainRuns cli w s e a o =
      let (w₁, set, answers, live, same_out) = set_log_lvl_lem cli w in
      rw set (
        Ends-leaves _
          (start_up_check-Leaves number cli w₁ (subst Present (sym o) outputs)
            (subst AllPresent (sym a) inputs))
          λ _ w₂ k _.
            let later =
              Still-Kept {w₀ = w₀}
                (record {
                  still_plentiful = λ p. all_granted_same answers (s.still_plentiful p);
                  still_out = same_out ∙ s.still_out;
                })
                k in
            Ends-rebased _ later.still_plentiful (run-Runs cli fs w₂ (clean cli a o) open_out)
              λ r w₃ p. returns (
                p.0 ∙ k.live_kept ∙ live ∙ e,
                (cli, a, o, (p.1.0, p.1.1, Concludes-Still cli fs p.1.0 r w₃ later p.1.2)),
              ))

-- The whole program, for inputs whose blocks have no NULL string; Sources has a condition on the
-- files under which that holds, and the whole statement.
pub main-MainRuns :
    (number : ℕ → Bytes) (keys : List Key) (fs : Files) (w₀ : World)
    → Present (last_output keys (some (codes "-")))
    → AllPresent (positional keys)
    → ((cli : Cli)
        → cli.args ≡ positional keys
        → cli.output_file ≡ last_output keys (some (codes "-"))
        → CleanInputs cli fs)
    → 0 < fs.open_files
    → Ends w₀ (MainRuns w₀ keys fs) (main number keys fs w₀)
unfolding main main_created
main-MainRuns number keys fs w₀ outputs inputs clean open_out =
    Ends-option _ (cli_create-Creates w₀) (λ w s p. faults p.0)
      λ cli w s p.
        Ends-option _
          (Ensures-part s (cli_parse-Parses keys cli w p.0) (λ o w₁ q. parsed cli s o w₁ q))
          (λ w₁ s₁ q. returns q)
          (λ cli' w₁ s₁ q.
            started-MainRuns number keys fs outputs inputs clean open_out cli' w₁
              (Still-Steady (Still-refl w₀) s₁) (q.2 ∙ p.2)
              (q.0 ∙ ap (λ args. args ++ positional keys) p.1) q.1)
  where
    Parsed : Cli → ℕ → Option Cli → World → Type 0
    Parsed cli n none w = ¬ (Plentiful w₀)
    Parsed cli n (some cli') w =
        (cli'.args ≡ cli.args ++ positional keys)
        × (cli'.output_file ≡ last_output keys (some (codes "-")))
        × (w.live ≡ n)

    parsed :
        (cli : Cli) {w : World}
        → Steady w₀ w
        → (o : Option Cli) (w₁ : World)
        → Parses w w.live (record cli { verbose = false; output_file = some (codes "-") }) keys o w₁
        → Parsed cli w.live o w₁
    parsed cli s none w₁ q = λ h. q (s.plentiful h)
    parsed cli s (some cli') w₁ q = (q.1, q.3, q.4)
