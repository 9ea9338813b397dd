-- ===== src/Main/Run.antt =====
-- configloader/main.c: `run`, from the names of the files to the exit code.
use deadline_knapp_verparsed.Base.{
  suc, is_some, ◌+◌, ◌≤◌, ◌<◌, List, [], ◌∷◌, ◌++◌, append_assoc, length, Option, none, some, ◌≡◌,
  ◌≢◌, refl, sym, ap, ◌∙◌, ◌⊎◌, inl, inr, subst, arith,
}
use deadline_knapp_verparsed.Runtime.{World, done, bind}
use deadline_knapp_verparsed.Runtime.Ensures.{Plentiful, held}
use deadline_knapp_verparsed.Runtime.Ends.{Ends, returns}
use deadline_knapp_verparsed.Runtime.Files.{Files, File}
use deadline_knapp_verparsed.Filesystem.{filesystem_close}
use deadline_knapp_verparsed.Filesystem.Open.{filesystem_close-Closes}
use deadline_knapp_verparsed.Cli.{Cli}
use deadline_knapp_verparsed.Main.Merging.{Error, file_open_err}
use deadline_knapp_verparsed.Main.Correct.{Clean, Verdict, merge_config_files-MergesFiles}
use deadline_knapp_verparsed.Main.Program.{
  main_log_error, texts, run_opened, run, close_input_files_and_free,
}
use deadline_knapp_verparsed.Runtime.Later.{
  Still, Still-refl, Still-Kept, Ends-leaves, Ends-next, Ends-rebased,
}
use deadline_knapp_verparsed.Main.Opening.{
  OpensAll, OpensSome, ArrayOpened, OpensOutput, open_input_files-ArrayOpened,
  open_output_file-OpensOutput,
}
use deadline_knapp_verparsed.Main.Closing.{
  OpensAll-open_files, OpensOutput-open_files, OpensAll-ClosesNone, OpensOutput-ClosesNone,
  close_input_files_and_free-ClosesAll,
}
use deadline_knapp_verparsed.Main.Verdicts.{
  main_log_error-Leaves, Verdict-Still, count_inputs, close_any, Closes-open_files,
}

-- Why the files could not be opened.
abbrev pub NotOpened : World → Cli → Option File × Files → Type 0
NotOpened w₀ cli out =
    (out.0 ≡ none)
    ⊎ ((¬ (Plentiful w₀)) ⊎ ((cli.args ≡ []) ⊎ ((fs' : Files) × OpensSome cli.args out.1 fs')))

-- The streams of a run, the output first.
abbrev pub streams : Option File → List File → List File
streams none files = files
streams (some f) files = f ∷ files

-- What `run` returns, once the output file is opened as `out`.
abbrev pub Concludes : World → Cli → Files → Option File × Files → Error × Files → World → Type 0
Concludes w₀ cli fs out (err, fs') w =
    ((err ≡ file_open_err) × (w.out ≡ w₀.out) × NotOpened w₀ cli out)
    ⊎ ((out.0 ≢ none)
        × (cli.args ≢ [])
        × ((files : List File) × (opened : Files) × OpensAll cli.args out.1 files opened
            × Verdict w₀ (texts files) err w
            × (fs'.open_files ≤ fs.open_files)
            × (fs'.closed_streams ≡ fs.closed_streams ++ streams out.0 files)))

abbrev pub Runs : World → Cli → Files → Error × Files → World → Type 0
Runs w₀ cli fs r w =
    (w.live ≡ w₀.live)
    × ((out : Option File × Files) × OpensOutput cli.output_file fs out
        × Concludes w₀ cli fs out r w)

-- The contents of the inputs that can be opened stand for blocks without a NULL string.
abbrev pub CleanInputs : Cli → Files → Type 0
CleanInputs cli fs =
    (out : Option File × Files) (files : List File) (opened : Files)
    → OpensOutput cli.output_file fs out
    → OpensAll cli.args out.1 files opened
    → Clean (texts files)

length-texts : (files : List File) → length (texts files) ≡ length files
length-texts [] = refl
length-texts (f ∷ files) = ap suc (length-texts files)

module _ {w₀ : World} (cli : Cli) (fs : Files) (out : Option File × Files) where
  -- All files are open.
  merged-Runs :
      (out_file : File) (files : List File) (fs₁ : Files) {w : World}
      → Clean (texts files)
      → OpensOutput cli.output_file fs out
      → OpensAll cli.args out.1 files fs₁
      → out.0 ≢ none
      → cli.args ≢ []
      → out.0 ≡ some out_file
      → fs₁.closed_streams ≡ fs.closed_streams
      → length files + 1 ≤ fs₁.open_files
      → fs₁.open_files ≤ fs.open_files + length files + 1
      → Still w₀ w
      → w.live ≡ w₀.live + 1
      → Ends w₀ (Runs w₀ cli fs) (run_opened (length cli.args) (some out_file) (some files) fs₁ w)
  unfolding run_opened
  merged-Runs out_file files fs₁ {w} clean outs all there some_args is_out none_closed enough few s
        e =
      let lengths =
        (OpensAll-open_files cli.args out.1 files fs₁ all).1 ∙ sym (length-texts files) in
      rw lengths (
        Ends-rebased _ s.still_plentiful (merge_config_files-MergesFiles (texts files) w clean)
          λ err w₁ p. Ends-leaves _ (main_log_error-Leaves err w₁) λ _ w₂ k _.
            Ends-leaves _ (filesystem_close-Closes (some out_file) fs₁ w₂ (omega (arith, enough)))
              λ r w₃ k' c.
                let (w₄, fs₄, closed, (open_files, streams_closed), live, same_out) =
                  close_input_files_and_free-ClosesAll files r.1 w₃ w₀.live
                    (omega (arith, enough, c.0)) (k'.live_kept ∙ k.live_kept ∙ p.1 ∙ e) in
                rw closed (
                  returns (
                    live,
                    (
                      out,
                      outs,
                      inr (
                        there,
                        some_args,
                        (
                          files,
                          fs₁,
                          all,
                          Verdict-Still (texts files) err w₁ w₄ s
                              (same_out ∙ k'.out_kept ∙ k.out_kept) p.0,
                          omega (arith, c.0, open_files, few),
                          closed_in_order r.1 fs₄ c.1 streams_closed,
                        ),
                      ),
                    ),
                  )))
    where
      closed_in_order :
          (fs₂ fs₃ : Files)
          → fs₂.closed_streams ≡ fs₁.closed_streams ++ out_file ∷ []
          → fs₃.closed_streams ≡ fs₂.closed_streams ++ files
          → fs₃.closed_streams ≡ fs.closed_streams ++ streams out.0 files
      closed_in_order fs₂ fs₃ p q = rw is_out (
          q
          ∙ ap (λ t. t ++ files) (p ∙ ap (λ t. t ++ out_file ∷ []) none_closed)
          ∙ append_assoc fs.closed_streams (out_file ∷ []) files)

  -- Some file is not open.
  refused-Runs :
      (out_file : Option File) (in_files : Option (List File)) (fs₁ : Files) {w : World}
      → OpensOutput cli.output_file fs out
      → NotOpened w₀ cli out
      → count_inputs in_files + 1 ≤ fs₁.open_files
      → Still w₀ w
      → w.live ≡ w₀.live + held (is_some in_files)
      → Ends w₀ (Runs w₀ cli fs) (
          bind (main_log_error file_open_err w) λ _ w₁.
            bind (filesystem_close out_file fs₁ w₁) λ r w₂.
              bind
                (close_input_files_and_free in_files r.1 w₂)
                λ fs₂ w₃. done (file_open_err, fs₂) w₃)
  refused-Runs out_file in_files fs₁ {w} outs why enough s e =
      Ends-leaves _ (main_log_error-Leaves file_open_err w) λ _ w₁ k _.
        Ends-leaves _ (filesystem_close-Closes out_file fs₁ w₁ (omega (arith, enough))) λ r w₂ k' c.
          let (w₃, fs₃, closed, live, same_out) =
            close_any in_files r.1 w₂ w₀.live
              (omega (arith, enough, Closes-open_files out_file fs₁ r c))
              (k'.live_kept ∙ k.live_kept ∙ e) in
          rw closed (
            returns (
              live,
              (out, outs, inl (refl, same_out ∙ k'.out_kept ∙ k.out_kept ∙ s.still_out, why)),
            ))

opened-Runs :
    {w₀ : World} (cli : Cli) (fs fs₀ : Files) (out_file : Option File)
    (r : Option (List File) × Files) (w : World)
    → CleanInputs cli fs
    → 0 < fs.open_files
    → OpensOutput cli.output_file fs (out_file, fs₀)
    → ArrayOpened w₀ w₀.live cli.args fs₀ r w
    → Ends w₀ (Runs w₀ cli fs) (run_opened (length cli.args) out_file r.0 r.1 w)
unfolding run_opened
opened-Runs cli fs fs₀ none (none, fs₁) w clean h outs (s, e, more, why) =
    refused-Runs cli fs (none, fs₀) none none fs₁ outs (inl refl)
      (omega (arith, h, more, OpensOutput-open_files cli.output_file fs none fs₀ outs)) s
      (omega (arith, e))
opened-Runs cli fs fs₀ none (some files, fs₁) w clean h outs (s, e, some_args, all) =
    refused-Runs cli fs (none, fs₀) none (some files) fs₁ outs (inl refl)
      (omega (
        arith,
        h,
        (OpensAll-open_files cli.args fs₀ files fs₁ all).0,
        (OpensOutput-open_files cli.output_file fs none fs₀ outs).0,
      ))
      s e
opened-Runs cli fs fs₀ (some f) (none, fs₁) w clean h outs (s, e, more, why) =
    refused-Runs cli fs (some f, fs₀) (some f) none fs₁ outs
      (inr (elim why [
        | inl starved ↦ inl starved
        | inr (inl empty) ↦ inr (inl empty)
        | inr (inr later) ↦ inr (inr (fs₁, later))
      ]))
      (omega (arith, h, more, OpensOutput-open_files cli.output_file fs (some f) fs₀ outs)) s
      (omega (arith, e))
opened-Runs cli fs fs₀ (some f) (some files, fs₁) w clean h outs (s, e, some_args, all) =
    let counts = (OpensAll-open_files cli.args fs₀ files fs₁ all).0 in
    let bounds = OpensOutput-open_files cli.output_file fs (some f) fs₀ outs in
    merged-Runs cli fs (some f, fs₀) f files fs₁ (clean (some f, fs₀) files fs₁ outs all) outs all
      (λ missing. cc) some_args refl
      (OpensAll-ClosesNone cli.args fs₀ files fs₁ all
        ∙ OpensOutput-ClosesNone cli.output_file fs (some f) fs₀ outs)
      (omega (arith, h, counts, bounds.0)) (omega (arith, counts, bounds.1)) s e

-- The program behind the reading of its options, for every allocator, with standard output open, if
-- no block that an input stands for has a NULL string. It ends, and faults only after a refused
-- request; nothing that it has allocated stays allocated. Either it returns FILE_OPEN_ERR and writes
-- nothing, only where the output file can not be opened, there is no input, an input can not be
-- opened, or a request was refused; or all files are opened, and what it returns and writes is what
-- `merge_config_files` makes of the contents of the inputs, which are opened behind the output
-- file, so after its truncation, and exactly the output and then each input are closed, once and in
-- that order.
pub run-Runs :
    (cli : Cli) (fs : Files) (w₀ : World)
    → CleanInputs cli fs
    → 0 < fs.open_files
    → Ends w₀ (Runs w₀ cli fs) (run cli fs w₀)
unfolding run
run-Runs cli fs w₀ clean h =
    Ends-leaves _ (open_output_file-OpensOutput cli.output_file fs w₀) λ out w₁ k outs.
      Ends-next _ (open_input_files-ArrayOpened cli.args out.1 (Still-Kept (Still-refl w₀) k))
        λ r w₂ p.
          opened-Runs cli fs out.1 out.0 r w₂ clean h outs
            (subst (λ n. ArrayOpened w₀ n cli.args out.1 r w₂) k.live_kept p)
