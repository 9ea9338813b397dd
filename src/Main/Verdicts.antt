-- ===== src/Main/Verdicts.antt =====
-- configloader/main.c: what closing the files, and logging an error, leaves of the verdict on the inputs.
use deadline_knapp_verparsed.Base.{
  ℕ, Bool, is_some, ◌+◌, ◌≤◌, List, ◌++◌, length, Option, none, some, Bytes, ◌≡◌, refl, ap, ◌∙◌,
  ◌⊎◌, inl, inr, arith,
}
use deadline_knapp_verparsed.Runtime.{World, done}
use deadline_knapp_verparsed.Runtime.Ensures.{Plentiful, held}
use deadline_knapp_verparsed.Runtime.Files.{Files, File}
use deadline_knapp_verparsed.Runtime.Leaves.{Kept-refl, Leaves, leaves, vlog-Leaves}
use deadline_knapp_verparsed.Logger.{log_error}
use deadline_knapp_verparsed.Filesystem.Open.{Closes}
use deadline_knapp_verparsed.Serializer.Render.{render}
use deadline_knapp_verparsed.Main.Merging.{
  Error, no_err, invalid_args_err, file_open_err, deserialize_err, serialize_err, merge_err,
  oo_memory_err,
}
use deadline_knapp_verparsed.Main.Correct.{Verdict}
use deadline_knapp_verparsed.Main.Program.{main_log_error, error_text, close_input_files_and_free}
use deadline_knapp_verparsed.Runtime.Later.{Still}
use deadline_knapp_verparsed.Main.Closing.{close_input_files_and_free-ClosesAll}

pub main_log_error-Leaves :
    (err : Error) (w : World) → Leaves w (λ _. Unit {0}) (main_log_error err w)
unfolding main_log_error log_error
main_log_error-Leaves no_err w = leaves (Kept-refl w) tt
main_log_error-Leaves invalid_args_err w = vlog-Leaves 3 (error_text invalid_args_err) w refl
main_log_error-Leaves file_open_err w = vlog-Leaves 3 (error_text file_open_err) w refl
main_log_error-Leaves deserialize_err w = vlog-Leaves 3 (error_text deserialize_err) w refl
main_log_error-Leaves serialize_err w = vlog-Leaves 3 (error_text serialize_err) w refl
main_log_error-Leaves merge_err w = vlog-Leaves 3 (error_text merge_err) w refl
main_log_error-Leaves oo_memory_err w = vlog-Leaves 3 (error_text oo_memory_err) w refl

pub refused :
    {w₀ w : World} {X : Type 0} → Still w₀ w → (¬ (Plentiful w)) ⊎ X → (¬ (Plentiful w₀)) ⊎ X
refused s (inl starved) = inl λ h. starved (s.still_plentiful h)
refused s (inr x) = inr x

pub Verdict-Still :
    {w₀ w : World} (inputs : List Bytes) (err : Error) (w₁ w₂ : World)
    → Still w₀ w
    → w₂.out ≡ w₁.out
    → Verdict w inputs err w₁
    → Verdict w₀ inputs err w₂
Verdict-Still inputs no_err w₁ w₂ s e (b, u, o) =
    (b, u, e ∙ o ∙ ap (λ t. t ++ render b) s.still_out)
Verdict-Still inputs deserialize_err w₁ w₂ s e (why, o) = (refused s why, e ∙ o ∙ s.still_out)
Verdict-Still inputs merge_err w₁ w₂ s e (why, o) = (refused s why, e ∙ o ∙ s.still_out)
Verdict-Still inputs oo_memory_err w₁ w₂ s e (why, o) =
    (λ h. why (s.still_plentiful h), e ∙ o ∙ s.still_out)
Verdict-Still inputs invalid_args_err w₁ w₂ s e (why, o) = (why, e ∙ o ∙ s.still_out)
Verdict-Still inputs file_open_err w₁ w₂ s e h = absurd h
Verdict-Still inputs serialize_err w₁ w₂ s e h = absurd h

abbrev pub count_inputs : Option (List File) → ℕ
count_inputs none = 0
count_inputs (some files) = length files

pub close_any :
    (in_files : Option (List File)) (fs : Files) (w : World) (n : ℕ)
    → count_inputs in_files ≤ fs.open_files
    → w.live ≡ n + held (is_some in_files)
    → (w' : World) × (fs' : Files) × (close_input_files_and_free in_files fs w ≡ done fs' w')
      × (w'.live ≡ n)
      × (w'.out ≡ w.out)
unfolding close_input_files_and_free
close_any none fs w n h e = (w, fs, refl, omega (arith, e), refl)
close_any (some files) fs w n h e =
    let (w', fs', closed, open_files, live, same_out) =
      close_input_files_and_free-ClosesAll files fs w n h e in
    (w', fs', closed, live, same_out)

pub Closes-open_files :
    (file : Option File) (fs : Files) (r : Bool × Files)
    → Closes file fs r
    → fs.open_files ≤ r.1.open_files + 1
Closes-open_files none fs r c = let same = ap (λ q. q.1.open_files) c in omega (arith, same)
Closes-open_files (some f) fs r c = omega (arith, c.0)
