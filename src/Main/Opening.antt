-- ===== src/Main/Opening.antt =====
-- configloader/main.c: what opening and closing the files leaves.
use deadline_knapp_verparsed.Base.{
  ℕ, ◌+◌, ◌≤◌, Bool, true, false, Bool-cases, List, [], ◌∷◌, ◌++◌, append_assoc, append-nil, Option,
  none, some, codes, ◌≡◌, ◌≢◌, refl, sym, ◌∙◌, ◌⊎◌, inl, inr, subst, arith, if◌then◌else◌, not,
}
use deadline_knapp_verparsed.Runtime.{World, Outcome, bind, pure, CStr}
use deadline_knapp_verparsed.Runtime.Ensures.{
  Plentiful, all_granted_same, Steady, Steady-refl, malloc-Ensures, free-Ensures, Granted,
}
use deadline_knapp_verparsed.Runtime.Ends.{Ends, returns, Ends-from}
use deadline_knapp_verparsed.Runtime.Files.{Files, File, standard_out}
use deadline_knapp_verparsed.Runtime.Leaves.{Kept, Kept-refl, Leaves, leaves, Leaves-map}
use deadline_knapp_verparsed.Filesystem.Open.{OpensIfValid, filesystem_open-OpensIfValid}
use deadline_knapp_verparsed.Filesystem.Counts.{OpensIfValid-CountsUp}
use deadline_knapp_verparsed.Sysunsafe.{str_equal}
use deadline_knapp_verparsed.Sysunsafe.Guards.{str_equal_iff}
use deadline_knapp_verparsed.Main.Program.{
  open_input_file, open_inputs, open_input_files, open_output_file,
}
use deadline_knapp_verparsed.Runtime.Later.{Still, Still-Kept, Still-Steady, Ends-map}

-- The inputs are opened one after the other, all of them, or up to one that can not be opened.
abbrev pub OpensAll : List CStr → Files → List File → Files → Type 0
OpensAll [] fs [] fs' = fs' ≡ fs
OpensAll [] fs (f ∷ files) fs' = ⊥
OpensAll (path ∷ paths) fs [] fs' = ⊥
OpensAll (path ∷ paths) fs (f ∷ files) fs' =
    (next : Files) × OpensIfValid path (some (codes "r")) fs (some f, next)
    × OpensAll paths next files fs'

abbrev pub OpensSome : List CStr → Files → Files → Type 0
OpensSome [] fs fs' = ⊥
OpensSome (path ∷ paths) fs fs' =
    OpensIfValid path (some (codes "r")) fs (none, fs')
    ⊎ ((f : File) × (next : Files) × OpensIfValid path (some (codes "r")) fs (some f, next)
        × OpensSome paths next fs')

-- The array of the files is allocated, unless one could not be opened.
abbrev pub InputsOpened :
    World → ℕ → List CStr → List File → Files → Option (List File) × Files → World → Type 0
InputsOpened w₀ n paths files fs (some all, fs') w =
    Still w₀ w
    × (w.live ≡ n + 1)
    × ((more : List File) × (all ≡ files ++ more) × OpensAll paths fs more fs')
InputsOpened w₀ n paths files fs (none, fs') w = Still w₀ w × (w.live ≡ n) × OpensSome paths fs fs'

-- A file that is opened, or NULL.
Ends-opened :
    {B : Type 0} {w₀ w : World} {Q : B → World → Type 0} {P : Option File × Files → Type 0}
    {r : Outcome (Option File × Files)} (f : Option File × Files → World → Outcome B)
    → Leaves w P r
    → ((fs' : Files) (w' : World) → Kept w w' → P (none, fs') → Ends w₀ Q (f (none, fs') w'))
    → ((file : File) (fs' : Files) (w' : World)
        → Kept w w'
        → P (some file, fs')
        → Ends w₀ Q (f (some file, fs') w'))
    → Ends w₀ Q (bind r f)
Ends-opened f (leaves {a = (none, fs')} k p) on_null on_file = on_null fs' _ k p
Ends-opened f (leaves {a = (some file, fs')} k p) on_null on_file = on_file file fs' _ k p

InputsOpened-cons :
    (w₀ : World) (n : ℕ) (path : CStr) (paths : List CStr) (files : List File) (fs next : Files)
    (file : File)
    → OpensIfValid path (some (codes "r")) fs (some file, next)
    → (r : Option (List File) × Files) (w : World)
    → InputsOpened w₀ n paths (files ++ file ∷ []) next r w
    → InputsOpened w₀ n (path ∷ paths) files fs r w
InputsOpened-cons w₀ n path paths files fs next file o (some all, fs') w
      (s, e, (more, same, rest)) =
    (s, e, (file ∷ more, same ∙ append_assoc files (file ∷ []) more, (next, o, rest)))
InputsOpened-cons w₀ n path paths files fs next file o (none, fs') w (s, e, why) =
    (s, e, inr (file, next, o, why))

open_inputs-InputsOpened :
    {w₀ : World} (paths : List CStr) (files : List File) (fs : Files) (n : ℕ) {w : World}
    → Still w₀ w
    → w.live ≡ n + 1
    → Ends w₀ (InputsOpened w₀ n paths files fs) (open_inputs paths files fs w)
unfolding open_inputs open_input_file
open_inputs-InputsOpened [] files fs n s e = returns (s, e, ([], sym (append-nil files), refl))
open_inputs-InputsOpened {w₀} (path ∷ paths) files fs n {w} s e =
    Ends-opened _ (filesystem_open-OpensIfValid path (some (codes "r")) fs w)
      (λ fs' w₁ k p.
        Ends-from (λ h. all_granted_same k.answers_kept (s.still_plentiful h))
          (free-Ensures n true (Steady-refl w₁) (k.live_kept ∙ e))
          λ _ w₂ t e₂. returns (Still-Steady (Still-Kept s k) t, e₂, inl p))
      (λ file fs' w₁ k p.
        Ends-map
          (open_inputs-InputsOpened paths (files ++ file ∷ []) fs' n (Still-Kept s k)
            (k.live_kept ∙ e))
          (InputsOpened-cons w₀ n path paths files fs fs' file p))

OpensSome-open_files :
    (paths : List CStr) (fs fs' : Files) → OpensSome paths fs fs' → fs.open_files ≤ fs'.open_files
OpensSome-open_files [] fs fs' h = absurd h
OpensSome-open_files (path ∷ paths) fs fs' (inl one) =
    let same = OpensIfValid-CountsUp path (some (codes "r")) fs (none, fs') one in
    omega (arith, same)
OpensSome-open_files (path ∷ paths) fs fs' (inr (f, next, one, later)) =
    let up = OpensIfValid-CountsUp path (some (codes "r")) fs (some f, next) one in
    omega (arith, up, OpensSome-open_files paths next fs' later)

-- No array: there are no paths, it was refused, or a file could not be opened.
abbrev pub ArrayOpened : World → ℕ → List CStr → Files → Option (List File) × Files → World → Type 0
ArrayOpened w₀ n paths fs (some files, fs') w =
    Still w₀ w × (w.live ≡ n + 1) × (paths ≢ []) × OpensAll paths fs files fs'
ArrayOpened w₀ n paths fs (none, fs') w =
    Still w₀ w
    × (w.live ≡ n)
    × (fs.open_files ≤ fs'.open_files)
    × ((¬ (Plentiful w₀)) ⊎ ((paths ≡ []) ⊎ OpensSome paths fs fs'))

pub open_input_files-ArrayOpened :
    (paths : List CStr) (fs : Files) {w₀ w : World}
    → Still w₀ w
    → Ends w₀ (ArrayOpened w₀ w.live paths fs) (open_input_files paths fs w)
unfolding open_input_files
open_input_files-ArrayOpened [] fs s = returns (s, refl, omega arith, inr (inl refl))
open_input_files-ArrayOpened (path ∷ paths) fs {w₀} {w} s =
    Ends-from s.still_plentiful (malloc-Ensures (Steady-refl w) refl) granted
  where
    from_inputs :
        (r : Option (List File) × Files) (w' : World)
        → InputsOpened w₀ w.live (path ∷ paths) [] fs r w'
        → ArrayOpened w₀ w.live (path ∷ paths) fs r w'
    from_inputs (none, fs') w' (t, e, why) =
        (t, e, OpensSome-open_files (path ∷ paths) fs fs' why, inr (inr why))
    from_inputs (some files, fs') w' (t, e, (more, same, all)) =
        (t, e, (λ none_left. cc), subst (λ l. OpensAll (path ∷ paths) fs l fs') (sym same) all)

    granted :
        (r : Bool) (w' : World)
        → Steady w w'
        → Granted w w.live 1 r w'
        → Ends w₀
            (ArrayOpened w₀ w.live (path ∷ paths) fs)
            ((if not r then pure (none, fs) else open_inputs (path ∷ paths) [] fs) w')
    granted false w' t (starved, e) =
        returns (Still-Steady s t, e, omega arith, inl (λ h. starved (s.still_plentiful h)))
    granted true w' t e =
        Ends-map (open_inputs-InputsOpened (path ∷ paths) [] fs w.live (Still-Steady s t) e)
          from_inputs

-- What the output name stands for.
abbrev pub OpensOutput : CStr → Files → Option File × Files → Type 0
OpensOutput none fs r = r ≡ (none, fs)
OpensOutput (some []) fs r = r ≡ (none, fs)
OpensOutput (some (c ∷ name)) fs r =
    ((c ∷ name ≡ codes "-") × (r ≡ (some standard_out, fs)))
    ⊎ ((c ∷ name ≢ codes "-") × OpensIfValid (some (c ∷ name)) (some (codes "w")) fs r)

pub open_output_file-OpensOutput :
    (name : CStr) (fs : Files) (w : World)
    → Leaves w (OpensOutput name fs) (open_output_file name fs w)
unfolding open_output_file
open_output_file-OpensOutput none fs w = leaves (Kept-refl w) refl
open_output_file-OpensOutput (some []) fs w = leaves (Kept-refl w) refl
open_output_file-OpensOutput (some (c ∷ name)) fs w =
    elim (Bool-cases (str_equal (c ∷ name) (codes "-"))) [
      | inl same ↦
          rw same (leaves (Kept-refl w) (inl ((str_equal_iff (c ∷ name) (codes "-")).0 same, refl)))
      | inr differs ↦ rw differs (
          Leaves-map (filesystem_open-OpensIfValid (some (c ∷ name)) (some (codes "w")) fs w) λ r p.
            inr (
              λ same.
                  let h : false ≡ true =
                    sym differs ∙ (str_equal_iff (c ∷ name) (codes "-")).1 same in
                  cc,
              p,
            ))
    ]
