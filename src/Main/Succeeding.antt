-- ===== src/Main/Succeeding.antt =====
-- configloader/main.c: when the whole program succeeds.
use deadline_knapp_verparsed.Base.{
  ℕ, ◌<◌, List, [], ◌∷◌, ◌++◌, Option, none, some, Bytes, codes, ◌≡◌, ◌≢◌, refl, sym, ap, subst,
  ◌∙◌, inl, inr,
}
use deadline_knapp_verparsed.Runtime.{World, CStr, Outcome, done}
use deadline_knapp_verparsed.Runtime.Ensures.{Plentiful}
use deadline_knapp_verparsed.Runtime.Ends.{Ends, returns, faults}
use deadline_knapp_verparsed.Runtime.Files.{Files, File}
use deadline_knapp_verparsed.Configfile.{Block}
use deadline_knapp_verparsed.Configfile.Present.{Present, AllPresent}
use deadline_knapp_verparsed.Serializer.Render.{render}
use deadline_knapp_verparsed.Filesystem.Open.{OpensIfValid}
use deadline_knapp_verparsed.Cli.{Key, Cli}
use deadline_knapp_verparsed.Cli.Correct.{positional, last_output}
use deadline_knapp_verparsed.Main.Merging.{Error, no_err}
use deadline_knapp_verparsed.Main.Program.{texts, main}
use deadline_knapp_verparsed.Main.Correct.{UnionOf}
use deadline_knapp_verparsed.Main.Opening.{OpensOutput, OpensAll, OpensSome}
use deadline_knapp_verparsed.Main.Run.{Concludes}
use deadline_knapp_verparsed.Main.Success.{Verdict-succeeds}
use deadline_knapp_verparsed.Main.Whole.{MainRuns}
use deadline_knapp_verparsed.Main.Sources.{Unquoted, main-MainRuns-Unquoted}

-- Opening files has one result.
OpensIfValid-unique :
    (path mode : CStr) (fs : Files) (r r' : Option File × Files)
    → OpensIfValid path mode fs r
    → OpensIfValid path mode fs r'
    → r ≡ r'
OpensIfValid-unique path mode fs r r' (inl (v, e)) (inl (v', e')) = e ∙ sym e'
OpensIfValid-unique path mode fs r r' (inl (v, e)) (inr (n, e')) = absurd (n v)
OpensIfValid-unique path mode fs r r' (inr (n, e)) (inl (v, e')) = absurd (n v)
OpensIfValid-unique path mode fs r r' (inr (n, e)) (inr (n', e')) = e ∙ sym e'

OpensOutput-unique :
    (name : CStr) (fs : Files) (r r' : Option File × Files)
    → OpensOutput name fs r
    → OpensOutput name fs r'
    → r ≡ r'
OpensOutput-unique none fs r r' o o' = o ∙ sym o'
OpensOutput-unique (some []) fs r r' o o' = o ∙ sym o'
OpensOutput-unique (some (c ∷ name)) fs r r' (inl (same, o)) (inl (same', o')) = o ∙ sym o'
OpensOutput-unique (some (c ∷ name)) fs r r' (inl (same, o)) (inr (other, o')) = absurd (other same)
OpensOutput-unique (some (c ∷ name)) fs r r' (inr (other, o)) (inl (same, o')) = absurd (other same)
OpensOutput-unique (some (c ∷ name)) fs r r' (inr (other, o)) (inr (other', o')) =
    OpensIfValid-unique (some (c ∷ name)) (some (codes "w")) fs r r' o o'

opened_same :
    (f g : File) (fs fs' : Files)
    → ◌≡◌ {A = Option File × Files} (some f, fs) (some g, fs')
    → (f ≡ g) × (fs ≡ fs')
opened_same f g fs fs' e = let same : some f ≡ some g = ap (λ r. r.0) e in (cc, ap (λ r. r.1) e)

OpensAll-unique :
    (paths : List CStr) (fs : Files) (files files' : List File) (fs₁ fs₂ : Files)
    → OpensAll paths fs files fs₁
    → OpensAll paths fs files' fs₂
    → files ≡ files'
OpensAll-unique [] fs [] [] fs₁ fs₂ o o' = refl
OpensAll-unique [] fs (f ∷ files) files' fs₁ fs₂ o o' = absurd o
OpensAll-unique [] fs [] (f ∷ files') fs₁ fs₂ o o' = absurd o'
OpensAll-unique (path ∷ paths) fs [] files' fs₁ fs₂ o o' = absurd o
OpensAll-unique (path ∷ paths) fs (f ∷ files) [] fs₁ fs₂ o o' = absurd o'
OpensAll-unique (path ∷ paths) fs (f ∷ files) (g ∷ files') fs₁ fs₂ (next, one, rest)
      (next', one', rest') =
    let (same, left) =
      opened_same f g next next'
        (OpensIfValid-unique path (some (codes "r")) fs (some f, next) (some g, next') one one') in
    let later =
      OpensAll-unique paths next files files' fs₁ fs₂ rest
        (subst (λ x. OpensAll paths x files' fs₂) (sym left) rest') in
    rw (same, later) refl

OpensAll-not-OpensSome :
    (paths : List CStr) (fs : Files) (files : List File) (fs₁ fs₂ : Files)
    → OpensAll paths fs files fs₁
    → ¬ (OpensSome paths fs fs₂)
OpensAll-not-OpensSome [] fs files fs₁ fs₂ o s = s
OpensAll-not-OpensSome (path ∷ paths) fs [] fs₁ fs₂ o s = o
OpensAll-not-OpensSome (path ∷ paths) fs (f ∷ files) fs₁ fs₂ (next, one, rest) (inl missed) =
    let e = OpensIfValid-unique path (some (codes "r")) fs (some f, next) (none, fs₂) one missed in
    let e' : some f ≡ none = ap (λ r. r.0) e in cc
OpensAll-not-OpensSome (path ∷ paths) fs (f ∷ files) fs₁ fs₂ (next, one, rest)
      (inr (g, next', one', later)) =
    let (same, left) =
      opened_same f g next next'
        (OpensIfValid-unique path (some (codes "r")) fs (some f, next) (some g, next') one one') in
    OpensAll-not-OpensSome paths next files fs₁ fs₂ rest
      (subst (λ x. OpensSome paths x fs₂) (sym left) later)

-- If every request is granted, no argument is NULL, standard output is open, in no file a quote
-- stands next to the same quote, the output file and then all inputs, of which there is one at least, can be
-- opened, and they are configurations of which the blocks have a union, then `main` returns 0, with
-- the text of that union written behind what was written before.
pub main-succeeds :
    (number : ℕ → Bytes) (keys : List Key) (fs fs₁ fs₂ : Files) (out : File) (files : List File)
    (b : Block) (w₀ : World)
    → Plentiful w₀
    → Present (last_output keys (some (codes "-")))
    → AllPresent (positional keys)
    → positional keys ≢ []
    → 0 < fs.open_files
    → Unquoted fs
    → OpensOutput (last_output keys (some (codes "-"))) fs (some out, fs₁)
    → OpensAll (positional keys) fs₁ files fs₂
    → UnionOf (texts files) (some b)
    → (fs' : Files) × (w : World) × (main number keys fs w₀ ≡ done (some (no_err, fs')) w)
      × (w.out ≡ w₀.out ++ render b)
main-succeeds number keys fs fs₁ fs₂ out files b w₀ plentiful outputs inputs some_input open_out
      unquoted o all u =
    concluded (main-MainRuns-Unquoted number keys fs w₀ outputs inputs unquoted open_out)
  where
    Succeeds : Outcome (Option (Error × Files)) → Type 0
    Succeeds r =
        (fs' : Files) × (w : World) × (r ≡ done (some (no_err, fs')) w)
        × (w.out ≡ w₀.out ++ render b)

    settled :
        (cli : Cli) (r : Error × Files) (w : World)
        → cli.args ≡ positional keys
        → Concludes w₀ cli fs (some out, fs₁) r w
        → Succeeds (done (some r) w)
    settled cli r w a (inl (e, s, inl missed)) = cc
    settled cli r w a (inl (e, s, inr (inl starved))) = absurd (starved plentiful)
    settled cli r w a (inl (e, s, inr (inr (inl empty)))) = absurd (some_input (sym a ∙ empty))
    settled cli r w a (inl (e, s, inr (inr (inr (fs₃, missed))))) = absurd (
        OpensAll-not-OpensSome (positional keys) fs₁ files fs₂ fs₃ all
          (subst (λ p. OpensSome p fs₁ fs₃) a missed))
    settled cli (err, fs') w a (inr (x, y, (files', fs₃, all', v, l, m))) =
        let same =
          OpensAll-unique (positional keys) fs₁ files' files fs₃ fs₂
            (subst (λ p. OpensAll p fs₁ files' fs₃) a all') all in
        let (same_error, wrote) =
          Verdict-succeeds (texts files') b w₀ err w plentiful
            (subst (λ x. UnionOf (texts x) (some b)) (sym same) u) v in
        (fs', w, ap (λ e. done (some (e, fs')) w) same_error, wrote)

    concluded :
        {r : Outcome (Option (Error × Files))} → Ends w₀ (MainRuns w₀ keys fs) r → Succeeds r
    concluded (faults starved) = absurd (starved plentiful)
    concluded (returns {a = none} starved) = absurd (starved plentiful)
    concluded (returns {a = some r} {w} (l, (cli, a, p, (out', o', c)))) =
        let same =
          OpensOutput-unique (last_output keys (some (codes "-"))) fs out' (some out, fs₁)
            (subst (λ n. OpensOutput n fs out') p o') o in
        settled cli r w a (subst (λ q. Concludes w₀ cli fs q r w) same c)
