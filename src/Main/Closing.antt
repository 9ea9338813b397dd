-- ===== src/Main/Closing.antt =====
-- configloader/main.c: every stream that is opened is closed again.
use deadline_knapp_verparsed.Base.{
  ℕ, suc, ◌+◌, ◌≤◌, true, List, [], ◌∷◌, ◌++◌, append_assoc, append-nil, sym, length, Option, none,
  some, codes, ◌≡◌, refl, ap, ◌∙◌, inl, inr, arith,
}
use deadline_knapp_verparsed.Runtime.{World, Outcome, done, bind, CStr, free}
use deadline_knapp_verparsed.Runtime.Files.{Files, File, standard_out}
use deadline_knapp_verparsed.Runtime.Leaves.{Kept-refl, Leaves, leaves, Leaves-bind, Leaves-map}
use deadline_knapp_verparsed.Filesystem.Open.{filesystem_close-Closes}
use deadline_knapp_verparsed.Main.Program.{close_inputs, close_input_files_and_free}
use deadline_knapp_verparsed.Main.Opening.{OpensAll, OpensOutput}
use deadline_knapp_verparsed.Filesystem.Counts.{OpensIfValid-CountsUp, OpensIfValid-ClosesNone}

pub OpensAll-open_files :
    (paths : List CStr) (fs : Files) (files : List File) (fs' : Files)
    → OpensAll paths fs files fs'
    → (fs'.open_files ≡ fs.open_files + length files) × (length paths ≡ length files)
OpensAll-open_files [] fs [] fs' h = (ap (λ x. x.open_files) h ∙ omega arith, refl)
OpensAll-open_files [] fs (f ∷ files) fs' h = absurd h
OpensAll-open_files (path ∷ paths) fs [] fs' h = absurd h
OpensAll-open_files (path ∷ paths) fs (f ∷ files) fs' (next, one, rest) =
    let up = OpensIfValid-CountsUp path (some (codes "r")) fs (some f, next) one in
    let more = OpensAll-open_files paths next files fs' rest in
    (omega (arith, up, more.0), ap (λ n. suc n) more.1)

unchanged :
    (fs : Files) (g : Option File) (r : Option File × Files)
    → r ≡ (g, fs)
    → (fs.open_files ≤ r.1.open_files) × (r.1.open_files ≤ fs.open_files + 1)
unchanged fs g r h = let e = ap (λ r'. r'.1.open_files) h in (omega (arith, e), omega (arith, e))

-- Standard output is open before, and nothing is opened for it.
pub OpensOutput-open_files :
    (name : CStr) (fs : Files) (f : Option File) (fs' : Files)
    → OpensOutput name fs (f, fs')
    → (fs.open_files ≤ fs'.open_files) × (fs'.open_files ≤ fs.open_files + 1)
OpensOutput-open_files none fs f fs' h = unchanged fs none (f, fs') h
OpensOutput-open_files (some []) fs f fs' h = unchanged fs none (f, fs') h
OpensOutput-open_files (some (c ∷ name)) fs f fs' (inl (same, h)) =
    unchanged fs (some standard_out) (f, fs') h
OpensOutput-open_files (some (c ∷ name)) fs none fs' (inr (other, h)) =
    let up = OpensIfValid-CountsUp (some (c ∷ name)) (some (codes "w")) fs (none, fs') h in
    (omega (arith, up), omega (arith, up))
OpensOutput-open_files (some (c ∷ name)) fs (some f) fs' (inr (other, h)) =
    let up = OpensIfValid-CountsUp (some (c ∷ name)) (some (codes "w")) fs (some f, fs') h in
    (omega (arith, up), omega (arith, up))

-- Opening the files closes none.
pub OpensAll-ClosesNone :
    (paths : List CStr) (fs : Files) (files : List File) (fs' : Files)
    → OpensAll paths fs files fs'
    → fs'.closed_streams ≡ fs.closed_streams
OpensAll-ClosesNone [] fs [] fs' h = ap (λ x. x.closed_streams) h
OpensAll-ClosesNone [] fs (f ∷ files) fs' h = absurd h
OpensAll-ClosesNone (path ∷ paths) fs [] fs' h = absurd h
OpensAll-ClosesNone (path ∷ paths) fs (f ∷ files) fs' (next, one, rest) =
    OpensAll-ClosesNone paths next files fs' rest
    ∙ OpensIfValid-ClosesNone path (some (codes "r")) fs (some f, next) one

pub OpensOutput-ClosesNone :
    (name : CStr) (fs : Files) (f : Option File) (fs' : Files)
    → OpensOutput name fs (f, fs')
    → fs'.closed_streams ≡ fs.closed_streams
OpensOutput-ClosesNone none fs f fs' h = ap (λ r. r.1.closed_streams) h
OpensOutput-ClosesNone (some []) fs f fs' h = ap (λ r. r.1.closed_streams) h
OpensOutput-ClosesNone (some (c ∷ name)) fs f fs' (inl (same, h)) = ap (λ r. r.1.closed_streams) h
OpensOutput-ClosesNone (some (c ∷ name)) fs f fs' (inr (other, h)) =
    OpensIfValid-ClosesNone (some (c ∷ name)) (some (codes "w")) fs (f, fs') h

-- These streams are closed, in this order and no others.
abbrev pub ClosesAll : List File → Files → Files → Type 0
ClosesAll files fs fs' =
    (fs'.open_files + length files ≡ fs.open_files)
    × (fs'.closed_streams ≡ fs.closed_streams ++ files)

close_inputs-ClosesAll :
    (files : List File) (fs : Files) (w : World)
    → length files ≤ fs.open_files
    → Leaves w (ClosesAll files fs) (close_inputs files fs w)
unfolding close_inputs
close_inputs-ClosesAll [] fs w h =
    leaves (Kept-refl w) (omega arith, sym (append-nil fs.closed_streams))
close_inputs-ClosesAll (f ∷ files) fs w h =
    Leaves-bind (filesystem_close-Closes (some f) fs w (omega (arith, h))) λ r w₁ p.
      Leaves-map (close_inputs-ClosesAll files r.1 w₁ (omega (arith, h, p.0))) λ fs' q. (
        omega (arith, q.0, p.0),
        q.1 ∙ ap (λ t. t ++ files) p.1 ∙ append_assoc fs.closed_streams (f ∷ []) files,
      )

free_done : (n : ℕ) (w : World) → w.live ≡ n + 1 → free true w ≡ done tt (record w { live = n })
unfolding free
free_done n w e = let e' : w.live ≡ suc n = omega (arith, e) in rw e' refl

-- The streams are closed, and their array is freed.
pub close_input_files_and_free-ClosesAll :
    (files : List File) (fs : Files) (w : World) (n : ℕ)
    → length files ≤ fs.open_files
    → w.live ≡ n + 1
    → (w' : World) × (fs' : Files) × (close_input_files_and_free (some files) fs w ≡ done fs' w')
      × ClosesAll files fs fs'
      × (w'.live ≡ n)
      × (w'.out ≡ w.out)
unfolding close_input_files_and_free
close_input_files_and_free-ClosesAll files fs w n h e = freed (close_inputs-ClosesAll files fs w h)
  where
    freed :
        {r : Outcome Files}
        → Leaves w (ClosesAll files fs) r
        → (w' : World) × (fs' : Files) × (bind r (λ fs₁ w₁. bind (free true w₁) λ _ w₂. done fs₁ w₂)
            ≡ done fs' w')
          × ClosesAll files fs fs'
          × (w'.live ≡ n)
          × (w'.out ≡ w.out)
    freed (leaves {a = fs₁} {w' = w₁} k p) = (
      record w₁ { live = n },
      fs₁,
      rw (free_done n w₁ (k.live_kept ∙ e)) refl,
      p,
      refl,
      k.out_kept,
    )
