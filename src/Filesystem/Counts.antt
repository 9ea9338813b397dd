-- ===== src/Filesystem/Counts.antt =====
-- configloader/filesystem.c: how many streams are open, and which ones were closed.
use deadline_knapp_verparsed.Base.{
  ◌+◌, Bool, true, false, [], ◌∷◌, Option, none, some, Bytes, ◌≡◌, refl, sym, inl, inr, subst,
  arith, ◌==◌, if◌then◌else◌,
}
use deadline_knapp_verparsed.Runtime.{CStr}
use deadline_knapp_verparsed.Runtime.Files.{Files, File, fopen, existing, appended}
use deadline_knapp_verparsed.Filesystem.Open.{OpensIfValid, try_open}

-- One more stream is open exactly if there is a result.
abbrev pub CountsUp : Files → Option File × Files → Type 0
CountsUp fs (none, fs') = fs'.open_files ≡ fs.open_files
CountsUp fs (some f, fs') = fs'.open_files ≡ fs.open_files + 1

CountsUp-if :
    (fs : Files) (b : Bool) (x y : Option File × Files)
    → CountsUp fs x
    → CountsUp fs y
    → CountsUp fs (if b then x else y)
CountsUp-if fs true x y h k = h
CountsUp-if fs false x y h k = k

existing-CountsUp :
    (path : Bytes) (text : Option Bytes) (fs : Files) → CountsUp fs (existing path text fs)
unfolding existing
existing-CountsUp path none fs = refl
existing-CountsUp path (some text) fs = omega arith

appended-CountsUp :
    (path : Bytes) (text : Option Bytes) (fs : Files) → CountsUp fs (appended path text fs)
unfolding appended
appended-CountsUp path none fs = omega arith
appended-CountsUp path (some text) fs = omega arith

fopen-CountsUp : (path mode : Bytes) (fs : Files) → CountsUp fs (fopen path mode fs)
unfolding fopen
fopen-CountsUp path [] fs = refl
fopen-CountsUp path (c ∷ mode) fs = CountsUp-if fs (fs.denied path (c ∷ mode)) _ _ refl (
    CountsUp-if fs (c == b'r') _ _ (existing-CountsUp path (fs.contents path) fs) (
      CountsUp-if fs (c == b'w') _ _ (omega arith)
        (CountsUp-if fs (c == b'a') _ _ (appended-CountsUp path (fs.contents path) fs) refl)))

try_open-CountsUp : (path mode : CStr) (fs : Files) → CountsUp fs (try_open path mode fs)
try_open-CountsUp none mode fs = refl
try_open-CountsUp (some path) none fs = refl
try_open-CountsUp (some path) (some mode) fs = fopen-CountsUp path mode fs

pub OpensIfValid-CountsUp :
    (path mode : CStr) (fs : Files) (r : Option File × Files)
    → OpensIfValid path mode fs r
    → CountsUp fs r
OpensIfValid-CountsUp path mode fs r (inl (valid, e)) =
    subst (CountsUp fs) (sym e) (try_open-CountsUp path mode fs)
OpensIfValid-CountsUp path mode fs r (inr (invalid, e)) = subst (CountsUp fs) (sym e) refl

-- Opening closes nothing.
abbrev pub ClosesNone : Files → Option File × Files → Type 0
ClosesNone fs r = r.1.closed_streams ≡ fs.closed_streams

ClosesNone-if :
    (fs : Files) (b : Bool) (x y : Option File × Files)
    → ClosesNone fs x
    → ClosesNone fs y
    → ClosesNone fs (if b then x else y)
ClosesNone-if fs true x y h k = h
ClosesNone-if fs false x y h k = k

existing-ClosesNone :
    (path : Bytes) (text : Option Bytes) (fs : Files) → ClosesNone fs (existing path text fs)
unfolding existing
existing-ClosesNone path none fs = refl
existing-ClosesNone path (some text) fs = refl

appended-ClosesNone :
    (path : Bytes) (text : Option Bytes) (fs : Files) → ClosesNone fs (appended path text fs)
unfolding appended
appended-ClosesNone path none fs = refl
appended-ClosesNone path (some text) fs = refl

fopen-ClosesNone : (path mode : Bytes) (fs : Files) → ClosesNone fs (fopen path mode fs)
unfolding fopen
fopen-ClosesNone path [] fs = refl
fopen-ClosesNone path (c ∷ mode) fs = ClosesNone-if fs (fs.denied path (c ∷ mode)) _ _ refl (
    ClosesNone-if fs (c == b'r') _ _ (existing-ClosesNone path (fs.contents path) fs) (
      ClosesNone-if fs (c == b'w') _ _ refl
        (ClosesNone-if fs (c == b'a') _ _ (appended-ClosesNone path (fs.contents path) fs) refl)))

try_open-ClosesNone : (path mode : CStr) (fs : Files) → ClosesNone fs (try_open path mode fs)
try_open-ClosesNone none mode fs = refl
try_open-ClosesNone (some path) none fs = refl
try_open-ClosesNone (some path) (some mode) fs = fopen-ClosesNone path mode fs

pub OpensIfValid-ClosesNone :
    (path mode : CStr) (fs : Files) (r : Option File × Files)
    → OpensIfValid path mode fs r
    → ClosesNone fs r
OpensIfValid-ClosesNone path mode fs r (inl (valid, e)) =
    subst (ClosesNone fs) (sym e) (try_open-ClosesNone path mode fs)
OpensIfValid-ClosesNone path mode fs r (inr (invalid, e)) = subst (ClosesNone fs) (sym e) refl
