-- ===== src/Runtime/Files.antt =====
-- The C library's `fopen` and `fclose`, as far as the program relies on them, over a file system
-- that is passed beside the World.
use deadline_knapp_verparsed.Base.{
  ℕ, zero, suc, Bool, true, false, ◌||◌, List, [], ◌∷◌, ◌++◌, Option, none, some, Bytes, leb, ◌==◌,
  if◌then◌else◌,
}
use deadline_knapp_verparsed.Runtime.{M, crash, done}

abbrev pub same_text : Bytes → Bytes → Bool
same_text [] [] = true
same_text (c ∷ s) (d ∷ t) = if c == d then same_text s t else false
same_text _ _ = false

-- A `FILE*` that is not NULL: stdout, or the stream of a path, with the text that it reads as.
pub record File : Type 0 where
  pub path : Option Bytes
  pub reads : Bytes

-- `contents` is what the file of a path holds, if there is one. `denied` tells for a path and a
-- mode whether the system refuses to open the file. `close_fails` are the answers to the coming
-- calls of `fclose`; after the last of them every call succeeds. `open_files` counts the streams
-- that are open, and `closed_streams` are those that `fclose` was called with, in order.
-- `pointer_text` is what `%p` prints for the stream of a path or of stdout. A file is known by its
-- path, so two paths of one file are two files here.
pub record Files : Type 0 where
  pub contents : Bytes → Option Bytes
  pub denied : Bytes → Bytes → Bool
  pub close_fails : List Bool
  pub open_files : ℕ
  pub closed_streams : List File
  pub pointer_text : Option Bytes → Bytes

abbrev pub standard_out : File
standard_out = record { path = none; reads = [] }

abbrev pub put_contents : Files → Bytes → Bytes → Bytes → Option Bytes
put_contents fs path text p = if same_text p path then some text else fs.contents p

abbrev pub opened : Bytes → Bytes → Files → Option File × Files
opened path text fs =
    (some (record { path = some path; reads = text }), record fs { open_files = suc fs.open_files })

unfoldable pub existing : Bytes → Option Bytes → Files → Option File × Files
existing path none fs = (none, fs)
existing path (some text) fs = opened path text fs

unfoldable pub appended : Bytes → Option Bytes → Files → Option File × Files
appended path none fs = opened path [] (record fs { contents = put_contents fs path [] })
appended path (some text) fs = opened path text fs

-- A mode that begins with `r` wants the file to be there, `w` truncates it, and `a` creates it if
-- it is missing.
unfoldable pub fopen : Bytes → Bytes → Files → Option File × Files
unfolding existing appended
fopen path [] fs = (none, fs)
fopen path (c ∷ mode) fs =
    if fs.denied path (c ∷ mode)
    then (none, fs)
    else if c == b'r'
    then existing path (fs.contents path) fs
    else if c == b'w'
    then opened path [] (record fs { contents = put_contents fs path [] })
    else if c == b'a'
    then appended path (fs.contents path) fs
    else (none, fs)

abbrev pub next_close : List Bool → Bool × List Bool
next_close [] = (false, [])
next_close (fails ∷ later) = (fails, later)

unfoldable pub closed : ℕ → File → Files → M (Bool × Files)
closed zero f fs w = crash w
closed (suc n) f fs w =
    done
      (
        (next_close fs.close_fails).0,
        record fs {
          open_files = n;
          close_fails = (next_close fs.close_fails).1;
          closed_streams = fs.closed_streams ++ f ∷ [];
        },
      )
      w

-- `fclose(f) == EOF`; the stream is closed in either case. With no stream open it is a fault.
unfoldable pub fclose : File → Files → M (Bool × Files)
unfolding closed
fclose f fs = closed fs.open_files f fs

-- `iscntrl` in the C locale.
unfoldable pub iscntrl : ℕ → Bool
iscntrl c = leb c 31 || c == 127
