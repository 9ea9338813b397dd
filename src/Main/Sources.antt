-- ===== src/Main/Sources.antt =====
-- configloader/main.c with files in which no quote stands next to the same quote, so that no block
-- that is read has a NULL string.
use deadline_knapp_verparsed.Base.{
  ℕ, ◌<◌, false, List, [], ◌∷◌, Option, none, some, Bytes, codes, ◌≡◌, refl, sym, subst, inl, inr,
  Bool-cases, ◌==◌,
}
use deadline_knapp_verparsed.Runtime.{World, CStr}
use deadline_knapp_verparsed.Runtime.Ends.{Ends}
use deadline_knapp_verparsed.Runtime.Files.{
  Files, File, same_text, put_contents, existing, appended, fopen,
}
use deadline_knapp_verparsed.Configfile.Present.{Present, AllPresent}
use deadline_knapp_verparsed.Lexer.Texts.{has_empty_quote, has_empty_quote-false}
use deadline_knapp_verparsed.Parser.Present.{IsConfig-BlockPresent}
use deadline_knapp_verparsed.Filesystem.Open.{OpensIfValid, try_open}
use deadline_knapp_verparsed.Cli.{Key, Cli}
use deadline_knapp_verparsed.Cli.Correct.{positional, last_output}
use deadline_knapp_verparsed.Main.Program.{texts, main}
use deadline_knapp_verparsed.Main.Correct.{Clean}
use deadline_knapp_verparsed.Main.Opening.{OpensOutput, OpensAll}
use deadline_knapp_verparsed.Main.Run.{CleanInputs}
use deadline_knapp_verparsed.Main.Whole.{MainRuns, main-MainRuns}

-- No file has a quote next to the same quote.
abbrev pub Unquoted : Files → Type 0
Unquoted fs = (path text : Bytes) → fs.contents path ≡ some text → has_empty_quote text ≡ false

-- The same of what is left by opening a file, and of the file.
abbrev OpenedUnquoted : Option File × Files → Type 0
OpenedUnquoted (none, fs) = Unquoted fs
OpenedUnquoted (some f, fs) = (has_empty_quote f.reads ≡ false) × Unquoted fs

no_quote : has_empty_quote [] ≡ false
unfolding has_empty_quote
no_quote = refl

put-Unquoted :
    (fs : Files) (path : Bytes)
    → Unquoted fs
    → Unquoted (record fs { contents = put_contents fs path [] })
put-Unquoted fs path h p text e = elim (Bool-cases (same_text p path)) [
  | inl same ↦
      let e' : some [] ≡ some text = rw same at e in let empty : text ≡ [] = cc in rw empty no_quote
  | inr other ↦ h p text (rw other at e)
]

existing-Unquoted :
    (path : Bytes) (o : Option Bytes) (fs : Files)
    → ((text : Bytes) → o ≡ some text → has_empty_quote text ≡ false)
    → Unquoted fs
    → OpenedUnquoted (existing path o fs)
unfolding existing
existing-Unquoted path none fs k h = h
existing-Unquoted path (some text) fs k h = (k text refl, h)

appended-Unquoted :
    (path : Bytes) (o : Option Bytes) (fs : Files)
    → ((text : Bytes) → o ≡ some text → has_empty_quote text ≡ false)
    → Unquoted fs
    → OpenedUnquoted (appended path o fs)
unfolding appended
appended-Unquoted path none fs k h = (no_quote, put-Unquoted fs path h)
appended-Unquoted path (some text) fs k h = (k text refl, h)

fopen-Unquoted :
    (path mode : Bytes) (fs : Files) → Unquoted fs → OpenedUnquoted (fopen path mode fs)
unfolding fopen
fopen-Unquoted path [] fs h = h
fopen-Unquoted path (c ∷ mode) fs h = elim (Bool-cases (fs.denied path (c ∷ mode))) [
  | inl refused ↦ rw (OpenedUnquoted, refused) h
  | inr allowed ↦
      rw (OpenedUnquoted, allowed)
        (elim (Bool-cases (c == b'r')) [
          | inl read ↦
              rw (OpenedUnquoted, read) (existing-Unquoted path (fs.contents path) fs (h path) h)
          | inr read' ↦
              rw (OpenedUnquoted, read')
                (elim (Bool-cases (c == b'w')) [
                  | inl write ↦ rw (OpenedUnquoted, write) (no_quote, put-Unquoted fs path h)
                  | inr write' ↦
                      rw (OpenedUnquoted, write')
                        (elim (Bool-cases (c == b'a')) [
                          | inl append ↦
                              rw (OpenedUnquoted, append)
                                (appended-Unquoted path (fs.contents path) fs (h path) h)
                          | inr append' ↦ rw (OpenedUnquoted, append') h
                        ])
                ])
        ])
]

try_open-Unquoted :
    (path mode : CStr) (fs : Files) → Unquoted fs → OpenedUnquoted (try_open path mode fs)
try_open-Unquoted (some path) (some mode) fs h = fopen-Unquoted path mode fs h
try_open-Unquoted none mode fs h = h
try_open-Unquoted (some path) none fs h = h

OpensIfValid-Unquoted :
    (path mode : CStr) (fs : Files) (r : Option File × Files)
    → OpensIfValid path mode fs r
    → Unquoted fs
    → OpenedUnquoted r
OpensIfValid-Unquoted path mode fs r (inl (valid, e)) h =
    subst OpenedUnquoted (sym e) (try_open-Unquoted path mode fs h)
OpensIfValid-Unquoted path mode fs r (inr (invalid, e)) h = subst OpenedUnquoted (sym e) h

OpensAll-Clean :
    (paths : List CStr) (fs : Files) (files : List File) (fs' : Files)
    → OpensAll paths fs files fs'
    → Unquoted fs
    → Clean (texts files)
OpensAll-Clean [] fs [] fs' o h = tt
OpensAll-Clean [] fs (f ∷ files) fs' o h = absurd o
OpensAll-Clean (path ∷ paths) fs [] fs' o h = absurd o
OpensAll-Clean (path ∷ paths) fs (f ∷ files) fs' (next, one, rest) h =
    let (fine, left) = OpensIfValid-Unquoted path (some (codes "r")) fs (some f, next) one h in
    (
      λ b d. IsConfig-BlockPresent f.reads b (has_empty_quote-false f.reads fine) d,
      OpensAll-Clean paths next files fs' rest left,
    )

left-Unquoted : (r : Option File × Files) → OpenedUnquoted r → Unquoted r.1
left-Unquoted (none, fs) h = h
left-Unquoted (some f, fs) h = h.1

OpensOutput-Unquoted :
    (name : CStr) (fs : Files) (r : Option File × Files)
    → OpensOutput name fs r
    → Unquoted fs
    → Unquoted r.1
OpensOutput-Unquoted none fs r o h = subst (λ q. Unquoted q.1) (sym o) h
OpensOutput-Unquoted (some []) fs r o h = subst (λ q. Unquoted q.1) (sym o) h
OpensOutput-Unquoted (some (c ∷ name)) fs r (inl (same, o)) h = subst (λ q. Unquoted q.1) (sym o) h
OpensOutput-Unquoted (some (c ∷ name)) fs r (inr (other, o)) h =
    left-Unquoted r (OpensIfValid-Unquoted (some (c ∷ name)) (some (codes "w")) fs r o h)

Unquoted-CleanInputs : (cli : Cli) (fs : Files) → Unquoted fs → CleanInputs cli fs
Unquoted-CleanInputs cli fs h out files opened o all =
    OpensAll-Clean cli.args out.1 files opened all (OpensOutput-Unquoted cli.output_file fs out o h)

-- If no argument is NULL, standard output is open, and in no file a quote stands next to the same
-- quote, then for every allocator and any calls that argp makes of its options the program ends, and
-- faults or ends early in `argp_usage` only after a refused request. Otherwise two allocations are
-- left, those of the options. Either it returns FILE_OPEN_ERR and writes nothing, only where the
-- output file can not be opened, there is no input, an input can not be opened, or a request was
-- refused; or all files are opened, with the positional arguments as inputs, and what it returns and
-- writes is what `merge_config_files` makes of their contents.
pub main-MainRuns-Unquoted :
    (number : ℕ → Bytes) (keys : List Key) (fs : Files) (w₀ : World)
    → Present (last_output keys (some (codes "-")))
    → AllPresent (positional keys)
    → Unquoted fs
    → 0 < fs.open_files
    → Ends w₀ (MainRuns w₀ keys fs) (main number keys fs w₀)
main-MainRuns-Unquoted number keys fs w₀ outputs inputs h open_out =
    main-MainRuns number keys fs w₀ outputs inputs (λ cli a o. Unquoted-CleanInputs cli fs h)
      open_out
