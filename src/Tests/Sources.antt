-- ===== src/Tests/Sources.antt =====
-- The whole program of configloader/main.c, with files that hold no quotes.
use mathlib.Core.List.Memᴰ
use deadline_knapp_verparsed.Base.{codes, ◌≡◌, refl, arith, inl, some, [], ◌∷◌}
use deadline_knapp_verparsed.Runtime.{World, done}
use deadline_knapp_verparsed.Runtime.Files.{Files, File, standard_out, fopen, existing}
use deadline_knapp_verparsed.Filesystem.Open.{OpensIfValid}
use deadline_knapp_verparsed.Serializer.Render.{render}
use deadline_knapp_verparsed.Merge.Union.{union_list, union_all}
use deadline_knapp_verparsed.Main.Merging.{no_err}
use deadline_knapp_verparsed.Main.Succeeding.{main-succeeds}
use deadline_knapp_verparsed.Tests.{quiet_world}
use deadline_knapp_verparsed.Runtime.Ends.{Ends}
use deadline_knapp_verparsed.Lexer.Texts.{has_empty_quote, is_empty_quote}
use deadline_knapp_verparsed.Main.Program.{main}
use deadline_knapp_verparsed.Main.Whole.{MainRuns}
use deadline_knapp_verparsed.Main.Sources.{Unquoted, main-MainRuns-Unquoted}
use deadline_knapp_verparsed.Tests.FileSystem.{some_files}
use deadline_knapp_verparsed.Tests.Running.{
  listen_main, listen_file-IsConfig, refusing, verbose_run,
}

some_files-Unquoted : Unquoted some_files
unfolding has_empty_quote is_empty_quote
some_files-Unquoted path text e = let same : text ≡ codes "l 8;" = cc in rw same refl

-- The second request is refused.
main-MainRuns-Unquoted_example :
    Ends refusing
      (MainRuns refusing verbose_run some_files)
      (main (λ i. codes "1") verbose_run some_files refusing)
main-MainRuns-Unquoted_example =
    main-MainRuns-Unquoted (λ i. codes "1") verbose_run some_files refusing tt (tt, tt)
      some_files-Unquoted (omega arith)

-- The file of the path `a`.
abbrev input_file : File
input_file = record { path = some (codes "a"); reads = codes "l 8;" }

input_file-OpensIfValid :
    OpensIfValid
      (some (codes "a"))
      (some (codes "r"))
      some_files
      (some input_file, record some_files { open_files = 2 })
unfolding fopen existing
input_file-OpensIfValid =
    inl ((((omega arith, (λ e. omega arith), tt), inl λ e. omega arith), Memᴰ.head refl), refl)

main-succeeds_example :
    (fs' : Files) × (w : World) × (main (λ i. codes "1") verbose_run some_files quiet_world
      ≡ done (some (no_err, fs')) w)
    × (w.out ≡ render listen_main)
unfolding union_list union_all
main-succeeds_example =
    main-succeeds (λ i. codes "1") verbose_run some_files some_files
      (record some_files { open_files = 2 }) standard_out (input_file ∷ []) listen_main quiet_world
      refl tt (tt, tt) (λ e. cc) (omega arith) some_files-Unquoted (inl (refl, refl))
      (record some_files { open_files = 2 }, input_file-OpensIfValid, refl)
      (listen_main ∷ [], (listen_file-IsConfig, tt), refl)
