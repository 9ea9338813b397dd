-- ===== src/Tests/Running.antt =====
-- The main program of configloader/main.c at examples.
use deadline_knapp_verparsed.Base.{
  true, false, [], ◌∷◌, some, Bytes, codes, ◌≡◌, refl, subst, ap, arith, inl, inr, Option, none,
  sym,
}
use deadline_knapp_verparsed.Runtime.{World}
use deadline_knapp_verparsed.Runtime.Ends.{Ends}
use deadline_knapp_verparsed.Configfile.{Block, block, nil}
use deadline_knapp_verparsed.Configfile.Present.{BlockPresent}
use deadline_knapp_verparsed.Lexer.{
  skip_ws_and_comments, isspace, is_delimiter, plain_token, token_eof, token_semicolon,
}
use deadline_knapp_verparsed.Lexer.Reference.{next_token, token_at, bare, word_of}
use deadline_knapp_verparsed.Parser.Grammar.{word, at_end, statement, argument, directive}
use deadline_knapp_verparsed.Parser.Deterministic.{Contents-deterministic}
use deadline_knapp_verparsed.Parser.Correct.{IsConfig}
use deadline_knapp_verparsed.Main.Merging.{merge_config_files, no_err}
use deadline_knapp_verparsed.Main.Success.{merge_config_files-succeeds}
use deadline_knapp_verparsed.Merge.Union.{union_list, union_all}
use deadline_knapp_verparsed.Serializer.Render.{render}
use deadline_knapp_verparsed.Main.Correct.{Clean, MergesFiles, merge_config_files-MergesFiles}
use deadline_knapp_verparsed.Tests.{quiet_world}
use deadline_knapp_verparsed.Tests.FileSystem.{some_files}
use deadline_knapp_verparsed.Runtime.{done, bind, pure}
use deadline_knapp_verparsed.Runtime.Ensures.{Ensures}
use deadline_knapp_verparsed.Runtime.Files.{Files, File, fopen, existing}
use deadline_knapp_verparsed.Filesystem.Open.{OpensIfValid}
use deadline_knapp_verparsed.Base.{List}
use deadline_knapp_verparsed.Cli.{Key, Cli, key_v, key_o, key_arg, cli_parse, cli_create, cli_free}
use deadline_knapp_verparsed.Cli.Correct.{Parses, cli_parse-Parses, cli_free-cli_create}
use deadline_knapp_verparsed.Main.Program.{run, set_log_lvl, start_up_check}
use deadline_knapp_verparsed.Main.Starting.{started, start_up_check-set_log_lvl}
use deadline_knapp_verparsed.Main.Run.{CleanInputs, Runs, run-Runs}

abbrev pub listen_file : Bytes
listen_file = codes "l 8;"

abbrev pub listen_main : Block
listen_main =
    block (some (codes "main")) []
      (record { name = some (codes "l"); args = some (codes "8") ∷ [] } ∷ []) nil

head_token : next_token listen_file ≡ (word (some (codes "l")), codes "8;")
unfolding next_token token_at bare word_of skip_ws_and_comments isspace is_delimiter
head_token = refl

arg_token : next_token (codes "8;") ≡ (word (some (codes "8")), codes ";")
unfolding next_token token_at bare word_of skip_ws_and_comments isspace is_delimiter
arg_token = refl

semicolon_token : next_token (codes ";") ≡ (plain_token token_semicolon, [])
unfolding next_token token_at bare word_of skip_ws_and_comments isspace is_delimiter
semicolon_token = refl

eof_token : next_token [] ≡ (plain_token token_eof, [])
unfolding next_token token_at bare word_of skip_ws_and_comments isspace is_delimiter
eof_token = refl

pub listen_file-IsConfig : IsConfig listen_file listen_main
listen_file-IsConfig = (
  [],
  statement (codes "l") head_token
      (argument (some (codes "8")) arg_token (directive semicolon_token)) (at_end eof_token),
)

listen_main_BlockPresent : BlockPresent listen_main
listen_main_BlockPresent = (tt, tt, ((tt, (tt, tt)), tt), tt)

-- Two inputs of the same text; the second request is refused.
listen_file-Clean : Clean (listen_file ∷ listen_file ∷ [])
listen_file-Clean = (present, (present, tt))
  where
    present : (b : Block) → IsConfig listen_file b → BlockPresent b
    present b (rest, d) =
        subst BlockPresent (Contents-deterministic listen_file-IsConfig.1 d).0
          listen_main_BlockPresent

abbrev pub refusing : World
refusing = record quiet_world { answers = true ∷ false ∷ [] }

merge_config_files-MergesFiles_example :
    Ends refusing
      (MergesFiles refusing (listen_file ∷ listen_file ∷ []))
      (merge_config_files 2 (some (listen_file ∷ listen_file ∷ [])) refusing)
merge_config_files-MergesFiles_example =
    merge_config_files-MergesFiles (listen_file ∷ listen_file ∷ []) refusing listen_file-Clean

-- One input, and the standard output.
abbrev one_input : Cli
one_input = record {
  has_args = true;
  args = some (codes "a") ∷ [];
  args_alloc = 16;
  verbose = false;
  output_file = some (codes "-");
}

reads_listen :
    (f : File) (next : Files)
    → OpensIfValid (some (codes "a")) (some (codes "r")) some_files (some f, next)
    → f.reads ≡ listen_file
unfolding fopen existing
reads_listen f next (inl (valid, e)) = let same = ap (λ r. file_reads r.0) e in same
  where
    file_reads : Option File → Bytes
    file_reads none = []
    file_reads (some g) = g.reads
reads_listen f next (inr (invalid, e)) = cc

one_input-CleanInputs : CleanInputs one_input some_files
one_input-CleanInputs out files opened (inr (other, h)) all = absurd (other refl)
one_input-CleanInputs out [] opened (inl (same, h)) all = absurd all
one_input-CleanInputs out (f ∷ g ∷ files) opened (inl (same, h)) (next, one, rest) = absurd rest
one_input-CleanInputs out (f ∷ []) opened (inl (same, h)) (next, one, rest) =
    let read = reads_listen f next (
      subst (λ fs. OpensIfValid (some (codes "a")) (some (codes "r")) fs (some f, next))
        (ap (λ r. r.1) h) one) in
    subst (λ t. Clean (t ∷ [])) (sym read) (listen_file-Clean.0, tt)

run-Runs_example :
    Ends refusing (Runs refusing one_input some_files) (run one_input some_files refusing)
run-Runs_example = run-Runs one_input some_files refusing one_input-CleanInputs (omega arith)

-- A full array of one argument, which grows for the second one.
abbrev full : Cli
full = record one_input { args_alloc = 1 }

cli_parse-Parses_example :
    Ensures refusing
      (Parses refusing 0
        (record full { verbose = false; output_file = some (codes "-") })
        (key_v ∷ key_arg (some (codes "b")) ∷ key_o (some (codes "c")) ∷ []))
      (cli_parse (key_v ∷ key_arg (some (codes "b")) ∷ key_o (some (codes "c")) ∷ []) full refusing)
cli_parse-Parses_example =
    cli_parse-Parses (key_v ∷ key_arg (some (codes "b")) ∷ key_o (some (codes "c")) ∷ []) full
      refusing (refl, omega arith)

cli_free-cli_create_example :
    Ensures refusing
      (λ _ w. w.live ≡ 0)
      (bind (cli_create refusing) λ o. elim o [ none ↦ pure tt | some cli ↦ cli_free cli ])
cli_free-cli_create_example = cli_free-cli_create refusing

merge_config_files-succeeds_example :
    (w : World) × (merge_config_files 1 (some (listen_file ∷ [])) quiet_world ≡ done no_err w)
    × (w.out ≡ render listen_main)
    × (w.live ≡ 0)
unfolding union_list union_all
merge_config_files-succeeds_example =
    merge_config_files-succeeds (listen_file ∷ []) listen_main quiet_world refl
      (listen_file-Clean.0, tt) (listen_main ∷ [], (listen_file-IsConfig, tt), refl)

abbrev verbose_cli : Cli
verbose_cli = record one_input { verbose = true }

-- The options `-v a`.
abbrev pub verbose_run : List Key
verbose_run = key_v ∷ key_arg (some (codes "a")) ∷ []

-- With `-v`, at a log level at which nothing was logged before.
start_up_check-set_log_lvl_example :
    bind (set_log_lvl verbose_cli quiet_world) (λ _. start_up_check (λ i. codes "1") verbose_cli)
    ≡ done tt (started (λ i. codes "1") true (codes "-") (codes "a" ∷ []) quiet_world)
start_up_check-set_log_lvl_example =
    start_up_check-set_log_lvl (λ i. codes "1") verbose_cli (codes "-") (codes "a" ∷ []) quiet_world
      refl refl
