-- ===== src/Tests.antt =====
-- Runs of the definitions on small inputs, and the theorems at such inputs.
mod Runs
mod Blocks
mod Merges
mod Merging
mod Building
mod Merged
mod Running
mod Sources
mod FileSystem
mod Parsing
mod Pipe
mod Again
use deadline_knapp_verparsed.Base.{
  ℕ, ◌+◌, ◌<◌, Bool, true, false, List, [], ◌∷◌, Option, none, some, Bytes, codes, ◌≡◌, ◌≢◌, refl,
  arith, ◌++◌, ◌==◌,
}
use deadline_knapp_verparsed.Runtime.{
  World, CStr, Outcome, done, bind, success, malloc, free, realloc,
}
use deadline_knapp_verparsed.Runtime.Ensures.{Plentiful, Steady-refl, Ensures, Obtains, Updates}
use deadline_knapp_verparsed.Logger.{log_lvl_visibility}
use deadline_knapp_verparsed.Printer.{cfg_fprintf}
use deadline_knapp_verparsed.Configfile.{
  Directive, Block, block, nil, cons, config_block_copy, config_block_free, config_block_add_arg,
  config_block_add_directive, config_block_add_subblock, config_directive_copy,
  config_directive_free, config_directive_add_arg, config_block_get_directive,
  config_block_get_directive_count, config_block_get_subblock, config_block_get_subblock_count,
}
use deadline_knapp_verparsed.Configfile.Memory.{
  size_directive, config_directive_copy-Ensures, config_directive_free-Ensures,
  config_directive_add_arg-Ensures,
}
use deadline_knapp_verparsed.Configfile.BlockCopy.{config_block_copy-Ensures}
use deadline_knapp_verparsed.Configfile.BlockMemory.{
  size_block, config_block_free-Ensures, config_block_add_arg-Ensures,
}
use deadline_knapp_verparsed.Configfile.Access.{AddsEntry}
use deadline_knapp_verparsed.Lexer.{lex_token, isspace, is_delimiter}
use deadline_knapp_verparsed.Lexer.Reference.{next_token}
use deadline_knapp_verparsed.Lexer.Agrees.{Reads, lex_token-Reads}
use deadline_knapp_verparsed.Parser.{config_deserialize}
use deadline_knapp_verparsed.Parser.Correct.{Deserializes, config_deserialize-Deserializes}
use deadline_knapp_verparsed.Parser.Lifetime.{config_deserialize-config_block_free}
use deadline_knapp_verparsed.Serializer.{config_serialize}
use deadline_knapp_verparsed.Serializer.Render.{render, block_names, echoes, block_text}
use deadline_knapp_verparsed.Serializer.Correct.{Returns, config_serialize-Returns}
use deadline_knapp_verparsed.Sysunsafe.{
  sys_unsafe_sanitize_run, sys_unsafe_whitelist_run, disallow_meta_chars, sys_safe_commands,
  str_equal, echo_command, sys_unsafe_log_level_string,
}
use deadline_knapp_verparsed.Sysunsafe.Guards.{
  Avoids, RunsOnlyIf, sys_unsafe_sanitize_run-RunsOnlyIf, sys_unsafe_whitelist_run-RunsOnlyIf,
  echo_command-whole,
}
use deadline_knapp_verparsed.RoundTrip.{config_deserialize-config_serialize}
use deadline_knapp_verparsed.RoundTrip.Printable.{IsMain}
use deadline_knapp_verparsed.RoundTrip.Words.{IsWord}
use mathlib.Core.List.{Memᴰ}
use deadline_knapp_verparsed.Merge.{DirEqual, directive_equals, block_equals, config_merge}
use deadline_knapp_verparsed.Merge.Compare.{
  Compares, Decides, directive_equals-Compares, block_equals-Decides,
}
use deadline_knapp_verparsed.Merge.{config_merge_n, config_merge_multi}
use deadline_knapp_verparsed.Merge.Union.{union, union_list}
use deadline_knapp_verparsed.Merge.Several.{config_merge_n-MergesTo, config_merge_multi-MergesTo}
use deadline_knapp_verparsed.Merge.Lifetime.{MergesTo, config_merge-MergesTo}
use deadline_knapp_verparsed.Configfile.Present.{BlockPresent}
use deadline_knapp_verparsed.Configfile.{name_of, args_of}

-- Every request is granted, and the log level is the one that the program begins with.
abbrev pub quiet_world : World
quiet_world = record {
  answers = [];
  live = 0;
  visibility = log_lvl_visibility;
  err = [];
  commands = [];
  out = [];
  printed = [];
}

-- The third request is refused, and every message is logged.
abbrev pub starved_world : World
starved_world = record {
  answers = true ∷ true ∷ false ∷ [];
  live = 0;
  visibility = 0;
  err = [];
  commands = [];
  out = [];
  printed = [];
}

abbrev pub with_live : ℕ → World
with_live n = record quiet_world { live = n }

abbrev pub listen : Directive
listen = record { name = some (codes "l"); args = some (codes "8") ∷ [] }

abbrev pub server : Block
server = block (some (codes "s")) (some (codes "a") ∷ []) (listen ∷ []) nil

abbrev pub main : Block
main = block (some (codes "main")) [] (listen ∷ []) (cons server nil)

abbrev main_text : Bytes
main_text = codes "l 8;\n\ns a {\n    l 8;\n\n}\n"

main_rendered : render main ≡ main_text
unfolding render block_text str_equal
main_rendered = refl

pub one_byte :
    (c : ℕ) → isspace c ≡ false → is_delimiter c ≡ false → (c == 0) ≡ false → IsWord (some (c ∷ []))
one_byte c space delimiter nul = (λ e. cc, (space, delimiter, nul, tt))

pub main-IsMain : IsMain main
unfolding isspace is_delimiter str_equal
main-IsMain =
    let l = one_byte b'l' refl refl refl in
    let eight = one_byte b'8' refl refl refl in
    let s = one_byte b's' refl refl refl in
    let a = one_byte b'a' refl refl refl in
    (refl, refl, ((l, (eight, tt)), tt), ((s, refl, (a, tt), ((l, (eight, tt)), tt), tt), tt))

config_deserialize-config_serialize_example :
    (w' : World) × (v' : World) × (config_serialize main quiet_world ≡ done success w')
    × (config_deserialize (some w'.out) (with_live 5) ≡ done (some main) v')
    × (v'.live ≡ 5 + size_block main)
config_deserialize-config_serialize_example =
    config_deserialize-config_serialize main quiet_world (with_live 5) main-IsMain refl refl

config_deserialize-Deserializes_example :
    Ensures starved_world
      (Deserializes starved_world 0 main_text)
      (config_deserialize (some main_text) starved_world)
config_deserialize-Deserializes_example = config_deserialize-Deserializes main_text starved_world

abbrev pub main_BlockPresent : BlockPresent main
main_BlockPresent = (tt, tt, ((tt, (tt, tt)), tt), ((tt, (tt, tt), ((tt, (tt, tt)), tt), tt), tt))

config_serialize-Returns_example :
    Returns starved_world success
      (render main)
      (echoes 0 (block_names main))
      (config_serialize main starved_world)
config_serialize-Returns_example = config_serialize-Returns main starved_world main_BlockPresent

lex_token-Reads_example :
    Ensures starved_world (Reads starved_world 0 main_text) (lex_token main_text starved_world)
lex_token-Reads_example = lex_token-Reads main_text 0 (Steady-refl starved_world) refl

config_deserialize-config_block_free_example :
    Ensures starved_world
      (λ _ w'. w'.live ≡ 0)
      (bind (config_deserialize (some main_text) starved_world) λ r w'. config_block_free r w')
config_deserialize-config_block_free_example =
    config_deserialize-config_block_free main_text starved_world

sys_unsafe_sanitize_run-RunsOnlyIf_example :
    RunsOnlyIf
      (Avoids (codes "ls; rm x") disallow_meta_chars)
      (codes "ls; rm x")
      quiet_world
      (sys_unsafe_sanitize_run (codes "ls; rm x") quiet_world)
sys_unsafe_sanitize_run-RunsOnlyIf_example =
    sys_unsafe_sanitize_run-RunsOnlyIf (codes "ls; rm x") quiet_world

sys_unsafe_whitelist_run-RunsOnlyIf_example :
    RunsOnlyIf
      (Memᴰ (codes "date") sys_safe_commands)
      (codes "date")
      quiet_world
      (sys_unsafe_whitelist_run (codes "date") quiet_world)
sys_unsafe_whitelist_run-RunsOnlyIf_example =
    sys_unsafe_whitelist_run-RunsOnlyIf (codes "date") quiet_world

echo_command-whole_example :
    echo_command 0 (codes "main")
    ≡ codes "echo [" ++ (sys_unsafe_log_level_string 0 ++ codes "] main >&2")
echo_command-whole_example = echo_command-whole 0 (codes "main") (omega arith)
