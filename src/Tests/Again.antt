-- ===== src/Tests/Again.antt =====
-- The theorems on repeated merging and on streams without empty quotes, at small inputs.
use mathlib.Core.Option
use native.Mathlib.Decide.{ℕ_discrete}
use deadline_knapp_verparsed.Base.{[], ◌∷◌, some, Bytes, codes, ◌≡◌, refl}
use deadline_knapp_verparsed.Runtime.{World, done}
use deadline_knapp_verparsed.Runtime.Ensures.{Ensures}
use deadline_knapp_verparsed.Configfile.{Directive, Block, block, nil, cons}
use deadline_knapp_verparsed.Configfile.Present.{BlockPresent}
use deadline_knapp_verparsed.Lexer.{isspace, is_delimiter}
use deadline_knapp_verparsed.Lexer.Texts.{has_empty_quote, is_empty_quote}
use deadline_knapp_verparsed.Parser.{config_deserialize}
use deadline_knapp_verparsed.Parser.Correct.{IsConfig}
use deadline_knapp_verparsed.Parser.Present.{config_deserialize-BlockPresent}
use deadline_knapp_verparsed.Serializer.Render.{render}
use deadline_knapp_verparsed.Merge.Union.{
  CStr-discrete, Key-discrete, args_discrete, add_directive, index_from, lookup_args, union,
  union_all, union_directives, union_list, union_other, unmatched, update_block,
}
use deadline_knapp_verparsed.Main.Merging.{no_err, merge_config_files}
use deadline_knapp_verparsed.RoundTrip.Printable.{IsMain, render-IsConfig}
use deadline_knapp_verparsed.RoundTrip.Again.{merge_config_files-merge_config_files}
use deadline_knapp_verparsed.Tests.{
  main, main-IsMain, one_byte, server, listen, quiet_world, starved_world,
}

abbrev user : Directive
user = record { name = some (codes "u"); args = [] }

abbrev user_main : Block
user_main = block (some (codes "main")) [] (user ∷ []) nil

user_main-IsMain : IsMain user_main
unfolding isspace is_delimiter
user_main-IsMain = (refl, refl, ((one_byte b'u' refl refl refl, tt), tt), tt)

abbrev both_main : Block
both_main = block (some (codes "main")) [] (listen ∷ user ∷ []) (cons server nil)

merge_config_files-merge_config_files_example :
    (w' : World) × (v' : World) × (merge_config_files 2
        (some (render main ∷ render user_main ∷ []))
        quiet_world
      ≡ done no_err w')
    × IsConfig w'.out both_main
    × (merge_config_files 1 (some (w'.out ∷ [])) quiet_world ≡ done no_err v')
    × (v'.out ≡ w'.out)
    × (v'.live ≡ 0)
unfolding union_list union_all union_other union union_directives add_directive lookup_args
    index_from unmatched update_block Option.bind CStr-discrete Key-discrete args_discrete
    ℕ_discrete
merge_config_files-merge_config_files_example =
    merge_config_files-merge_config_files (render main ∷ render user_main ∷ [])
      (main ∷ user_main ∷ []) both_main quiet_world quiet_world
      (main-IsMain, (user_main-IsMain, tt))
      (render-IsConfig main main-IsMain, (render-IsConfig user_main user_main-IsMain, tt)) refl refl
      refl refl

-- Quotes and an escape, and no two quotes next to each other.
abbrev quoted_text : Bytes
quoted_text = codes "a \"b c\" 'd';"

config_deserialize-BlockPresent_example :
    Ensures starved_world
      (λ r _. (b : Block) → r ≡ some b → BlockPresent b)
      (config_deserialize (some quoted_text) starved_world)
unfolding has_empty_quote is_empty_quote
config_deserialize-BlockPresent_example =
    config_deserialize-BlockPresent quoted_text starved_world refl
