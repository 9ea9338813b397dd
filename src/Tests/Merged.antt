-- ===== src/Tests/Merged.antt =====
-- What the merge of configloader/configfile_merge.c keeps, at an example.
use mathlib.Core.Option
use native.Mathlib.Decide.{ℕ_discrete}
use deadline_knapp_verparsed.Base.{List, [], ◌∷◌, some, codes, ◌≡◌, refl}
use deadline_knapp_verparsed.Runtime.{CStr}
use deadline_knapp_verparsed.Runtime.Ensures.{Ensures}
use deadline_knapp_verparsed.Configfile.{Block, block, nil, cons}
use deadline_knapp_verparsed.Configfile.Present.{BlockPresent}
use deadline_knapp_verparsed.Merge.{config_merge}
use deadline_knapp_verparsed.Merge.Directives.{args_for, or_else, config_merge-args_for}
use deadline_knapp_verparsed.Merge.Find.{find_block, find_block-nil}
use deadline_knapp_verparsed.Merge.Paths.{value_at, config_merge-value_at}
use deadline_knapp_verparsed.Merge.Union.{Key, CStr-discrete, Key-discrete, lookup_args}
use deadline_knapp_verparsed.Tests.{main, server, quiet_world}

abbrev only_user : Block
only_user = block (some (codes "s")) [] (record { name = some (codes "u"); args = [] } ∷ []) nil

abbrev server_BlockPresent : BlockPresent server
server_BlockPresent = (tt, (tt, tt), ((tt, (tt, tt)), tt), tt)

abbrev only_user_BlockPresent : BlockPresent only_user
only_user_BlockPresent = (tt, tt, ((tt, tt), tt), tt)

config_merge-args_for_example :
    Ensures quiet_world
      (λ r _.
        (b : Block)
        → r ≡ some b
        → (name : CStr)
        → args_for b name ≡ or_else (args_for server name) (args_for only_user name))
      (config_merge (some server) (some only_user) quiet_world)
config_merge-args_for_example =
    config_merge-args_for server only_user quiet_world server_BlockPresent only_user_BlockPresent

-- Two main blocks with a subblock of the same name and arguments.
abbrev user_server : Block
user_server =
    block (some (codes "s")) (some (codes "a") ∷ [])
      (record { name = some (codes "u"); args = [] } ∷ []) nil

abbrev user_main : Block
user_main = block (some (codes "main")) [] [] (cons user_server nil)

main-BlockPresent : BlockPresent main
main-BlockPresent = (tt, tt, ((tt, (tt, tt)), tt), (server_BlockPresent, tt))

user_main-BlockPresent : BlockPresent user_main
user_main-BlockPresent = (tt, tt, tt, ((tt, (tt, tt), ((tt, tt), tt), tt), tt))

config_merge-value_at_example :
    Ensures quiet_world
      (λ r _.
        (b : Block)
        → r ≡ some b
        → (path : List Key) (name : CStr)
        → value_at path name b ≡ or_else (value_at path name main) (value_at path name user_main))
      (config_merge (some main) (some user_main) quiet_world)
config_merge-value_at_example =
    config_merge-value_at main user_main quiet_world main-BlockPresent user_main-BlockPresent
      (tt, find_block-nil _, tt)

-- The directive of the second block's subblock is found by its path.
value_at-run :
    value_at ((some (codes "s"), some (codes "a") ∷ []) ∷ []) (some (codes "u")) user_main ≡ some []
unfolding value_at find_block lookup_args Option.bind Key-discrete CStr-discrete ℕ_discrete
value_at-run = refl
