-- ===== src/Tests/Building.antt =====
-- The convenience functions of configloader/configfile_easy.c at examples.
use deadline_knapp_verparsed.Base.{true, false, ◌+◌, List, [], ◌∷◌, none, some, codes, ◌≡◌, refl}
use deadline_knapp_verparsed.Runtime.{World, CStr}
use deadline_knapp_verparsed.Configfile.{block, nil, cons}
use deadline_knapp_verparsed.Configfile.BlockMemory.{size_block}
use deadline_knapp_verparsed.Easy.{
  cfgf_easy_add_directive, cfgf_easy_add_directive_args, cfgf_easy_add_subblock_args,
  cfgf_easy_add_subblock,
}
use deadline_knapp_verparsed.Runtime.Ends.{Ends}
use deadline_knapp_verparsed.Easy.Endings.{Adds}
use deadline_knapp_verparsed.Easy.Correct.{
  cfgf_easy_add_directive-Adds, cfgf_easy_add_directive_args-Adds, cfgf_easy_add_subblock_args-Adds,
  cfgf_easy_add_subblock_args-cfgf_easy_add_subblock,
}
use deadline_knapp_verparsed.Tests.{main, listen, server, quiet_world}

-- The third request is refused; two allocations are there beside the block.
abbrev scarce : World
scarce = record quiet_world { answers = true ∷ true ∷ false ∷ []; live = 2 + size_block main }

abbrev port : CStr
port = some (codes "p")

abbrev two_args : List CStr
two_args = some (codes "1") ∷ none ∷ some (codes "2") ∷ []

cfgf_easy_add_directive-Adds_example :
    Ends scarce
      (Adds scarce 2 port
        (record { name = port; args = [] })
        main
        (block
          (some (codes "main"))
          []
          (listen ∷ record { name = port; args = [] } ∷ [])
          (cons server nil)))
      (cfgf_easy_add_directive (some main) port scarce)
cfgf_easy_add_directive-Adds_example =
    cfgf_easy_add_directive-Adds (some (codes "main")) [] (listen ∷ []) (cons server nil) port 2
      scarce refl

cfgf_easy_add_directive_args-Adds_example :
    Ends scarce
      (Adds scarce 2 port
        (record { name = port; args = some (codes "1") ∷ [] })
        main
        (block
          (some (codes "main"))
          []
          (listen ∷ record { name = port; args = some (codes "1") ∷ [] } ∷ [])
          (cons server nil)))
      (cfgf_easy_add_directive_args (some main) port two_args scarce)
cfgf_easy_add_directive_args-Adds_example =
    cfgf_easy_add_directive_args-Adds (some (codes "main")) [] (listen ∷ []) (cons server nil) port
      two_args 2 scarce refl

cfgf_easy_add_subblock_args-Adds_example :
    Ends scarce
      (Adds scarce 2 port (block port (some (codes "1") ∷ []) [] nil) main (
        block
          (some (codes "main"))
          []
          (listen ∷ [])
          (cons server (cons (block port (some (codes "1") ∷ []) [] nil) nil))))
      (cfgf_easy_add_subblock_args (some main) port two_args scarce)
cfgf_easy_add_subblock_args-Adds_example =
    cfgf_easy_add_subblock_args-Adds (some (codes "main")) [] (listen ∷ []) (cons server nil) port
      two_args 2 scarce refl

cfgf_easy_add_subblock_args-cfgf_easy_add_subblock_example :
    cfgf_easy_add_subblock_args (some main) port (none ∷ two_args) scarce
    ≡ cfgf_easy_add_subblock (some main) port scarce
cfgf_easy_add_subblock_args-cfgf_easy_add_subblock_example =
    cfgf_easy_add_subblock_args-cfgf_easy_add_subblock (some main) port two_args scarce
