-- ===== src/Tests/Blocks.antt =====
-- The theorems on blocks and directives, at small examples.
use deadline_knapp_verparsed.Base.{◌+◌, [], ◌∷◌, some, codes, ◌≡◌, refl}
use deadline_knapp_verparsed.Runtime.Ensures.{Steady-refl, Ensures, Obtains, Updates}
use deadline_knapp_verparsed.Configfile.{
  block, nil, config_block_copy, config_block_free, config_block_add_arg, config_directive_copy,
}
use deadline_knapp_verparsed.Configfile.Memory.{size_directive, config_directive_copy-Ensures}
use deadline_knapp_verparsed.Configfile.BlockCopy.{config_block_copy-Ensures}
use deadline_knapp_verparsed.Configfile.BlockMemory.{
  size_block, config_block_free-Ensures, config_block_add_arg-Ensures,
}
use deadline_knapp_verparsed.Tests.{starved_world, with_live, listen, server, main}

config_block_copy-Ensures_example :
    Ensures starved_world
      (Obtains starved_world size_block 0 main)
      (config_block_copy (some main) starved_world)
config_block_copy-Ensures_example =
    config_block_copy-Ensures main 0 (Steady-refl starved_world) refl

config_block_free-Ensures_example :
    Ensures
      (with_live (3 + size_block main))
      (λ _ w'. w'.live ≡ 3)
      (config_block_free (some main) (with_live (3 + size_block main)))
config_block_free-Ensures_example =
    config_block_free-Ensures main 3 (Steady-refl (with_live (3 + size_block main))) refl

config_block_add_arg-Ensures_example :
    Ensures
      (with_live (size_block server))
      (Updates
        (with_live (size_block server))
        size_block
        0
        0
        server
        (block (some (codes "s")) (some (codes "a") ∷ some (codes "b") ∷ []) (listen ∷ []) nil))
      (config_block_add_arg (some server) (some (codes "b")) (with_live (size_block server)))
config_block_add_arg-Ensures_example =
    config_block_add_arg-Ensures (some (codes "s")) (some (codes "a") ∷ []) (listen ∷ []) nil
      (some (codes "b")) 0 (Steady-refl (with_live (size_block server))) refl

config_directive_copy-Ensures_example :
    Ensures starved_world
      (Obtains starved_world size_directive 0 listen)
      (config_directive_copy (some listen) starved_world)
config_directive_copy-Ensures_example =
    config_directive_copy-Ensures listen 0 (Steady-refl starved_world) refl
