-- ===== src/Tests/Merges.antt =====
-- The theorems on merging and on equality, at small examples.
use deadline_knapp_verparsed.Base.{[], ◌∷◌, none, some, codes, ◌≡◌}
use deadline_knapp_verparsed.Runtime.{done}
use deadline_knapp_verparsed.Runtime.Ensures.{Ensures}
use deadline_knapp_verparsed.Configfile.{Directive}
use deadline_knapp_verparsed.Merge.{DirEqual, directive_equals, block_equals, config_merge}
use deadline_knapp_verparsed.Merge.Compare.{
  Compares, Decides, directive_equals-Compares, block_equals-Decides,
}
use deadline_knapp_verparsed.Merge.{config_merge_n, config_merge_multi}
use deadline_knapp_verparsed.Merge.Union.{union, union_list}
use deadline_knapp_verparsed.Merge.Several.{config_merge_n-MergesTo, config_merge_multi-MergesTo}
use deadline_knapp_verparsed.Merge.Lifetime.{MergesTo, config_merge-MergesTo}
use deadline_knapp_verparsed.Tests.{
  quiet_world, starved_world, listen, server, main, main_BlockPresent,
}

config_merge-MergesTo_example :
    Ensures starved_world
      (MergesTo starved_world (union main main))
      (config_merge (some main) (some main) starved_world)
config_merge-MergesTo_example =
    config_merge-MergesTo main main starved_world main_BlockPresent main_BlockPresent

abbrev listen_other : Directive
listen_other = record { name = some (codes "l"); args = some (codes "9") ∷ [] }

directive_equals-Compares_example :
    (r : DirEqual) × (directive_equals listen listen_other quiet_world ≡ done r quiet_world)
    × Compares listen listen_other r
directive_equals-Compares_example =
    directive_equals-Compares listen listen_other quiet_world tt (tt, tt) tt (tt, tt)

block_equals-Decides_example :
    Decides
      ((some (codes "s") ≡ some (codes "main")) × (some (codes "a") ∷ [] ≡ []))
      quiet_world
      (block_equals server main quiet_world)
block_equals-Decides_example = block_equals-Decides server main quiet_world tt (tt, tt) tt tt

config_merge_n-MergesTo_example :
    Ensures starved_world
      (MergesTo starved_world (union_list (some main ∷ none ∷ some main ∷ [])))
      (config_merge_n (some main ∷ none ∷ some main ∷ []) starved_world)
config_merge_n-MergesTo_example =
    config_merge_n-MergesTo (some main ∷ none ∷ some main ∷ []) starved_world
      (main_BlockPresent, (main_BlockPresent, tt))

config_merge_multi-MergesTo_example :
    Ensures starved_world
      (MergesTo starved_world (union_list (some main ∷ some main ∷ [])))
      (config_merge_multi (some main) (some main ∷ none ∷ []) starved_world)
config_merge_multi-MergesTo_example =
    config_merge_multi-MergesTo (some main) (some main ∷ none ∷ []) starved_world
      (main_BlockPresent, (main_BlockPresent, tt))
