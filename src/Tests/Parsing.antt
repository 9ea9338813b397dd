-- ===== src/Tests/Parsing.antt =====
-- The theorems on the parser at small streams.
use deadline_knapp_verparsed.Base.{false, [], Bytes, codes, ◌≡◌, ◌≢◌, some, arith, suc, length}
use deadline_knapp_verparsed.Runtime.{out_of_fuel, World}
use deadline_knapp_verparsed.Configfile.{Block, block, nil}
use deadline_knapp_verparsed.Parser.{parse_contents}
use deadline_knapp_verparsed.Parser.Fuel.{parse_contents-enough_fuel}
use deadline_knapp_verparsed.Tests.{starved_world}

abbrev empty_main : Block
empty_main = block (some (codes "main")) [] [] nil

abbrev directive_text : Bytes
directive_text = codes "a {b c;}"

abbrev starved_later : World
starved_later = record starved_world { live = 2 }

parse_contents-enough_fuel_example :
    (parse_contents 40 false (some empty_main) directive_text starved_later
      ≡ parse_contents
          (suc (length directive_text))
          false
          (some empty_main)
          directive_text
          starved_later)
    × (parse_contents 40 false (some empty_main) directive_text starved_later ≢ out_of_fuel)
parse_contents-enough_fuel_example =
    parse_contents-enough_fuel 40 false empty_main directive_text starved_later (omega arith)
      (omega arith)
