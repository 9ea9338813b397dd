-- ===== src/Configfile/Data.antt =====
-- configloader/configfile.c: the two structures.
use deadline_knapp_verparsed.Base.{ℕ, zero, suc, List, Option, none, some}
use deadline_knapp_verparsed.Runtime.{CStr}

-- struct config_directive
pub record Directive : Type 0 where
  pub name : CStr
  pub args : List CStr

-- struct config_block, with the list of its subblocks
mutual
  pub data Block : Type 0 where
    block : CStr → List CStr → List Directive → Blocks → Block

  pub data Blocks : Type 0 where
    nil : Blocks
    cons : Block → Blocks → Blocks

abbrev pub name_of : Block → CStr
name_of (block name args directives subblocks) = name

abbrev pub args_of : Block → List CStr
args_of (block name args directives subblocks) = args

abbrev pub directives_of : Block → List Directive
directives_of (block name args directives subblocks) = directives

abbrev pub subblocks_of : Block → Blocks
subblocks_of (block name args directives subblocks) = subblocks

abbrev pub count_blocks : Blocks → ℕ
count_blocks nil = 0
count_blocks (cons b bs) = suc (count_blocks bs)

abbrev pub get_block? : Blocks → ℕ → Option Block
get_block? nil i = none
get_block? (cons b bs) zero = some b
get_block? (cons b bs) (suc i) = get_block? bs i

abbrev pub append_block : Blocks → Block → Blocks
append_block nil b = cons b nil
append_block (cons a bs) b = cons a (append_block bs b)
