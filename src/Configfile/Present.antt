-- ===== src/Configfile/Present.antt =====
-- Strings, directives and blocks without a NULL string.
use deadline_knapp_verparsed.Base.{List, [], ◌∷◌, ◌++◌, none, some}
use deadline_knapp_verparsed.Runtime.{CStr}
use deadline_knapp_verparsed.Configfile.Data.{
  Directive, Block, Blocks, block, nil, cons, append_block,
}

-- Not NULL, for a string, an array of strings, a directive and a block.
abbrev pub Present : CStr → Type 0
Present none = ⊥
Present (some t) = Unit

abbrev pub AllPresent : List CStr → Type 0
AllPresent [] = Unit
AllPresent (a ∷ args) = Present a × AllPresent args

abbrev pub DirectivesPresent : List Directive → Type 0
DirectivesPresent [] = Unit
DirectivesPresent (d ∷ ds) = (Present d.name × AllPresent d.args) × DirectivesPresent ds

abbrev mutual
  pub BlockPresent : Block → Type 0
  BlockPresent (block name args ds bs) =
      Present name × AllPresent args × DirectivesPresent ds × BlocksPresent bs

  pub BlocksPresent : Blocks → Type 0
  BlocksPresent nil = Unit
  BlocksPresent (cons b bs) = BlockPresent b × BlocksPresent bs

pub AllPresent-append :
    (args : List CStr) (a : CStr) → AllPresent args → Present a → AllPresent (args ++ a ∷ [])
AllPresent-append [] a h k = (k, tt)
AllPresent-append (c ∷ args) a h k = (h.0, AllPresent-append args a h.1 k)

pub DirectivesPresent-append :
    (ds : List Directive) (d : Directive)
    → DirectivesPresent ds
    → Present d.name × AllPresent d.args
    → DirectivesPresent (ds ++ d ∷ [])
DirectivesPresent-append [] d h k = (k, tt)
DirectivesPresent-append (d' ∷ ds) d h k = (h.0, DirectivesPresent-append ds d h.1 k)

pub BlocksPresent-append_block :
    (bs : Blocks) (b : Block)
    → BlocksPresent bs
    → BlockPresent b
    → BlocksPresent (append_block bs b)
BlocksPresent-append_block nil b h k = (k, tt)
BlocksPresent-append_block (cons a bs) b h k = (h.0, BlocksPresent-append_block bs b h.1 k)
