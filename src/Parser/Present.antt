-- ===== src/Parser/Present.antt =====
-- Where no quote of a stream stands next to the same quote, a block that the parser reads has no
-- NULL string.
use deadline_knapp_verparsed.Base.{
  Bool, List, Option, none, some, Bytes, ◌≡◌, ◌≢◌, refl, subst, false,
}
use deadline_knapp_verparsed.Runtime.{World, CStr}
use deadline_knapp_verparsed.Runtime.Ensures.{Ensures, Ensures-map}
use deadline_knapp_verparsed.Configfile.{Directive, Block, block}
use deadline_knapp_verparsed.Configfile.Present.{
  Present, AllPresent, BlockPresent, AllPresent-append, DirectivesPresent-append,
  BlocksPresent-append_block,
}
use deadline_knapp_verparsed.Lexer.{Token}
use deadline_knapp_verparsed.Lexer.Reference.{next_token}
use deadline_knapp_verparsed.Lexer.Texts.{
  has_empty_quote, has_empty_quote-false, NoEmptyQuotes, HasText, next_token-HasText,
}
use deadline_knapp_verparsed.Parser.{config_deserialize}
use deadline_knapp_verparsed.Parser.Correct.{
  IsConfig, Deserializes, config_deserialize-Deserializes,
}
use deadline_knapp_verparsed.Parser.Grammar.{
  Contents, at_end, at_brace, statement, Statement, argument, directive, subblock, word,
  with_directive, with_subblock,
}

-- What is known of a token that is read off such a stream.
read : (s : Bytes) {r : Token × Bytes} → NoEmptyQuotes s → next_token s ≡ r → HasText r
read s h e = subst HasText e (next_token-HasText _ h)

word-Present : (a : CStr) → word a ≢ word none → Present a
word-Present none h = h refl
word-Present (some t) h = tt

with_directive-Present :
    (b : Block) (d : Directive)
    → BlockPresent b
    → Present d.name × AllPresent d.args
    → BlockPresent (with_directive b d)
with_directive-Present (block name args ds bs) d h k =
    (h.0, h.1, DirectivesPresent-append ds d h.2 k, h.3)

with_subblock-Present :
    (b sub : Block) → BlockPresent b → BlockPresent sub → BlockPresent (with_subblock b sub)
with_subblock-Present (block name args ds bs) sub h k =
    (h.0, h.1, h.2, BlocksPresent-append_block bs sub h.3 k)

mutual
  Contents-Present :
      {e : Bool} {b b' : Block} {s s' : Bytes}
      → Contents e b s b' s'
      → NoEmptyQuotes s
      → BlockPresent b
      → BlockPresent b' × NoEmptyQuotes s'
  Contents-Present (at_end h) n k = (k, (read _ n h).1)
  Contents-Present (at_brace h) n k = (k, (read _ n h).1)
  Contents-Present (statement head h x y) n k =
      let (k', n') = Statement-Present x (read _ n h).1 tt k in Contents-Present y n' k'

  Statement-Present :
      {head : Bytes} {args : List CStr} {b b' : Block} {s s' : Bytes}
      → Statement head args b s b' s'
      → NoEmptyQuotes s
      → AllPresent args
      → BlockPresent b
      → BlockPresent b' × NoEmptyQuotes s'
  Statement-Present {args} (argument a h x) n l k =
      let r = read _ n h in
      Statement-Present x r.1 (AllPresent-append args a l (word-Present a r.0)) k
  Statement-Present {b} (directive h) n l k = (with_directive-Present b _ k (tt, l), (read _ n h).1)
  Statement-Present {b} (subblock {sub} h x) n l k =
      let (k', n') = Contents-Present x (read _ n h).1 (tt, l, tt, tt) in
      (with_subblock-Present b sub k k', n')

pub IsConfig-BlockPresent :
    (s : Bytes) (b : Block) → NoEmptyQuotes s → IsConfig s b → BlockPresent b
IsConfig-BlockPresent s b n (rest, d) = (Contents-Present d n (tt, tt, tt, tt)).0

-- For every stream in which no quote stands next to the same quote, and for every allocator, a
-- block that `config_deserialize` returns has no NULL string, at any depth.
pub config_deserialize-BlockPresent :
    (s : Bytes) (w : World)
    → has_empty_quote s ≡ false
    → Ensures w (λ r _. (b : Block) → r ≡ some b → BlockPresent b) (config_deserialize (some s) w)
config_deserialize-BlockPresent s w n = Ensures-map (config_deserialize-Deserializes s w) present
  where
    present :
        (r : Option Block) (w' : World)
        → Deserializes w w.live s r w'
        → (b : Block) → r ≡ some b
        → BlockPresent b
    present none w' h b e = cc
    present (some c) w' h b e =
        let same : c ≡ b = cc in
        IsConfig-BlockPresent s b (has_empty_quote-false s n) (rw same at h.1)
