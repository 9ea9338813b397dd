-- ===== src/RoundTrip.antt =====
-- What configloader/configfile_serialize.c writes, configloader/configfile_deserialize.c reads back.
pub mod Words
pub mod Printable
pub mod Unions
pub mod Again
use deadline_knapp_verparsed.Base.{
  ℕ, zero, suc, ◌+◌, Bool, true, false, List, [], ◌∷◌, ◌++◌, none, some, Bytes, codes, ◌≡◌, ◌≢◌,
  refl, sym, ap, ◌∙◌, ap, Option, ◌⊎◌, inl, inr, append_assoc, append-nil,
}
use deadline_knapp_verparsed.Runtime.{CStr, World, Outcome, done, success}
use deadline_knapp_verparsed.Runtime.Ensures.{Plentiful, Ensures, holds, faulted}
use deadline_knapp_verparsed.Configfile.{Directive, Block, Blocks, block, nil, cons, append_block}
use deadline_knapp_verparsed.Configfile.BlockMemory.{
  append_blocks, append_blocks-nil, append_blocks-append_block, size_block,
}
use deadline_knapp_verparsed.Lexer.{contents}
use deadline_knapp_verparsed.Lexer.Reference.{next_token}
use deadline_knapp_verparsed.Parser.Correct.{
  IsConfig, Deserializes, config_deserialize-Deserializes,
}
use deadline_knapp_verparsed.Parser.Grammar.{
  Contents, at_end, at_brace, statement, Statement, argument, directive, subblock, word,
  with_directive, with_subblock,
}
use deadline_knapp_verparsed.Parser.Deterministic.{Contents-deterministic}
use deadline_knapp_verparsed.Parser.{config_deserialize}
use deadline_knapp_verparsed.Serializer.{config_serialize}
use deadline_knapp_verparsed.Sysunsafe.{str_equal}
use deadline_knapp_verparsed.Configfile.Present.{
  BlockPresent, BlocksPresent, DirectivesPresent, AllPresent, Present,
}
use deadline_knapp_verparsed.Serializer.Correct.{config_serialize-Returns}
use deadline_knapp_verparsed.Serializer.Render.{
  indentation, arg_text, directive_text, directives_text, space_text, words_text, is_named,
  open_text, close_text, inner_level, block_text, blocks_text, render,
}
use Words.{
  IsPlain, IsWord, after_word, next_token-word_space, next_token-arg_text, next_token-indentation,
  next_token-newline, next_token-semicolon, next_token-lbrace, next_token-rbrace, next_token-nil,
}
use deadline_knapp_verparsed.RoundTrip.Printable.{
  AllWords, DirectivesWords, IsPrintable, ArePrintable, IsMain, render-IsConfig,
}

-- A deserializer that has every request granted returns what the grammar gives.
Deserializes-returns :
    {w₀ : World} {s : Bytes} {b : Block} {r : Outcome (Option Block)}
    → Plentiful w₀
    → IsConfig s b
    → Ensures w₀ (Deserializes w₀ w₀.live s) r
    → (w : World) × (r ≡ done (some b) w) × (w.live ≡ w₀.live + size_block b)
Deserializes-returns p c (faulted starved) = absurd (starved p)
Deserializes-returns p c (holds {a = none} st (e, inl starved)) = absurd (starved p)
Deserializes-returns p c (holds {a = none} st (e, inr no_config)) = absurd (no_config _ c)
Deserializes-returns p c (holds {a = some b'} st (e, c')) =
    rw ((Contents-deterministic c.1 c'.1).0) (_, refl, e)

word-Present : (a : CStr) → IsWord a → Present a
word-Present none h = absurd h
word-Present (some t) h = tt

words-AllPresent : (args : List CStr) → AllWords args → AllPresent args
words-AllPresent [] h = tt
words-AllPresent (a ∷ args) h = (word-Present a h.0, words-AllPresent args h.1)

directives-Present : (ds : List Directive) → DirectivesWords ds → DirectivesPresent ds
directives-Present [] h = tt
directives-Present (d ∷ ds) h =
    ((word-Present d.name h.0.0, words-AllPresent d.args h.0.1), directives-Present ds h.1)

mutual
  block-Present : (b : Block) → IsPrintable b → BlockPresent b
  block-Present (block name args ds bs) h = (
    word-Present name h.0,
    words-AllPresent args h.2,
    directives-Present ds h.3,
    blocks-Present bs h.4,
  )

  blocks-Present : (bs : Blocks) → ArePrintable bs → BlocksPresent bs
  blocks-Present nil h = tt
  blocks-Present (cons b bs) h = (block-Present b h.0, blocks-Present bs h.1)

pub main-Present : (b : Block) → IsMain b → BlockPresent b
main-Present (block name args ds bs) (is_main, no_args, hs, ks) =
    rw (is_main, no_args) (tt, tt, directives-Present ds hs, blocks-Present bs ks)

-- A main block that is written with bare words only, and of whose subblocks none is named `main`,
-- is written by `config_serialize` to an empty output stream such that `config_deserialize`, on
-- what was written and with every request of its own run granted, returns that block, and
-- exactly the allocations that belong to it stay behind.
pub config_deserialize-config_serialize :
    (b : Block) (w v : World)
    → IsMain b
    → w.out ≡ []
    → Plentiful v
    → (w' : World) × (v' : World) × (config_serialize b w ≡ done success w')
      × (config_deserialize (some w'.out) v ≡ done (some b) v')
      × (v'.live ≡ v.live + size_block b)
config_deserialize-config_serialize b w v h e p =
    let (w', wrote, o, c, l₀, same_answers, same_level) =
      config_serialize-Returns b w (main-Present b h) in
    let o' : w'.out ≡ render b = o ∙ ap (λ t. t ++ render b) e in
    let (v', read, l) =
      Deserializes-returns p (render-IsConfig b h) (config_deserialize-Deserializes (render b) v) in
    (w', v', wrote, rw o' read, l)
