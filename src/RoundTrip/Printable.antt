-- ===== src/RoundTrip/Printable.antt =====
-- Blocks of bare words, and their texts as configurations.
use deadline_knapp_verparsed.Base.{
  ℕ, ◌+◌, Bool, true, List, [], ◌∷◌, ◌++◌, none, some, Bytes, codes, ◌≡◌, ◌∙◌, append_assoc,
  append-nil,
}
use deadline_knapp_verparsed.Runtime.{CStr}
use deadline_knapp_verparsed.Configfile.{Directive, Block, Blocks, block, nil, cons, append_block}
use deadline_knapp_verparsed.Configfile.BlockMemory.{
  append_blocks, append_blocks-nil, append_blocks-append_block,
}
use deadline_knapp_verparsed.Lexer.Reference.{next_token}
use deadline_knapp_verparsed.Parser.Correct.{IsConfig}
use deadline_knapp_verparsed.Parser.Grammar.{
  Contents, at_end, at_brace, statement, Statement, argument, directive, subblock, with_directive,
  with_subblock,
}
use deadline_knapp_verparsed.Sysunsafe.{str_equal}
use deadline_knapp_verparsed.Serializer.Render.{
  directive_text, directives_text, space_text, words_text, is_named, block_text, blocks_text,
  render,
}
use deadline_knapp_verparsed.RoundTrip.Words.{
  IsWord, after_word, next_token-word_space, next_token-arg_text, next_token-indentation,
  next_token-newline, next_token-semicolon, next_token-lbrace, next_token-rbrace, next_token-nil,
}

-- Contents are read off a stream by its first token.
Contents-same_token :
    {e : Bool} {b c : Block} {s s' u : Bytes}
    → next_token s ≡ next_token s'
    → Contents e b s' c u
    → Contents e b s c u
Contents-same_token p (at_end h) = at_end (p ∙ h)
Contents-same_token p (at_brace h) = at_brace (p ∙ h)
Contents-same_token p (statement head h x y) = statement head (p ∙ h) x y

-- Every argument is one bare word.
abbrev pub AllWords : List CStr → Type 0
AllWords [] = Unit
AllWords (a ∷ args) = IsWord a × AllWords args

abbrev pub DirectivesWords : List Directive → Type 0
DirectivesWords [] = Unit
DirectivesWords (d ∷ ds) = (IsWord d.name × AllWords d.args) × DirectivesWords ds

-- Blocks in which every name and argument is one bare word, and no name is `main`.
abbrev mutual
  pub IsPrintable : Block → Type 0
  IsPrintable (block name args ds bs) =
      IsWord name × (is_named name ≡ true) × AllWords args × DirectivesWords ds × ArePrintable bs

  pub ArePrintable : Blocks → Type 0
  ArePrintable nil = Unit
  ArePrintable (cons b bs) = IsPrintable b × ArePrintable bs

args-Statement :
    (args : List CStr) (head : Bytes) (pre : List CStr) (b : Block) (rest : Bytes)
    → AllWords args
    → Statement head pre b
        (after_word args rest)
        (with_directive b (record { name = some head; args = pre ++ args }))
        (b'\n' ∷ rest)
args-Statement [] head pre b rest h = rw append-nil (directive (next_token-semicolon _))
args-Statement (none ∷ args) head pre b rest h = absurd h.0
args-Statement (some t ∷ args) head pre b rest h =
    argument (some t) (next_token-arg_text t args rest h.0) (
      rw (append_assoc pre (some t ∷ []) args) at
        (args-Statement args head (pre ++ some t ∷ []) b rest h.1))

directive-Contents :
    {e : Bool} {c : Block} {u : Bytes} (name : CStr) (args : List CStr) (level : ℕ) (b : Block)
    (rest : Bytes)
    → IsWord name
    → AllWords args
    → Contents e (with_directive b (record { name = name; args = args })) rest c u
    → Contents e b (directive_text level (record { name = name; args = args }) rest) c u
directive-Contents none args level b rest h hs x = absurd h
directive-Contents (some t) args level b rest h hs x =
    statement t (next_token-indentation level _ ∙ next_token-arg_text t args rest h)
      (args-Statement args t [] b rest hs) (Contents-same_token (next_token-newline rest) x)

directives-Contents :
    {e : Bool} {c : Block} {u : Bytes} (more : List Directive) (level : ℕ) (name : CStr)
    (args : List CStr) (ds : List Directive) (bs : Blocks) (rest : Bytes)
    → DirectivesWords more
    → Contents e (block name args (ds ++ more) bs) rest c u
    → Contents e (block name args ds bs) (directives_text level more rest) c u
directives-Contents [] level name args ds bs rest h x = rw append-nil at x
directives-Contents (d ∷ more) level name args ds bs rest h x =
    directive-Contents d.name d.args level (block name args ds bs) _ h.0.0 h.0.1 (
      directives-Contents more level name args (ds ++ d ∷ []) bs rest h.1
        (rw (← append_assoc ds (d ∷ []) more) at x))

space-Contents :
    {e : Bool} {b c : Block} {u : Bytes} (ds : List Directive) (rest : Bytes)
    → Contents e b rest c u
    → Contents e b (space_text ds rest) c u
space-Contents [] rest x = x
space-Contents (d ∷ ds) rest x = Contents-same_token (next_token-newline rest) x

-- The arguments of a block, up to and with its opening brace.
header-Statement :
    (args : List CStr) (head : Bytes) (pre : List CStr) (b sub : Block) (inner u : Bytes)
    → AllWords args
    → Contents true (block (some head) (pre ++ args) [] nil) inner sub u
    → Statement head pre b (words_text args (b'{' ∷ b'\n' ∷ inner)) (with_subblock b sub) u
header-Statement [] head pre b sub inner u h x =
    subblock (next_token-lbrace _)
      (Contents-same_token (next_token-newline inner) (rw append-nil at x))
header-Statement (none ∷ args) head pre b sub inner u h x = absurd h.0
header-Statement (some t ∷ args) head pre b sub inner u h x =
    argument (some t) (next_token-word_space t _ h.0) (
      header-Statement args head (pre ++ some t ∷ []) b sub inner u h.1
        (rw (← append_assoc pre (some t ∷ []) args) at x))

mutual
  unfolding block_text

  block-Contents :
      {e : Bool} {c : Block} {u : Bytes} (b : Block) (level : ℕ) (outer : Block) (rest : Bytes)
      → IsPrintable b
      → Contents e (with_subblock outer b) rest c u
      → Contents e outer (block_text level b rest) c u
  block-Contents (block none args ds bs) level outer rest h x = absurd h.0
  block-Contents (block (some head) args ds bs) level outer rest h x = rw h.1 (
      statement head (next_token-indentation level _ ∙ next_token-word_space head _ h.0)
        (header-Statement args head [] outer (block (some head) args ds bs) _ _ h.2 (
          directives-Contents ds (level + 1) (some head) args [] nil _ h.3 (
            space-Contents ds _ (
              blocks-Contents bs (level + 1) (some head) args ds nil _ h.4
                (at_brace (next_token-indentation level _ ∙ next_token-rbrace (b'\n' ∷ rest)))))))
        (Contents-same_token (next_token-newline rest) x))

  blocks-Contents :
      {e : Bool} {c : Block} {u : Bytes} (more : Blocks) (level : ℕ) (name : CStr)
      (args : List CStr) (ds : List Directive) (bs : Blocks) (rest : Bytes)
      → ArePrintable more
      → Contents e (block name args ds (append_blocks bs more)) rest c u
      → Contents e (block name args ds bs) (blocks_text level more rest) c u
  blocks-Contents nil level name args ds bs rest h x = rw append_blocks-nil at x
  blocks-Contents (cons b more) level name args ds bs rest h x =
      block-Contents b level (block name args ds bs) _ h.0 (
        blocks-Contents more level name args ds (append_block bs b) rest h.1
          (rw (← append_blocks-append_block bs more b) at x))

-- A main block whose directives and subblocks are written with bare words only, and of whose
-- subblocks none, at any depth, is named `main`.
abbrev pub IsMain : Block → Type 0
IsMain (block name args ds bs) =
    (name ≡ some (codes "main")) × (args ≡ []) × DirectivesWords ds × ArePrintable bs

-- The text of such a block is a configuration file for it.
pub render-IsConfig : (b : Block) → IsMain b → IsConfig (render b) b
unfolding render block_text str_equal
render-IsConfig (block name args ds bs) (is_main, no_args, hs, ks) =
    let main = some (codes "main") in
    rw (is_main, no_args)
      (
        [],
        directives-Contents ds 0 main [] [] nil _ hs (
            space-Contents ds _
              (blocks-Contents bs 0 main [] ds nil [] ks (at_end next_token-nil))),
      )
