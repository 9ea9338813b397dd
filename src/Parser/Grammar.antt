-- ===== src/Parser/Grammar.antt =====
-- The grammar of configuration files over the reference lexer: which blocks a stream stands for.
use mathlib.Core.Bool.{false≢true}
use deadline_knapp_verparsed.Base.{
  Bool, true, false, not, List, [], ◌∷◌, ◌++◌, some, Bytes, ◌≡◌, sym, ◌∙◌, is_some,
}
use deadline_knapp_verparsed.Runtime.{CStr}
use deadline_knapp_verparsed.Configfile.{Directive, Block, block, nil, append_block}
use deadline_knapp_verparsed.Lexer.{
  TokenKind, Token, token_eof, token_word, token_lbrace, token_rbrace, token_semicolon, plain_token,
}
use deadline_knapp_verparsed.Lexer.Reference.{next_token}

abbrev pub word : CStr → Token
word t = record { kind = token_word; lexeme = t }

abbrev pub with_directive : Block → Directive → Block
with_directive (block name args ds bs) d = block name args (ds ++ d ∷ []) bs

abbrev pub with_subblock : Block → Block → Block
with_subblock (block name args ds bs) b = block name args ds (append_block bs b)

mutual
  -- `Contents e b s b' s'`: the statements at the front of the stream `s` turn the block `b` into
  -- `b'` and leave the stream `s'`; they end with a closing brace if `e`, and else with the stream.
  pub data Contents : Bool → Block → Bytes → Block → Bytes → Type 0 where
    at_end :
        {b : Block} {s s' : Bytes}
        → next_token s ≡ (plain_token token_eof, s')
        → Contents false b s b s'
    at_brace :
        {b : Block} {s s' : Bytes}
        → next_token s ≡ (plain_token token_rbrace, s')
        → Contents true b s b s'
    statement :
        {e : Bool} {b b' b'' : Block} {s s₁ s₂ s₃ : Bytes} (head : Bytes)
        → next_token s ≡ (word (some head), s₁)
        → Statement head [] b s₁ b' s₂
        → Contents e b' s₂ b'' s₃
        → Contents e b s b'' s₃

  -- `Statement head args b s b' s'`: the rest `s` of a statement, of which the first word and
  -- some arguments have been read.
  pub data Statement : Bytes → List CStr → Block → Bytes → Block → Bytes → Type 0 where
    argument :
        {head : Bytes} {args : List CStr} {b b' : Block} {s s₁ s₂ : Bytes} (a : CStr)
        → next_token s ≡ (word a, s₁)
        → Statement head (args ++ a ∷ []) b s₁ b' s₂
        → Statement head args b s b' s₂
    directive :
        {head : Bytes} {args : List CStr} {b : Block} {s s₁ : Bytes}
        → next_token s ≡ (plain_token token_semicolon, s₁)
        → Statement head args b s (with_directive b (record { name = some head; args = args })) s₁
    subblock :
        {head : Bytes} {args : List CStr} {b sub : Block} {s s₁ s₂ : Bytes}
        → next_token s ≡ (plain_token token_lbrace, s₁)
        → Contents true (block (some head) args [] nil) s₁ sub s₂
        → Statement head args b s (with_subblock b sub) s₂

-- The tokens that contents can begin with, and those that a statement can go on with.
begins_kind : Bool → CStr → TokenKind → Bool
begins_kind e a token_eof = not e
begins_kind e a token_rbrace = e
begins_kind e a token_word = is_some a
begins_kind e a _ = false

unfoldable pub begins : Bool → Token → Bool
unfolding begins_kind
begins e tok = begins_kind e tok.lexeme tok.kind

continues_kind : TokenKind → Bool
continues_kind token_word = true
continues_kind token_semicolon = true
continues_kind token_lbrace = true
continues_kind _ = false

unfoldable pub continues : Token → Bool
unfolding continues_kind
continues tok = continues_kind tok.kind

Contents-begins :
    {e : Bool} {b b' : Block} {s s' : Bytes}
    → Contents e b s b' s'
    → begins e (next_token s).0 ≡ true
unfolding begins
Contents-begins (at_end h) = rw h
Contents-begins (at_brace h) = rw h
Contents-begins (statement head h x y) = rw h

Statement-continues :
    {head : Bytes} {args : List CStr} {b b' : Block} {s s' : Bytes}
    → Statement head args b s b' s'
    → continues (next_token s).0 ≡ true
unfolding continues
Statement-continues (argument a h x) = rw h
Statement-continues (directive h) = rw h
Statement-continues (subblock h x) = rw h

-- What no rule begins with is refused.
pub Contents-refused :
    (e : Bool) (b : Block) (s : Bytes) {r : Token × Bytes}
    → next_token s ≡ r
    → begins e r.0 ≡ false
    → (b' : Block) (s' : Bytes) → Contents e b s b' s'
    → ⊥
Contents-refused e b s same no_rule b' s' d =
    false≢true (sym no_rule ∙ (rw same at (Contents-begins d)))

pub Statement-refused :
    (head : Bytes) (args : List CStr) (b : Block) (s : Bytes) {r : Token × Bytes}
    → next_token s ≡ r
    → continues r.0 ≡ false
    → (b' : Block) (s' : Bytes) → Statement head args b s b' s'
    → ⊥
Statement-refused head args b s same no_rule b' s' d =
    false≢true (sym no_rule ∙ (rw same at (Statement-continues d)))

-- What follows a token that has been read.
pub Statement-after_argument :
    {head : Bytes} {args : List CStr} {b b' : Block} {a : CStr} {s s₁ s' : Bytes}
    → next_token s ≡ (word a, s₁)
    → Statement head args b s b' s'
    → Statement head (args ++ a ∷ []) b s₁ b' s'
Statement-after_argument {a} {s₁} same (argument {s₁ = s₂} a' h x) =
    let text_same : a' ≡ a = cc in let rest_same : s₂ ≡ s₁ = cc in rw (text_same, rest_same) at x
Statement-after_argument same (directive h) = cc
Statement-after_argument same (subblock h x) = cc

pub Statement-after_brace :
    {head : Bytes} {args : List CStr} {b b' : Block} {s s₁ s' : Bytes}
    → next_token s ≡ (plain_token token_lbrace, s₁)
    → Statement head args b s b' s'
    → (sub : Block) × Contents true (block (some head) args [] nil) s₁ sub s'
Statement-after_brace same (argument a' h x) = cc
Statement-after_brace same (directive h) = cc
Statement-after_brace {s₁} same (subblock {sub} {s₁ = s₂} h x) =
    let rest_same : s₂ ≡ s₁ = cc in (sub, rw rest_same at x)

pub Contents-after_head :
    {e : Bool} {head : Bytes} {b b' : Block} {s s₁ s' : Bytes}
    → next_token s ≡ (word (some head), s₁)
    → Contents e b s b' s'
    → (c : Block) × (s₂ : Bytes) × Statement head [] b s₁ c s₂ × Contents e c s₂ b' s'
Contents-after_head same (at_end h) = cc
Contents-after_head same (at_brace h) = cc
Contents-after_head {head} {s₁} same (statement {b' = c} {s₁ = s₃} {s₂ = s₂} head' h x y) =
    let text_same : head' ≡ head = cc in
    let rest_same : s₃ ≡ s₁ = cc in (c, s₂, rw (text_same, rest_same) at x, y)

pub at_end_of :
    (e : Bool) {b : Block} {s s' : Bytes}
    → next_token s ≡ (plain_token token_eof, s')
    → not e ≡ true
    → Contents e b s b s'
at_end_of true same h = cc
at_end_of false same h = at_end same

pub at_brace_of :
    (e : Bool) {b : Block} {s s' : Bytes}
    → next_token s ≡ (plain_token token_rbrace, s')
    → e ≡ true
    → Contents e b s b s'
at_brace_of true same h = at_brace same
at_brace_of false same h = cc
