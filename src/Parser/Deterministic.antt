-- ===== src/Parser/Deterministic.antt =====
-- The grammar allows at most one block and one rest for a stream.
use deadline_knapp_verparsed.Base.{some, [], Bool, List, Bytes, ◌≡◌, refl, sym, ap}
use deadline_knapp_verparsed.Runtime.{CStr}
use deadline_knapp_verparsed.Configfile.{Block}
use deadline_knapp_verparsed.Lexer.{Token}
use deadline_knapp_verparsed.Lexer.Reference.{next_token}
use deadline_knapp_verparsed.Parser.Grammar.{
  Contents, at_end, at_brace, statement, Statement, Contents-after_head, word, argument, directive,
  subblock, with_subblock,
}

abbrev Same : Block → Block → Bytes → Bytes → Type 0
Same b c s t = (b ≡ c) × (s ≡ t)

rest_same : {r : Token × Bytes} {t u : Token} {s s' : Bytes} → r ≡ (t, s) → r ≡ (u, s') → s ≡ s'
rest_same h k = cc

mutual
  pub Contents-deterministic :
      {e : Bool} {b b' c : Block} {s s' t : Bytes}
      → Contents e b s b' s'
      → Contents e b s c t
      → Same b' c s' t
  Contents-deterministic (at_end h) (at_end k) = (refl, cc)
  Contents-deterministic (at_end h) (statement head k x y) = cc
  Contents-deterministic (at_brace h) (at_brace k) = (refl, cc)
  Contents-deterministic (at_brace h) (statement head k x y) = cc
  Contents-deterministic (statement head h x y) (at_end k) = cc
  Contents-deterministic (statement head h x y) (at_brace k) = cc
  Contents-deterministic (statement head h x y) (statement head' k z u) =
      let same : head ≡ head' = cc in
      let rest = rest_same h k in
      let (p, q) = Statement-deterministic x (rw (sym same, sym rest) at z) in
      Contents-deterministic y (rw (sym p, sym q) at u)

  pub Statement-deterministic :
      {head : Bytes} {args : List CStr} {b b' c : Block} {s s' t : Bytes}
      → Statement head args b s b' s'
      → Statement head args b s c t
      → Same b' c s' t
  Statement-deterministic (argument a h x) (argument a' k y) =
      let same : a ≡ a' = cc in
      let rest = rest_same h k in Statement-deterministic x (rw (sym same, sym rest) at y)
  Statement-deterministic (argument a h x) (directive k) = cc
  Statement-deterministic (argument a h x) (subblock k y) = cc
  Statement-deterministic (directive h) (argument a k y) = cc
  Statement-deterministic (directive h) (directive k) = (refl, cc)
  Statement-deterministic (directive h) (subblock k y) = cc
  Statement-deterministic (subblock h x) (argument a k y) = cc
  Statement-deterministic (subblock h x) (directive k) = cc
  Statement-deterministic (subblock h x) (subblock k y) =
      let (p, q) = Contents-deterministic x (rw (sym (rest_same h k)) at y) in
      (ap (with_subblock _) p, q)

-- Behind a statement that has been read, the contents go on where it ends.
pub Contents-after-Statement :
    {e : Bool} {head : Bytes} {b b' c : Block} {s s₁ s₂ t : Bytes}
    → next_token s ≡ (word (some head), s₁)
    → Statement head [] b s₁ b' s₂
    → Contents e b s c t
    → Contents e b' s₂ c t
Contents-after-Statement same d g =
    let (c', t', d', g') = Contents-after_head same g in
    let (p, q) = Statement-deterministic d' d in rw (p, q) at g'
