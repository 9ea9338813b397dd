-- ===== src/RoundTrip/Unions.antt =====
-- Blocks of bare words stay such blocks when they are merged.
use mathlib.Core.Logic.{if_pos, if_neg}
use deadline_knapp_verparsed.Base.{
  ℕ, zero, suc, List, [], ◌∷◌, ◌++◌, Option, none, some, ◌≡◌, sym, ap, subst, ◌∙◌, inl, inr,
}
use deadline_knapp_verparsed.Configfile.{
  Directive, Block, Blocks, block, nil, cons, directives_of, subblocks_of, get_block?,
}
use deadline_knapp_verparsed.Configfile.BlockMemory.{append_blocks}
use deadline_knapp_verparsed.Merge.{set_block}
use deadline_knapp_verparsed.Merge.Union.{
  args_discrete, lookup_args, add_directive, union_directives, key_of, index_from, unmatched,
  update_block, union, union_matched, union_other, union_all, union_list,
}
use deadline_knapp_verparsed.Merge.Stages.{bind-eq-some, Option-cases, key_of-union}
use deadline_knapp_verparsed.Main.Merging.{pointers}
use deadline_knapp_verparsed.RoundTrip.Printable.{
  IsMain, IsPrintable, ArePrintable, DirectivesWords, AllWords,
}
use deadline_knapp_verparsed.RoundTrip.Words.{IsWord}

DirectivesWords-append :
    (ds : List Directive) (d : Directive)
    → DirectivesWords ds
    → IsWord d.name × AllWords d.args
    → DirectivesWords (ds ++ d ∷ [])
DirectivesWords-append [] d h k = (k, tt)
DirectivesWords-append (c ∷ ds) d h k = (h.0, DirectivesWords-append ds d h.1 k)

add_directive-Words :
    (ds ds' : List Directive) (d : Directive)
    → DirectivesWords ds
    → IsWord d.name × AllWords d.args
    → add_directive ds d ≡ some ds'
    → DirectivesWords ds'
unfolding add_directive
add_directive-Words ds ds' d h k e = elim (Option-cases (lookup_args ds d.name)) [
  | inl missing ↦
      let e' : some (ds ++ d ∷ []) ≡ some ds' = rw (missing, add_directive) at e in
      let same : ds' ≡ ds ++ d ∷ [] = cc in rw same (DirectivesWords-append ds d h k)
  | inr (args, there) ↦ elim (args_discrete args d.args) [
    | yes p ↦
        let e' : some ds ≡ some ds' =
          rw (there, add_directive, if_pos (args_discrete args d.args) p (some ds) none) at e in
        let same : ds' ≡ ds = cc in rw same h
    | no n ↦
        let e' : none ≡ some ds' =
          rw (there, add_directive, if_neg (args_discrete args d.args) n (some ds) none) at e in
        cc
  ]
]

union_directives-Words :
    (more ds ds' : List Directive)
    → DirectivesWords more
    → DirectivesWords ds
    → union_directives more ds ≡ some ds'
    → DirectivesWords ds'
unfolding union_directives
union_directives-Words [] ds ds' h k e = let same : ds' ≡ ds = cc in rw same k
union_directives-Words (d ∷ more) ds ds' h k e =
    let (ds₁, first, rest) = bind-eq-some (add_directive ds d) _ e in
    union_directives-Words more ds₁ ds' h.1 (add_directive-Words ds ds₁ d k h.0 first) rest

append_blocks-Printable :
    (bs cs : Blocks) → ArePrintable bs → ArePrintable cs → ArePrintable (append_blocks bs cs)
append_blocks-Printable nil cs h k = k
append_blocks-Printable (cons b bs) cs h k = (h.0, append_blocks-Printable bs cs h.1 k)

unmatched-Printable : (subs bs : Blocks) → ArePrintable subs → ArePrintable (unmatched subs bs)
unfolding unmatched
unmatched-Printable nil bs h = tt
unmatched-Printable (cons b more) bs h = elim (Option-cases (index_from bs (key_of b) 0)) [
  | inl e ↦ rw (e, unmatched) (h.0, unmatched-Printable more bs h.1)
  | inr (i, e) ↦ rw (e, unmatched) (unmatched-Printable more bs h.1)
]

get_block?-Printable :
    (bs : Blocks) (i : ℕ) (b : Block) → ArePrintable bs → get_block? bs i ≡ some b → IsPrintable b
get_block?-Printable nil i b h e = cc
get_block?-Printable (cons c bs) zero b h e = let same : c ≡ b = cc in subst IsPrintable same h.0
get_block?-Printable (cons c bs) (suc i) b h e = get_block?-Printable bs i b h.1 e

set_block-Printable :
    (bs : Blocks) (i : ℕ) (b : Block)
    → ArePrintable bs
    → IsPrintable b
    → ArePrintable (set_block bs i b)
set_block-Printable nil i b h k = tt
set_block-Printable (cons c bs) zero b h k = (k, h.1)
set_block-Printable (cons c bs) (suc i) b h k = (h.0, set_block-Printable bs i b h.1 k)

-- What a block has between its braces.
abbrev Inside : Block → Type 0
Inside b = DirectivesWords (directives_of b) × ArePrintable (subblocks_of b)

IsPrintable-Inside : (b : Block) → IsPrintable b → Inside b
IsPrintable-Inside (block name args ds bs) h = (h.3, h.4)

-- A block with the name and the arguments of a printable one.
renewed : (b c : Block) → IsPrintable b → key_of b ≡ key_of c → Inside c → IsPrintable c
renewed (block name args ds bs) (block name' args' ds' bs') h e k =
    let same_name : name ≡ name' = ap (λ k. k.0) e in
    let same_args : args ≡ args' = ap (λ k. k.1) e in
    (subst IsWord same_name h.0, rw same_name at h.1, subst AllWords same_args h.2, k.0, k.1)

updated-Printable :
    (f : Block → Option Block) (bs bs' : Blocks) (i : Option ℕ)
    → ((c c' : Block) → IsPrintable c → f c ≡ some c' → IsPrintable c')
    → ArePrintable bs
    → update_block bs i f ≡ some bs'
    → ArePrintable bs'
unfolding update_block
updated-Printable f bs bs' none keeps k e = let same : bs ≡ bs' = cc in subst ArePrintable same k
updated-Printable f bs bs' (some i) keeps k e =
    let (c, e₁, rest) = bind-eq-some (get_block? bs i) _ e in
    let (c', e₂, last) = bind-eq-some (f c) _ rest in
    let same : set_block bs i c' ≡ bs' = cc in
    subst ArePrintable same
      (set_block-Printable bs i c' k (keeps c c' (get_block?-Printable bs i c k e₁) e₂))

mutual
  unfolding union

  union-Inside :
      (other into b : Block) → Inside other → Inside into → union other into ≡ some b → Inside b
  union-Inside (block other_name other_args more subs) (block name args ds bs) b h k e =
      let (ds', e₁, rest) = bind-eq-some (union_directives more ds) _ e in
      let (bs', e₂, same) = bind-eq-some (union_matched subs bs) _ rest in
      let result : block name args ds' (append_blocks bs' (unmatched subs bs)) ≡ b = cc in
      subst Inside result (
        union_directives-Words more ds ds' h.0 k.0 e₁,
        append_blocks-Printable bs' (unmatched subs bs)
            (union_matched-Printable subs bs bs' h.1 k.1 e₂) (unmatched-Printable subs bs h.1),
      )

  union_matched-Printable :
      (subs bs bs' : Blocks)
      → ArePrintable subs
      → ArePrintable bs
      → union_matched subs bs ≡ some bs'
      → ArePrintable bs'
  union_matched-Printable nil bs bs' h k e = let same : bs ≡ bs' = cc in subst ArePrintable same k
  union_matched-Printable (cons b subs) bs bs' h k e =
      let i = index_from bs (key_of b) 0 in
      let (bs₁, first, rest) = bind-eq-some (update_block bs i (union b)) _ e in
      union_matched-Printable subs bs₁ bs' h.1
        (updated-Printable (union b) bs bs₁ i
          (λ c c' p g.
            renewed c c' p (key_of-union b c c' g)
              (union-Inside b c c' (IsPrintable-Inside b h.0) (IsPrintable-Inside c p) g))
          k first)
        rest

IsMain-Inside : (b : Block) → IsMain b → Inside b
IsMain-Inside (block name args ds bs) h = (h.2, h.3)

union-IsMain :
    (other into b : Block) → IsMain other → IsMain into → union other into ≡ some b → IsMain b
union-IsMain other into b h k e =
    main_again into b k (key_of-union other into b e)
      (union-Inside other into b (IsMain-Inside other h) (IsMain-Inside into k) e)
  where
    main_again : (b c : Block) → IsMain b → key_of b ≡ key_of c → Inside c → IsMain c
    main_again (block name args ds bs) (block name' args' ds' bs') h p k =
        (sym (ap (λ k. k.0) p) ∙ h.0, sym (ap (λ k. k.1) p) ∙ h.1, k.0, k.1)

abbrev pub AllMain : List Block → Type 0
AllMain [] = Unit
AllMain (b ∷ bs) = IsMain b × AllMain bs

union_all-IsMain :
    (bs : List Block) (into b : Block)
    → AllMain bs
    → IsMain into
    → union_all (pointers bs) into ≡ some b
    → IsMain b
unfolding union_all union_other
union_all-IsMain [] into b h k e = let same : into ≡ b = cc in subst IsMain same k
union_all-IsMain (other ∷ bs) into b h k e =
    let (into', first, rest) = bind-eq-some (union other into) _ e in
    union_all-IsMain bs into' b h.1 (union-IsMain other into into' h.0 k first) rest

-- The union of main blocks of bare words is one.
pub union_list-IsMain :
    (bs : List Block) (b : Block) → AllMain bs → union_list (pointers bs) ≡ some b → IsMain b
unfolding union_list
union_list-IsMain [] b h e = cc
union_list-IsMain (into ∷ bs) b h e = union_all-IsMain bs into b h.1 h.0 e
