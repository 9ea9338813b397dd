-- ===== src/Merge/Stages.antt =====
-- The union of two blocks in the stages of `merge_into`: the directives, the pairs of matching
-- subblocks, and the subblocks without a match.
use mathlib.Core.Option
use deadline_knapp_verparsed.Base.{
  ℕ, List, Option, none, some, ◌≡◌, refl, sym, ap, ◌∙◌, ◌⊎◌, inl, inr,
}
use deadline_knapp_verparsed.Runtime.{CStr}
use deadline_knapp_verparsed.Configfile.{
  Directive, Block, Blocks, block, nil, cons, subblocks_of, get_block?,
}
use deadline_knapp_verparsed.Configfile.BlockMemory.{append_blocks}
use deadline_knapp_verparsed.Merge.{set_block, set_subblock}
use deadline_knapp_verparsed.Merge.Union.{
  key_of, union_directives, index_from, unmatched, update_block, union, union_matched,
}
use deadline_knapp_verparsed.Merge.Matches.{indices, indices-set_block, pick, pick-indices}

pub bind-eq-some :
    {A B : Type 0} (o : Option A) (f : A → Option B) {b : B}
    → Option.bind o f ≡ some b
    → (a : A) × (o ≡ some a) × (f a ≡ some b)
unfolding Option.bind
bind-eq-some none f e = cc
bind-eq-some (some a) f e = (a, refl, e)

pub Option-cases : {A : Type 0} (o : Option A) → (o ≡ none) ⊎ ((a : A) × (o ≡ some a))
Option-cases none = inl refl
Option-cases (some a) = inr (a, refl)

-- The stages, each from a block to a block.
pub with_directives : List Directive → Block → Option Block
with_directives more (block name args ds bs) =
    Option.bind (union_directives more ds) λ ds'. some (block name args ds' bs)

pub matched : Blocks → Block → Option Block
matched subs (block name args ds bs) =
    Option.bind (union_matched subs bs) λ bs'. some (block name args ds bs')

pub append_pick : Blocks → List (Option ℕ) → Block → Option Block
append_pick subs matches (block name args ds bs) =
    some (block name args ds (append_blocks bs (pick subs matches)))

pub finish : Blocks → Block → Option Block
finish subs (block name args ds bs) =
    Option.bind (union_matched subs bs)
      λ bs'. some (block name args ds (append_blocks bs' (unmatched subs bs)))

pub with_directives_lem :
    (more ds : List Directive) (name : CStr) (args : List CStr) (bs : Blocks)
    → with_directives more (block name args ds bs)
      ≡ Option.bind (union_directives more ds) λ ds'. some (block name args ds' bs)
unfolding with_directives
with_directives_lem more ds name args bs = refl

pub append_pick_lem :
    (subs : Blocks) (matches : List (Option ℕ)) (name : CStr) (args : List CStr)
    (ds : List Directive) (bs : Blocks)
    → append_pick subs matches (block name args ds bs)
      ≡ some (block name args ds (append_blocks bs (pick subs matches)))
unfolding append_pick
append_pick_lem subs matches name args ds bs = refl

pub union_stages :
    (other_name : CStr) (other_args : List CStr) (more : List Directive) (subs : Blocks)
    (into : Block)
    → union (block other_name other_args more subs) into
      ≡ Option.bind (with_directives more into) (finish subs)
unfolding union with_directives finish Option.bind
union_stages other_name other_args more subs (block name args ds bs) =
    regroup (union_directives more ds)
  where
    regroup :
        (o : Option (List Directive))
        → (Option.bind o λ ds'. finish subs (block name args ds' bs))
          ≡ Option.bind (Option.bind o λ ds'. some (block name args ds' bs)) (finish subs)
    regroup none = refl
    regroup (some ds') = refl

pub finish_stages :
    (subs : Blocks) (into : Block)
    → finish subs into
      ≡ Option.bind (matched subs into) (append_pick subs (indices (subblocks_of into) subs))
unfolding finish matched append_pick Option.bind
finish_stages subs (block name args ds bs) = elim (Option-cases (union_matched subs bs)) [
  | inl e ↦ rw e refl
  | inr (bs', e) ↦ rw (e, pick-indices subs bs) refl
]

-- A union keeps the name and the arguments.
pub key_of-union : (other into b : Block) → union other into ≡ some b → key_of into ≡ key_of b
unfolding union Option.bind
key_of-union (block other_name other_args more subs) (block name args ds bs) b e =
    let (ds', e₁, rest) = bind-eq-some (union_directives more ds) _ e in
    let (bs', e₂, same) = bind-eq-some (union_matched subs bs) _ rest in
    same_key (block name args ds' (append_blocks bs' (unmatched subs bs))) b same
  where
    same_key : (a b : Block) → some a ≡ some b → key_of a ≡ key_of b
    same_key a b p = let q : a ≡ b = cc in ap key_of q

pub matched-nil : (into : Block) → matched nil into ≡ some into
unfolding matched union_matched Option.bind
matched-nil (block name args ds bs) = refl

-- A subblock without a match, and one with a match at `i`.
pub matched-none :
    (b : Block) (subs : Blocks) (into : Block)
    → index_from (subblocks_of into) (key_of b) 0 ≡ none
    → matched (cons b subs) into ≡ matched subs into
unfolding matched union_matched Option.bind update_block
matched-none b subs (block name args ds bs) e = rw e refl

pub matched-some :
    (b : Block) (subs : Blocks) (into : Block) (i : ℕ) (sub : Block)
    → index_from (subblocks_of into) (key_of b) 0 ≡ some i
    → get_block? (subblocks_of into) i ≡ some sub
    → matched (cons b subs) into
      ≡ Option.bind (Option.bind (union b sub) λ s. some (set_subblock into i s)) (matched subs)
unfolding matched union_matched Option.bind update_block
matched-some b subs (block name args ds bs) i sub e f = elim (Option-cases (union b sub)) [
  | inl g ↦ rw (e, f, g) refl
  | inr (s, g) ↦ rw (e, f, g) refl
]

-- Merging into a subblock leaves the other pairs as they are.
pub indices-union :
    (b : Block) (subs : Blocks) (into into' : Block) (i : ℕ) (sub : Block)
    → get_block? (subblocks_of into) i ≡ some sub
    → (Option.bind (union b sub) λ s. some (set_subblock into i s)) ≡ some into'
    → indices (subblocks_of into') subs ≡ indices (subblocks_of into) subs
indices-union b subs (block name args ds bs) into' i sub f e =
    let (s, g, same) = bind-eq-some (union b sub) _ e in
    sym (moved (block name args ds (set_block bs i s)) into' same)
    ∙ indices-set_block bs subs i sub s f (key_of-union b sub s g)
  where
    moved :
        (a b : Block)
        → some a ≡ some b
        → indices (subblocks_of a) subs ≡ indices (subblocks_of b) subs
    moved a b p = let q : a ≡ b = cc in ap (λ x. indices (subblocks_of x) subs) q
