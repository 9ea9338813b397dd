-- ===== src/Merge/Paths.antt =====
-- configloader/configfile_merge.c: what a merged block has at every path into its subblocks.
use mathlib.Core.Option
use deadline_knapp_verparsed.Base.{
  ℕ, List, [], ◌∷◌, Option, none, some, ◌≡◌, ◌≢◌, refl, sym, ap, subst, ◌∙◌, arith,
}
use deadline_knapp_verparsed.Runtime.{World, CStr}
use deadline_knapp_verparsed.Runtime.Ensures.{Ensures, Ensures-map}
use deadline_knapp_verparsed.Configfile.{Block, Blocks, block, nil, cons, subblocks_of, get_block?}
use deadline_knapp_verparsed.Configfile.BlockMemory.{append_blocks}
use deadline_knapp_verparsed.Configfile.Present.{BlockPresent}
use deadline_knapp_verparsed.Merge.{set_block, config_merge}
use deadline_knapp_verparsed.Merge.Union.{
  Key, Key-discrete, key_of, index_from, unmatched, update_block, union, union_matched,
  union_directives,
}
use deadline_knapp_verparsed.Merge.Stages.{bind-eq-some, key_of-union}
use deadline_knapp_verparsed.Merge.Directives.{args_for, or_else, or_else-none, union-args_for}
use deadline_knapp_verparsed.Merge.Find.{
  find_block, find_block-nil, find_block-here, find_block-there, find_block-append_blocks, missing,
  found, finds, find_block-set_block, find_block-unmatched,
}
use deadline_knapp_verparsed.Merge.Lifetime.{MergesTo, config_merge-MergesTo}

-- Blocks in which, at every depth, no two subblocks have the same name and arguments.
abbrev mutual
  pub DistinctBlock : Block → Type 0
  DistinctBlock (block name args ds bs) = DistinctBlocks bs

  pub DistinctBlocks : Blocks → Type 0
  DistinctBlocks nil = Unit
  DistinctBlocks (cons b bs) =
      DistinctBlock b × (find_block bs (key_of b) ≡ none) × DistinctBlocks bs

find_block-DistinctBlock :
    (bs : Blocks) (k : Key) (b : Block)
    → DistinctBlocks bs
    → find_block bs k ≡ some b
    → DistinctBlock b
find_block-DistinctBlock nil k b h e = let e' : none ≡ some b = sym (find_block-nil k) ∙ e in cc
find_block-DistinctBlock (cons c bs) k b h e = elim (Key-discrete (key_of c) k) [
  | yes p ↦
      let e' : some c ≡ some b = sym (find_block-here c bs k p) ∙ e in
      let same : c ≡ b = cc in subst DistinctBlock same h.0
  | no n ↦ find_block-DistinctBlock bs k b h.2 (sym (find_block-there c bs k n) ∙ e)
]

-- What is found by a key after the matching subblocks were merged: where both sides have the key,
-- the union; else what was there.
data Pairs : Option Block → Option Block → Option Block → Type 0 where
  nothing : {o : Option Block} → Pairs o none none
  alone : {c : Block} → Pairs none (some c) (some c)
  joined : {b c c' : Block} → union b c ≡ some c' → Pairs (some b) (some c) (some c')

unpaired : (o : Option Block) → Pairs none o o
unpaired none = nothing
unpaired (some c) = alone

Pairs-none : {o z : Option Block} → Pairs none o z → z ≡ o
Pairs-none nothing = refl
Pairs-none alone = refl

-- What one matching subblock changes.
updated-missing :
    (f : Block → Option Block) (bs bs₁ : Blocks) {o : Option ℕ}
    → o ≡ none
    → update_block bs o f ≡ some bs₁
    → bs₁ ≡ bs
unfolding update_block
updated-missing f bs bs₁ e h =
    let e' : some bs ≡ some bs₁ = rw e at h in let same : bs₁ ≡ bs = cc in same

updated-found :
    (f : Block → Option Block) (bs bs₁ : Blocks) (i : ℕ) (c : Block) {o : Option ℕ}
    → o ≡ some i
    → get_block? bs i ≡ some c
    → update_block bs o f ≡ some bs₁
    → (c' : Block) × (f c ≡ some c') × (bs₁ ≡ set_block bs i c')
unfolding update_block
updated-found f bs bs₁ i c e g h =
    let (b, e₁, rest) = bind-eq-some (get_block? bs i) _ (rw e at h) in
    let same : b ≡ c = cc in
    let (c', e₂, last) = bind-eq-some (f b) _ rest in
    let set : bs₁ ≡ set_block bs i c' = cc in (c', ap f (sym same) ∙ e₂, set)

paired :
    (b : Block) (bs bs₁ : Blocks) {z : Option Block}
    → update_block bs (index_from bs (key_of b) 0) (union b) ≡ some bs₁
    → Pairs none (find_block bs₁ (key_of b)) z
    → Pairs (some b) (find_block bs (key_of b)) z
paired b bs bs₁ h later = elim (finds bs (key_of b) 0) [
  | missing p q ↦
      let same = updated-missing (union b) bs bs₁ p h in
      let there = Pairs-none later ∙ ap (λ x. find_block x (key_of b)) same ∙ q in
      rw (q, there) nothing
  | found i c p g q e put ↦
      let (c', u, same) = updated-found (union b) bs bs₁ i c (p ∙ ap some (omega arith)) g h in
      let there =
        Pairs-none later
        ∙ ap (λ x. find_block x (key_of b)) same
        ∙ put c' (sym (key_of-union b c c' u) ∙ e) in
      rw (q, there) (joined u)
]

passed :
    (b : Block) (bs bs₁ : Blocks) (k : Key)
    → update_block bs (index_from bs (key_of b) 0) (union b) ≡ some bs₁
    → key_of b ≢ k
    → find_block bs₁ k ≡ find_block bs k
passed b bs bs₁ k h n = elim (finds bs (key_of b) 0) [
  | missing p q ↦ ap (λ x. find_block x k) (updated-missing (union b) bs bs₁ p h)
  | found i c p g q e put ↦
      let (c', u, same) = updated-found (union b) bs bs₁ i c (p ∙ ap some (omega arith)) g h in
      ap (λ x. find_block x k) same
      ∙ find_block-set_block bs i c c' k g (key_of-union b c c' u) (λ p. n (sym e ∙ p))
]

union_matched-Pairs :
    (subs bs bs' : Blocks) (k : Key)
    → DistinctBlocks subs
    → union_matched subs bs ≡ some bs'
    → Pairs (find_block subs k) (find_block bs k) (find_block bs' k)
unfolding union_matched
union_matched-Pairs nil bs bs' k h e =
    let same : bs ≡ bs' = cc in
    subst (λ x. Pairs (find_block nil k) (find_block bs k) (find_block x k)) same
      (rw (find_block-nil k) (unpaired (find_block bs k)))
union_matched-Pairs (cons b subs) bs bs' k h e =
    let (bs₁, first, rest) =
      bind-eq-some (update_block bs (index_from bs (key_of b) 0) (union b)) _ e in
    let later = union_matched-Pairs subs bs₁ bs' k h.2 rest in
    elim (Key-discrete (key_of b) k) [
      | yes p ↦
          let later' : Pairs none (find_block bs₁ (key_of b)) (find_block bs' (key_of b)) =
            rw h.1 at (union_matched-Pairs subs bs₁ bs' (key_of b) h.2 rest) in
          subst (λ x. Pairs (find_block (cons b subs) x) (find_block bs x) (find_block bs' x)) p
            (rw (find_block-here b subs (key_of b) refl) (paired b bs bs₁ first later'))
      | no n ↦ rw (find_block-there b subs k n) (rw (passed b bs bs₁ k first n) at later)
    ]

-- The arguments of the first directive of a name, in the subblock at a path of names and arguments.
unfoldable pub value_at : List Key → CStr → Block → Option (List CStr)
unfolding find_block Option.bind
value_at [] name b = args_for b name
value_at (k ∷ path) name b = Option.bind (find_block (subblocks_of b) k) (value_at path name)

-- Values of what is found by a key, with `u` what comes behind the merged subblocks.
combined :
    {A : Type 0} {o q z : Option Block} (u : Option Block) (value : Block → Option A)
    → Pairs o q z
    → (q ≡ none → u ≡ o)
    → ((b c c' : Block) → o ≡ some b → union b c ≡ some c' → value c' ≡ or_else (value c) (value b))
    → Option.bind (or_else z u) value ≡ or_else (Option.bind q value) (Option.bind o value)
unfolding Option.bind
combined u value nothing behind join = ap (λ x. Option.bind x value) (behind refl)
combined u value (alone {c}) behind join = sym (or_else-none (value c))
combined u value (joined {b} {c} {c'} e) behind join = join b c c' refl e

value_at-union :
    (path : List Key) (name : CStr) (other into b : Block)
    → DistinctBlock other
    → union other into ≡ some b
    → value_at path name b ≡ or_else (value_at path name into) (value_at path name other)
unfolding value_at union Option.bind
value_at-union [] name other into b h e = union-args_for other into b name e
value_at-union (k ∷ path) name (block other_name other_args more subs) (block n args ds bs) b h e =
    let (ds', e₁, rest) = bind-eq-some (union_directives more ds) _ e in
    let (bs', e₂, last) = bind-eq-some (union_matched subs bs) _ rest in
    let same : b ≡ block n args ds' (append_blocks bs' (unmatched subs bs)) = cc in
    ap (value_at (k ∷ path) name) same
    ∙ ap (λ o. Option.bind o (value_at path name))
        (find_block-append_blocks bs' (unmatched subs bs) k)
    ∙ combined (find_block (unmatched subs bs) k) (value_at path name)
        (union_matched-Pairs subs bs bs' k h e₂) (find_block-unmatched subs bs k)
        (λ s c c' there joins.
          value_at-union path name s c c' (find_block-DistinctBlock subs k s h there) joins)

-- If, at every depth, no two subblocks of the second block have the same name and arguments, and
-- neither block has a NULL string, a block that merging the two returns has, at every path of
-- subblocks and for each name, the arguments of the first directive of that name in the first
-- block, and where that has none, those in the second block; for every allocator.
pub config_merge-value_at :
    (one two : Block) (w₀ : World)
    → BlockPresent one
    → BlockPresent two
    → DistinctBlock two
    → Ensures w₀
        (λ r _.
          (b : Block)
          → r ≡ some b
          → (path : List Key) (name : CStr)
          → value_at path name b ≡ or_else (value_at path name one) (value_at path name two))
        (config_merge (some one) (some two) w₀)
config_merge-value_at one two w₀ h k d = Ensures-map (config_merge-MergesTo one two w₀ h k) merged
  where
    merged :
        (r : Option Block) (w : World)
        → MergesTo w₀ (union two one) r w
        → (b : Block) → r ≡ some b
        → (path : List Key) (name : CStr)
        → value_at path name b ≡ or_else (value_at path name one) (value_at path name two)
    merged none w p b e path name = cc
    merged (some c) w p b e path name = value_at-union path name two one b d (p.2 ∙ e)
