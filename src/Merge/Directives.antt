-- ===== src/Merge/Directives.antt =====
-- configloader/configfile_merge.c: which directives a merged block has.
use mathlib.Core.Option
use mathlib.Core.Logic.{if_pos, if_neg}
use deadline_knapp_verparsed.Base.{
  List, [], ◌∷◌, ◌++◌, Option, none, some, ◌≡◌, refl, sym, ap, subst, ◌∙◌, inl, inr,
}
use deadline_knapp_verparsed.Runtime.{World, CStr}
use deadline_knapp_verparsed.Runtime.Ensures.{Ensures, Ensures-map}
use deadline_knapp_verparsed.Configfile.{Directive, Block, block, directives_of}
use deadline_knapp_verparsed.Configfile.BlockMemory.{append_blocks}
use deadline_knapp_verparsed.Configfile.Present.{BlockPresent}
use deadline_knapp_verparsed.Merge.{config_merge}
use deadline_knapp_verparsed.Merge.Union.{
  CStr-discrete, args_discrete, lookup_args, add_directive, union_directives, union, union_matched,
  unmatched,
}
use deadline_knapp_verparsed.Merge.Lookup.{lookup_args-here, lookup_args-there, lookup_args-nil}
use deadline_knapp_verparsed.Merge.Stages.{bind-eq-some, Option-cases}
use deadline_knapp_verparsed.Merge.Lifetime.{MergesTo, config_merge-MergesTo}

abbrev pub or_else : {A : Type 0} → Option A → Option A → Option A
or_else none o = o
or_else (some a) o = some a

pub or_else-none : {A : Type 0} (o : Option A) → or_else o none ≡ o
or_else-none none = refl
or_else-none (some a) = refl

or_else_assoc : {A : Type 0} (o p q : Option A) → or_else (or_else o p) q ≡ or_else o (or_else p q)
or_else_assoc none p q = refl
or_else_assoc (some a) p q = refl

lookup_args-cons :
    (d : Directive) (ds : List Directive) (name : CStr)
    → lookup_args (d ∷ ds) name ≡ or_else (lookup_args (d ∷ []) name) (lookup_args ds name)
lookup_args-cons d ds name = elim (CStr-discrete d.name name) [
  | yes e ↦ rw (lookup_args-here d ds name e, lookup_args-here d [] name e) refl
  | no n ↦
      rw (lookup_args-there d ds name n, lookup_args-there d [] name n, lookup_args-nil name) refl
]

lookup_args-append :
    (ds : List Directive) (d : Directive) (name : CStr)
    → lookup_args (ds ++ d ∷ []) name ≡ or_else (lookup_args ds name) (lookup_args (d ∷ []) name)
lookup_args-append [] d name = rw (lookup_args-nil name) refl
lookup_args-append (c ∷ ds) d name =
    lookup_args-cons c (ds ++ d ∷ []) name
    ∙ ap (or_else (lookup_args (c ∷ []) name)) (lookup_args-append ds d name)
    ∙ sym (
        or_else_assoc (lookup_args (c ∷ []) name) (lookup_args ds name) (lookup_args (d ∷ []) name))
    ∙ ap (λ o. or_else o (lookup_args (d ∷ []) name)) (sym (lookup_args-cons c ds name))

-- Of a name that is there, the arguments stay.
kept :
    (ds : List Directive) (d : Directive) (args : List CStr) (name : CStr)
    → lookup_args ds d.name ≡ some args
    → lookup_args ds name ≡ or_else (lookup_args ds name) (lookup_args (d ∷ []) name)
kept ds d args name h = elim (CStr-discrete d.name name) [
  | yes e ↦
      let there : lookup_args ds name ≡ some args = subst (λ n. lookup_args ds n ≡ some args) e h in
      rw there refl
  | no n ↦
      rw (lookup_args-there d [] name n, lookup_args-nil name, or_else-none (lookup_args ds name))
        refl
]

add_directive-lookup_args :
    (ds ds' : List Directive) (d : Directive) (name : CStr)
    → add_directive ds d ≡ some ds'
    → lookup_args ds' name ≡ or_else (lookup_args ds name) (lookup_args (d ∷ []) name)
unfolding add_directive
add_directive-lookup_args ds ds' d name h = elim (Option-cases (lookup_args ds d.name)) [
  | inl missing ↦
      let e : some (ds ++ d ∷ []) ≡ some ds' = rw (missing, add_directive) at h in
      let same : ds' ≡ ds ++ d ∷ [] = cc in rw same (lookup_args-append ds d name)
  | inr (args, there) ↦ elim (args_discrete args d.args) [
    | yes p ↦
        let e : some ds ≡ some ds' =
          rw (there, add_directive, if_pos (args_discrete args d.args) p (some ds) none) at h in
        let same : ds' ≡ ds = cc in rw same (kept ds d args name there)
    | no n ↦
        let e : none ≡ some ds' =
          rw (there, add_directive, if_neg (args_discrete args d.args) n (some ds) none) at h in
        cc
  ]
]

union_directives-lookup_args :
    (more ds ds' : List Directive) (name : CStr)
    → union_directives more ds ≡ some ds'
    → lookup_args ds' name ≡ or_else (lookup_args ds name) (lookup_args more name)
unfolding union_directives
union_directives-lookup_args [] ds ds' name h =
    let same : ds' ≡ ds = cc in
    rw (same, lookup_args-nil name, or_else-none (lookup_args ds name)) refl
union_directives-lookup_args (d ∷ more) ds ds' name h =
    let (ds₁, first, rest) = bind-eq-some (add_directive ds d) _ h in
    union_directives-lookup_args more ds₁ ds' name rest
    ∙ ap (λ o. or_else o (lookup_args more name)) (add_directive-lookup_args ds ds₁ d name first)
    ∙ or_else_assoc (lookup_args ds name) (lookup_args (d ∷ []) name) (lookup_args more name)
    ∙ ap (or_else (lookup_args ds name)) (sym (lookup_args-cons d more name))

-- The arguments that a block has for a directive of a name.
abbrev pub args_for : Block → CStr → Option (List CStr)
args_for b name = lookup_args (directives_of b) name

pub union-args_for :
    (other into b : Block) (name : CStr)
    → union other into ≡ some b
    → args_for b name ≡ or_else (args_for into name) (args_for other name)
unfolding union Option.bind
union-args_for (block other_name other_args more subs) (block n args ds bs) b name e =
    let (ds', e₁, rest) = bind-eq-some (union_directives more ds) _ e in
    let (bs', e₂, same) = bind-eq-some (union_matched subs bs) _ rest in
    let result : b ≡ block n args ds' (append_blocks bs' (unmatched subs bs)) = cc in
    rw result (union_directives-lookup_args more ds ds' name e₁)

-- A block that merging two blocks without a NULL string returns has, for each name, the arguments
-- of the first directive of that name in the first block, and where that has none, those of the
-- first one in the second block; so no name of either is lost and no other name appears.
pub config_merge-args_for :
    (one two : Block) (w₀ : World)
    → BlockPresent one
    → BlockPresent two
    → Ensures w₀
        (λ r _.
          (b : Block)
          → r ≡ some b
          → (name : CStr) → args_for b name ≡ or_else (args_for one name) (args_for two name))
        (config_merge (some one) (some two) w₀)
config_merge-args_for one two w₀ h k = Ensures-map (config_merge-MergesTo one two w₀ h k) merged
  where
    merged :
        (r : Option Block) (w : World)
        → MergesTo w₀ (union two one) r w
        → (b : Block) → r ≡ some b
        → (name : CStr) → args_for b name ≡ or_else (args_for one name) (args_for two name)
    merged none w p b e name = cc
    merged (some c) w p b e name = union-args_for two one b name (p.2 ∙ e)
