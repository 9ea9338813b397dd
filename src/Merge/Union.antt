-- ===== src/Merge/Union.antt =====
-- The union of two blocks: what configloader/configfile_merge.c computes, described without memory,
-- messages and pairs of indices. A directive is looked up by its name, a subblock by its name and
-- its arguments.
use mathlib.Core.Logic.{ite}
use mathlib.Core.Option
use native.Mathlib.Decide.{ℕ_discrete}
use deadline_knapp_verparsed.Base.{ℕ, suc, List, [], ◌∷◌, ◌++◌, Option, none, some}
use deadline_knapp_verparsed.Runtime.{CStr}
use deadline_knapp_verparsed.Configfile.{
  Directive, Block, Blocks, block, nil, cons, name_of, args_of, get_block?,
}
use deadline_knapp_verparsed.Configfile.BlockMemory.{append_blocks}
use deadline_knapp_verparsed.Merge.{set_block}

unfoldable pub CStr-discrete : Discrete CStr
CStr-discrete = hlevel ℕ_discrete

abbrev pub Key : Type 0
Key = CStr × List CStr

unfoldable pub Key-discrete : Discrete Key
Key-discrete = hlevel ℕ_discrete

abbrev pub key_of : Block → Key
key_of b = (name_of b, args_of b)

-- The arguments of the first directive of a name.
unfoldable pub lookup_args : List Directive → CStr → Option (List CStr)
lookup_args [] name = none
lookup_args (d ∷ ds) name = ite (CStr-discrete d.name name) (some d.args) (lookup_args ds name)

unfoldable pub args_discrete : Discrete (List CStr)
args_discrete = hlevel ℕ_discrete

-- A new name comes last; a name that is there wants the same arguments.
unfoldable pub add_directive : List Directive → Directive → Option (List Directive)
unfolding lookup_args
add_directive ds d = elim (lookup_args ds d.name) [
  | none ↦ some (ds ++ d ∷ [])
  | some args ↦ ite (args_discrete args d.args) (some ds) none
]

unfoldable pub union_directives : List Directive → List Directive → Option (List Directive)
unfolding add_directive
union_directives [] ds = some ds
union_directives (d ∷ more) ds = Option.bind (add_directive ds d) (union_directives more)

-- The index of the first block of a key, counted from `i`.
unfoldable pub index_from : Blocks → Key → ℕ → Option ℕ
index_from nil k i = none
index_from (cons b bs) k i = ite (Key-discrete (key_of b) k) (some i) (index_from bs k (suc i))

-- The blocks of the first list whose key the second list does not have.
unfoldable pub unmatched : Blocks → Blocks → Blocks
unfolding index_from
unmatched nil bs = nil
unmatched (cons b more) bs = elim (index_from bs (key_of b) 0) [
  | none ↦ cons b (unmatched more bs)
  | some i ↦ unmatched more bs
]

-- Applies a function to the block at an index, if there is one.
unfoldable pub update_block : Blocks → Option ℕ → (Block → Option Block) → Option Blocks
update_block bs none f = some bs
update_block bs (some i) f =
    Option.bind (get_block? bs i) λ b. Option.bind (f b) λ b'. some (set_block bs i b')

unfoldable mutual
  unfolding Option.bind union_directives update_block index_from

  -- The block into which the first one is merged comes second, as the one that is changed.
  pub union : Block → Block → Option Block
  union (block other_name other_args more subs) (block name args ds bs) =
      Option.bind (union_directives more ds) λ ds'.
        Option.bind (union_matched subs bs)
          λ bs'. some (block name args ds' (append_blocks bs' (unmatched subs bs)))

  pub union_matched : Blocks → Blocks → Option Blocks
  union_matched nil bs = some bs
  union_matched (cons b subs) bs =
      Option.bind (update_block bs (index_from bs (key_of b) 0) (union b)) (union_matched subs)

-- A block that is NULL adds nothing.
unfoldable pub union_other : Option Block → Block → Option Block
union_other none into = some into
union_other (some b) into = union b into

unfoldable pub union_all : List (Option Block) → Block → Option Block
union_all [] into = some into
union_all (b ∷ blocks) into = Option.bind (union_other b into) (union_all blocks)

-- The union of blocks, of which the first one must be there.
unfoldable pub union_list : List (Option Block) → Option Block
union_list [] = none
union_list (none ∷ blocks) = none
union_list (some b ∷ blocks) = union_all blocks b
