-- ===== src/Merge/Find.antt =====
-- The first subblock of a name and arguments, before and after the stages of a merge.
use mathlib.Core.Logic.{ite, if_pos, if_neg}
use deadline_knapp_verparsed.Base.{
  ℕ, zero, suc, ◌+◌, Option, none, some, ◌≡◌, ◌≢◌, refl, sym, ap, subst, ◌∙◌, arith,
}
use deadline_knapp_verparsed.Configfile.{Block, Blocks, nil, cons, get_block?}
use deadline_knapp_verparsed.Configfile.BlockMemory.{append_blocks}
use deadline_knapp_verparsed.Merge.{set_block}
use deadline_knapp_verparsed.Merge.Union.{Key, Key-discrete, key_of, index_from, unmatched}
use deadline_knapp_verparsed.Merge.Directives.{or_else}

-- The first block of a key.
unfoldable pub find_block : Blocks → Key → Option Block
find_block nil k = none
find_block (cons b bs) k = ite (Key-discrete (key_of b) k) (some b) (find_block bs k)

pub find_block-nil : (k : Key) → find_block nil k ≡ none
unfolding find_block
find_block-nil k = refl

pub find_block-here :
    (b : Block) (bs : Blocks) (k : Key) → key_of b ≡ k → find_block (cons b bs) k ≡ some b
unfolding find_block
find_block-here b bs k e = if_pos (Key-discrete (key_of b) k) e (some b) (find_block bs k)

pub find_block-there :
    (b : Block) (bs : Blocks) (k : Key) → key_of b ≢ k → find_block (cons b bs) k ≡ find_block bs k
unfolding find_block
find_block-there b bs k n = if_neg (Key-discrete (key_of b) k) n (some b) (find_block bs k)

pub find_block-append_blocks :
    (bs cs : Blocks) (k : Key)
    → find_block (append_blocks bs cs) k ≡ or_else (find_block bs k) (find_block cs k)
find_block-append_blocks nil cs k = rw (find_block-nil k) refl
find_block-append_blocks (cons b bs) cs k = elim (Key-discrete (key_of b) k) [
  | yes e ↦ rw (find_block-here b (append_blocks bs cs) k e, find_block-here b bs k e) refl
  | no n ↦
      rw (find_block-there b (append_blocks bs cs) k n, find_block-there b bs k n)
        (find_block-append_blocks bs cs k)
]

-- Where the first block of a key stands, and that there is none, with indices counted from `n`.
pub data Finds (bs : Blocks) (k : Key) (n : ℕ) : Type 0 where
  missing : index_from bs k n ≡ none → find_block bs k ≡ none → Finds bs k n
  found :
      (i : ℕ) (c : Block)
      → index_from bs k n ≡ some (n + i)
      → get_block? bs i ≡ some c
      → find_block bs k ≡ some c
      → key_of c ≡ k
      → ((c' : Block) → key_of c' ≡ k → find_block (set_block bs i c') k ≡ some c')
      → Finds bs k n

pub finds : (bs : Blocks) (k : Key) (n : ℕ) → Finds bs k n
unfolding index_from
finds nil k n = missing refl (find_block-nil k)
finds (cons b bs) k n = elim (Key-discrete (key_of b) k) [
  | yes e ↦
      found 0 b (if_pos (Key-discrete (key_of b) k) e _ _ ∙ ap some (omega arith)) refl
        (find_block-here b bs k e) e (λ c' e'. find_block-here c' bs k e')
  | no m ↦ elim (finds bs k (suc n)) [
    | missing p q ↦
        missing (if_neg (Key-discrete (key_of b) k) m _ _ ∙ p) (find_block-there b bs k m ∙ q)
    | found i c p g q e put ↦
        found (suc i) c (if_neg (Key-discrete (key_of b) k) m _ _ ∙ p ∙ ap some (omega arith)) g
          (find_block-there b bs k m ∙ q) e
          (λ c' e'. find_block-there b (set_block bs i c') k m ∙ put c' e')
  ]
]

-- Putting a block in the place of one of the same key leaves what is found by other keys.
pub find_block-set_block :
    (bs : Blocks) (i : ℕ) (c c' : Block) (k : Key)
    → get_block? bs i ≡ some c
    → key_of c ≡ key_of c'
    → key_of c ≢ k
    → find_block (set_block bs i c') k ≡ find_block bs k
find_block-set_block nil i c c' k g e n = refl
find_block-set_block (cons b bs) zero c c' k g e n =
    let same : b ≡ c = cc in
    find_block-there c' bs k (λ h. n (e ∙ h))
    ∙ sym (find_block-there b bs k (λ h. n (sym (ap key_of same) ∙ h)))
find_block-set_block (cons b bs) (suc i) c c' k g e n = elim (Key-discrete (key_of b) k) [
  | yes h ↦ find_block-here b (set_block bs i c') k h ∙ sym (find_block-here b bs k h)
  | no m ↦
      find_block-there b (set_block bs i c') k m
      ∙ find_block-set_block bs i c c' k g e n
      ∙ sym (find_block-there b bs k m)
]

-- A key that the one list does not have is found among the unmatched blocks of the other.
pub find_block-unmatched :
    (subs bs : Blocks) (k : Key)
    → find_block bs k ≡ none
    → find_block (unmatched subs bs) k ≡ find_block subs k
unfolding unmatched
find_block-unmatched nil bs k h = refl
find_block-unmatched (cons b more) bs k h = elim (finds bs (key_of b) 0) [
  | missing p q ↦
      rw (p, unmatched)
        (elim (Key-discrete (key_of b) k) [
          | yes e ↦ find_block-here b (unmatched more bs) k e ∙ sym (find_block-here b more k e)
          | no n ↦
              find_block-there b (unmatched more bs) k n
              ∙ find_block-unmatched more bs k h
              ∙ sym (find_block-there b more k n)
        ])
  | found i c p g q e put ↦
      let other : key_of b ≢ k = λ same.
        let bad : find_block bs (key_of b) ≡ none =
          subst (λ x. find_block bs x ≡ none) (sym same) h in
        cc in
      rw (p, unmatched) (find_block-unmatched more bs k h ∙ sym (find_block-there b more k other))
]
