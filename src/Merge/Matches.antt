-- ===== src/Merge/Matches.antt =====
-- configloader/configfile_merge.c: the messages, and the pairs of subblocks
-- that match.
use deadline_knapp_verparsed.Base.{
  ℕ, zero, suc, ◌+◌, ◌≤◌, ◌<◌, List, [], ◌∷◌, ◌++◌, Option, none, some, Bytes, ◌≡◌, inl, inr, refl,
  sym, ap, ◌∙◌, arith,
}
use deadline_knapp_verparsed.Runtime.{World, CStr, done, Piece, text, arg, vformat}
use deadline_knapp_verparsed.Configfile.{
  Block, Blocks, block, nil, cons, count_blocks, get_block?, has_blocks,
}
use deadline_knapp_verparsed.Configfile.BlockMemory.{size_block, size_blocks}
use deadline_knapp_verparsed.Configfile.Present.{Present, AllPresent, BlockPresent, BlocksPresent}
use deadline_knapp_verparsed.Merge.{
  arg1_or_empty, merging_matching, find_match, find_matches, set_block,
}
use mathlib.Core.Logic.{ite, if_pos, if_neg}
use deadline_knapp_verparsed.Merge.Union.{Key, Key-discrete, key_of, index_from, unmatched}
use deadline_knapp_verparsed.Merge.Compare.{block_equals-Decides}

-- No argument of a message is NULL.
abbrev pub AllFormatted : List Piece → Type 0
AllFormatted [] = Unit
AllFormatted (text t ∷ ps) = AllFormatted ps
AllFormatted (arg a ∷ ps) = Present a × AllFormatted ps

pub vformat-some : (ps : List Piece) → AllFormatted ps → (t : Bytes) × (vformat ps ≡ some t)
vformat-some [] h = ([], refl)
vformat-some (text t ∷ ps) h = let (r, e) = vformat-some ps h in (t ++ r, rw e refl)
vformat-some (arg none ∷ ps) h = absurd h.0
vformat-some (arg (some s) ∷ ps) h = let (r, e) = vformat-some ps h.1 in (s ++ r, rw e refl)

pub arg1-Present : (args : List CStr) → AllPresent args → Present (arg1_or_empty args)
arg1-Present [] h = tt
arg1-Present (a ∷ args) h = h.0

pub merging_matching-AllFormatted : (b : Block) → BlockPresent b → AllFormatted (merging_matching b)
merging_matching-AllFormatted (block name [] ds bs) h = (h.0, tt)
merging_matching-AllFormatted (block name (a ∷ args) ds bs) h = (h.0, (h.1.0, tt))

-- The subblock at an index in range, and what putting another one in its place changes.
pub record Located (bs : Blocks) (i : ℕ) : Type 0 where
  pub sub : Block
  pub found : get_block? bs i ≡ some sub
  pub present : BlockPresent sub
  pub smaller : size_block sub ≤ size_blocks bs
  pub put_size :
      (b : Block) → size_blocks (set_block bs i b) + size_block sub ≡ size_blocks bs + size_block b
  pub put_present : (b : Block) → BlockPresent b → BlocksPresent (set_block bs i b)
  pub put_count : (b : Block) → count_blocks (set_block bs i b) ≡ count_blocks bs
  pub put_some : (b : Block) → has_blocks (set_block bs i b) ≡ has_blocks bs

pub locate : (bs : Blocks) (i : ℕ) → i < count_blocks bs → BlocksPresent bs → Located bs i
locate nil i l h = absurd (omega (arith, l))
locate (cons a bs) zero l h = record {
  sub = a;
  found = refl;
  present = h.0;
  smaller = omega arith;
  put_size = λ b. omega arith;
  put_present = λ b k. (k, h.1);
  put_count = λ b. refl;
  put_some = λ b. refl;
}
locate (cons a bs) (suc i) l h =
    let r = locate bs i (omega (arith, l)) h.1 in
    record {
      sub = r.sub;
      found = r.found;
      present = r.present;
      smaller = omega (arith, r.smaller);
      put_size = λ b. omega (arith, r.put_size b);
      put_present = λ b k. (h.0, r.put_present b k);
      put_count = λ b. omega (arith, r.put_count b);
      put_some = λ b. refl;
    }

-- The pairs of `merge_into` as the union has them.
abbrev pub indices : Blocks → Blocks → List (Option ℕ)
indices intos nil = []
indices intos (cons b bs) = index_from intos (key_of b) 0 ∷ indices intos bs

-- Comparing has no effect.
find_match_lem :
    (intos : Blocks) (b : Block) (i : ℕ) (w : World)
    → BlocksPresent intos
    → BlockPresent b
    → find_match intos b i w ≡ done (index_from intos (key_of b) i) w
unfolding find_match index_from
find_match_lem nil b i w h k = refl
find_match_lem (cons (block name args ds bs) intos) (block name' args' ds' bs') i w h k =
    let a = block name args ds bs in
    let b = block name' args' ds' bs' in
    let (same, run, why) = block_equals-Decides a b w h.0.0 h.0.1 k.0 k.1 in
    elim why [
      | inl (agree, p) ↦
          rw
            (
              run,
              agree,
              if_pos (Key-discrete (key_of a) (key_of b)) (λ t. (p.0 t, p.1 t)) (some i)
                  (index_from intos (key_of b) (suc i)),
            )
            refl
      | inr (differ, n) ↦
          rw
            (
              run,
              differ,
              if_neg (Key-discrete (key_of a) (key_of b))
                  (λ e. n (ap (λ k. k.0) e, ap (λ k. k.1) e)) (some i)
                  (index_from intos (key_of b) (suc i)),
            )
            (find_match_lem intos b (suc i) w h.1 k)
    ]

pub find_matches_lem :
    (intos bs : Blocks) (w : World)
    → BlocksPresent intos
    → BlocksPresent bs
    → find_matches intos bs w ≡ done (indices intos bs) w
unfolding find_matches
find_matches_lem intos nil w h k = refl
find_matches_lem intos (cons b bs) w h k =
    rw (find_match_lem intos b 0 w h k.0, find_matches_lem intos bs w h k.1) refl

-- An index that is found is in range, and the block there has the key.
pub index_from_bounds :
    (bs : Blocks) (k : Key) (i j : ℕ)
    → index_from bs k i ≡ some j
    → (i ≤ j) × (j < i + count_blocks bs)
unfolding index_from
index_from_bounds nil k i j e = cc
index_from_bounds (cons b bs) k i j e = ground (arith, index_from_bounds bs k (suc i) j)

-- Another block of the same key in the place of one.
pub index_from-set_block :
    (bs : Blocks) (k : Key) (i j : ℕ) (a b : Block)
    → get_block? bs j ≡ some a
    → key_of a ≡ key_of b
    → index_from (set_block bs j b) k i ≡ index_from bs k i
unfolding index_from
index_from-set_block nil k i j a b e h = refl
index_from-set_block (cons c bs) k i zero a b e h =
    let same : c ≡ a = cc in
    ap (λ x. ite (Key-discrete x k) (some i) (index_from bs k (suc i)))
      (sym h ∙ ap key_of (sym same))
index_from-set_block (cons c bs) k i (suc j) a b e h =
    rw (index_from-set_block bs k (suc i) j a b e h) refl

pub indices-set_block :
    (bs subs : Blocks) (j : ℕ) (a b : Block)
    → get_block? bs j ≡ some a
    → key_of a ≡ key_of b
    → indices (set_block bs j b) subs ≡ indices bs subs
indices-set_block bs nil j a b e h = refl
indices-set_block bs (cons c subs) j a b e h =
    rw (index_from-set_block bs (key_of c) 0 j a b e h, indices-set_block bs subs j a b e h) refl

-- The subblocks without a match.
abbrev pub pick : Blocks → List (Option ℕ) → Blocks
pick nil matches = nil
pick (cons b bs) [] = nil
pick (cons b bs) (none ∷ matches) = cons b (pick bs matches)
pick (cons b bs) (some i ∷ matches) = pick bs matches

pub pick-indices : (subs bs : Blocks) → pick subs (indices bs subs) ≡ unmatched subs bs
unfolding unmatched
pick-indices nil bs = refl
pick-indices (cons b subs) bs = ground (arith, pick-indices subs bs)
