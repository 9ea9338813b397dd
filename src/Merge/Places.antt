-- ===== src/Merge/Places.antt =====
-- configloader/configfile_merge.c: a merged subblock in the place of the one it was merged into.
use mathlib.Core.Option
use deadline_knapp_verparsed.Base.{ℕ, ◌+◌, ◌-◌, List, none, some, ◌≡◌, refl, arith}
use deadline_knapp_verparsed.Runtime.{World, CStr}
use deadline_knapp_verparsed.Configfile.{Directive, Block, Blocks, block}
use deadline_knapp_verparsed.Configfile.BlockMemory.{size_block}
use deadline_knapp_verparsed.Configfile.Present.{BlockPresent}
use deadline_knapp_verparsed.Merge.{
  no_error, duplicate_partial_directive, out_of_memory, Merged, put_subblock, set_subblock,
}
use deadline_knapp_verparsed.Merge.Union.{union}
use deadline_knapp_verparsed.Merge.Matches.{Located}
use deadline_knapp_verparsed.Merge.Correct.{MergesInto}

-- A subblock that is merged goes back to its place.
put_size :
    (name : CStr) (args : List CStr) (ds : List Directive) (bs : Blocks) (i n : ℕ)
    (there : Located bs i) (b : Block) (live : ℕ)
    → live ≡ n + (size_block (block name args ds bs) - size_block there.sub) + size_block b
    → live ≡ n + size_block (set_subblock (block name args ds bs) i b)
put_size name args ds bs i n there b live e =
    rw (there.put_some b) (omega (arith, e, there.put_size b, there.smaller))

pub put_subblock-MergesInto :
    (w₀ : World) (other : Block) (name : CStr) (args : List CStr) (ds : List Directive)
    (bs : Blocks) (i n : ℕ) (there : Located bs i) (m : Merged) (w : World)
    → BlockPresent (block name args ds bs)
    → MergesInto w₀
        (n + (size_block (block name args ds bs) - size_block there.sub))
        (union other there.sub)
        m
        w
    → MergesInto w₀ n
        (Option.bind (union other there.sub) λ s. some (set_subblock (block name args ds bs) i s))
        (put_subblock (block name args ds bs) i m)
        w
unfolding put_subblock Option.bind
put_subblock-MergesInto w₀ other name args ds bs i n there (err, none) w k p = absurd p
put_subblock-MergesInto w₀ other name args ds bs i n there (no_error, some b) w k p = (
  put_size name args ds bs i n there b w.live p.0,
  (k.0, k.1, k.2, there.put_present b p.1),
  rw p.2 refl,
)
put_subblock-MergesInto w₀ other name args ds bs i n there (duplicate_partial_directive, some b) w k
      p =
    (
      put_size name args ds bs i n there b w.live p.0,
      (k.0, k.1, k.2, there.put_present b p.1),
      rw p.2 refl,
    )
put_subblock-MergesInto w₀ other name args ds bs i n there (out_of_memory, some b) w k p =
    (put_size name args ds bs i n there b w.live p.0, (k.0, k.1, k.2, there.put_present b p.1), p.2)
