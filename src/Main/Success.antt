-- ===== src/Main/Success.antt =====
-- configloader/main.c: when `merge_config_files` succeeds.
use deadline_knapp_verparsed.Base.{
  List, [], ◌∷◌, ◌++◌, length, Option, none, some, Bytes, ◌≡◌, refl, sym, ap, subst, ◌∙◌, inl, inr,
}
use deadline_knapp_verparsed.Runtime.{World, Outcome, done}
use deadline_knapp_verparsed.Runtime.Ensures.{Plentiful}
use deadline_knapp_verparsed.Runtime.Ends.{Ends, returns, faults}
use deadline_knapp_verparsed.Configfile.{Block}
use deadline_knapp_verparsed.Parser.Deterministic.{Contents-deterministic}
use deadline_knapp_verparsed.Serializer.Render.{render}
use deadline_knapp_verparsed.Merge.Union.{union_list}
use deadline_knapp_verparsed.Main.Merging.{
  Error, no_err, invalid_args_err, file_open_err, deserialize_err, serialize_err, merge_err,
  oo_memory_err, pointers, merge_config_files,
}
use deadline_knapp_verparsed.Main.Load.{AreConfigs, SomeUnreadable}
use deadline_knapp_verparsed.Main.Correct.{
  Clean, UnionOf, Verdict, MergesFiles, merge_config_files-MergesFiles,
}

AreConfigs-unique :
    (inputs : List Bytes) (bs cs : List Block)
    → AreConfigs inputs bs
    → AreConfigs inputs cs
    → bs ≡ cs
AreConfigs-unique [] [] [] h k = refl
AreConfigs-unique [] (b ∷ bs) cs h k = absurd h
AreConfigs-unique [] [] (c ∷ cs) h k = absurd k
AreConfigs-unique (s ∷ inputs) [] cs h k = absurd h
AreConfigs-unique (s ∷ inputs) (b ∷ bs) [] h k = absurd k
AreConfigs-unique (s ∷ inputs) (b ∷ bs) (c ∷ cs) h k =
    let one = (Contents-deterministic h.0.1 k.0.1).0 in
    let rest = AreConfigs-unique inputs bs cs h.1 k.1 in rw (one, rest) refl

UnionOf-unique :
    (inputs : List Bytes) (u v : Option Block) → UnionOf inputs u → UnionOf inputs v → u ≡ v
UnionOf-unique inputs u v (bs, h, e) (cs, k, f) =
    sym e ∙ ap (λ blocks. union_list (pointers blocks)) (AreConfigs-unique inputs bs cs h k) ∙ f

AreConfigs-readable :
    (inputs : List Bytes) (bs : List Block) → AreConfigs inputs bs → ¬ (SomeUnreadable inputs)
AreConfigs-readable [] bs h u = u
AreConfigs-readable (s ∷ inputs) [] h u = absurd h
AreConfigs-readable (s ∷ inputs) (b ∷ bs) h (inl bad) = bad b h.0
AreConfigs-readable (s ∷ inputs) (b ∷ bs) h (inr later) = AreConfigs-readable inputs bs h.1 later

union_list-nil : (b : Block) → ¬ (UnionOf [] (some b))
unfolding union_list
union_list-nil b ([], h, e) = cc
union_list-nil b (c ∷ blocks, h, e) = absurd h

-- The verdict on inputs whose blocks have a union, if every request is granted.
pub Verdict-succeeds :
    (inputs : List Bytes) (b : Block) (w₀ : World) (err : Error) (w : World)
    → Plentiful w₀
    → UnionOf inputs (some b)
    → Verdict w₀ inputs err w
    → (err ≡ no_err) × (w.out ≡ w₀.out ++ render b)
Verdict-succeeds inputs b w₀ no_err w plentiful u (b', u', o) =
    let same : some b' ≡ some b = UnionOf-unique inputs (some b') (some b) u' u in
    let same' : b' ≡ b = cc in (refl, o ∙ ap (λ x. w₀.out ++ render x) same')
Verdict-succeeds inputs b w₀ deserialize_err w plentiful u (inl starved, o) =
    absurd (starved plentiful)
Verdict-succeeds inputs b w₀ deserialize_err w plentiful u (inr bad, o) =
    absurd (AreConfigs-readable inputs u.0 u.1 bad)
Verdict-succeeds inputs b w₀ merge_err w plentiful u (inl starved, o) = absurd (starved plentiful)
Verdict-succeeds inputs b w₀ merge_err w plentiful u (inr u', o) =
    let same : some b ≡ none = UnionOf-unique inputs (some b) none u u' in cc
Verdict-succeeds inputs b w₀ oo_memory_err w plentiful u (starved, o) = absurd (starved plentiful)
Verdict-succeeds inputs b w₀ invalid_args_err w plentiful u (empty, o) =
    absurd (union_list-nil b (subst (λ l. UnionOf l (some b)) empty u))
Verdict-succeeds inputs b w₀ file_open_err w plentiful u h = absurd h
Verdict-succeeds inputs b w₀ serialize_err w plentiful u h = absurd h

-- If every request is granted, no block that an input stands for has a NULL string, each input is a
-- configuration, and their blocks have a union, then the call returns 0, with the text of exactly
-- that union written behind what was written before, and with nothing more allocated than before.
pub merge_config_files-succeeds :
    (inputs : List Bytes) (b : Block) (w₀ : World)
    → Plentiful w₀
    → Clean inputs
    → UnionOf inputs (some b)
    → (w : World) × (merge_config_files (length inputs) (some inputs) w₀ ≡ done no_err w)
      × (w.out ≡ w₀.out ++ render b)
      × (w.live ≡ w₀.live)
merge_config_files-succeeds inputs b w₀ plentiful clean u =
    concluded (merge_config_files-MergesFiles inputs w₀ clean)
  where
    Succeeds : Outcome Error → Type 0
    Succeeds r =
        (w : World) × (r ≡ done no_err w) × (w.out ≡ w₀.out ++ render b) × (w.live ≡ w₀.live)

    concluded : {r : Outcome Error} → Ends w₀ (MergesFiles w₀ inputs) r → Succeeds r
    concluded (faults starved) = absurd (starved plentiful)
    concluded (returns {a = err} {w} (v, l, c)) =
        let (same_error, wrote) = Verdict-succeeds inputs b w₀ err w plentiful u v in
        (w, ap (λ e. done e w) same_error, wrote, l)
