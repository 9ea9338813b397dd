-- ===== src/RoundTrip/Again.antt =====
-- configloader/main.c: what `merge_config_files` has written, given to it as the only input.
use deadline_knapp_verparsed.Base.{
  List, [], ◌∷◌, ◌++◌, length, some, Bytes, ◌≡◌, refl, ap, subst, ◌∙◌,
}
use deadline_knapp_verparsed.Runtime.{World, done}
use deadline_knapp_verparsed.Runtime.Ensures.{Plentiful}
use deadline_knapp_verparsed.Configfile.{Block}
use deadline_knapp_verparsed.Configfile.Present.{BlockPresent}
use deadline_knapp_verparsed.Parser.Correct.{IsConfig}
use deadline_knapp_verparsed.Parser.Deterministic.{Contents-deterministic}
use deadline_knapp_verparsed.Serializer.Render.{render}
use deadline_knapp_verparsed.Merge.Union.{union_all, union_list}
use deadline_knapp_verparsed.Main.Merging.{no_err, pointers, merge_config_files}
use deadline_knapp_verparsed.Main.Load.{AreConfigs}
use deadline_knapp_verparsed.Main.Correct.{Clean}
use deadline_knapp_verparsed.Main.Success.{merge_config_files-succeeds}
use deadline_knapp_verparsed.RoundTrip.{main-Present}
use deadline_knapp_verparsed.RoundTrip.Printable.{IsMain, render-IsConfig}
use deadline_knapp_verparsed.RoundTrip.Unions.{AllMain, union_list-IsMain}

-- A text of a block of bare words stands for no block with a NULL string.
only_Present :
    (s : Bytes) (b : Block) → IsMain b → IsConfig s b → (c : Block) → IsConfig s c → BlockPresent c
only_Present s b h d c d' =
    subst BlockPresent (Contents-deterministic d.1 d'.1).0 (main-Present b h)

AllMain-Clean :
    (inputs : List Bytes) (bs : List Block) → AllMain bs → AreConfigs inputs bs → Clean inputs
AllMain-Clean [] bs h k = tt
AllMain-Clean (s ∷ inputs) [] h k = absurd k
AllMain-Clean (s ∷ inputs) (b ∷ bs) h k =
    (only_Present s b h.0 k.0, AllMain-Clean inputs bs h.1 k.1)

-- If every request is granted, the inputs are the configurations of main blocks of bare words, in
-- which no subblock is named `main`, and these blocks have a union, then `merge_config_files`
-- returns 0 and writes, to an empty output, a configuration for that union; and a second call, with
-- what was written as its only input, returns 0, writes the same text again, and leaves nothing
-- more allocated.
pub merge_config_files-merge_config_files :
    (inputs : List Bytes) (bs : List Block) (u : Block) (w v : World)
    → AllMain bs
    → AreConfigs inputs bs
    → union_list (pointers bs) ≡ some u
    → Plentiful w
    → w.out ≡ []
    → Plentiful v
    → (w' : World) × (v' : World) × (merge_config_files (length inputs) (some inputs) w
        ≡ done no_err w')
      × IsConfig w'.out u
      × (merge_config_files 1 (some (w'.out ∷ [])) v ≡ done no_err v')
      × (v'.out ≡ v.out ++ w'.out)
      × (v'.live ≡ v.live)
unfolding union_list union_all
merge_config_files-merge_config_files inputs bs u w v h k e p o q =
    let main_union = union_list-IsMain bs u h e in
    let config = render-IsConfig u main_union in
    let (w', first, wrote, l) =
      merge_config_files-succeeds inputs u w p (AllMain-Clean inputs bs h k) (bs, k, e) in
    let (v', second, wrote', l') =
      merge_config_files-succeeds (render u ∷ []) u v q
        (only_Present (render u) u main_union config, tt) (u ∷ [], (config, tt), refl) in
    let same : w'.out ≡ render u = wrote ∙ ap (λ t. t ++ render u) o in
    (w', v', first, rw same config, rw same second, rw same wrote', l')
