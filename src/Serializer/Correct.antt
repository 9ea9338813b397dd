-- ===== src/Serializer/Correct.antt =====
-- The serializer writes the text of the block and hands out the commands of the description,
-- provided no name and no argument is NULL.
use deadline_knapp_verparsed.Base.{
  ℕ, zero, suc, Bool, true, false, List, [], ◌∷◌, ◌++◌, none, some, Bytes, codes, ◌≡◌, refl, sym,
  ap, ◌∙◌, append_assoc, append-nil,
}
use deadline_knapp_verparsed.Runtime.{
  World, CStr, success, Outcome, done, fault, out_of_fuel, bind, Piece, text, arg, vformat,
}
use deadline_knapp_verparsed.Logger.{log_info, log_debug}
use deadline_knapp_verparsed.Configfile.{Directive, Block, Blocks, block, nil, cons}
use deadline_knapp_verparsed.Configfile.Present.{
  Present, AllPresent, DirectivesPresent, BlockPresent, BlocksPresent,
}
use deadline_knapp_verparsed.Lexer.{contents}
use deadline_knapp_verparsed.Serializer.Render.{
  indentation, arg_text, directive_text, directives_text, space_text, words_text, is_named,
  open_text, close_text, inner_level, block_text, blocks_text, render, block_names, blocks_names,
  echo, echoes,
}
use deadline_knapp_verparsed.Serializer.{
  indent_by, indent, write_args, write_directive, serialize_directive, write_block_args,
  serialize_directives, is_not_main, open_context, close_context, space_before_subblocks,
  serialize_block, serialize_blocks, config_serialize,
}
use deadline_knapp_verparsed.Serializer.Emits.{
  Emits, emits, same_text, Emits-bind, Emits-cast, Emits-nothing, Emits-fprintf, Emits-word,
  Emits-vlog, Emits-echo, Writes,
}

indent-Writes : (level : ℕ) (w : World) → Writes w (indentation level) (indent level w)
unfolding indent
indent-Writes zero w = Emits-nothing tt
indent-Writes (suc level) w =
    Emits-bind _ (Emits-fprintf (text indent_by ∷ []) indent_by refl)
      λ _ w₁ v. indent-Writes level w₁

write_args-Writes :
    (a : CStr) (args : List CStr) (w : World)
    → Present a
    → AllPresent args
    → Writes w (λ rest. contents a ++ arg_text args rest) (write_args a args w)
unfolding write_args
write_args-Writes none args w h hs = absurd h
write_args-Writes (some t) [] w h hs =
    Emits-bind _ (Emits-word t (codes ";\n")) λ _ w₁ v. Emits-nothing tt
write_args-Writes (some t) (a ∷ args) w h hs =
    Emits-bind _ (Emits-word t (codes " ")) λ _ w₁ v. write_args-Writes a args w₁ hs.0 hs.1

write_directive-Writes :
    (name : CStr) (args : List CStr) (w : World)
    → Present name
    → AllPresent args
    → Writes w (λ rest. contents name ++ arg_text args rest) (write_directive name args w)
unfolding write_directive
write_directive-Writes none args w h hs = absurd h
write_directive-Writes (some t) [] w h hs =
    Emits-bind _ (Emits-word t (codes ";\n")) λ _ w₁ v. Emits-nothing tt
write_directive-Writes (some t) (a ∷ args) w h hs =
    Emits-bind _ (Emits-word t (codes " ")) λ _ w₁ v. write_args-Writes a args w₁ hs.0 hs.1

log_info-Writes :
    (name : CStr) (w : World) → Present name → Writes w same_text (log_info (arg name ∷ []) w)
unfolding log_info
log_info-Writes none w h = absurd h
log_info-Writes (some t) w h = Emits-vlog 0 (arg (some t) ∷ []) refl

serialize_directive-Writes :
    (d : Directive) (level : ℕ) (w : World)
    → Present d.name
    → AllPresent d.args
    → Writes w (directive_text level d) (serialize_directive d level w)
unfolding serialize_directive
serialize_directive-Writes d level w h hs = Emits-bind _ (log_info-Writes d.name w h) λ _ w₁ v₁.
    Emits-bind _ (indent-Writes level w₁) λ _ w₂ v₂. write_directive-Writes d.name d.args w₂ h hs

serialize_directives-Writes :
    (ds : List Directive) (level : ℕ) (w : World)
    → DirectivesPresent ds
    → Writes w (directives_text level ds) (serialize_directives ds level w)
unfolding serialize_directives
serialize_directives-Writes [] level w h = Emits-nothing tt
serialize_directives-Writes (d ∷ ds) level w h =
    Emits-bind _ (serialize_directive-Writes d level w h.0.0 h.0.1)
      λ _ w₁ v. serialize_directives-Writes ds level w₁ h.1

write_block_args-Writes :
    (args : List CStr) (w : World)
    → AllPresent args
    → Writes w (λ rest. words_text args rest) (write_block_args args w)
unfolding write_block_args
write_block_args-Writes [] w h = Emits-nothing tt
write_block_args-Writes (none ∷ args) w h = absurd h.0
write_block_args-Writes (some t ∷ args) w h =
    Emits-bind _ (Emits-word t (codes " ")) λ _ w₁ v. write_block_args-Writes args w₁ h.1

open_context-Writes :
    (named : Bool) (name : CStr) (args : List CStr) (level : ℕ) (w : World)
    → Present name
    → AllPresent args
    → Writes w (open_text named level name args) (open_context named name args level w)
unfolding open_context
open_context-Writes false name args level w h hs = Emits-nothing tt
open_context-Writes true none args level w h hs = absurd h
open_context-Writes true (some t) args level w h hs =
    Emits-bind _ (indent-Writes level w) λ _ w₁ v₁.
      Emits-bind _ (Emits-word t (codes " ")) λ _ w₂ v₂.
        Emits-bind _ (write_block_args-Writes args w₂ hs) λ _ w₃ v₃.
          Emits-bind _ (Emits-fprintf (text (codes "{\n") ∷ []) (codes "{\n") refl)
            λ _ w₄ v₄. Emits-nothing tt

close_context-Writes :
    (named : Bool) (level : ℕ) (w : World)
    → Writes w (close_text named level) (close_context named level w)
unfolding close_context
close_context-Writes false level w = Emits-nothing tt
close_context-Writes true level w = Emits-bind _ (indent-Writes level w) λ _ w₁ v₁.
    Emits-bind _ (Emits-fprintf (text (codes "}\n") ∷ []) (codes "}\n") refl)
      λ _ w₂ v₂. Emits-nothing tt

space_before_subblocks-Writes :
    (ds : List Directive) (w : World) → Writes w (space_text ds) (space_before_subblocks ds w)
unfolding space_before_subblocks
space_before_subblocks-Writes [] w = Emits-nothing tt
space_before_subblocks-Writes (d ∷ ds) w =
    Emits-bind _ (Emits-fprintf (text (codes "\n") ∷ []) (codes "\n") refl)
      λ _ w₁ v. Emits-nothing tt

echoes-append : (v : ℕ) (xs ys : List Bytes) → echoes v (xs ++ ys) ≡ echoes v xs ++ echoes v ys
unfolding echoes
echoes-append v [] ys = refl
echoes-append v (x ∷ xs) ys =
    ap (◌++◌ (echo v x)) (echoes-append v xs ys)
    ∙ sym (append_assoc (echo v x) (echoes v xs) (echoes v ys))

Emits-visible :
    {A : Type 0} {w : World} {T : Bytes → Bytes} {r : Outcome A} (names : List Bytes) {v : ℕ}
    → w.visibility ≡ v
    → Emits w T (echoes w.visibility names) r
    → Emits w T (echoes v names) r
Emits-visible names e = Emits-cast (ap (λ u. echoes u names) e)

mutual
  unfolding serialize_block block_text block_names echoes is_not_main

  serialize_block-Emits :
      (b : Block) (level : ℕ) (w : World)
      → BlockPresent b
      → Emits w
          (block_text level b)
          (echoes w.visibility (block_names b))
          (serialize_block b level w)
  serialize_block-Emits (block none args ds bs) level w h = absurd h.0
  serialize_block-Emits (block (some name) args ds bs) level w h =
      let named = is_named (some name) in
      let inner = inner_level named level in
      Emits-cast (ap (◌++◌ (echo w.visibility name)) (append-nil _)) (
        Emits-bind _ (Emits-echo name) λ _ w₁ v₁.
          Emits-bind _ (open_context-Writes named (some name) args level w₁ tt h.1) λ _ w₂ v₂.
            Emits-bind _ (serialize_directives-Writes ds inner w₂ h.2) λ _ w₃ v₃.
              Emits-bind _ (space_before_subblocks-Writes ds w₃) λ _ w₄ v₄.
                Emits-bind _
                  (Emits-visible (blocks_names bs) (v₄ ∙ v₃ ∙ v₂ ∙ v₁)
                    (serialize_blocks-Emits bs inner w₄ h.3))
                  λ _ w₅ v₅. close_context-Writes named level w₅)

  serialize_blocks-Emits :
      (bs : Blocks) (level : ℕ) (w : World)
      → BlocksPresent bs
      → Emits w
          (blocks_text level bs)
          (echoes w.visibility (blocks_names bs))
          (serialize_blocks bs level w)
  serialize_blocks-Emits nil level w h = Emits-nothing tt
  serialize_blocks-Emits (cons b bs) level w h =
      Emits-cast (sym (echoes-append w.visibility (block_names b) (blocks_names bs))) (
        Emits-bind _ (serialize_block-Emits b level w h.0)
          λ _ w₁ v. Emits-visible (blocks_names bs) v (serialize_blocks-Emits bs level w₁ h.1))

bind_assoc :
    {A B C : Type 0} (r : Outcome A) (f : A → World → Outcome B) (g : B → World → Outcome C)
    → bind (bind r f) g ≡ bind r (λ a w. bind (f a w) g)
bind_assoc (done a w) f g = refl
bind_assoc fault f g = refl
bind_assoc out_of_fuel f g = refl

-- The run returns the value `a`, and has written the text `t` and handed out the commands `cs`.
abbrev pub Returns : {A : Type 0} → World → A → Bytes → List Bytes → Outcome A → Type 0
Returns w a t cs r =
    (w' : World) × (r ≡ done a w')
    × (w'.out ≡ w.out ++ t)
    × (w'.commands ≡ w.commands ++ cs)
    × (w'.live ≡ w.live)
    × (w'.answers ≡ w.answers)
    × (w'.visibility ≡ w.visibility)

Emits-Returns :
    {A : Type 0} {w : World} {T : Bytes → Bytes} {cs : List Bytes} {r : Outcome (Unit {0})} (a : A)
    → Emits w T cs r
    → Returns w a (T []) cs (bind r λ _ u. done a u)
Emits-Returns a (emits {w'} o c v l n) = (w', refl, sym (append-nil w'.out) ∙ o [], c, l, n, v)

log_debug-Writes :
    (format : List Piece) {t : Bytes} (w : World)
    → vformat format ≡ some t
    → Writes w same_text (log_debug format w)
unfolding log_debug
log_debug-Writes format w h = Emits-vlog 1 format h

-- A block without a NULL name or argument is written as its text, at every log level and whatever
-- the allocator does: the run ends with success, neither allocates nor frees, and leaves the
-- allocator and the log level as they are. The commands
-- that it hands to the shell are, while messages of level INFO are on, one `echo` with the name of
-- each block whose name is shorter than 2^31 bytes, from the outside inwards, and otherwise none.
pub config_serialize-Returns :
    (b : Block) (w : World)
    → BlockPresent b
    → Returns w success (render b) (echoes w.visibility (block_names b)) (config_serialize b w)
unfolding config_serialize render
config_serialize-Returns b w h =
    let message = text (codes "serializing configuration") ∷ [] in
    rw
      (← bind_assoc (log_debug message w) (λ _ w₁. serialize_block b 0 w₁)
        (λ _ w₂. done success w₂))
      (Emits-Returns success (
        Emits-bind _ (log_debug-Writes message w refl)
          λ _ w₁ v. Emits-visible (block_names b) v (serialize_block-Emits b 0 w₁ h)))
