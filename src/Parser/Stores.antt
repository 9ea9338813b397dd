-- ===== src/Parser/Stores.antt =====
-- configloader/configfile_deserialize.c: the ends of `parse_statement`, for every allocator.
use deadline_knapp_verparsed.Base.{
  ℕ, ◌+◌, ◌≤◌, List, [], ◌∷◌, ◌++◌, Option, some, Bytes, ◌≡◌, ◌⊎◌, inl, inr, arith, length,
}
use deadline_knapp_verparsed.Runtime.{World, CStr, Status, success, failed, Outcome, bind}
use deadline_knapp_verparsed.Runtime.Ensures.{
  Plentiful, Steady, Ensures, Ensures-bind, Ensures-map, Ensures-obtain, Ensures-update,
}
use deadline_knapp_verparsed.Configfile.{Directive, Block, Blocks, block}
use deadline_knapp_verparsed.Configfile.Memory.{
  size_args, size_directive, config_directive_create-Ensures,
}
use deadline_knapp_verparsed.Configfile.BlockMemory.{
  size_block, config_block_add_directive-Ensures, config_block_add_subblock-Ensures,
}
use deadline_knapp_verparsed.Lexer.{Token}
use deadline_knapp_verparsed.Parser.{Parsed, store_directive, store_subblock}
use deadline_knapp_verparsed.Parser.Grammar.{word, with_subblock}
use deadline_knapp_verparsed.Parser.Steps.{
  AddsAll, GivesUp, size_token, token_free-cleanup-Ensures, drop_directive-Ensures,
  drop_subblock-Ensures, stored-Ensures, add_tokens_to_directive-Ensures,
}

-- The outcome of a parse function that starts at the stream `s`, where `G` says which block and
-- rest the grammar allows: such a block and a rest that is no longer than `s`; or a failure, for a
-- request was refused or the grammar allows nothing. All that is allocated beside the block is what
-- was before.
pub data ParsesAs (w₀ : World) (n : ℕ) (s : Bytes) (G : Block → Bytes → Type 0)
    : Parsed → World → Type 0 where
  accepted :
      {b : Block} {s' : Bytes} {w : World}
      → w.live ≡ n + size_block b
      → G b s'
      → length s' ≤ length s
      → ParsesAs w₀ n s G (success, some b, s') w
  rejected :
      {b : Block} {s' : Bytes} {w : World}
      → w.live ≡ n + size_block b
      → (¬ (Plentiful w₀)) ⊎ ((b' : Block) (s'' : Bytes) → G b' s'' → ⊥)
      → ParsesAs w₀ n s G (failed, some b, s') w

module _ {A : Type 0} {w₀ : World} {B : Type 0} {Q : B → World → Type 0} (size : A → ℕ)
    (n : ℕ) where
  pub Ensures-adds :
      (a : A) {r : Outcome (Status × Option A)} (f : Status × Option A → World → Outcome B)
      → Ensures w₀ (AddsAll w₀ size n a) r
      → ((a' : A) (w : World)
          → Steady w₀ w
          → ¬ (Plentiful w₀)
          → w.live ≡ n + size a'
          → Ensures w₀ Q (f (failed, some a') w))
      → ((w : World) → Steady w₀ w → w.live ≡ n + size a → Ensures w₀ Q (f (success, some a) w))
      → Ensures w₀ Q (bind r f)
  Ensures-adds a f h on_failure on_success = Ensures-bind h cases
    where
      cases :
          (o : Status × Option A) (w : World)
          → Steady w₀ w
          → AddsAll w₀ size n a o w
          → Ensures w₀ Q (f o w)
      cases (failed, p) w s (starved, (a', same, e)) = rw same (on_failure a' w s starved e)
      cases (success, p) w s (same, e) = rw same (on_success w s e)

module _ {w₀ : World} {s : Bytes} {G : Block → Bytes → Type 0} where
  pub Ensures-parsed :
      {B : Type 0} {Q : B → World → Type 0} (n : ℕ) {r : Outcome Parsed}
      (f : Parsed → World → Outcome B)
      → Ensures w₀ (ParsesAs w₀ n s G) r
      → ((b : Block) (s' : Bytes) (w : World)
          → Steady w₀ w
          → w.live ≡ n + size_block b
          → G b s'
          → length s' ≤ length s
          → Ensures w₀ Q (f (success, some b, s') w))
      → ((b : Block) (s' : Bytes) (w : World)
          → Steady w₀ w
          → w.live ≡ n + size_block b
          → (¬ (Plentiful w₀)) ⊎ ((b' : Block) (s'' : Bytes) → G b' s'' → ⊥)
          → Ensures w₀ Q (f (failed, some b, s') w))
      → Ensures w₀ Q (bind r f)
  Ensures-parsed {Q} n f h on_success on_failure = Ensures-bind h cases
    where
      cases : (r : Parsed) (w : World) → Steady w₀ w → ParsesAs w₀ n s G r w → Ensures w₀ Q (f r w)
      cases r w st (accepted {b} {s'} e g l) = on_success b s' w st e g l
      cases r w st (rejected {b} {s'} e g) = on_failure b s' w st e g

  -- A way out that leaves the block alone.
  pub GivesUp-rejected :
      (b : Block) (n : ℕ) {r : Outcome Parsed}
      → (¬ (Plentiful w₀)) ⊎ ((b' : Block) (s'' : Bytes) → G b' s'' → ⊥)
      → Ensures w₀ (GivesUp (n + size_block b) (some b)) r
      → Ensures w₀ (ParsesAs w₀ n s G) r
  GivesUp-rejected b n why h = Ensures-map h λ r w (s', e, l). rw e (rejected l why)

-- The branches that store a directive or a subblock: `b` becomes `b'`, unless a request is refused.
abbrev pub Stores : World → ℕ → Block → Block → Bytes → Parsed → World → Type 0
Stores w₀ n b b' rest r w =
    ((r ≡ (success, some b', rest)) × (w.live ≡ n + size_block b'))
    ⊎ ((¬ (Plentiful w₀)) × GivesUp (n + size_block b) (some b) r w)

module _ {w₀ : World} (head : Bytes) (args : List CStr) (rest : Bytes) (n : ℕ) where
  gives_up :
      {b b' : Block} {r : Outcome Parsed}
      → ¬ (Plentiful w₀)
      → Ensures w₀ (GivesUp (n + size_block b) (some b)) r
      → Ensures w₀ (Stores w₀ n b b' rest) r
  gives_up starved h = Ensures-map h λ r w g. inr (starved, g)

  pub store_directive-Ensures :
      (next : Token) (name : CStr) (outer : List CStr) (ds : List Directive) (bs : Blocks)
      {w : World}
      → Steady w₀ w
      → w.live ≡ n + size_block (block name outer ds bs) + 1 + size_args args + size_token next
      → Ensures w₀
          (Stores w₀ n
            (block name outer ds bs)
            (block name outer (ds ++ record { name = some head; args = args } ∷ []) bs)
            rest)
          (store_directive (word (some head)) next args (some (block name outer ds bs)) rest w)
  unfolding store_directive
  store_directive-Ensures next name outer ds bs s e =
      let b = block name outer ds bs in
      let m = n + size_block b in
      let fresh : Directive = record { name = some head; args = [] } in
      let d : Directive = record { name = some head; args = args } in
      Ensures-obtain size_directive (m + 1 + size_args args + size_token next) _
        (config_directive_create-Ensures _ s (some head) e)
        (λ w₁ s₁ starved e₁.
          gives_up starved (token_free-cleanup-Ensures head args (some b) rest m next s₁ e₁))
        (λ w₁ s₁ e₁.
          Ensures-adds size_directive (m + 1 + size_args args + size_token next) d _
            (add_tokens_to_directive-Ensures args head _ s₁ e₁)
            (λ d' w₂ s₂ starved e₂.
              gives_up starved (drop_directive-Ensures head args (some b) rest m next d' s₂ e₂))
            (λ w₂ s₂ e₂.
              Ensures-update size_block (n + 1 + size_args args + size_token next)
                (size_directive d) _ _ _
                (config_block_add_directive-Ensures name outer ds bs d _ s₂ (omega arith))
                (λ w₃ s₃ starved e₃.
                  gives_up starved
                    (drop_directive-Ensures head args (some b) rest m next d s₃ (omega arith)))
                (λ w₃ s₃ e₃.
                  Ensures-map (stored-Ensures head args _ rest _ next s₃ (omega arith))
                    λ r w h. inl h)))

  pub store_subblock-Ensures :
      (next : Token) (sub : Block) (name : CStr) (outer : List CStr) (ds : List Directive)
      (bs : Blocks) {w : World}
      → Steady w₀ w
      → w.live
        ≡ n
          + size_block (block name outer ds bs)
          + 1
          + size_args args
          + size_token next
          + size_block sub
      → Ensures w₀
          (Stores w₀ n (block name outer ds bs) (with_subblock (block name outer ds bs) sub) rest)
          (store_subblock
            (word (some head))
            next
            args
            (some (block name outer ds bs))
            (success, some sub, rest)
            w)
  unfolding store_subblock
  store_subblock-Ensures next sub name outer ds bs s e =
      let b = block name outer ds bs in
      let m = n + size_block b in
      Ensures-update size_block (n + 1 + size_args args + size_token next) (size_block sub) _ _ _
        (config_block_add_subblock-Ensures name outer ds bs sub _ s (omega arith))
        (λ w₁ s₁ starved e₁.
          gives_up starved
            (drop_subblock-Ensures head args (some b) rest m next sub s₁ (omega arith)))
        (λ w₁ s₁ e₁.
          Ensures-map (stored-Ensures head args _ rest _ next s₁ (omega arith)) λ r w h. inl h)

module _ {w₀ : World} (head : Bytes) (args : List CStr) (rest : Bytes) (n : ℕ) where
  pub store_subblock-GivesUp :
      (next : Token) (sub : Block) (b : Block) {w : World}
      → Steady w₀ w
      → w.live ≡ n + size_block b + 1 + size_args args + size_token next + size_block sub
      → Ensures w₀
          (GivesUp (n + size_block b) (some b))
          (store_subblock (word (some head)) next args (some b) (failed, some sub, rest) w)
  unfolding store_subblock
  store_subblock-GivesUp next sub b s e =
      drop_subblock-Ensures head args (some b) rest (n + size_block b) next sub s e

module _ {w₀ : World} {n : ℕ} {s : Bytes} {G : Block → Bytes → Type 0} where
  pub Stores-parsed :
      {b b' : Block} {rest : Bytes} {r : Outcome Parsed}
      → G b' rest
      → length rest ≤ length s
      → Ensures w₀ (Stores w₀ n b b' rest) r
      → Ensures w₀ (ParsesAs w₀ n s G) r
  Stores-parsed {b} {b'} {rest} g l h = Ensures-map h cases
    where
      cases : (r : Parsed) (w : World) → Stores w₀ n b b' rest r w → ParsesAs w₀ n s G r w
      cases r w (inl (same, e)) = rw same (accepted e g l)
      cases r w (inr (starved, (s', same, e))) = rw same (rejected e (inl starved))

  -- What a parse function does on the rest `s'`, seen from `s`.
  pub ParsesAs-step :
      {s' : Bytes} {G' : Block → Bytes → Type 0} {r : Outcome Parsed}
      → ((b : Block) (t : Bytes) → G' b t → G b t)
      → ((b : Block) (t : Bytes) → G b t → G' b t)
      → length s' ≤ length s
      → Ensures w₀ (ParsesAs w₀ n s' G') r
      → Ensures w₀ (ParsesAs w₀ n s G) r
  ParsesAs-step {s'} {G'} to from l h = Ensures-map h cases
    where
      cases : (r : Parsed) (w : World) → ParsesAs w₀ n s' G' r w → ParsesAs w₀ n s G r w
      cases r w (accepted e g k) = accepted e (to _ _ g) (omega arith)
      cases r w (rejected e (inl starved)) = rejected e (inl starved)
      cases r w (rejected e (inr none_fits)) = rejected e (inr λ b t g. none_fits b t (from b t g))
