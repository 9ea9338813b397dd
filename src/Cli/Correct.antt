-- ===== src/Cli/Correct.antt =====
-- configloader/cli.c: the array of the arguments, and what the options mean.
use deadline_knapp_verparsed.Base.{
  ℕ, zero, suc, ◌+◌, ◌≤◌, ◌<◌, Bool, true, false, List, [], ◌∷◌, ◌++◌, append_assoc, append-nil,
  length, length-append, Option, none, some, codes, ◌≡◌, refl, ap, ◌∙◌, sym, arith, ltb_iff,
  leb-cases, inl, inr, not, if◌then◌else◌,
}
use deadline_knapp_verparsed.Runtime.{World, CStr, done, bind, pure}
use deadline_knapp_verparsed.Runtime.Ensures.{
  Plentiful, Steady, Steady-refl, Ensures, holds, Ensures-bind, Ensures-map, Ensures-option,
  Ensures-granted, malloc-Ensures, free-Ensures, realloc-Ensures, Granted,
}
use deadline_knapp_verparsed.Cli.{
  Cli, Key, key_v, key_o, key_arg, key_end, key_other, store_argument, next_alloc, parse_opt,
  parse_keys, cli_parse, cli_create, cli_free,
}

-- The stored arguments fit into the array, which is there.
abbrev pub FitsArgs : Cli → Type 0
FitsArgs cli = (cli.has_args ≡ true) × (length cli.args ≤ cli.args_alloc)

-- What the keys say, independently of the array.
abbrev pub positional : List Key → List CStr
positional [] = []
positional (key_arg a ∷ keys) = a ∷ positional keys
positional (_ ∷ keys) = positional keys

abbrev pub wants_verbose : List Key → Bool → Bool
wants_verbose [] before = before
wants_verbose (key_v ∷ keys) before = wants_verbose keys true
wants_verbose (_ ∷ keys) before = wants_verbose keys before

abbrev pub last_output : List Key → CStr → CStr
last_output [] before = before
last_output (key_o a ∷ keys) before = last_output keys a
last_output (_ ∷ keys) before = last_output keys before

-- The result of parsing: the program ends only after a refused request; otherwise the arguments
-- are behind those that were there, and the options are set.
abbrev pub Parses : World → ℕ → Cli → List Key → Option Cli → World → Type 0
Parses w₀ n cli keys none w = ¬ (Plentiful w₀)
Parses w₀ n cli keys (some cli') w =
    FitsArgs cli'
    × (cli'.args ≡ cli.args ++ positional keys)
    × (cli'.verbose ≡ wants_verbose keys cli.verbose)
    × (cli'.output_file ≡ last_output keys cli.output_file)
    × (w.live ≡ n)

next_alloc-grows : (n : ℕ) → n < next_alloc n
next_alloc-grows zero = omega arith
next_alloc-grows (suc n) = omega arith

store_argument_lem :
    (cli : Cli) (a : CStr) (w : World)
    → cli.has_args ≡ true
    → length cli.args < cli.args_alloc
    → store_argument cli a w ≡ done (some (record cli { args = cli.args ++ a ∷ [] })) w
unfolding store_argument
store_argument_lem cli a w h l = rw (h, (ltb_iff (length cli.args) cli.args_alloc).1 l) refl

length-snoc : (xs : List CStr) (x : CStr) → length (xs ++ x ∷ []) ≡ length xs + 1
length-snoc xs x = length-append xs (x ∷ [])

-- The array with room for one more argument takes it.
stored :
    {w₀ : World} (cli : Cli) (a : CStr) (n : ℕ) {w : World}
    → cli.has_args ≡ true
    → length cli.args < cli.args_alloc
    → Steady w₀ w
    → w.live ≡ n
    → Ensures w₀ (Parses w₀ n cli (key_arg a ∷ [])) (store_argument cli a w)
stored cli a n {w} h l s e =
    rw (store_argument_lem cli a w h l)
      (holds s ((h, rw (length-snoc cli.args a) (omega (arith, l))), refl, refl, refl, e))

parse_opt-Parses :
    {w₀ : World} (key : Key) (cli : Cli) (n : ℕ) {w : World}
    → FitsArgs cli
    → Steady w₀ w
    → w.live ≡ n
    → Ensures w₀ (Parses w₀ n cli (key ∷ [])) (parse_opt key cli w)
unfolding parse_opt
parse_opt-Parses key_v cli n h s e = holds s (h, sym (append-nil cli.args), refl, refl, e)
parse_opt-Parses (key_o a) cli n h s e = holds s (h, sym (append-nil cli.args), refl, refl, e)
parse_opt-Parses key_end cli n h s e = holds s (h, sym (append-nil cli.args), refl, refl, e)
parse_opt-Parses key_other cli n h s e = holds s (h, sym (append-nil cli.args), refl, refl, e)
parse_opt-Parses {w₀} (key_arg a) cli n h s e = elim (leb-cases cli.args_alloc (length cli.args)) [
  | inr (room, l) ↦ rw room (stored cli a n h.0 l s e)
  | inl (full, l) ↦ rw (full, h.0) (Ensures-bind (realloc-Ensures s e true) grown)
]
  where
    bigger : Cli
    bigger = record cli { has_args = true; args_alloc = next_alloc cli.args_alloc }

    grown :
        (granted : Bool) (w' : World)
        → Steady w₀ w'
        → Granted w₀ n 0 granted w'
        → Ensures w₀
            (Parses w₀ n cli (key_arg a ∷ []))
            ((if not granted then pure none else store_argument bigger a) w')
    grown false w' s' p = holds s' p.0
    grown true w' s' p =
        stored bigger a n refl (omega (arith, h.1, next_alloc-grows cli.args_alloc)) s'
          (omega (arith, p))

-- A key, and then the others.
positional-cons :
    (key : Key) (keys : List Key)
    → positional (key ∷ keys) ≡ positional (key ∷ []) ++ positional keys
positional-cons key_v keys = refl
positional-cons key_end keys = refl
positional-cons key_other keys = refl
positional-cons (key_o a) keys = refl
positional-cons (key_arg a) keys = refl

wants_verbose-cons :
    (key : Key) (keys : List Key) (before : Bool)
    → wants_verbose (key ∷ keys) before ≡ wants_verbose keys (wants_verbose (key ∷ []) before)
wants_verbose-cons key_v keys before = refl
wants_verbose-cons key_end keys before = refl
wants_verbose-cons key_other keys before = refl
wants_verbose-cons (key_o a) keys before = refl
wants_verbose-cons (key_arg a) keys before = refl

last_output-cons :
    (key : Key) (keys : List Key) (before : CStr)
    → last_output (key ∷ keys) before ≡ last_output keys (last_output (key ∷ []) before)
last_output-cons key_v keys before = refl
last_output-cons key_end keys before = refl
last_output-cons key_other keys before = refl
last_output-cons (key_o a) keys before = refl
last_output-cons (key_arg a) keys before = refl

Parses-cons :
    (w₀ : World) (n : ℕ) (key : Key) (keys : List Key) (cli cli' : Cli) (w' : World)
    → Parses w₀ n cli (key ∷ []) (some cli') w'
    → (o : Option Cli) (w : World) → Parses w₀ n cli' keys o w
    → Parses w₀ n cli (key ∷ keys) o w
Parses-cons w₀ n key keys cli cli' w' p none w q = q
Parses-cons w₀ n key keys cli cli' w' p (some c) w q = (
  q.0,
  q.1
      ∙ ap (λ args. args ++ positional keys) p.1
      ∙ append_assoc cli.args (positional (key ∷ [])) (positional keys)
      ∙ ap (λ args. cli.args ++ args) (sym (positional-cons key keys)),
  q.2 ∙ ap (wants_verbose keys) p.2 ∙ sym (wants_verbose-cons key keys cli.verbose),
  q.3 ∙ ap (last_output keys) p.3 ∙ sym (last_output-cons key keys cli.output_file),
  q.4,
)

parse_keys-Parses :
    {w₀ : World} (keys : List Key) (cli : Cli) (n : ℕ) {w : World}
    → FitsArgs cli
    → Steady w₀ w
    → w.live ≡ n
    → Ensures w₀ (Parses w₀ n cli keys) (parse_keys keys cli w)
unfolding parse_keys
parse_keys-Parses [] cli n h s e = holds s (h, sym (append-nil cli.args), refl, refl, e)
parse_keys-Parses {w₀} (key ∷ keys) cli n h s e =
    Ensures-option _ (parse_opt-Parses key cli n h s e) (λ w' s' p. holds s' p)
      (λ cli' w' s' p.
        Ensures-map (parse_keys-Parses keys cli' n p.0 s' p.4)
          (Parses-cons w₀ n key keys cli cli' w' p))

-- From a state in which the array is there and has room for the arguments stored in it, parsing any
-- calls of `argp_parse`, for every allocator, leads to such a state. Only after a refused request
-- the program is ended, or faults. Otherwise the arguments are, behind those that were there, the
-- positional ones in order; `verbose` is set if the option was given; the output file is the last
-- one that was given, or "-"; and the count of allocations is the same.
pub cli_parse-Parses :
    (keys : List Key) (cli : Cli) (w₀ : World)
    → FitsArgs cli
    → Ensures w₀
        (Parses w₀ w₀.live (record cli { verbose = false; output_file = some (codes "-") }) keys)
        (cli_parse keys cli w₀)
unfolding cli_parse
cli_parse-Parses keys cli w₀ h =
    parse_keys-Parses keys (record cli { verbose = false; output_file = some (codes "-") }) w₀.live
      h (Steady-refl w₀) refl

-- What `cli_create` leaves.
abbrev pub Creates : World → Option Cli → World → Type 0
Creates w₀ none w = (¬ (Plentiful w₀)) × (w.live ≡ w₀.live)
Creates w₀ (some cli) w = FitsArgs cli × (cli.args ≡ []) × (w.live ≡ w₀.live + 2)

pub cli_create-Creates : (w₀ : World) → Ensures w₀ (Creates w₀) (cli_create w₀)
unfolding cli_create
cli_create-Creates w₀ =
    Ensures-granted w₀.live 1 _ (malloc-Ensures (Steady-refl w₀) refl)
      (λ w s starved e. holds s (starved, e))
      (λ w s e.
        Ensures-granted (w₀.live + 1) 1 _ (malloc-Ensures s e)
          (λ w₁ s₁ starved e₁.
            Ensures-bind (free-Ensures w₀.live true s₁ e₁) λ _ w₂ s₂ e₂. holds s₂ (starved, e₂))
          (λ w₁ s₁ e₁. holds s₁ ((refl, omega arith), refl, omega (arith, e₁))))

-- A structure that is created and freed leaves nothing allocated, for every allocator, also where
-- the creation fails half way; only after a refused request the run may fault.
pub cli_free-cli_create :
    (w₀ : World)
    → Ensures w₀
        (λ _ w. w.live ≡ w₀.live)
        (bind (cli_create w₀) λ o. elim o [ none ↦ pure tt | some cli ↦ cli_free cli ])
unfolding cli_free
cli_free-cli_create w₀ =
    Ensures-option _ (cli_create-Creates w₀) (λ w s p. holds s p.1)
      (λ cli w s p. rw p.0.0 (
        Ensures-bind (free-Ensures (w₀.live + 1) true s (omega (arith, p.2)))
          λ _ w₁ s₁ e₁. free-Ensures w₀.live true s₁ e₁))
