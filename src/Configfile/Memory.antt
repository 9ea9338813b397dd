-- ===== src/Configfile/Memory.antt =====
-- configloader/configfile.c, directives: what each operation returns and how many allocations it
-- leaves, for every allocator.
use deadline_knapp_verparsed.Base.{
  ℕ, ◌+◌, not, List, [], ◌∷◌, ◌++◌, none, some, ◌≡◌, refl, arith, is_empty, is_some, append_assoc,
  append-nil, true,
}
use deadline_knapp_verparsed.Runtime.{World, CStr, bind, Status, success, failed, Outcome, malloc}
use deadline_knapp_verparsed.Runtime.Ensures.{
  Plentiful, Steady, Ensures, holds, ensures, Ensures-bind, Obtains, Updates, Ensures-obtain,
  Ensures-update, held, free-Ensures,
}
use deadline_knapp_verparsed.Configfile.Data.{Directive}
use deadline_knapp_verparsed.Configfile.DirectiveOps.{
  config_strdup, config_directive_create, free_strings, free_args, append_arg,
  config_directive_free, store_arg, config_directive_add_arg, copy_directive_args,
  config_directive_copy,
}

-- The allocations that belong to a string, to an array of strings, and to a directive.
abbrev pub size_string : CStr → ℕ
size_string s = held (is_some s)

abbrev pub size_strings : List CStr → ℕ
size_strings [] = 0
size_strings (s ∷ args) = size_string s + size_strings args

abbrev pub size_args : List CStr → ℕ
size_args args = held (not (is_empty args)) + size_strings args

abbrev pub size_directive : Directive → ℕ
size_directive d = 1 + size_string d.name + size_args d.args

-- What `config_strdup` returns for a string that is not NULL, and for NULL.
abbrev one : {A : Type 0} → A → ℕ
one a = 1

abbrev Duplicates : World → ℕ → CStr → CStr → World → Type 0
Duplicates w₀ n none c w = (c ≡ none) × (w.live ≡ n)
Duplicates w₀ n (some t) c w = Obtains w₀ one n t c w

module _ {w₀ w : World} (n : ℕ) (s : Steady w₀ w) where
  pub config_strdup-Ensures :
      (c : CStr) → w.live ≡ n → Ensures w₀ (Duplicates w₀ n c) (config_strdup c w)
  unfolding config_strdup malloc
  config_strdup-Ensures none e = holds s (refl, e)
  config_strdup-Ensures (some t) e = ensures _ (ground (arith, s.plentiful))

  pub config_directive_create-Ensures :
      (c : CStr)
      → w.live ≡ n
      → Ensures w₀
          (Obtains w₀ size_directive n (record { name = c; args = [] }))
          (config_directive_create c w)
  unfolding config_directive_create
  config_directive_create-Ensures none e = ensures _ (ground (arith, s.plentiful))
  config_directive_create-Ensures (some t) e = ensures _ (ground (arith, s.plentiful))

pub size_strings-append :
    (xs ys : List CStr) → size_strings (xs ++ ys) ≡ size_strings xs + size_strings ys
size_strings-append [] ys = omega arith
size_strings-append (x ∷ xs) ys = omega (arith, size_strings-append xs ys)

-- The result of adding an argument to an array: the array with it, or the array as it was.
abbrev StoresArg : World → ℕ → List CStr → CStr → Status × List CStr → World → Type 0
StoresArg w₀ n args a (success, r) w =
    (r ≡ args ++ a ∷ []) × (w.live ≡ n + size_args (args ++ a ∷ []))
StoresArg w₀ n args a (failed, r) w =
    (¬ (Plentiful w₀)) × (r ≡ args) × (w.live ≡ n + size_args args)

module _ {w₀ : World} where
  -- The copy is freed if the array cannot grow.
  store_arg-Ensures :
      (args : List CStr) (c : CStr) (n : ℕ) {w : World}
      → Steady w₀ w
      → w.live ≡ n + size_args args + size_string c
      → Ensures w₀ (StoresArg w₀ n args c) (store_arg args c w)
  unfolding store_arg
  store_arg-Ensures [] c n s e = ensures _ (ground (arith, s.plentiful))
  store_arg-Ensures (a ∷ args) c n s e =
      ensures _ (ground (arith, s.plentiful, size_strings-append args (c ∷ [])))

  pub append_arg-Ensures :
      (args : List CStr) (a : CStr) (n : ℕ) {w : World}
      → Steady w₀ w
      → w.live ≡ n + size_args args
      → Ensures w₀ (StoresArg w₀ n args a) (append_arg args a w)
  unfolding append_arg
  append_arg-Ensures args none n s e =
      Ensures-bind (config_strdup-Ensures _ s none e)
        λ c w₁ s₁ h. rw h.0 (store_arg-Ensures args none n s₁ (omega arith))
  append_arg-Ensures args (some t) n s e =
      Ensures-obtain one (n + size_args args) _ (config_strdup-Ensures _ s (some t) e)
        (λ w₁ s₁ starved e₁. holds s₁ (starved, refl, e₁))
        (λ w₁ s₁ e₁. store_arg-Ensures args (some t) n s₁ e₁)

  pub Ensures-stores :
      {B : Type 0} {Q : B → World → Type 0} (n : ℕ) (args : List CStr) (a : CStr)
      {r : Outcome (Status × List CStr)} (f : Status × List CStr → World → Outcome B)
      → Ensures w₀ (StoresArg w₀ n args a) r
      → ((w : World)
          → Steady w₀ w
          → ¬ (Plentiful w₀)
          → w.live ≡ n + size_args args
          → Ensures w₀ Q (f (failed, args) w))
      → ((w : World)
          → Steady w₀ w
          → w.live ≡ n + size_args (args ++ a ∷ [])
          → Ensures w₀ Q (f (success, args ++ a ∷ []) w))
      → Ensures w₀ Q (bind r f)
  Ensures-stores {Q} n args a f h on_failure on_success = Ensures-bind h cases
    where
      cases :
          (o : Status × List CStr) (w : World)
          → Steady w₀ w
          → StoresArg w₀ n args a o w
          → Ensures w₀ Q (f o w)
      cases (failed, p) w s (starved, same, e) = rw same (on_failure w s starved e)
      cases (success, p) w s (same, e) = rw same (on_success w s e)

module _ {w₀ : World} where
  pub free_strings-Ensures :
      (args : List CStr) (n : ℕ) {w : World}
      → Steady w₀ w
      → w.live ≡ n + size_strings args
      → Ensures w₀ (λ _ w'. w'.live ≡ n) (free_strings args w)
  unfolding free_strings
  free_strings-Ensures [] n s e = holds s (omega arith)
  free_strings-Ensures (a ∷ args) n s e =
      Ensures-bind (free-Ensures (n + size_strings args) (is_some a) s (omega arith))
        λ _ w' s' e'. free_strings-Ensures args n s' e'

  pub free_args-Ensures :
      (args : List CStr) (n : ℕ) {w : World}
      → Steady w₀ w
      → w.live ≡ n + size_args args
      → Ensures w₀ (λ _ w'. w'.live ≡ n) (free_args args w)
  unfolding free_args
  free_args-Ensures [] n s e = holds s (omega arith)
  free_args-Ensures (a ∷ args) n s e =
      Ensures-bind (free_strings-Ensures (a ∷ args) (n + 1) s (omega arith))
        λ _ w' s' e'. free-Ensures n true s' e'

  -- Freeing a directive gives back exactly the allocations that belong to it, and never frees more
  -- than is allocated.
  pub config_directive_free-Ensures :
      (d : Directive) (n : ℕ) {w : World}
      → Steady w₀ w
      → w.live ≡ n + size_directive d
      → Ensures w₀ (λ _ w'. w'.live ≡ n) (config_directive_free (some d) w)
  unfolding config_directive_free
  config_directive_free-Ensures d n s e =
      Ensures-bind (free-Ensures (n + 1 + size_args d.args) (is_some d.name) s (omega arith))
        λ _ w₁ s₁ e₁.
          Ensures-bind (free_args-Ensures d.args (n + 1) s₁ (omega arith))
            λ _ w₂ s₂ e₂. free-Ensures n true s₂ e₂

  -- Adding an argument to a directive, for every allocator: it is put behind the other ones, with
  -- the allocations of its copy; or, only after a refused request, the directive is as before and
  -- nothing is left over, or the run faults.
  pub config_directive_add_arg-Ensures :
      (d : Directive) (a : CStr) (n : ℕ) {w : World}
      → Steady w₀ w
      → w.live ≡ n + size_directive d
      → Ensures w₀
          (Updates w₀ size_directive n 0 d (record d { args = d.args ++ a ∷ [] }))
          (config_directive_add_arg (some d) a w)
  unfolding config_directive_add_arg
  config_directive_add_arg-Ensures d a n s e =
      Ensures-stores (n + 1 + size_string d.name) d.args a _
        (append_arg-Ensures d.args a _ s (omega arith))
        (λ w' s' starved e'. holds s' (starved, refl, omega arith))
        (λ w' s' e'. holds s' (refl, omega arith))

  copy_directive_args-Ensures :
      (args : List CStr) (d : Directive) (n : ℕ) {w : World}
      → Steady w₀ w
      → w.live ≡ n + size_directive d
      → Ensures w₀
          (Obtains w₀ size_directive n (record d { args = d.args ++ args }))
          (copy_directive_args args (some d) w)
  unfolding copy_directive_args
  copy_directive_args-Ensures [] d n s e = holds s (rw append-nil, rw append-nil e)
  copy_directive_args-Ensures (a ∷ args) d n s e =
      Ensures-update size_directive n 0 d _ _ (config_directive_add_arg-Ensures d a n s e)
        (λ w₁ s₁ starved e₁.
          Ensures-bind (config_directive_free-Ensures d n s₁ (omega arith))
            λ _ w₂ s₂ e₂. holds s₂ (starved, e₂))
        (λ w₁ s₁ e₁.
          rw (append_assoc d.args (a ∷ []) args) at
            (copy_directive_args-Ensures args (record d { args = d.args ++ a ∷ [] }) n s₁ e₁))

  -- Copying a directive, for every allocator: the copy equals the directive and owns its own
  -- allocations; or it is NULL, only after a refused request, and then nothing of the copy stays
  -- allocated; or the run faults, again only after a refused request.
  pub config_directive_copy-Ensures :
      (d : Directive) (n : ℕ) {w : World}
      → Steady w₀ w
      → w.live ≡ n
      → Ensures w₀ (Obtains w₀ size_directive n d) (config_directive_copy (some d) w)
  unfolding config_directive_copy
  config_directive_copy-Ensures d n s e =
      Ensures-obtain size_directive n _ (config_directive_create-Ensures n s d.name e)
        (λ w₁ s₁ starved e₁. holds s₁ (starved, e₁))
        (λ w₁ s₁ e₁. copy_directive_args-Ensures d.args _ n s₁ e₁)
