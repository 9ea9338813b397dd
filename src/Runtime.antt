-- ===== src/Runtime.antt =====
-- What the C program runs on: the allocator, the output stream, the standard error stream, the
-- shell, and the control flow of a run. All operations are of the C library, but for the record
-- of the state; the code of configloader/ is in the other modules.
pub mod Ensures
pub mod Ends
pub mod Files
pub mod Leaves
pub mod Later
use deadline_knapp_verparsed.Base.{
  ℕ, zero, suc, Bool, true, false, List, [], ◌∷◌, ◌++◌, Option, none, some, Bytes,
}

-- `answers` are the allocator's answers to the coming requests, in order; after the last of them
-- every request is granted. `live` counts the allocations that have not been freed.
-- `visibility` is the global LOG_LVL_VISIBILITY. `err` is what was written to stderr, `commands`
-- what was handed to `system`, `out` what was written to the output stream,
-- `printed` what was written to the stream `stdout` by that name.
pub record World : Type 0 where
  pub answers : List Bool
  pub live : ℕ
  pub visibility : ℕ
  pub err : Bytes
  pub commands : List Bytes
  pub out : Bytes
  pub printed : Bytes

-- `fault` is undefined behaviour: a NULL dereferenced, or a `free` of what is not allocated.
-- `out_of_fuel` has no counterpart in the program.
pub data Outcome {ℓ} (A : Type ℓ) : Type ℓ where
  done : A → World → Outcome A
  fault out_of_fuel : Outcome A

abbrev pub M : Type 0 → Type 0
M A = World → Outcome A

abbrev pub bind : {A B : Type 0} → Outcome A → (A → M B) → Outcome B
bind (done a w) f = f a w
bind fault f = fault
bind out_of_fuel f = out_of_fuel

infixl 5 ◌>>=◌ ◌>>◌
abbrev pub ◌>>=◌ : {A B : Type 0} → M A → (A → M B) → M B
◌>>=◌ m f w = bind (m w) f

abbrev pub ◌>>◌ : {A B : Type 0} → M A → M B → M B
◌>>◌ m k w = bind (m w) λ _. k

abbrev pub pure : {A : Type 0} → A → M A
pure a w = done a w

abbrev pub crash : {A : Type 0} → M A
crash w = fault

-- A `char*`: NULL, or a C string.
abbrev pub CStr : Type 0
CStr = Option Bytes

-- The result of a function that returns 0 or -1.
pub data Status : Type 0 where
  success failed : Status

-- `malloc` or `calloc`: whether the result is not NULL.
request : List Bool → M Bool
request [] w = done true (record w { live = suc w.live })
request (true ∷ later) w = done true (record w { answers = later; live = suc w.live })
request (false ∷ later) w = done false (record w { answers = later })

unfoldable pub malloc : M Bool
unfolding request
malloc w = request w.answers w

-- `realloc` of a pointer that is not NULL (`true`) or NULL: whether the result is not NULL.
regrant : List Bool → M Bool
regrant [] w = done true w
regrant (granted ∷ later) w = done granted (record w { answers = later })

unfoldable pub realloc : Bool → M Bool
unfolding regrant malloc
realloc true w = regrant w.answers w
realloc false w = malloc w

give_back : ℕ → M (Unit {0})
give_back zero w = fault
give_back (suc n) w = done tt (record w { live = n })

-- `free` of a pointer that is not NULL (`true`) or NULL.
unfoldable pub free : Bool → M (Unit {0})
unfolding give_back
free true w = give_back w.live w
free false w = done tt w

-- A format string and its arguments, cut into pieces: literal text, and the arguments of `%s`.
pub data Piece : Type 0 where
  text : Bytes → Piece
  arg : CStr → Piece

-- The formatted text; `none` if a NULL stands for a `%s`.
abbrev pub vformat : List Piece → Option Bytes
vformat [] = some []
vformat (text t ∷ ps) = elim (vformat ps) [ none ↦ none | some r ↦ some (t ++ r) ]
vformat (arg none ∷ ps) = none
vformat (arg (some s) ∷ ps) = elim (vformat ps) [ none ↦ none | some r ↦ some (s ++ r) ]

-- The arguments of a variadic call that a loop over `va_arg` reads: those in front of the first
-- NULL.
abbrev pub up_to_null {ℓ} : {A : Type ℓ} → List (Option A) → List (Option A)
up_to_null [] = []
up_to_null (none ∷ args) = []
up_to_null (some a ∷ args) = some a ∷ up_to_null args
