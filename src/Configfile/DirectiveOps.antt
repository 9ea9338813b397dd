-- ===== src/Configfile/DirectiveOps.antt =====
-- configloader/configfile.c: strings and directives.
use deadline_knapp_verparsed.Base.{
  ℕ, Bool, true, not, ◌&&◌, List, [], ◌∷◌, ◌++◌, Option, none, some, length, get_elem?, is_empty,
  is_some, leb, if◌then◌else◌,
}
use deadline_knapp_verparsed.Runtime.{
  M, ◌>>=◌, ◌>>◌, pure, crash, CStr, Status, success, failed, malloc, realloc, free,
}
use deadline_knapp_verparsed.Configfile.Data.{Directive}

unfoldable pub config_strdup : CStr → M CStr
unfolding malloc
config_strdup none = pure none
config_strdup (some s) = do granted ← malloc; if granted then pure (some s) else pure none

-- `config_realloc_array`: whether the new array is not NULL. The old one is NULL if it is empty.
unfoldable pub config_realloc_array {ℓ} : {A : Type ℓ} → List A → M Bool
unfolding realloc
config_realloc_array items = realloc (not (is_empty items))

-- The entry of an array of C strings, in range.
abbrev pub entry : List CStr → ℕ → CStr
entry args i = elim (get_elem? args i) [ none ↦ none | some s ↦ s ]

unfoldable pub config_directive_create : CStr → M (Option Directive)
unfolding config_strdup malloc free
config_directive_create name = do
  granted ← malloc
  if not granted then pure none else (do
    copy ← config_strdup name
    if is_some name && not (is_some copy)
        then (do free true; pure none)
        else pure (some (record { name = copy; args = [] })))

-- Frees each string of an array, and then the array, unless it is NULL.
unfoldable pub free_strings : List CStr → M (Unit {0})
unfolding free
free_strings [] = pure tt
free_strings (s ∷ args) = do free (is_some s); free_strings args

unfoldable pub free_args : List CStr → M (Unit {0})
unfolding free_strings free
free_args args = if is_empty args then pure tt else (do free_strings args; free true)

unfoldable pub config_directive_free : Option Directive → M (Unit {0})
unfolding free free_args
config_directive_free none = pure tt
config_directive_free (some d) = do free (is_some d.name); free_args d.args; free true

-- The end of `config_directive_add_arg` and `config_block_add_arg`, from the call of
-- `config_realloc_array`: where it fails on an empty array, the code stores through NULL.
unfoldable pub store_arg : List CStr → CStr → M (Status × List CStr)
unfolding config_realloc_array free
store_arg args copy = do
  granted ← config_realloc_array args
  if not granted && not (is_empty args)
      then (do free (is_some copy); pure (failed, args))
      else if not granted
      then crash
      else pure (success, args ++ copy ∷ [])

-- The part that `config_directive_add_arg` and `config_block_add_arg` have in common, from the copy
-- of the argument on.
unfoldable pub append_arg : List CStr → CStr → M (Status × List CStr)
append_arg args a = do
  copy ← config_strdup a
  if is_some a && not (is_some copy) then pure (failed, args) else store_arg args copy

unfoldable pub config_directive_add_arg : Option Directive → CStr → M (Status × Option Directive)
config_directive_add_arg none a = pure (failed, none)
config_directive_add_arg (some d) a = do
  (status, args) ← append_arg d.args a
  pure (status, some (record d { args = args }))

unfoldable pub config_directive_get_name : Option Directive → CStr
config_directive_get_name none = none
config_directive_get_name (some d) = d.name

unfoldable pub config_directive_get_arg_count : Option Directive → ℕ
config_directive_get_arg_count none = 0
config_directive_get_arg_count (some d) = length d.args

unfoldable pub config_directive_get_arg : Option Directive → ℕ → CStr
config_directive_get_arg none index = none
config_directive_get_arg (some d) index =
    if leb (length d.args) index then none else entry d.args index

-- The loop of `config_directive_copy` over the arguments that are left.
unfoldable pub copy_directive_args : List CStr → Option Directive → M (Option Directive)
copy_directive_args [] copy = pure copy
copy_directive_args (a ∷ args) copy = do
  (status, copy') ← config_directive_add_arg copy a
  elim status [
    | success ↦ copy_directive_args args copy'
    | failed ↦ (do config_directive_free copy'; pure none)
  ]

unfoldable pub config_directive_copy : Option Directive → M (Option Directive)
config_directive_copy none = pure none
config_directive_copy (some d) = do
  copy ← config_directive_create d.name
  elim copy [ none ↦ pure none | some c ↦ copy_directive_args d.args (some c) ]
