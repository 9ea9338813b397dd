-- ===== src/Cli.antt =====
-- configloader/cli.c. `argp_parse` is of the C library: it turns the arguments of the program into
-- calls of `parse_opt`, which are given here as a list. Where argp ends the program by itself, for
-- --help, --version or an unknown option, there is no run here. The capacity is an `int` in C, and would
-- overflow from 2 ^ 30 arguments on.
pub mod Correct
use deadline_knapp_verparsed.Base.{
  ℕ, zero, suc, ◌*◌, Bool, true, false, not, List, [], ◌∷◌, ◌++◌, Option, none, some, Bytes, codes,
  length, leb, ltb, if◌then◌else◌,
}
use deadline_knapp_verparsed.Runtime.{M, ◌>>=◌, ◌>>◌, pure, crash, CStr, malloc, realloc, free}

-- `has_args` tells whether the pointer `args` is not NULL; `args` then holds what is stored in the
-- array, so that its length is `args_count`.
pub record Cli : Type 0 where
  pub has_args : Bool
  pub args : List CStr
  pub args_alloc : ℕ
  pub verbose : Bool
  pub output_file : CStr

-- A call of `parse_opt`, with its argument where the key has one.
pub data Key : Type 0 where
  key_v key_end key_other : Key
  key_o key_arg : CStr → Key

-- `cli->args[cli->args_count] = arg`, with a fault for a store out of the array.
unfoldable pub store_argument : Cli → CStr → M (Option Cli)
store_argument cli a =
    if cli.has_args
    then if ltb (length cli.args) cli.args_alloc
      then pure (some (record cli { args = cli.args ++ a ∷ [] }))
      else crash
    else crash

abbrev pub next_alloc : ℕ → ℕ
next_alloc zero = 16
next_alloc (suc n) = suc n * 2

-- `none` where `argp_usage` has ended the program. ARGP_ERR_UNKNOWN changes nothing, and `argp_parse`
-- goes on after it for the keys of its own.
unfoldable pub parse_opt : Key → Cli → M (Option Cli)
unfolding store_argument
parse_opt key_v cli = pure (some (record cli { verbose = true }))
parse_opt (key_o a) cli = pure (some (record cli { output_file = a }))
parse_opt (key_arg a) cli =
    if leb cli.args_alloc (length cli.args)
    then (do
      granted ← realloc cli.has_args
      if not granted
          then pure none
          else store_argument
              (record cli { has_args = true; args_alloc = next_alloc cli.args_alloc }) a)
    else store_argument cli a
parse_opt key_end cli = pure (some cli)
parse_opt key_other cli = pure (some cli)

-- The calls that `argp_parse` makes, one after the other.
unfoldable pub parse_keys : List Key → Cli → M (Option Cli)
unfolding parse_opt
parse_keys [] cli = pure (some cli)
parse_keys (key ∷ keys) cli = do
  parsed ← parse_opt key cli
  elim parsed [ none ↦ pure none | some cli' ↦ parse_keys keys cli' ]

unfoldable pub cli_parse : List Key → Cli → M (Option Cli)
unfolding parse_keys
cli_parse keys cli =
    parse_keys keys (record cli { verbose = false; output_file = some (codes "-") })

unfoldable pub cli_create : M (Option Cli)
unfolding malloc free
cli_create = do
  granted ← malloc
  if not granted then pure none else (do
    has_args ← malloc
    if not has_args
        then (do free true; pure none)
        else pure (
            some (record {
              has_args = true;
              args = [];
              args_alloc = 16;
              verbose = false;
              output_file = none;
            })))

unfoldable pub cli_free : Cli → M (Unit {0})
unfolding free
cli_free cli = do free cli.has_args; free true
