-- ===== src/Merge/Equal.antt =====
-- configloader/configfile_merge.c: when two blocks, or two directives, are equal.
use deadline_knapp_verparsed.Base.{
  Bool, true, false, not, ◌&&◌, List, [], ◌∷◌, some, length, ◌==◌, if◌then◌else◌,
}
use deadline_knapp_verparsed.Runtime.{M, ◌>>=◌, pure, crash, CStr}
use deadline_knapp_verparsed.Sysunsafe.{str_equal}
use deadline_knapp_verparsed.Configfile.{Directive, Block, name_of, args_of}

pub data DirEqual : Type 0 where
  dir_not_eq dir_partially_eq dir_eq : DirEqual

-- `strcmp(a, b) == 0`
unfoldable pub same_string : CStr → CStr → M Bool
unfolding str_equal
same_string (some s) (some t) = pure (str_equal s t)
same_string _ _ = crash

-- The loop of `block_equals`, which goes on behind a difference.
unfoldable pub same_args : List CStr → List CStr → Bool → M Bool
same_args (a ∷ rest) (b ∷ bs) is_equal = do
  same ← same_string a b
  same_args rest bs (is_equal && same)
same_args _ _ is_equal = pure is_equal

unfoldable pub block_equals : Block → Block → M Bool
block_equals a b = do
  same ← same_string (name_of a) (name_of b)
  if same && length (args_of a) == length (args_of b)
      then same_args (args_of a) (args_of b) true
      else pure false

-- The loop of `directive_equals`; behind the end of the second array stands a NULL.
unfoldable pub compare_args : List CStr → List CStr → M DirEqual
compare_args [] bs = pure dir_eq
compare_args (a ∷ rest) [] = crash
compare_args (a ∷ rest) (b ∷ bs) = do
  same ← same_string a b
  elim same [ true ↦ compare_args rest bs | false ↦ pure dir_partially_eq ]

unfoldable pub directive_equals : Directive → Directive → M DirEqual
directive_equals a b = do
  same ← same_string a.name b.name
  if not same
      then pure dir_not_eq
      else if not (length a.args == length b.args)
      then pure dir_partially_eq
      else compare_args a.args b.args
