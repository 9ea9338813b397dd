-- ===== src/Serializer/Render.antt =====
-- The text of a block, and the shell commands that writing it hands out: an independent description
-- of the serializer.
use deadline_knapp_verparsed.Base.{
  ℕ, zero, suc, ◌+◌, Bool, true, false, not, List, [], ◌∷◌, ◌++◌, Bytes, codes, ltb, leb, length,
  if◌then◌else◌,
}
use deadline_knapp_verparsed.Runtime.{CStr}
use deadline_knapp_verparsed.Sysunsafe.{str_equal, echo_command, int_limit}
use deadline_knapp_verparsed.Configfile.{Directive, Block, Blocks, block, nil, cons}
use deadline_knapp_verparsed.Lexer.{contents}
use deadline_knapp_verparsed.Serializer.{indent_by}

abbrev pub indentation : ℕ → Bytes → Bytes
indentation zero rest = rest
indentation (suc level) rest = indent_by ++ indentation level rest

-- The arguments of a directive, each behind a space, and its end.
abbrev pub arg_text : List CStr → Bytes → Bytes
arg_text [] rest = b';' ∷ b'\n' ∷ rest
arg_text (a ∷ args) rest = b' ' ∷ (contents a ++ arg_text args rest)

abbrev pub directive_text : ℕ → Directive → Bytes → Bytes
directive_text level d rest = indentation level (contents d.name ++ arg_text d.args rest)

abbrev pub directives_text : ℕ → List Directive → Bytes → Bytes
directives_text level [] rest = rest
directives_text level (d ∷ ds) rest = directive_text level d (directives_text level ds rest)

abbrev pub space_text : List Directive → Bytes → Bytes
space_text [] rest = rest
space_text (d ∷ ds) rest = b'\n' ∷ rest

-- The arguments of a block, each in front of a space.
abbrev pub words_text : List CStr → Bytes → Bytes
words_text [] rest = rest
words_text (a ∷ args) rest = contents a ++ b' ' ∷ words_text args rest

abbrev pub is_named : CStr → Bool
is_named name = not (str_equal (contents name) (codes "main"))

abbrev pub open_text : Bool → ℕ → CStr → List CStr → Bytes → Bytes
open_text false level name args rest = rest
open_text true level name args rest =
    indentation level (contents name ++ b' ' ∷ words_text args (b'{' ∷ b'\n' ∷ rest))

abbrev pub close_text : Bool → ℕ → Bytes → Bytes
close_text false level rest = rest
close_text true level rest = indentation level (b'}' ∷ b'\n' ∷ rest)

abbrev pub inner_level : Bool → ℕ → ℕ
inner_level named level = if named then level + 1 else level

-- The text of a block in front of `rest`.
unfoldable mutual
  pub block_text : ℕ → Block → Bytes → Bytes
  block_text level (block name args ds bs) rest =
      let named = is_named name in
      let inner = inner_level named level in
      open_text named level name args (
        directives_text inner ds
          (space_text ds (blocks_text inner bs (close_text named level rest))))

  pub blocks_text : ℕ → Blocks → Bytes → Bytes
  blocks_text level nil rest = rest
  blocks_text level (cons b bs) rest = block_text level b (blocks_text level bs rest)

unfoldable pub render : Block → Bytes
render b = block_text 0 b []

-- The names of a block and of those inside it, from the outside inwards.
unfoldable mutual
  pub block_names : Block → List Bytes
  block_names (block name args ds bs) = contents name ∷ blocks_names bs

  pub blocks_names : Blocks → List Bytes
  blocks_names nil = []
  blocks_names (cons b bs) = block_names b ++ blocks_names bs

-- The commands for a name, and for several: with messages of level INFO on, one for each name whose
-- length is an `int`.
abbrev pub echo : ℕ → Bytes → List Bytes
echo visibility name =
    if ltb 0 visibility
    then []
    else if leb int_limit (length name)
    then []
    else echo_command 0 name ∷ []

unfoldable pub echoes : ℕ → List Bytes → List Bytes
echoes visibility [] = []
echoes visibility (name ∷ names) = echo visibility name ++ echoes visibility names
