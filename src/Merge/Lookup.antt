-- ===== src/Merge/Lookup.antt =====
-- The arguments of the first directive of a name, by the first directive of a list.
use mathlib.Core.Logic.{if_pos, if_neg}
use deadline_knapp_verparsed.Base.{List, [], ◌∷◌, some, none, ◌≡◌, ◌≢◌, refl}
use deadline_knapp_verparsed.Runtime.{CStr}
use deadline_knapp_verparsed.Configfile.{Directive}
use deadline_knapp_verparsed.Merge.Union.{CStr-discrete, lookup_args}

pub lookup_args-here :
    (d : Directive) (ds : List Directive) (name : CStr)
    → d.name ≡ name
    → lookup_args (d ∷ ds) name ≡ some d.args
unfolding lookup_args
lookup_args-here d ds name e =
    if_pos (CStr-discrete d.name name) e (some d.args) (lookup_args ds name)

pub lookup_args-there :
    (d : Directive) (ds : List Directive) (name : CStr)
    → d.name ≢ name
    → lookup_args (d ∷ ds) name ≡ lookup_args ds name
unfolding lookup_args
lookup_args-there d ds name n =
    if_neg (CStr-discrete d.name name) n (some d.args) (lookup_args ds name)

pub lookup_args-nil : (name : CStr) → lookup_args [] name ≡ none
unfolding lookup_args
lookup_args-nil name = refl
