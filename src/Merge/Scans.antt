-- ===== src/Merge/Scans.antt =====
-- configloader/configfile_merge.c: what a scan for a directive says of the union of the directives.
use deadline_knapp_verparsed.Base.{List, [], ◌∷◌, ◌++◌, none, some, ◌≡◌, ◌≢◌, ◌⊎◌, inl, inr, refl}
use deadline_knapp_verparsed.Runtime.{CStr}
use deadline_knapp_verparsed.Configfile.{Directive}
use deadline_knapp_verparsed.Merge.{
  DirEqual, dir_not_eq, dir_partially_eq, dir_eq, Scan, absent, already_present, conflicting,
}
use mathlib.Core.Logic.{if_pos, if_neg}
use deadline_knapp_verparsed.Merge.Union.{args_discrete, lookup_args, add_directive}
use deadline_knapp_verparsed.Merge.Lookup.{lookup_args-there}

-- What a scan for a directive says of the directives.
abbrev pub ScanSays : List Directive → Directive → Scan → Type 0
ScanSays ds d absent = lookup_args ds d.name ≡ none
ScanSays ds d already_present = lookup_args ds d.name ≡ some d.args
ScanSays ds d conflicting =
    (args : List CStr) × (lookup_args ds d.name ≡ some args) × (args ≢ d.args)

pub ScanSays-skip :
    (d' : Directive) (ds : List Directive) (d : Directive) (r : Scan)
    → d'.name ≢ d.name
    → ScanSays ds d r
    → ScanSays (d' ∷ ds) d r
ScanSays-skip d' ds d absent n h = rw (lookup_args-there d' ds d.name n) h
ScanSays-skip d' ds d already_present n h = rw (lookup_args-there d' ds d.name n) h
ScanSays-skip d' ds d conflicting n h = (h.0, rw (lookup_args-there d' ds d.name n) h.1, h.2)

-- What the union then does with the directive.
pub add_absent :
    (ds : List Directive) (d : Directive)
    → ScanSays ds d absent
    → add_directive ds d ≡ some (ds ++ d ∷ [])
unfolding add_directive
add_absent ds d h = rw (h, add_directive) refl

pub add_present :
    (ds : List Directive) (d : Directive)
    → ScanSays ds d already_present
    → add_directive ds d ≡ some ds
unfolding add_directive
add_present ds d h =
    rw (h, add_directive) (if_pos (args_discrete d.args d.args) refl (some ds) none)

pub add_conflicting :
    (ds : List Directive) (d : Directive) → ScanSays ds d conflicting → add_directive ds d ≡ none
unfolding add_directive
add_conflicting ds d (args, h, n) =
    rw (h, add_directive) (if_neg (args_discrete args d.args) n (some ds) none)

pub DirEqual-cases : (r : DirEqual) → (r ≡ dir_eq) ⊎ ((r ≡ dir_partially_eq) ⊎ (r ≡ dir_not_eq))
DirEqual-cases dir_eq = inl refl
DirEqual-cases dir_partially_eq = inr (inl refl)
DirEqual-cases dir_not_eq = inr (inr refl)

pub Scan-cases : (r : Scan) → (r ≡ absent) ⊎ ((r ≡ already_present) ⊎ (r ≡ conflicting))
Scan-cases absent = inl refl
Scan-cases already_present = inr (inl refl)
Scan-cases conflicting = inr (inr refl)
