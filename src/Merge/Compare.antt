-- ===== src/Merge/Compare.antt =====
-- configloader/configfile_merge.c: the comparison of directives and of blocks.
use deadline_knapp_verparsed.Base.{
  Bool, true, false, ◌&&◌, List, [], ◌∷◌, none, some, Bytes, length, ◌≡◌, ◌≢◌, ◌⊎◌, inl, inr, refl,
  sym, ap, ◌∙◌, arith, Bool-cases, ==_iff, ◌==◌,
}
use deadline_knapp_verparsed.Runtime.{World, CStr, Outcome, done}
use deadline_knapp_verparsed.Sysunsafe.{str_equal}
use deadline_knapp_verparsed.Sysunsafe.Guards.{str_equal_iff}
use deadline_knapp_verparsed.Configfile.{Directive, Block, name_of, args_of}
use deadline_knapp_verparsed.Configfile.Present.{Present, AllPresent}
use deadline_knapp_verparsed.Merge.{
  DirEqual, dir_not_eq, dir_partially_eq, dir_eq, same_string, same_args, block_equals,
  compare_args, directive_equals,
}

-- The run decides `P`, without an effect.
abbrev pub Decides : Type 0 → World → Outcome Bool → Type 0
Decides P w r = (b : Bool) × (r ≡ done b w) × (((b ≡ true) × P) ⊎ ((b ≡ false) × ¬ P))

contents_of : CStr → Bytes
contents_of none = []
contents_of (some t) = t

same_string-Decides :
    (a b : CStr) (w : World) → Present a → Present b → Decides (a ≡ b) w (same_string a b w)
unfolding same_string contents_of
same_string-Decides none b w h k = absurd h
same_string-Decides (some s) none w h k = absurd k
same_string-Decides (some s) (some t) w h k = (
  str_equal s t,
  refl,
  elim (Bool-cases (str_equal s t)) [
    | inl same ↦ inl (same, ap some ((str_equal_iff s t).0 same))
    | inr differs ↦ inr (
      differs,
      λ e.
          let agree : str_equal s t ≡ true = (str_equal_iff s t).1 (ap contents_of e) in
          let differ : false ≡ true = sym differs ∙ agree in cc,
    )
  ],
)

same_args-Decides :
    (xs ys : List CStr) (acc : Bool) (w : World)
    → length xs ≡ length ys
    → AllPresent xs
    → AllPresent ys
    → Decides ((acc ≡ true) × (xs ≡ ys)) w (same_args xs ys acc w)
unfolding same_args
same_args-Decides [] [] true w e h k = (true, refl, inl (refl, (refl, refl)))
same_args-Decides [] [] false w e h k =
    (false, refl, inr (refl, λ p. let differ : false ≡ true = p.0 in cc))
same_args-Decides [] (y ∷ ys) acc w e h k = absurd (omega (arith, e))
same_args-Decides (x ∷ xs) [] acc w e h k = absurd (omega (arith, e))
same_args-Decides (x ∷ xs) (y ∷ ys) acc w e h k =
    let (same, run, why) = same_string-Decides x y w h.0 k.0 in
    let (r, run', c) = same_args-Decides xs ys (acc && same) w (omega (arith, e)) h.1 k.1 in
    rw run (r, run', combine acc same r why c)
  where
    combine :
        (acc same r : Bool)
        → ((same ≡ true) × (x ≡ y)) ⊎ ((same ≡ false) × (x ≢ y))
        → ((r ≡ true) × (((acc && same) ≡ true) × (xs ≡ ys)))
          ⊎ ((r ≡ false) × ¬ (((acc && same) ≡ true) × (xs ≡ ys)))
        → ((r ≡ true) × ((acc ≡ true) × (x ∷ xs ≡ y ∷ ys)))
          ⊎ ((r ≡ false) × ¬ ((acc ≡ true) × (x ∷ xs ≡ y ∷ ys)))
    combine true true r (inl (p, q)) (inl (a, b)) = inl (a, (refl, rw (q, b.1) refl))
    combine true true r (inl (p, q)) (inr (a, n)) = inr (a, λ z. let t = z.1 in n (refl, cc))
    combine true true r (inr (p, q)) c = let differ : true ≡ false = p in cc
    combine true false r (inl (p, q)) c = let differ : false ≡ true = p in cc
    combine true false r (inr (p, q)) (inl (a, b)) = let differ : false ≡ true = b.0 in cc
    combine true false r (inr (p, q)) (inr (a, n)) = inr (a, λ z. let t = z.1 in q cc)
    combine false same r why (inl (a, b)) = let differ : false ≡ true = b.0 in cc
    combine false same r why (inr (a, n)) = inr (a, λ z. let differ : false ≡ true = z.0 in cc)

-- What each result says of two directives.
abbrev pub Compares : Directive → Directive → DirEqual → Type 0
Compares a b dir_eq = (a.name ≡ b.name) × (a.args ≡ b.args)
Compares a b dir_partially_eq = (a.name ≡ b.name) × (a.args ≢ b.args)
Compares a b dir_not_eq = a.name ≢ b.name

abbrev ComparesArgs : List CStr → List CStr → DirEqual → Type 0
ComparesArgs xs ys dir_eq = xs ≡ ys
ComparesArgs xs ys dir_partially_eq = xs ≢ ys
ComparesArgs xs ys dir_not_eq = ⊥

compare_args-Compares :
    (xs ys : List CStr) (w : World)
    → length xs ≡ length ys
    → AllPresent xs
    → AllPresent ys
    → (r : DirEqual) × (compare_args xs ys w ≡ done r w) × ComparesArgs xs ys r
unfolding compare_args
compare_args-Compares [] [] w e h k = (dir_eq, refl, refl)
compare_args-Compares [] (y ∷ ys) w e h k = absurd (omega (arith, e))
compare_args-Compares (x ∷ xs) [] w e h k = absurd (omega (arith, e))
compare_args-Compares (x ∷ xs) (y ∷ ys) w e h k =
    let (same, run, why) = same_string-Decides x y w h.0 k.0 in
    elim why [
      | inl (agree, p) ↦
          let (r, run', c) = compare_args-Compares xs ys w (omega (arith, e)) h.1 k.1 in
          rw (run, agree) (r, run', compare_rest r p c)
      | inr (differ, n) ↦ rw (run, differ) (dir_partially_eq, refl, λ q. n cc)
    ]
  where
    compare_rest : (r : DirEqual) → x ≡ y → ComparesArgs xs ys r → ComparesArgs (x ∷ xs) (y ∷ ys) r
    compare_rest dir_eq p c = rw (p, c) refl
    compare_rest dir_partially_eq p c = λ q. c cc
    compare_rest dir_not_eq p c = absurd c

-- For directives without a NULL string, `directive_equals` tells whether the names differ, or the
-- names are equal and the arguments differ, or both are equal. It has no effect.
pub directive_equals-Compares :
    (a b : Directive) (w : World)
    → Present a.name
    → AllPresent a.args
    → Present b.name
    → AllPresent b.args
    → (r : DirEqual) × (directive_equals a b w ≡ done r w) × Compares a b r
unfolding directive_equals
directive_equals-Compares a b w h hs k ks =
    let (same, run, why) = same_string-Decides a.name b.name w h k in
    elim why [
      | inr (differ, n) ↦ rw (run, differ) (dir_not_eq, refl, n)
      | inl (agree, p) ↦ elim (Bool-cases (length a.args == length b.args)) [
        | inr differs ↦
            rw (run, agree, differs)
              (
                dir_partially_eq,
                refl,
                (
                  p,
                  λ q.
                      let same_length : (length a.args == length b.args) ≡ true =
                        (==_iff (length a.args) (length b.args)).1 (ap length q) in
                      let differ : false ≡ true = sym differs ∙ same_length in cc,
                ),
              )
        | inl equal ↦
            let (r, run', c) =
              compare_args-Compares a.args b.args w
                ((==_iff (length a.args) (length b.args)).0 equal) hs ks in
            rw (run, agree, equal) (r, run', both r p c)
      ]
    ]
  where
    both : (r : DirEqual) → a.name ≡ b.name → ComparesArgs a.args b.args r → Compares a b r
    both dir_eq p c = (p, c)
    both dir_partially_eq p c = (p, c)
    both dir_not_eq p c = absurd c

-- For blocks without a NULL string, `block_equals` tells whether names and arguments are equal. It
-- has no effect.
pub block_equals-Decides :
    (a b : Block) (w : World)
    → Present (name_of a)
    → AllPresent (args_of a)
    → Present (name_of b)
    → AllPresent (args_of b)
    → Decides ((name_of a ≡ name_of b) × (args_of a ≡ args_of b)) w (block_equals a b w)
unfolding block_equals
block_equals-Decides a b w h hs k ks =
    let (same, run, why) = same_string-Decides (name_of a) (name_of b) w h k in
    elim why [
      | inr (differ, n) ↦ rw (run, differ) (false, refl, inr (refl, λ q. n q.0))
      | inl (agree, p) ↦ elim (Bool-cases (length (args_of a) == length (args_of b))) [
        | inr differs ↦
            rw (run, agree, differs)
              (
                false,
                refl,
                inr (
                  refl,
                  λ q.
                      let same_length : (length (args_of a) == length (args_of b)) ≡ true =
                        (==_iff (length (args_of a)) (length (args_of b))).1 (ap length q.1) in
                      let differ : false ≡ true = sym differs ∙ same_length in cc,
                ),
              )
        | inl equal ↦
            let (r, run', c) =
              same_args-Decides (args_of a) (args_of b) true w
                ((==_iff (length (args_of a)) (length (args_of b))).0 equal) hs ks in
            rw (run, agree, equal)
              (
                r,
                run',
                elim c [
                  | inl (agree', q) ↦ inl (agree', (p, q.1))
                  | inr (differ', n) ↦ inr (differ', λ q. n (refl, q.1))
                ],
              )
      ]
    ]
