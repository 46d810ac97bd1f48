-- ===== src/Provenance/Policies.antt =====
-- provenance.go, `Allows` and `ActionSafe`: what a policy allows.
use ikemen_devtools.Prelude.{◌≤◌, ◌≡◌, refl, arith, Bool, true, Option, none, some}
use ikemen_devtools.Provenance.{
  Class, exact, inferred, lexical, ambiguous, unresolved, unsupported, other, Result, rank,
  is_exact, action_safe, allows, Policy,
}

rank-le : (c : Class) → rank c ≤ 5
unfolding rank
rank-le exact = omega arith
rank-le inferred = omega arith
rank-le lexical = omega arith
rank-le ambiguous = omega arith
rank-le unresolved = omega arith
rank-le unsupported = omega arith
rank-le (other name) = omega arith

exact_of_is_exact : (c : Class) → is_exact c ≡ true → c ≡ exact
exact_of_is_exact exact h = refl
exact_of_is_exact inferred h = cc
exact_of_is_exact lexical h = cc
exact_of_is_exact ambiguous h = cc
exact_of_is_exact unresolved h = cc
exact_of_is_exact unsupported h = cc
exact_of_is_exact (other name) h = cc

rank-exact : rank exact ≡ 5
unfolding rank
rank-exact = refl

-- The included classes of a policy have "exact": the map is nil, or holds it.
abbrev pub HasExact : Option (Class → Bool) → Type 0
HasExact none = Unit
HasExact (some include) = include exact ≡ true

allows_exact :
    (include : Option (Class → Bool)) (minimum : Option Class) (r : Result)
    → HasExact include
    → r.class ≡ exact
    → allows (record { include = include; minimum = minimum }) r ≡ true
unfolding allows
allows_exact none none r h e = refl
allows_exact none (some m) r h e = rw e (ground (arith, rank-le m, rank-exact))
allows_exact (some include) none r h e = rw (e, h) refl
allows_exact (some include) (some m) r h e = rw (e, h) (ground (arith, rank-le m, rank-exact))

-- A result that an action may rely on passes every policy whose included classes have "exact" (a nil
-- map of classes leaves none out), whatever its minimum.
pub action_safe-allows :
    (p : Policy) (r : Result) → HasExact p.include → action_safe r ≡ true → allows p r ≡ true
unfolding action_safe
action_safe-allows p r h safe =
    allows_exact p.include p.minimum r h (exact_of_is_exact r.class (ground arith))
