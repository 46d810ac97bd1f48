-- ===== src/Provenance/Chained.antt =====
-- provenance.go, `Chain`: what it keeps of its steps.
use ikemen_devtools.Prelude.{
  ℕ, ◌+◌, ◌≤◌, ◌<◌, ◌≡◌, refl, sym, ◌∙◌, ◌⊎◌, inl, inr, ◌≢◌, arith, true, false, ◌||◌, List, [],
  ◌∷◌, ◌++◌, length, length-append, leb, Bool-cases,
}
use mathlib.Core.Path.{subst}
use ikemen_devtools.Prelude.Int.{ℤ}
use ikemen_devtools.Prelude.Text.{
  bytes_eq_sym, Bytes, bytes_eq, bytes_eq_refl, eq_of_bytes_eq, contains,
}
use ikemen_devtools.FilePath.{trim_space}
use ikemen_devtools.Provenance.{is_skipped, chain_from, limit_of, chain}

-- No text stands in the list twice.
abbrev pub Distinct : List Bytes → Type 0
Distinct [] = Unit
Distinct (x ∷ xs) = (contains x xs ≡ false) × Distinct xs

-- Every text is a step without the white space around it, and not empty.
abbrev pub IsStep : List Bytes → Bytes → Type 0
IsStep [] t = ⊥
IsStep (s ∷ steps) t = ((t ≡ trim_space s) × (t ≢ [])) ⊎ IsStep steps t

abbrev pub AllSteps : List Bytes → List Bytes → Type 0
AllSteps steps [] = Unit
AllSteps steps (t ∷ ts) = IsStep steps t × AllSteps steps ts

-- Every step that is not blank is in the list.
abbrev pub Complete : List Bytes → List Bytes → Type 0
Complete [] out = Unit
Complete (s ∷ steps) out =
    ((trim_space s ≡ []) ⊎ (contains (trim_space s) out ≡ true)) × Complete steps out

module _ (limit : ℕ) (out : List Bytes) (s : Bytes) (steps : List Bytes) where
  abbrev added : List Bytes
  added = out ++ trim_space s ∷ []

  -- One round: a step is passed over, or is the last one, or is added before the others.
  round_cases :
      ((is_skipped out (trim_space s) ≡ true)
        × (chain_from limit out (s ∷ steps) ≡ chain_from limit out steps))
      ⊎ ((is_skipped out (trim_space s) ≡ false)
          × (leb limit (length added) ≡ true)
          × (chain_from limit out (s ∷ steps) ≡ added))
      ⊎ ((is_skipped out (trim_space s) ≡ false)
          × (leb limit (length added) ≡ false)
          × (chain_from limit out (s ∷ steps) ≡ chain_from limit added steps))
  unfolding chain_from
  round_cases = elim (Bool-cases (is_skipped out (trim_space s))) [
    | inl k ↦ inl (k, rw k refl)
    | inr k ↦ elim (Bool-cases (leb limit (length added))) [
      | inl l ↦ inr (inl (k, l, rw (k, l) refl))
      | inr l ↦ inr (inr (k, l, rw (k, l) refl))
    ]
  ]

length-snoc : (out : List Bytes) (t : Bytes) → length (out ++ t ∷ []) ≡ length out + 1
length-snoc out t = omega (arith, length-append out (t ∷ []))

chain_from-le :
    (limit : ℕ) (out steps : List Bytes)
    → length out < limit
    → length (chain_from limit out steps) ≤ limit
unfolding chain_from
chain_from-le limit out [] h = omega arith
chain_from-le limit out (s ∷ steps) h =
    let size = length-snoc out (trim_space s) in
    elim (round_cases limit out s steps) [
      | inl (k, e) ↦ rw e (chain_from-le limit out steps h)
      | inr (inl (k, l, e)) ↦ rw e (omega arith)
      | inr (inr (k, l, e)) ↦
          rw e (chain_from-le limit (out ++ trim_space s ∷ []) steps (ground arith))
    ]

contains-snoc :
    (x : Bytes) (out : List Bytes) (t : Bytes)
    → contains x (out ++ t ∷ []) ≡ (contains x out || bytes_eq x t)
contains-snoc x [] t = ground arith
contains-snoc x (y ∷ out) t = ground (arith, contains-snoc x out t)

Distinct-snoc :
    (out : List Bytes) (t : Bytes)
    → Distinct out
    → contains t out ≡ false
    → Distinct (out ++ t ∷ [])
Distinct-snoc [] t d h = (refl, tt)
Distinct-snoc (x ∷ out) t d h =
    let other = bytes_eq_sym t x (ground arith) in
    (contains-snoc x out t ∙ ground (arith, d.0), Distinct-snoc out t d.1 (ground arith))

new_text : (out : List Bytes) (t : Bytes) → is_skipped out t ≡ false → contains t out ≡ false
unfolding is_skipped
new_text out t h = ground arith

chain_from-Distinct :
    (limit : ℕ) (out steps : List Bytes) → Distinct out → Distinct (chain_from limit out steps)
unfolding chain_from
chain_from-Distinct limit out [] d = d
chain_from-Distinct limit out (s ∷ steps) d = elim (round_cases limit out s steps) [
  | inl (k, e) ↦ subst Distinct (sym e) (chain_from-Distinct limit out steps d)
  | inr (inl (k, l, e)) ↦
      subst Distinct (sym e) (Distinct-snoc out (trim_space s) d (new_text out _ k))
  | inr (inr (k, l, e)) ↦ subst Distinct (sym e) (
      chain_from-Distinct limit (out ++ trim_space s ∷ []) steps
        (Distinct-snoc out (trim_space s) d (new_text out _ k)))
]

contains-chain_from :
    (limit : ℕ) (out steps : List Bytes) (x : Bytes)
    → contains x out ≡ true
    → contains x (chain_from limit out steps) ≡ true
unfolding chain_from
contains-chain_from limit out [] x h = h
contains-chain_from limit out (s ∷ steps) x h =
    let kept : contains x (out ++ trim_space s ∷ []) ≡ true =
      contains-snoc x out (trim_space s) ∙ ground arith in
    elim (round_cases limit out s steps) [
      | inl (k, e) ↦ rw e (contains-chain_from limit out steps x h)
      | inr (inl (k, l, e)) ↦ rw e kept
      | inr (inr (k, l, e)) ↦
          rw e (contains-chain_from limit (out ++ trim_space s ∷ []) steps x kept)
    ]

skipped_cases :
    (out : List Bytes) (t : Bytes) → is_skipped out t ≡ true → (t ≡ []) ⊎ (contains t out ≡ true)
unfolding is_skipped
skipped_cases out t h = elim (Bool-cases (bytes_eq t [])) [
  | inl e ↦ inl (eq_of_bytes_eq t [] e)
  | inr e ↦ inr (ground arith)
]

contains-last : (out : List Bytes) (t : Bytes) → contains t (out ++ t ∷ []) ≡ true
contains-last out t = contains-snoc t out t ∙ ground (arith, bytes_eq_refl t)

chain_from-Complete :
    (limit : ℕ) (out steps : List Bytes)
    → length (chain_from limit out steps) < limit
    → Complete steps (chain_from limit out steps)
unfolding chain_from
chain_from-Complete limit out [] h = tt
chain_from-Complete limit out (s ∷ steps) h = elim (round_cases limit out s steps) [
  | inl (k, e) ↦
      let found : (trim_space s ≡ [])
          ⊎ (contains (trim_space s) (chain_from limit out steps) ≡ true) =
        elim (skipped_cases out (trim_space s) k) [
          | inl b ↦ inl b
          | inr c ↦ inr (contains-chain_from limit out steps (trim_space s) c)
        ] in
      subst (Complete (s ∷ steps)) (sym e)
        (found, chain_from-Complete limit out steps (subst (λ r. length r < limit) e h))
  | inr (inl (k, l, e)) ↦ let short = subst (λ r. length r < limit) e h in absurd (ground arith)
  | inr (inr (k, l, e)) ↦ subst (Complete (s ∷ steps)) (sym e) (
    inr (contains-chain_from limit _ steps (trim_space s) (contains-last out (trim_space s))),
    chain_from-Complete limit (out ++ trim_space s ∷ []) steps (subst (λ r. length r < limit) e h),
  )
]

AllSteps-snoc :
    (all out : List Bytes) (t : Bytes)
    → AllSteps all out
    → IsStep all t
    → AllSteps all (out ++ t ∷ [])
AllSteps-snoc all [] t h k = (k, tt)
AllSteps-snoc all (x ∷ out) t h k = (h.0, AllSteps-snoc all out t h.1 k)

not_blank : (out : List Bytes) (t : Bytes) → is_skipped out t ≡ false → t ≢ []
unfolding is_skipped
not_blank out t h e = let own = bytes_eq_refl t in absurd (ground arith)

chain_from-AllSteps :
    (limit : ℕ) (all out steps : List Bytes)
    → AllSteps all out
    → ((t : Bytes) → IsStep steps t → IsStep all t)
    → AllSteps all (chain_from limit out steps)
unfolding chain_from
chain_from-AllSteps limit all out [] h sub = h
chain_from-AllSteps limit all out (s ∷ steps) h sub =
    let later : (t : Bytes) → IsStep steps t → IsStep all t = λ t k. sub t (inr k) in
    elim (round_cases limit out s steps) [
      | inl (k, e) ↦ subst (AllSteps all) (sym e) (chain_from-AllSteps limit all out steps h later)
      | inr (inl (k, l, e)) ↦
          let own = sub (trim_space s) (inl (refl, not_blank out (trim_space s) k)) in
          subst (AllSteps all) (sym e) (AllSteps-snoc all out (trim_space s) h own)
      | inr (inr (k, l, e)) ↦
          let own = sub (trim_space s) (inl (refl, not_blank out (trim_space s) k)) in
          subst (AllSteps all) (sym e) (
            chain_from-AllSteps limit all (out ++ trim_space s ∷ []) steps
              (AllSteps-snoc all out (trim_space s) h own) later)
    ]

limit_of-le : (limit : ℤ) → 0 < limit_of limit
unfolding limit_of
limit_of-le limit = ground arith

full_or_whole :
    (steps : List Bytes) (limit : ℤ)
    → (length (chain_from (limit_of limit) [] steps) ≡ limit_of limit)
      ⊎ Complete steps (chain_from (limit_of limit) [] steps)
full_or_whole steps limit =
    let bound = chain_from-le (limit_of limit) [] steps (limit_of-le limit) in
    elim (Bool-cases (leb (limit_of limit) (length (chain_from (limit_of limit) [] steps)))) [
      | inl l ↦ inl (ground arith)
      | inr l ↦ inr (chain_from-Complete (limit_of limit) [] steps (ground arith))
    ]

-- What `Chain` makes of its steps.
pub record Chained (steps : List Bytes) (limit : ℤ) (out : List Bytes) : Type 0 where
  pub bounded : length out ≤ limit_of limit
  pub distinct : Distinct out
  pub from_steps : AllSteps steps out
  pub whole : (length out ≡ limit_of limit) ⊎ Complete steps out

-- `Chain` keeps at most `limit` texts, 32 if the limit is not positive. They are different from each
-- other and not empty, and each is a step without the white space around it; and if they are not
-- exactly as many as the limit, then every step that is not blank is among them.
pub chain-Chained : (steps : List Bytes) (limit : ℤ) → Chained steps limit (chain steps limit)
unfolding chain
chain-Chained steps limit = record {
  bounded = chain_from-le (limit_of limit) [] steps (limit_of-le limit);
  distinct = chain_from-Distinct (limit_of limit) [] steps tt;
  from_steps = chain_from-AllSteps (limit_of limit) steps [] steps tt (λ t h. h);
  whole = full_or_whole steps limit;
}
