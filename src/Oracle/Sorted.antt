-- ===== src/Oracle/Sorted.antt =====
-- oracle.go: objects whose keys increase, and when two of them have the same keys.
use ikemen_devtools.Prelude.{
  ◌≡◌, refl, sym, ◌∙◌, arith, true, false, some, [], ◌∷◌, Bool-cases, inl, inr, if◌then◌else◌,
}
use mathlib.Core.Path.{subst}
use ikemen_devtools.Prelude.Text.{
  Bytes, bytes_eq, bytes_lt, eq_of_bytes_eq, bytes_eq_refl, bytes_eq_sym,
}
use ikemen_devtools.Oracle.Values.{Json, Fields, no_fields, field}
use ikemen_devtools.Oracle.{lookup}

-- Every key is greater than `k`.
abbrev pub AllAbove : {S : Type 0} → Bytes → Fields S → Type 0
AllAbove k no_fields = Unit
AllAbove k (field l v fs) = (bytes_lt k l ≡ true) × AllAbove k fs

abbrev pub Rising : {S : Type 0} → Fields S → Type 0
Rising no_fields = Unit
Rising (field k v fs) = AllAbove k fs × Rising fs

bytes_lt_irrefl : (s : Bytes) → bytes_lt s s ≡ false
unfolding bytes_lt
bytes_lt_irrefl [] = refl
bytes_lt_irrefl (a ∷ s) = ground (arith, bytes_lt_irrefl s)

bytes_lt_asym : (s t : Bytes) → bytes_lt s t ≡ true → bytes_lt t s ≡ false
unfolding bytes_lt
bytes_lt_asym [] [] h = refl
bytes_lt_asym [] (b ∷ t) h = refl
bytes_lt_asym (a ∷ s) [] h = cc
bytes_lt_asym (a ∷ s) (b ∷ t) h = ground (arith, bytes_lt_asym s t)

bytes_lt-ne : (s t : Bytes) → bytes_lt s t ≡ true → bytes_eq t s ≡ false
bytes_lt-ne s t h = elim (Bool-cases (bytes_eq t s)) [
  | inr e ↦ e
  | inl e ↦ absurd (let same = eq_of_bytes_eq t s e in let own = bytes_lt_irrefl s in cc)
]

some-injective : {A : Type 0} → {a b : A} → some a ≡ some b → a ≡ b
some-injective h = cc

module _ {S : Type 0} where
  lookup-above :
      (k l : Bytes) (fs : Fields S) (w : Json S)
      → AllAbove l fs
      → lookup k fs ≡ some w
      → bytes_lt l k ≡ true
  unfolding lookup
  lookup-above k l no_fields w h e = cc
  lookup-above k l (field m v fs) w h e = elim (Bool-cases (bytes_eq k m)) [
    | inl q ↦ subst (λ x. bytes_lt l x ≡ true) (sym (eq_of_bytes_eq k m q)) h.0
    | inr q ↦
        lookup-above k l fs w h.1 (subst (λ b. (if b then some v else lookup k fs) ≡ some w) q e)
  ]

  pub lookup-first : (k : Bytes) (v : Json S) (fs : Fields S) → lookup k (field k v fs) ≡ some v
  unfolding lookup
  lookup-first k v fs = rw (bytes_eq_refl k) refl

  pub lookup-later :
      (k l : Bytes) (v : Json S) (fs : Fields S)
      → bytes_eq k l ≡ false
      → lookup k (field l v fs) ≡ lookup k fs
  unfolding lookup
  lookup-later k l v fs e = rw e refl

  -- Every key of the first object is a key of the second.
  abbrev pub Known : Fields S → Fields S → Type 0
  Known no_fields fs = Unit
  Known (field k w gs) fs = ((v : Json S) × (lookup k fs ≡ some v)) × Known gs fs

  Known-tail :
      (k : Bytes) (v : Json S) (gs fs : Fields S)
      → AllAbove k gs
      → Known gs (field k v fs)
      → Known gs fs
  Known-tail k v no_fields fs h f = tt
  Known-tail k v (field m w gs) fs h f = (
    (f.0.0, sym (lookup-later m k v fs (bytes_lt-ne k m h.0)) ∙ f.0.1),
    Known-tail k v gs fs h.1 f.1,
  )

  Known-more :
      (k : Bytes) (v : Json S) (gs fs : Fields S)
      → AllAbove k gs
      → Known gs fs
      → Known gs (field k v fs)
  Known-more k v no_fields fs h f = tt
  Known-more k v (field m w gs) fs h f =
      ((f.0.0, lookup-later m k v fs (bytes_lt-ne k m h.0) ∙ f.0.1), Known-more k v gs fs h.1 f.1)

-- Two objects whose values are compared by a relation.
module _ {S : Type 0} (R : Json S → Json S → Type 0) where
  -- Every key of the first object is a key of the second, with a related value.
  abbrev pub Present : Fields S → Fields S → Type 0
  Present no_fields gs = Unit
  Present (field k v fs) gs = ((w : Json S) × (lookup k gs ≡ some w) × R v w) × Present fs gs

  -- The same keys in the same order, with related values.
  abbrev pub Paired : Fields S → Fields S → Type 0
  Paired no_fields no_fields = Unit
  Paired (field k v fs) (field l w gs) = (k ≡ l) × R v w × Paired fs gs
  Paired _ _ = ⊥

  Present-tail :
      (k : Bytes) (w : Json S) (fs gs : Fields S)
      → AllAbove k fs
      → Present fs (field k w gs)
      → Present fs gs
  Present-tail k w no_fields gs h f = tt
  Present-tail k w (field m v fs) gs h ((u, e, r), f) =
      ((u, sym (lookup-later m k w gs (bytes_lt-ne k m h.0)) ∙ e, r), Present-tail k w fs gs h.1 f)

  Present-more :
      (k : Bytes) (w : Json S) (fs gs : Fields S)
      → AllAbove k fs
      → Present fs gs
      → Present fs (field k w gs)
  Present-more k w no_fields gs h f = tt
  Present-more k w (field m v fs) gs h ((u, e, r), f) =
      ((u, lookup-later m k w gs (bytes_lt-ne k m h.0) ∙ e, r), Present-more k w fs gs h.1 f)

  -- Objects that are paired have each other's keys.
  pub Paired-Present : (fs gs : Fields S) → Rising fs → Rising gs → Paired fs gs → Present fs gs
  Paired-Present no_fields no_fields h r q = tt
  Paired-Present no_fields (field l w gs) h r q = elim q [ ]
  Paired-Present (field k v fs) no_fields h r q = elim q [ ]
  Paired-Present (field k v fs) (field l w gs) h r (kl, same, q) = (
    (w, subst (λ x. lookup x (field l w gs) ≡ some w) (sym kl) (lookup-first l w gs), same),
    Present-more l w fs gs (subst (λ x. AllAbove x fs) kl h.0) (Paired-Present fs gs h.1 r.1 q),
  )

  pub Paired-Known : (fs gs : Fields S) → Rising fs → Rising gs → Paired fs gs → Known gs fs
  Paired-Known no_fields no_fields h r q = tt
  Paired-Known no_fields (field l w gs) h r q = elim q [ ]
  Paired-Known (field k v fs) no_fields h r q = elim q [ ]
  Paired-Known (field k v fs) (field l w gs) h r (kl, same, q) = (
    (v, subst (λ x. lookup x (field k v fs) ≡ some v) kl (lookup-first k v fs)),
    Known-more k v gs fs (subst (λ x. AllAbove x gs) (sym kl) r.0) (Paired-Known fs gs h.1 r.1 q),
  )

  -- Two objects that have each other's keys, with related values, are paired.
  pub same_fields :
      (fs gs : Fields S) → Rising fs → Rising gs → Present fs gs → Known gs fs → Paired fs gs
  unfolding lookup
  same_fields no_fields no_fields h k f e = tt
  same_fields no_fields (field l w gs) h k f e = absurd (let none_found = e.0.1 in cc)
  same_fields (field k v fs) no_fields h r ((u, found, same), f) e = absurd cc
  same_fields (field k v fs) (field l w gs) h r ((u, found, same), f) e =
      elim (Bool-cases (bytes_eq k l)) [
        | inl q ↦
            let kl : k ≡ l = eq_of_bytes_eq k l q in
            let tail : Paired fs gs =
              same_fields fs gs h.1 r.1
                (Present-tail l w fs gs (subst (λ x. AllAbove x fs) kl h.0) f)
                (Known-tail k v gs fs (subst (λ x. AllAbove x gs) (sym kl) r.0) e.1) in
            let first : lookup k (field l w gs) ≡ some w =
              subst (λ x. lookup x (field l w gs) ≡ some w) (sym kl) (lookup-first l w gs) in
            let uw : u ≡ w = some-injective (sym found ∙ first) in (kl, subst (R v) uw same, tail)
        | inr q ↦ absurd (
            let later = lookup-above k l gs u r.0 (sym (lookup-later k l w gs q) ∙ found) in
            let before =
              lookup-above l k fs (e.0.0) h.0
                (sym (lookup-later l k v fs (bytes_eq_sym k l q)) ∙ e.0.1) in
            let one_way = bytes_lt_asym k l before in cc)
      ]
