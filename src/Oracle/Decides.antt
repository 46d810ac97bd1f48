-- ===== src/Oracle/Decides.antt =====
-- oracle.go, `diffJSON`: what it means that it finds nothing.
use ikemen_devtools.Prelude.{
  ℕ, suc, ◌≡◌, refl, ap, ◌∙◌, arith, Bool, true, ◌==◌, Option, none, some, List, [], ◌∷◌, ◌++◌,
  Bool-cases, inl, inr, if◌then◌else◌,
}
use mathlib.Core.Path.{subst}
use ikemen_devtools.Prelude.Text.{Bytes, bytes_eq}
use ikemen_devtools.Oracle.Values.{
  Scalar, Json, scalar, array, object, Items, no_items, item, Fields, no_fields, field, scalar_eq,
}
use ikemen_devtools.Oracle.Equal.{SameScalar, scalar_eq-SameScalar}
use ikemen_devtools.Oracle.Sorted.{Rising, Paired, Present, Known, same_fields}
use ikemen_devtools.Oracle.{
  Shown, Mismatch, mismatch, count_items, lookup, index_path, json_pointer, lengths, missing_items,
  unexpected_items, unexpected_field, unexpected_fields, diff_values, diff_items, diff_fields,
  kind_missing, kind_value, a_value, nothing,
}

-- The keys of every object in the value increase, so that none is there twice.
unfoldable mutual
  pub Ordered : {S : Type 0} → Json S → Type 0
  Ordered (scalar a) = Unit
  Ordered (array xs) = OrderedItems xs
  Ordered (object fs) = Rising fs × OrderedFields fs

  pub OrderedItems : {S : Type 0} → Items S → Type 0
  OrderedItems no_items = Unit
  OrderedItems (item x xs) = Ordered x × OrderedItems xs

  pub OrderedFields : {S : Type 0} → Fields S → Type 0
  OrderedFields no_fields = Unit
  OrderedFields (field k v fs) = Ordered v × OrderedFields fs

-- Floats are the same where `float_eq` says so.
module _ {F : Type 0} (float_eq : F → F → Bool) where
  -- Two values are the same: the scalars as scalars, the arrays item by item, the objects key by key.
  unfoldable mutual
    pub Same : Json (Scalar F) → Json (Scalar F) → Type 0
    Same (scalar a) (scalar b) = SameScalar float_eq a b
    Same (array xs) (array ys) = SameItems xs ys
    Same (object fs) (object gs) = SameFields fs gs
    Same _ _ = ⊥

    pub SameItems : Items (Scalar F) → Items (Scalar F) → Type 0
    SameItems no_items no_items = Unit
    SameItems (item x xs) (item y ys) = Same x y × SameItems xs ys
    SameItems _ _ = ⊥

    pub SameFields : Fields (Scalar F) → Fields (Scalar F) → Type 0
    SameFields no_fields no_fields = Unit
    SameFields (field k v fs) (field l w gs) = (k ≡ l) × Same v w × SameFields fs gs
    SameFields _ _ = ⊥

  Paired-SameFields : (fs gs : Fields (Scalar F)) → Paired Same fs gs → SameFields fs gs
  unfolding Same
  Paired-SameFields no_fields no_fields h = tt
  Paired-SameFields no_fields (field l w gs) h = elim h [ ]
  Paired-SameFields (field k v fs) no_fields h = elim h [ ]
  Paired-SameFields (field k v fs) (field l w gs) (kl, same, h) =
      (kl, same, Paired-SameFields fs gs h)

  pub SameFields-Paired : (fs gs : Fields (Scalar F)) → SameFields fs gs → Paired Same fs gs
  unfolding Same
  SameFields-Paired no_fields no_fields h = tt
  SameFields-Paired no_fields (field l w gs) h = elim h [ ]
  SameFields-Paired (field k v fs) no_fields h = elim h [ ]
  SameFields-Paired (field k v fs) (field l w gs) (kl, same, h) =
      (kl, same, SameFields-Paired fs gs h)

left_empty : {A : Type 0} → (xs ys : List A) → xs ++ ys ≡ [] → xs ≡ []
left_empty [] ys h = refl
left_empty (x ∷ xs) ys h = cc

right_empty : {A : Type 0} → (xs ys : List A) → xs ++ ys ≡ [] → ys ≡ []
right_empty [] ys h = h
right_empty (x ∷ xs) ys h = cc

pub lookup-Ordered :
    {S : Type 0}
    → (k : Bytes) (fs : Fields S) (v : Json S) → OrderedFields fs
    → lookup k fs ≡ some v
    → Ordered v
unfolding lookup OrderedFields
lookup-Ordered k no_fields v h e = cc
lookup-Ordered k (field l w fs) v h e = elim (Bool-cases (bytes_eq k l)) [
  | inl q ↦
      let same : some w ≡ some v = subst (λ b. (if b then some w else lookup k fs) ≡ some v) q e in
      subst (λ x. Ordered x) (let wv : w ≡ v = cc in wv) h.0
  | inr q ↦
      lookup-Ordered k fs v h.1 (subst (λ b. (if b then some w else lookup k fs) ≡ some v) q e)
]

module _ {F : Type 0} (float_eq : F → F → Bool) (show type_name : Shown (Scalar F) → Bytes) where
  unexpected_items-empty :
      (path : Bytes) (i : ℕ) (ys : Items (Scalar F))
      → unexpected_items float_eq show type_name path i ys ≡ []
      → SameItems float_eq no_items ys
  unfolding unexpected_items Same
  unexpected_items-empty path i no_items h = tt
  unexpected_items-empty path i (item y ys) h = cc

  unexpected_fields-Known :
      (path : Bytes) (fs gs : Fields (Scalar F))
      → unexpected_fields float_eq show type_name path fs gs ≡ []
      → Known gs fs
  unfolding unexpected_fields
  unexpected_fields-Known path fs no_fields h = tt
  unexpected_fields-Known path fs (field k w gs) h =
      known (unexpected_fields-Known path fs gs) (lookup k fs) refl h
    where
      known :
          (unexpected_fields float_eq show type_name path fs gs ≡ [] → Known gs fs)
          → (o : Option (Json (Scalar F))) → lookup k fs ≡ o
          → unexpected_field float_eq show type_name path k w o
              (unexpected_fields float_eq show type_name path fs gs)
            ≡ []
          → Known (field k w gs) fs
      known rest none e h = cc
      known rest (some v) e h = ((v, e), rest h)

  pub Known-unexpected_fields :
      (path : Bytes) (fs gs : Fields (Scalar F))
      → Known gs fs
      → unexpected_fields float_eq show type_name path fs gs ≡ []
  unfolding unexpected_fields
  Known-unexpected_fields path fs no_fields h = refl
  Known-unexpected_fields path fs (field k w gs) ((v, e), h) =
      ap
        (λ o.
          unexpected_field float_eq show type_name path k w o
            (unexpected_fields float_eq show type_name path fs gs))
        e
      ∙ Known-unexpected_fields path fs gs h

  pub lengths-same : (path : Bytes) (n : ℕ) → lengths float_eq show type_name path n n ≡ []
  lengths-same path n = let same : (n == n) ≡ true = ground arith in rw same refl

  missing_items-none :
      (path : Bytes) (i : ℕ) (x : Json (Scalar F)) (xs : Items (Scalar F))
      → missing_items float_eq show type_name path i (item x xs) ≡ []
      → ⊥
  unfolding missing_items
  missing_items-none path i x xs h = cc

  -- The mismatches of one field.
  abbrev head_of :
      Bytes → Bytes → Json (Scalar F) → Option (Json (Scalar F)) → List (Mismatch (Scalar F))
  head_of path k v o = elim o [
    | none ↦
        mismatch float_eq show type_name (json_pointer path k) kind_missing (a_value v) nothing ∷ []
    | some w ↦ diff_values float_eq show type_name (json_pointer path k) v w
  ]

  found_in :
      (path k : Bytes) (v : Json (Scalar F)) (gs : Fields (Scalar F))
      → OrderedFields gs
      → ((w : Json (Scalar F))
          → Ordered w
          → diff_values float_eq show type_name (json_pointer path k) v w ≡ []
          → Same float_eq v w)
      → (o : Option (Json (Scalar F))) → lookup k gs ≡ o
      → head_of path k v o ≡ []
      → (w : Json (Scalar F)) × (lookup k gs ≡ some w) × Same float_eq v w
  found_in path k v gs p same none e h = cc
  found_in path k v gs p same (some w) e h = (w, e, same w (lookup-Ordered k gs w p e) h)

  -- No mismatch: the values are the same.
  mutual
    unfolding diff_values Ordered Same

    pub diff_values-Same :
        (path : Bytes) (a b : Json (Scalar F))
        → Ordered a
        → Ordered b
        → diff_values float_eq show type_name path a b ≡ []
        → Same float_eq a b
    diff_values-Same path (object fs) (object gs) (r, o) (q, p) h =
        Paired-SameFields float_eq fs gs (
          same_fields (Same float_eq) fs gs r q
            (diff_fields-Present path fs gs o p (left_empty _ _ h))
            (unexpected_fields-Known path fs gs
              (right_empty (diff_fields float_eq show type_name path fs gs) _ h)))
    diff_values-Same path (object fs) (array ys) o p h = cc
    diff_values-Same path (object fs) (scalar b) o p h = cc
    diff_values-Same path (array xs) (array ys) o p h =
        diff_items-Same path 0 xs ys o p
          (right_empty (lengths float_eq show type_name path (count_items xs) (count_items ys)) _ h)
    diff_values-Same path (array xs) (object gs) o p h = cc
    diff_values-Same path (array xs) (scalar b) o p h = cc
    diff_values-Same path (scalar a) (scalar b) o p h = elim (Bool-cases (scalar_eq float_eq a b)) [
      | inl e ↦ scalar_eq-SameScalar float_eq a b e
      | inr e ↦ absurd (
          let no_match =
            subst
              (λ t.
                (if t
                  then []
                  else mismatch float_eq show type_name path kind_value (a_value (scalar a))
                      (a_value (scalar b))
                    ∷ [])
                ≡ [])
              e h in
          cc)
    ]
    diff_values-Same path (scalar a) (array ys) o p h = cc
    diff_values-Same path (scalar a) (object gs) o p h = cc

    diff_items-Same :
        (path : Bytes) (i : ℕ) (xs ys : Items (Scalar F))
        → OrderedItems xs
        → OrderedItems ys
        → diff_items float_eq show type_name path i xs ys ≡ []
        → SameItems float_eq xs ys
    diff_items-Same path i no_items ys o p h = unexpected_items-empty path i ys h
    diff_items-Same path i (item x xs) no_items o p h = absurd (missing_items-none path i x xs h)
    diff_items-Same path i (item x xs) (item y ys) (o, os) (p, ps) h = (
      diff_values-Same (index_path path i) x y o p (left_empty _ _ h),
      diff_items-Same path (suc i) xs ys os ps
          (right_empty (diff_values float_eq show type_name (index_path path i) x y) _ h),
    )

    diff_fields-Present :
        (path : Bytes) (fs gs : Fields (Scalar F))
        → OrderedFields fs
        → OrderedFields gs
        → diff_fields float_eq show type_name path fs gs ≡ []
        → Present (Same float_eq) fs gs
    diff_fields-Present path no_fields gs o p h = tt
    diff_fields-Present path (field k v fs) gs (o, os) p h =
        let same : (w : Json (Scalar F))
            → Ordered w
            → diff_values float_eq show type_name (json_pointer path k) v w ≡ []
            → Same float_eq v w =
          λ w ow e. diff_values-Same (json_pointer path k) v w o ow e in
        (
          found_in path k v gs p same (lookup k gs) refl (left_empty _ _ h),
          diff_fields-Present path fs gs os p (right_empty (head_of path k v (lookup k gs)) _ h),
        )
