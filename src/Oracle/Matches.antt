-- ===== src/Oracle/Matches.antt =====
-- oracle.go, `Compare` and `Match`: when two snapshots match.
use ikemen_devtools.Prelude.{
  ℕ, suc, ◌≡◌, refl, sym, ap, ◌∙◌, ◌↔◌, Bool, true, false, Option, none, some, List, [], ◌∷◌, ◌++◌,
}
use mathlib.Core.Path.{subst}
use ikemen_devtools.Prelude.Text.{Bytes, codes}
use ikemen_devtools.Oracle.Values.{
  Scalar, Literal, Json, scalar, array, object, Items, no_items, item, Fields, no_fields, field,
  normalize_value, normalize_items, normalize_fields,
}
use ikemen_devtools.Oracle.Equal.{SameScalar-scalar_eq}
use ikemen_devtools.Oracle.Sorted.{AllAbove, Rising, Present, Paired-Present, Paired-Known}
use ikemen_devtools.Oracle.Decides.{
  Ordered, OrderedItems, OrderedFields, Same, SameItems, SameFields-Paired, lookup-Ordered,
  lengths-same, Known-unexpected_fields, diff_values-Same,
}
use ikemen_devtools.Oracle.{
  Shown, mismatch, kind_missing, a_value, nothing, count_items, index_path, json_pointer,
  unexpected_items, diff_values, diff_items, diff_fields, diff_json, Request, RunResult, Tools,
  is_match, comparison_of, compare_expected, normalize_json, compare_actual, compare_run, compare,
}

module _ {F : Type 0} (float_eq : F → F → Bool) (show type_name : Shown (Scalar F) → Bytes) where
  SameItems-count :
      (xs ys : Items (Scalar F)) → SameItems float_eq xs ys → count_items xs ≡ count_items ys
  unfolding Same count_items
  SameItems-count no_items no_items h = refl
  SameItems-count no_items (item y ys) h = elim h [ ]
  SameItems-count (item x xs) no_items h = elim h [ ]
  SameItems-count (item x xs) (item y ys) h = ap suc (SameItems-count xs ys h.1)

  -- Values that are the same have no mismatch.
  mutual
    unfolding diff_values Ordered Same unexpected_items

    Same-diff_values :
        (path : Bytes) (a b : Json (Scalar F))
        → Ordered a
        → Ordered b
        → Same float_eq a b
        → diff_values float_eq show type_name path a b ≡ []
    Same-diff_values path (scalar a) (scalar b) o p h =
        rw (SameScalar-scalar_eq float_eq a b h) refl
    Same-diff_values path (scalar a) (array ys) o p h = elim h [ ]
    Same-diff_values path (scalar a) (object gs) o p h = elim h [ ]
    Same-diff_values path (array xs) (scalar b) o p h = elim h [ ]
    Same-diff_values path (array xs) (object gs) o p h = elim h [ ]
    Same-diff_values path (array xs) (array ys) o p h =
        rw
          (
            SameItems-count xs ys h,
            lengths-same float_eq show type_name path (count_items ys),
            SameItems-diff_items path 0 xs ys o p h,
          )
          refl
    Same-diff_values path (object fs) (scalar b) o p h = elim h [ ]
    Same-diff_values path (object fs) (array ys) o p h = elim h [ ]
    Same-diff_values path (object fs) (object gs) (r, o) (q, p) h =
        let paired = SameFields-Paired float_eq fs gs h in
        rw
          (
            diff_fields-none path fs gs (Paired-Present (Same float_eq) fs gs r q paired) o p,
            Known-unexpected_fields float_eq show type_name path fs gs
                (Paired-Known (Same float_eq) fs gs r q paired),
          )
          refl

    SameItems-diff_items :
        (path : Bytes) (i : ℕ) (xs ys : Items (Scalar F))
        → OrderedItems xs
        → OrderedItems ys
        → SameItems float_eq xs ys
        → diff_items float_eq show type_name path i xs ys ≡ []
    SameItems-diff_items path i no_items no_items o p h = refl
    SameItems-diff_items path i no_items (item y ys) o p h = elim h [ ]
    SameItems-diff_items path i (item x xs) no_items o p h = elim h [ ]
    SameItems-diff_items path i (item x xs) (item y ys) (o, os) (p, ps) (h, hs) =
        rw
          (
            Same-diff_values (index_path path i) x y o p h,
            SameItems-diff_items path (suc i) xs ys os ps hs,
          )
          refl

    diff_fields-none :
        (path : Bytes) (fs gs : Fields (Scalar F))
        → Present (Same float_eq) fs gs
        → OrderedFields fs
        → OrderedFields gs
        → diff_fields float_eq show type_name path fs gs ≡ []
    diff_fields-none path no_fields gs f o p = refl
    diff_fields-none path (field k v fs) gs ((w, e, h), f) (o, os) p =
        ap
          (λ x.
            (elim x [
              | none ↦
                  mismatch float_eq show type_name (json_pointer path k) kind_missing (a_value v)
                    nothing
                  ∷ []
              | some w ↦ diff_values float_eq show type_name (json_pointer path k) v w
            ])
            ++ diff_fields float_eq show type_name path fs gs)
          e
        ∙ ap (λ ms. ms ++ diff_fields float_eq show type_name path fs gs)
            (Same-diff_values (json_pointer path k) v w o (lookup-Ordered k gs w p e) h)
        ∙ diff_fields-none path fs gs f os p

module _ {F : Type 0} (float_of : Bytes → Option F) where
  AllAbove-normalize_fields :
      (k : Bytes) (fs : Fields Literal) → AllAbove k fs → AllAbove k (normalize_fields float_of fs)
  unfolding normalize_value
  AllAbove-normalize_fields k no_fields h = tt
  AllAbove-normalize_fields k (field l v fs) h = (h.0, AllAbove-normalize_fields k fs h.1)

  Rising-normalize_fields :
      (fs : Fields Literal) → Rising fs → Rising (normalize_fields float_of fs)
  unfolding normalize_value
  Rising-normalize_fields no_fields h = tt
  Rising-normalize_fields (field k v fs) h =
      (AllAbove-normalize_fields k fs h.0, Rising-normalize_fields fs h.1)

  -- The normalisation keeps the keys.
  mutual
    unfolding normalize_value Ordered

    Ordered-normalize_value : (v : Json Literal) → Ordered v → Ordered (normalize_value float_of v)
    Ordered-normalize_value (scalar l) h = tt
    Ordered-normalize_value (array xs) h = OrderedItems-normalize_items xs h
    Ordered-normalize_value (object fs) h =
        (Rising-normalize_fields fs h.0, OrderedFields-normalize_fields fs h.1)

    OrderedItems-normalize_items :
        (xs : Items Literal) → OrderedItems xs → OrderedItems (normalize_items float_of xs)
    OrderedItems-normalize_items no_items h = tt
    OrderedItems-normalize_items (item x xs) h =
        (Ordered-normalize_value x h.0, OrderedItems-normalize_items xs h.1)

    OrderedFields-normalize_fields :
        (fs : Fields Literal) → OrderedFields fs → OrderedFields (normalize_fields float_of fs)
    OrderedFields-normalize_fields no_fields h = tt
    OrderedFields-normalize_fields (field k v fs) h =
        (Ordered-normalize_value v h.0, OrderedFields-normalize_fields fs h.1)

-- Whether a list is empty, as `Match` asks it.
abbrev is_empty : {A : Type 0} → List A → Bool
is_empty ms = elim ms [ [] ↦ true | m ∷ rest ↦ false ]

empty_of-is_empty : {A : Type 0} → (ms : List A) → is_empty ms ≡ true → ms ≡ []
empty_of-is_empty [] h = refl
empty_of-is_empty (m ∷ ms) h = cc

module _ {F : Type 0} (tools : Tools F) where
  normalize_json-decoded :
      (payload : Bytes) (v : Json Literal)
      → tools.decode payload ≡ some v
      → normalize_json tools payload ≡ some (normalize_value tools.float_of v)
  unfolding normalize_json
  normalize_json-decoded payload v e =
      ap (λ o. elim o [ none ↦ none | some w ↦ some (normalize_value tools.float_of w) ]) e

  compare-result :
      (request : Request) (snapshot : Bytes) (raw : RunResult) (e a : Json (Scalar F))
      → tools.run request ≡ (true, raw)
      → normalize_json tools snapshot ≡ some e
      → normalize_json tools raw.stdout ≡ some a
      → compare tools request snapshot ≡ (
        comparison_of tools request e raw
            (tools.marshal a)
            (diff_json tools.float_eq tools.show tools.type_name e a),
        none,
      )
  unfolding compare compare_run compare_actual
  compare-result request snapshot raw e a ran es ds =
      ap (λ o. compare_expected tools request o) es
      ∙ ap (λ r. compare_run tools request e r) ran
      ∙ ap (λ o. compare_actual tools request e raw o) ds

  -- `Compare` decides whether the snapshots have the same content: if both decode (the objects' keys in
  -- order, each once) and the command succeeds, then `Compare` returns no error, and its result matches
  -- exactly when the normalised values are the same: equal null, boolean, int64 and text values, floats
  -- that float64's own equality takes for the same number, arrays of the same length item by item, and
  -- objects with the same keys field by field.
  pub compare-decides :
      (request : Request) (snapshot : Bytes) (raw : RunResult) (expected actual : Json Literal)
      → tools.run request ≡ (true, raw)
      → tools.decode snapshot ≡ some expected
      → tools.decode raw.stdout ≡ some actual
      → Ordered expected
      → Ordered actual
      → ((compare tools request snapshot).1 ≡ none)
        × ((is_match (compare tools request snapshot).0 ≡ true)
            ↔ Same tools.float_eq
                (normalize_value tools.float_of expected)
                (normalize_value tools.float_of actual))
  unfolding is_match diff_json
  compare-decides request snapshot raw expected actual ran es ds o p =
      let e : Json (Scalar F) = normalize_value tools.float_of expected in
      let a : Json (Scalar F) = normalize_value tools.float_of actual in
      let oe : Ordered e = Ordered-normalize_value tools.float_of expected o in
      let oa : Ordered a = Ordered-normalize_value tools.float_of actual p in
      let result =
        compare-result request snapshot raw e a ran (normalize_json-decoded snapshot expected es)
          (normalize_json-decoded raw.stdout actual ds) in
      subst (λ r. (r.1 ≡ none) × ((is_match r.0 ≡ true) ↔ Same tools.float_eq e a)) (sym result)
        (
          refl,
          (
            λ h.
                diff_values-Same tools.float_eq tools.show tools.type_name (codes "$") e a oe oa
                  (empty_of-is_empty _ h),
            λ same.
                ap (λ ms. is_empty ms)
                  (Same-diff_values tools.float_eq tools.show tools.type_name (codes "$") e a oe oa
                    same),
          ),
        )
