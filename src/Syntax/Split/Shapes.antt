-- ===== src/Syntax/Split/Shapes.antt =====
-- syntax.go, `parseSectionHeader` and `splitKeyValue`: which lines are headers and which have a key.
use ikemen_devtools.Prelude.{
  ℕ, suc, ◌+◌, ◌-◌, ◌≡◌, refl, ap, ◌∙◌, ◌⊎◌, inl, inr, arith, Bool, true, false, not, none, some,
  [], ◌∷◌, ◌++◌, length, ltb, length-append, take-length-append, ◌==◌, Bool-cases, if◌then◌else◌,
}
use ikemen_devtools.Prelude.Text.{Bytes, codes, bytes_eq}
use ikemen_devtools.FilePath.{has_prefix, trim_space}
use ikemen_devtools.Syntax.Split.{index_of, ends_with, header_of, split_key_value}
use ikemen_devtools.Syntax.Split.Parts.{AllBytes, no_equals}

-- The line stands in square brackets.
abbrev pub IsBracketed : Bytes → Type 0
IsBracketed code = (inner : Bytes) × (code ≡ 91 ∷ inner ++ 93 ∷ [])

ends_with-last : (inner : Bytes) (b : ℕ) → ends_with 93 (b ∷ inner ++ 93 ∷ []) ≡ true
unfolding ends_with
ends_with-last [] b = refl
ends_with-last (c ∷ inner) b = ends_with-last inner c

last_of-ends_with :
    (c : ℕ) (s : Bytes) → ends_with 93 (c ∷ s) ≡ true → (inner : Bytes) × (c ∷ s ≡ inner ++ 93 ∷ [])
unfolding ends_with
last_of-ends_with c [] h = let c_eq : c ≡ 93 = ground arith in ([], ap (λ b. b ∷ []) c_eq)
last_of-ends_with c (d ∷ s) h =
    let (inner, e) = last_of-ends_with d s h in (c ∷ inner, ap (λ t. c ∷ t) e)

header_of-brackets : (inner : Bytes) → header_of (91 ∷ inner ++ 93 ∷ []) ≡ some (trim_space inner)
unfolding header_of has_prefix bytes_eq ends_with
header_of-brackets [] = refl
header_of-brackets (c ∷ inner) =
    let size : length (inner ++ 93 ∷ []) ≡ length inner + 1 = length-append inner (93 ∷ []) in
    let long : ltb (suc (suc (length (inner ++ 93 ∷ [])))) 2 ≡ false = ground arith in
    let count : suc (suc (length (inner ++ 93 ∷ []))) - 2 ≡ length (c ∷ inner) = omega arith in
    rw (long, ends_with-last inner c, count, take-length-append (c ∷ inner) (93 ∷ [])) refl

-- A line in brackets is a header with the trimmed text between them; no other line is a header.
pub header_of-cases :
    (code : Bytes)
    → ((inner : Bytes) × (code ≡ 91 ∷ inner ++ 93 ∷ [])
        × (header_of code ≡ some (trim_space inner)))
      ⊎ ((header_of code ≡ none) × (IsBracketed code → ⊥))
unfolding header_of has_prefix bytes_eq ends_with
header_of-cases [] = inr (refl, λ b. let e = b.1 in cc)
header_of-cases (c ∷ []) = inr (refl, λ b. too_short b.0 b.1)
  where
    too_short : (inner : Bytes) → c ∷ [] ≡ 91 ∷ inner ++ 93 ∷ [] → ⊥
    too_short [] e = cc
    too_short (d ∷ inner) e = cc
header_of-cases (c ∷ d ∷ s) = elim (Bool-cases (91 == c)) [
  | inr n ↦
      inr (rw n (by_length _), λ b. let e = b.1 in let c_eq : c ≡ 91 = cc in absurd (ground arith))
  | inl y ↦ elim (Bool-cases (ends_with 93 (d ∷ s))) [
    | inl last ↦
        let (inner, e) = last_of-ends_with d s last in
        let c_eq : 91 ≡ c = ground arith in
        let whole : c ∷ d ∷ s ≡ 91 ∷ inner ++ 93 ∷ [] = cc in
        inl (inner, whole, ap header_of whole ∙ header_of-brackets inner)
    | inr n ↦ inr (
      rw (y, n) (by_length _),
      λ b.
          let last : ends_with 93 (c ∷ d ∷ s) ≡ true =
            ap (ends_with 93) (b.1) ∙ ends_with-last b.0 91 in
          cc,
    )
  ]
]
  where
    by_length : {A : Type 0} {a : A} (b : Bool) → (if b then a else a) ≡ a
    by_length true = refl
    by_length false = refl

-- A line has no "=", or it is cut at the first.
pub first_equals :
    (s : Bytes)
    → AllBytes no_equals s
      ⊎ ((key value : Bytes) × (s ≡ key ++ 61 ∷ value) × AllBytes no_equals key)
first_equals [] = inl tt
first_equals (c ∷ s) = elim (Bool-cases (c == 61)) [
  | inl e ↦ let c_eq : c ≡ 61 = ground arith in inr ([], s, ap (λ b. b ∷ s) c_eq, tt)
  | inr n ↦
      let other : no_equals c ≡ true = ap not n in
      elim (first_equals s) [
        | inl none_there ↦ inl (other, none_there)
        | inr (key, value, e, before) ↦ inr (c ∷ key, value, ap (λ t. c ∷ t) e, (other, before))
      ]
]

index_of-none : (s : Bytes) → AllBytes no_equals s → index_of (codes "=") s ≡ none
unfolding index_of has_prefix
index_of-none [] h = refl
index_of-none (c ∷ s) h =
    let other : (61 == c) ≡ false = ground (arith, h.0) in rw (other, index_of-none s h.1) refl

-- A line without "=" has no key.
pub split_key_value-none : (s : Bytes) → AllBytes no_equals s → split_key_value s ≡ none
unfolding split_key_value
split_key_value-none s h = rw (index_of-none s h) refl
