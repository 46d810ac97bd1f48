-- ===== src/Adapter/Commands.antt =====
-- internal/parser/adapter/adapter.go: `extractCommandReferences`.
use ikemen_devtools.Prelude.{
  ℕ, zero, suc, ◌+◌, ◌≤◌, ◌≡◌, refl, arith, Bool, false, ◌&&◌, ◌||◌, Option, none, some, List, [],
  ◌∷◌, length, length-drop, take, drop, get_elem?, leb, ltb, ◌==◌, if◌then◌else◌, Bool-cases, inl,
  inr,
}
use ikemen_devtools.Prelude.Text.{Bytes, codes, bytes_eq}
use ikemen_devtools.FilePath.{has_prefix, trim_space}
use ikemen_devtools.Expr.Unquote.{to_lower}
use ikemen_devtools.Syntax.Split.{index_of, first_field}

unfoldable pub is_identifier_char : ℕ → Bool
is_identifier_char ch =
    ch == 95
    || ch == 45
    || (leb 48 ch && leb ch 57)
    || (leb 97 ch && leb ch 122)
    || (leb 65 ch && leb ch 90)

abbrev up_to_quote : Bytes → Option ℕ → Bytes
up_to_quote s none = s
up_to_quote s (some end) = take end s

unfoldable pub reference_value_of : Bytes → Bytes
reference_value_of v =
    if has_prefix (codes "\"") v
    then up_to_quote (drop 1 v) (index_of (codes "\"") (drop 1 v))
    else first_field v

unfoldable pub parse_reference_value : Bytes → Bytes
parse_reference_value v = reference_value_of (trim_space v)

-- What one round finds in the rest of the value: nothing more, a longer word that begins with
-- "command" and ends the word at `end`, or an "=" in front of `next`.
pub data Found : Type 0 where
  nothing_more : Found
  longer_word : ℕ → Found
  assigned : ℕ → Found

abbrev found_equals : ℕ → Option ℕ → Found
found_equals end none = nothing_more
found_equals end (some i) = assigned (end + i + 1)

abbrev is_identifier : Option ℕ → Bool
is_identifier none = false
is_identifier (some ch) = is_identifier_char ch

unfoldable pub find_command : Bytes → Option ℕ → Found
find_command segment none = nothing_more
find_command segment (some idx) =
    let end : ℕ = idx + 7 in
    if ltb (length segment) idx || ltb (length segment) end
    then nothing_more
    else if is_identifier (get_elem? segment end)
    then longer_word end
    else found_equals end (index_of (codes "=") (drop end segment))

abbrev add_command : Bytes → Option (List Bytes) → Option (List Bytes)
add_command cmd none = none
add_command cmd (some rest) = if bytes_eq cmd [] then some rest else some (cmd ∷ rest)

-- The loop over the rest of the value; `none` means that the fuel ran out.
module _ (wide_lower : Bytes → Bytes) where
  unfoldable pub extract_from : ℕ → Bytes → Option (List Bytes)
  extract_from fuel [] = some []
  extract_from zero (c ∷ segment) = none
  extract_from (suc fuel) (c ∷ segment) =
      elim (find_command (c ∷ segment)
        (index_of (codes "command") (to_lower wide_lower (c ∷ segment)))) [
          | nothing_more ↦ some []
          | longer_word end ↦ extract_from fuel (drop end (c ∷ segment))
          | assigned next ↦
              add_command (parse_reference_value (trim_space (drop next (c ∷ segment))))
                (extract_from fuel (drop next (c ∷ segment)))
        ]

  unfoldable pub extract_command_references : Bytes → Option (List Bytes)
  extract_command_references value = extract_from (length value) value

abbrev Advances : Found → Type 0
Advances nothing_more = Unit
Advances (longer_word end) = 1 ≤ end
Advances (assigned next) = 1 ≤ next

found_equals-Advances : (end : ℕ) (o : Option ℕ) → Advances (found_equals end o)
found_equals-Advances end none = tt
found_equals-Advances end (some i) = omega arith

find_command-Advances : (segment : Bytes) (o : Option ℕ) → Advances (find_command segment o)
unfolding find_command
find_command-Advances segment none = tt
find_command-Advances segment (some idx) =
    elim (Bool-cases (ltb (length segment) idx || ltb (length segment) (idx + 7))) [
      | inl e ↦ rw (e, Advances) tt
      | inr e ↦ elim (Bool-cases (is_identifier (get_elem? segment (idx + 7)))) [
        | inl i ↦ rw (e, i, Advances) (omega arith)
        | inr i ↦ rw (e, i) (found_equals-Advances (idx + 7) _)
      ]
    ]

add_command-some :
    (cmd : Bytes) (o : Option (List Bytes))
    → (r : List Bytes) × (o ≡ some r)
    → (r : List Bytes) × (add_command cmd o ≡ some r)
add_command-some cmd none (r, e) = cc
add_command-some cmd (some rest) h = elim (Bool-cases (bytes_eq cmd [])) [
  | inl e ↦ (rest, rw e refl)
  | inr e ↦ (cmd ∷ rest, rw e refl)
]

module _ (wide_lower : Bytes → Bytes) where
  shorter :
      (fuel n : ℕ) (c : ℕ) (s : Bytes)
      → length (c ∷ s) ≤ suc fuel
      → 1 ≤ n
      → length (drop n (c ∷ s)) ≤ fuel
  shorter fuel n c s h k = omega (arith, length-drop n (c ∷ s))

  -- The loop ends: every round takes at least a byte of the value.
  extract_from-some :
      (fuel : ℕ) (segment : Bytes)
      → length segment ≤ fuel
      → (r : List Bytes) × (extract_from wide_lower fuel segment ≡ some r)
  unfolding extract_from
  extract_from-some fuel [] h = ([], refl)
  extract_from-some zero (c ∷ segment) h = absurd (omega arith)
  extract_from-some (suc fuel) (c ∷ segment) h =
      by_found
        (find_command (c ∷ segment)
          (index_of (codes "command") (to_lower wide_lower (c ∷ segment))))
        (find_command-Advances (c ∷ segment) _)
        (λ n k. extract_from-some fuel (drop n (c ∷ segment)) (shorter fuel n c segment h k))
    where
      by_found :
          (found : Found)
          → Advances found
          → ((n : ℕ)
              → 1 ≤ n
              → (r : List Bytes) × (extract_from wide_lower fuel (drop n (c ∷ segment)) ≡ some r))
          → (r : List Bytes) × ((elim found [
            | nothing_more ↦ some []
            | longer_word end ↦ extract_from wide_lower fuel (drop end (c ∷ segment))
            | assigned next ↦
                add_command
                  (parse_reference_value (trim_space (drop next (c ∷ segment))))
                  (extract_from wide_lower fuel (drop next (c ∷ segment)))
          ])
              ≡ some r)
      by_found nothing_more a rest = ([], refl)
      by_found (longer_word end) a rest = rest end a
      by_found (assigned next) a rest = add_command-some _ _ (rest next a)

  pub extract_command_references-some :
      (value : Bytes) → (r : List Bytes) × (extract_command_references wide_lower value ≡ some r)
  unfolding extract_command_references
  extract_command_references-some value = extract_from-some (length value) value (omega arith)
