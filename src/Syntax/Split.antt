-- ===== src/Syntax/Split.antt =====
-- internal/syntax/syntax.go: `splitLine`, `splitKeyValue` and `parseSectionHeader`.
pub mod Parts
pub mod Shapes
use ikemen_devtools.Prelude.{
  ℕ, suc, ◌+◌, ◌-◌, Bool, false, not, ◌&&◌, ◌||◌, Option, none, some, [], ◌∷◌, length, take, drop,
  ltb, ◌==◌, if◌then◌else◌,
}
use ikemen_devtools.Prelude.Text.{Bytes, codes, bytes_eq}
use ikemen_devtools.FilePath.{has_prefix, leading_space, trim_space}

abbrev pub add_one : Option ℕ → Option ℕ
add_one none = none
add_one (some n) = some (suc n)

-- strings.Index
unfoldable pub index_of : Bytes → Bytes → Option ℕ
index_of t [] = if has_prefix t [] then some 0 else none
index_of t (c ∷ s) =
    let later = add_one (index_of t s) in if has_prefix t (c ∷ s) then some 0 else later

abbrev trimmed_cons : (ℕ → Bool) → ℕ → Bytes → Bytes
trimmed_cons test c [] = if test c then [] else c ∷ []
trimmed_cons test c (d ∷ rest) = c ∷ d ∷ rest

-- strings.TrimRight
unfoldable pub trim_right : (ℕ → Bool) → Bytes → Bytes
trim_right test [] = []
trim_right test (c ∷ s) = trimmed_cons test c (trim_right test s)

abbrev pub is_blank : ℕ → Bool
is_blank c = c == 32 || c == 9

-- Whether the byte `c` at index `i` of the line begins a comment; `s` is behind it.
unfoldable pub begins_comment : Bytes → ℕ → ℕ → Bytes → Bool
begins_comment raw i c s =
    c == 59 || (c == 47 && has_prefix (codes "/") s && bytes_eq (trim_space (take i raw)) [])

-- The loop of `splitLine` from index `i` on: where the comment begins.
unfoldable pub comment_from : Bytes → ℕ → Bool → Bool → Bytes → Option ℕ
comment_from raw i in_quote escaped [] = none
comment_from raw i in_quote escaped (c ∷ s) =
    let quote_now : Bool = if not escaped && c == 34 then not in_quote else in_quote in
    let rest = comment_from raw (suc i) quote_now (not escaped && c == 92) s in
    if escaped || c == 92 || c == 34 || in_quote
    then rest
    else if begins_comment raw i c s
    then some i
    else rest

pub record SplitLine : Type 0 where
  pub code : Bytes
  pub comment : Bytes
  pub comment_idx : Option ℕ

unfoldable pub split_at : Bytes → Option ℕ → SplitLine
split_at raw none = record { code = trim_right is_blank raw; comment = []; comment_idx = none }
split_at raw (some i) =
    let delimiter_len : ℕ = if has_prefix (codes "//") (drop i raw) then 2 else 1 in
    record {
      code = trim_right is_blank (take i raw);
      comment = trim_space (drop (i + delimiter_len) raw);
      comment_idx = some i;
    }

unfoldable pub split_line : Bytes → SplitLine
split_line raw = split_at raw (comment_from raw 0 false false raw)

abbrev pub key_value_at : Bytes → Option ℕ → Option (Bytes × Bytes)
key_value_at line none = none
key_value_at line (some i) = some (trim_space (take i line), trim_space (drop (i + 1) line))

-- `none` where the code returns false.
unfoldable pub split_key_value : Bytes → Option (Bytes × Bytes)
split_key_value line = key_value_at line (index_of (codes "=") line)

-- strings.HasSuffix for one byte.
unfoldable pub ends_with : ℕ → Bytes → Bool
ends_with b [] = false
ends_with b (c ∷ []) = c == b
ends_with b (c ∷ d ∷ s) = ends_with b (d ∷ s)

unfoldable pub header_of : Bytes → Option Bytes
header_of trim =
    if ltb (length trim) 2 || bytes_eq trim (codes "[")
    then none
    else if not (has_prefix (codes "[") trim) || not (ends_with 93 trim)
    then none
    else some (trim_space (take (length trim - 2) (drop 1 trim)))

unfoldable pub parse_section_header : Bytes → Option Bytes
parse_section_header line = header_of (trim_space line)

-- The first of strings.Fields of a text without white space in front.
unfoldable pub first_field : Bytes → Bytes
first_field [] = []
first_field (c ∷ s) = if leading_space (c ∷ s) == 0 then c ∷ first_field s else []
