-- ===== src/FilePath.antt =====
-- Go's path/filepath on a system whose separator is a slash, and strings.TrimSpace, as far as the
-- program uses them.
pub mod Laws
pub mod Cleaned
pub mod Trimmed
use mathlib.Core.List.{reverse}
use ikemen_devtools.Prelude.{
  ℕ, zero, suc, ◌+◌, Bool, true, false, not, ◌&&◌, ◌||◌, Option, none, some, List, [], ◌∷◌, ◌++◌,
  length, drop, leb, ◌==◌, if◌then◌else◌,
}
use ikemen_devtools.Prelude.Text.{Bytes, codes, bytes_eq}

abbrev pub slash : ℕ
slash = 47

unfoldable pub has_prefix : Bytes → Bytes → Bool
has_prefix [] s = true
has_prefix (p ∷ ps) [] = false
has_prefix (p ∷ ps) (c ∷ s) = p == c && has_prefix ps s

abbrev is_ascii_space : ℕ → Bool
is_ascii_space c = (leb 9 c && leb c 13) || c == 32

-- The last byte of a three-byte white space that begins with the other two.
abbrev three_byte_space : ℕ → ℕ → ℕ → Bool
three_byte_space a b c =
    (a == 0xE1 && b == 0x9A && c == 0x80)
    || (a == 0xE2
        && b == 0x80
        && ((leb 0x80 c && leb c 0x8A) || c == 0xA8 || c == 0xA9 || c == 0xAF))
    || (a == 0xE2 && b == 0x81 && c == 0x9F)
    || (a == 0xE3 && b == 0x80 && c == 0x80)

abbrev two_byte_space : ℕ → ℕ → Bool
two_byte_space a b = a == 0xC2 && (b == 0x85 || b == 0xA0)

-- How many bytes the white space has that the text begins with; 0 if there is none.
unfoldable pub leading_space : Bytes → ℕ
leading_space [] = 0
leading_space (a ∷ []) = if is_ascii_space a then 1 else 0
leading_space (a ∷ b ∷ []) = if is_ascii_space a then 1 else if two_byte_space a b then 2 else 0
leading_space (a ∷ b ∷ c ∷ s) =
    if is_ascii_space a
    then 1
    else if two_byte_space a b
    then 2
    else if three_byte_space a b c
    then 3
    else 0

-- The same of a text that is read from its end.
unfoldable trailing_space : Bytes → ℕ
trailing_space [] = 0
trailing_space (a ∷ []) = if is_ascii_space a then 1 else 0
trailing_space (b ∷ a ∷ []) = if is_ascii_space b then 1 else if two_byte_space a b then 2 else 0
trailing_space (c ∷ b ∷ a ∷ s) =
    if is_ascii_space c
    then 1
    else if two_byte_space b c
    then 2
    else if three_byte_space a b c
    then 3
    else 0

unfoldable strip : (Bytes → ℕ) → ℕ → Bytes → Bytes
strip size zero s = s
strip size (suc fuel) s = elim (size s) [ zero ↦ s | suc n ↦ strip size fuel (drop (suc n) s) ]

unfoldable pub trim_space : Bytes → Bytes
unfolding strip leading_space trailing_space
trim_space s =
    let front : Bytes = strip leading_space (length s) s in
    reverse (strip trailing_space (length front) (reverse front))

abbrev cons_first : ℕ → List Bytes → List Bytes
cons_first c [] = (c ∷ []) ∷ []
cons_first c (part ∷ parts) = (c ∷ part) ∷ parts

-- strings.Split(s, "/")
unfoldable pub split_slash : Bytes → List Bytes
split_slash [] = [] ∷ []
split_slash (c ∷ s) = if c == slash then [] ∷ split_slash s else cons_first c (split_slash s)

-- strings.Join(parts, "/")
unfoldable pub join_slash : List Bytes → Bytes
join_slash [] = []
join_slash (part ∷ []) = part
join_slash (part ∷ next ∷ parts) = part ++ slash ∷ join_slash (next ∷ parts)

abbrev pub dot_dot : Bytes
dot_dot = codes ".."

-- Going up from the elements so far, the last of them first.
unfoldable pub go_up : Bool → List Bytes → List Bytes
go_up rooted [] = if rooted then [] else dot_dot ∷ []
go_up rooted (top ∷ parts) = if bytes_eq top dot_dot then dot_dot ∷ top ∷ parts else parts

unfoldable pub clean_part : Bool → List Bytes → Bytes → List Bytes
unfolding go_up
clean_part rooted parts part =
    if bytes_eq part [] || bytes_eq part (codes ".")
    then parts
    else if bytes_eq part dot_dot
    then go_up rooted parts
    else part ∷ parts

unfoldable pub clean_parts : Bool → List Bytes → List Bytes → List Bytes
clean_parts rooted parts [] = parts
clean_parts rooted parts (p ∷ ps) = clean_parts rooted (clean_part rooted parts p) ps

unfoldable pub is_abs : Bytes → Bool
is_abs [] = false
is_abs (c ∷ s) = c == slash

-- The elements of the cleaned path.
unfoldable pub elements : Bytes → List Bytes
elements path = reverse (clean_parts (is_abs path) [] (split_slash path))

abbrev pub or_dot : Bytes → Bytes
or_dot [] = codes "."
or_dot (c ∷ s) = c ∷ s

-- filepath.Clean
unfoldable pub clean : Bytes → Bytes
clean path =
    if is_abs path then slash ∷ join_slash (elements path) else or_dot (join_slash (elements path))

-- filepath.Join of two elements: an empty one is left out.
unfoldable pub join : Bytes → Bytes → Bytes
join [] [] = []
join [] (c ∷ t) = clean (c ∷ t)
join (b ∷ s) [] = clean (b ∷ s)
join (b ∷ s) (c ∷ t) = clean ((b ∷ s) ++ slash ∷ c ∷ t)

-- What is left of the base and of the target behind the elements that they share.
unfoldable pub strip_common : List Bytes → List Bytes → List Bytes × List Bytes
strip_common [] ts = ([], ts)
strip_common (b ∷ bs) [] = (b ∷ bs, [])
strip_common (b ∷ bs) (t ∷ ts) = if bytes_eq b t then strip_common bs ts else (b ∷ bs, t ∷ ts)

abbrev pub ups : List Bytes → List Bytes → List Bytes
ups [] ts = ts
ups (_ ∷ bs) ts = dot_dot ∷ ups bs ts

unfoldable pub rel_rest : List Bytes → List Bytes → Option Bytes
rel_rest [] ts = some (or_dot (join_slash ts))
rel_rest (b ∷ bs) ts = if bytes_eq b dot_dot then none else some (join_slash (ups (b ∷ bs) ts))

-- filepath.Rel; `none` is the error.
unfoldable pub rel : Bytes → Bytes → Option Bytes
rel base target =
    if (is_abs base && is_abs target) || (not (is_abs base) && not (is_abs target))
    then rel_rest (strip_common (elements base) (elements target)).0
        (strip_common (elements base) (elements target)).1
    else none
