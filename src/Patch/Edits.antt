-- ===== src/Patch/Edits.antt =====
-- internal/patch/patch.go: the edits of one file, their checks, their order and their application
-- (the types, `validateSpan`, `lineByteOffsets`, and the part of `prepare` that treats one file).
use ikemen_devtools.Prelude.{
  ℕ, suc, ◌+◌, ◌-◌, Bool, true, false, not, ◌&&◌, ◌||◌, Option, none, some, List, [], ◌∷◌, ◌++◌,
  length, take, drop, get_elem?, ltb, leb, ◌==◌, if◌then◌else◌,
}
use ikemen_devtools.Prelude.Int.{ℤ, pos, pos_part, neg_part, ltb_ℤ}
use ikemen_devtools.Ir.Documents.{Identity, identity_contract_version}
use ikemen_devtools.Patch.Paths.{canonical_relative}
use ikemen_devtools.Prelude.Text.{Bytes, bytes_eq, bytes_lt}

-- The fields of `ir.SourcePosition` as a caller supplies them: any int.
pub record Position : Type 0 where
  pub line : ℤ
  pub column : ℤ

pub record Span : Type 0 where
  pub byte_start : ℤ
  pub byte_end : ℤ
  pub start : Position
  pub end : Position

pub record Edit : Type 0 where
  pub path : Bytes
  pub content_hash : Bytes
  pub identity_contract : Bytes
  pub identity : Identity
  pub span : Span
  pub old_text : Bytes
  pub new_text : Bytes

-- The package's errors, and the failures to read and to write a file.
pub data PatchError : Type 0 where
  path_escape stale_hash overlap out_of_range old_text identity_contract read_failed write_failed :
      PatchError

-- What a function of the package returns: its value, or the error that it refuses the input with.
pub data Checked {ℓ} (A : Type ℓ) : Type ℓ where
  refused : PatchError → Checked A
  accepted : A → Checked A

infixl 5 ◌>>=◌
abbrev pub ◌>>=◌ {ℓ κ} : {A : Type ℓ} {B : Type κ} → Checked A → (A → Checked B) → Checked B
refused e >>= next = refused e
accepted value >>= next = next value

abbrev int_eq : ℤ → ℤ → Bool
int_eq a b = pos_part a + neg_part b == pos_part b + neg_part a

-- `ir.SourcePosition{}`
unfoldable pub is_zero : Position → Bool
is_zero p = int_eq p.line (pos 0) && int_eq p.column (pos 0)

-- The offsets behind the line feeds, from offset `i` on.
unfoldable pub line_starts : ℕ → Bytes → List ℕ
line_starts i [] = []
line_starts i (b ∷ s) = if b == 10 then (i + 1) ∷ line_starts (i + 1) s else line_starts (i + 1) s

-- How far the line goes: to a carriage return, a line feed, or the end.
unfoldable pub line_length : Bytes → ℕ
line_length [] = 0
line_length (b ∷ s) = if b == 13 || b == 10 then 0 else suc (line_length s)

-- `utf8.RuneStart`: every byte but a continuation byte, 10xxxxxx.
unfoldable pub rune_start : ℕ → Bool
rune_start b = ltb b 0x80 || leb 0xC0 b

abbrev starts_rune : Option ℕ → Bool
starts_rune none = true
starts_rune (some b) = rune_start b

-- `toByte` with the line's offset at hand. Where `base+col` leaves int64 the code panics on a negative index;
-- here such a column is beyond the line's end, and refused.
unfoldable pub column_byte : Bytes → ℕ → ℤ → Option ℕ
unfolding line_length rune_start
column_byte data_bytes base column =
    let col : ℕ = pos_part column - 1 in
    let line_end : ℕ = base + line_length (drop base data_bytes) in
    if ltb_ℤ column (pos 1) || ltb line_end (base + col)
    then none
    else if ltb (base + col) line_end && not (starts_rune (get_elem? data_bytes (base + col)))
    then none
    else some (base + col)

abbrev base_byte : Bytes → ℤ → Option ℕ → Option ℕ
base_byte data_bytes column none = none
base_byte data_bytes column (some base) = column_byte data_bytes base column

unfoldable pub to_byte : Bytes → Position → Option ℕ
unfolding line_starts column_byte
to_byte data_bytes p =
    base_byte data_bytes p.column (get_elem? (0 ∷ line_starts 0 data_bytes) (pos_part p.line - 1))

abbrev pair : Option ℕ → Option ℕ → Option (ℕ × ℕ)
pair (some a) (some b) = some (a, b)
pair _ _ = none

-- `none` where the code returns false. The lines are at least 1 here.
unfoldable pub line_byte_offsets : Bytes → Position → Position → Option (ℕ × ℕ)
unfolding to_byte
line_byte_offsets data_bytes start end =
    let lines : ℕ = length (0 ∷ line_starts 0 data_bytes) in
    if ltb lines (pos_part start.line) || ltb lines (pos_part end.line)
    then none
    else pair (to_byte data_bytes start) (to_byte data_bytes end)

abbrev same_offsets : Span → Option (ℕ × ℕ) → Bool
same_offsets s none = false
same_offsets s (some (a, b)) = int_eq (pos a) s.byte_start && int_eq (pos b) s.byte_end

-- The first test of `validateSpan`.
unfoldable pub offsets_ok : Span → Bytes → Bool
offsets_ok s data_bytes = not (
    ltb_ℤ s.byte_start (pos 0)
    || ltb_ℤ s.byte_end s.byte_start
    || ltb_ℤ (pos (length data_bytes)) s.byte_end)

-- The rest of it: the positions, where there are any, name the same offsets.
unfoldable pub positions_ok : Span → Bytes → Bool
unfolding is_zero line_byte_offsets
positions_ok s data_bytes =
    if is_zero s.start && is_zero s.end
    then true
    else if ltb_ℤ s.start.line (pos 1)
        || ltb_ℤ s.start.column (pos 1)
        || ltb_ℤ s.end.line s.start.line
        || ltb_ℤ s.end.column (pos 1)
    then false
    else same_offsets s (line_byte_offsets data_bytes s.start s.end)

-- `validateSpan(...) == nil`
unfoldable pub validate_span : Span → Bytes → Bool
validate_span s data_bytes = offsets_ok s data_bytes && positions_ok s data_bytes

-- The offsets of a span that was found valid.
abbrev pub first : Edit → ℕ
first e = pos_part e.span.byte_start

abbrev pub last : Edit → ℕ
last e = pos_part e.span.byte_end

-- original[start:end]
abbrev pub slice : ℕ → ℕ → Bytes → Bytes
slice a b s = take (b - a) (drop a s)

abbrev is_path : Bytes → Option Bytes → Bool
is_path path none = false
is_path path (some canonical) = bytes_eq canonical path

-- The checks of one edit of the file `path` against its bytes and their hash, in the code's order.
unfoldable pub check_edit : Bytes → Bytes → Bytes → Edit → Option PatchError
check_edit path hash original e =
    if not (is_path path (canonical_relative e.path))
    then some path_escape
    else if bytes_eq e.content_hash [] || not (bytes_eq e.content_hash hash)
    then some stale_hash
    else if not (bytes_eq e.identity_contract identity_contract_version)
        || (not (bytes_eq e.identity.contract_version [])
            && not (bytes_eq e.identity.contract_version identity_contract_version))
    then some identity_contract
    else if not (validate_span e.span original)
    then some out_of_range
    else if not (bytes_eq (slice (first e) (last e) original) e.old_text)
    then some old_text
    else none

-- The first error, if any.
abbrev or_else : Option PatchError → Option PatchError → Option PatchError
or_else (some e) rest = some e
or_else none rest = rest

unfoldable pub check_edits : Bytes → Bytes → Bytes → List Edit → Option PatchError
check_edits path hash original [] = none
check_edits path hash original (e ∷ es) =
    or_else (check_edit path hash original e) (check_edits path hash original es)

-- The order of `sort.SliceStable`.
unfoldable pub edit_less : Edit → Edit → Bool
edit_less a b =
    if not (first a == first b)
    then ltb (first a) (first b)
    else if not (last a == last b)
    then ltb (last a) (last b)
    else if not (bytes_eq a.new_text b.new_text)
    then bytes_lt a.new_text b.new_text
    else bytes_lt a.old_text b.old_text

-- A stable sort: `e` goes before the first edit that is not less than it.
unfoldable pub insert_edit : Edit → List Edit → List Edit
insert_edit e [] = e ∷ []
insert_edit e (x ∷ xs) = if edit_less x e then x ∷ insert_edit e xs else e ∷ x ∷ xs

unfoldable pub sort_edits : List Edit → List Edit
sort_edits [] = []
sort_edits (e ∷ es) = insert_edit e (sort_edits es)

-- Whether an edit ends behind the start of the next.
unfoldable pub has_overlap : List Edit → Bool
has_overlap [] = false
has_overlap (e ∷ []) = false
has_overlap (e ∷ x ∷ xs) = ltb (first x) (last e) || has_overlap (x ∷ xs)

-- result[:s] + newText + result[e:]
unfoldable pub replace : Edit → Bytes → Bytes
replace e result = take (first e) result ++ (e.new_text ++ drop (last e) result)

-- The loop from the last edit to the first.
unfoldable pub apply_edits : Bytes → List Edit → Bytes
apply_edits original [] = original
apply_edits original (e ∷ es) = replace e (apply_edits original es)

abbrev finish_file : Bytes → List Edit → Option PatchError → Checked Bytes
finish_file original es (some e) = refused e
finish_file original es none =
    if has_overlap (sort_edits es)
    then refused overlap
    else accepted (apply_edits original (sort_edits es))

-- What `prepare` makes of the edits of one file, given its path, its bytes and their hash.
unfoldable pub edit_file : Bytes → Bytes → Bytes → List Edit → Checked Bytes
edit_file path hash original es = finish_file original es (check_edits path hash original es)
