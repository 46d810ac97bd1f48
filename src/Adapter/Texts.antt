-- ===== src/Adapter/Texts.antt =====
-- internal/parser/adapter/adapter.go: the helpers that read headers, keys and values.
use ikemen_devtools.Prelude.{
  ℕ, ◌+◌, ◌-◌, ◌*◌, Bool, true, false, not, ◌&&◌, ◌||◌, Option, none, some, [], ◌∷◌, ◌++◌, length,
  take, drop, leb, ◌==◌, if◌then◌else◌,
}
use ikemen_devtools.Prelude.Text.{Bytes, codes, bytes_eq}
use ikemen_devtools.FilePath.{has_prefix, trim_space}
use ikemen_devtools.Expr.Unquote.{to_lower}
use ikemen_devtools.Syntax.Split.{index_of, first_field, ends_with}

-- strings.TrimPrefix
unfoldable pub trim_prefix : Bytes → Bytes → Bytes
trim_prefix prefix s = if has_prefix prefix s then drop (length prefix) s else s

-- What follows the first field; there is a second field if it is not blank.
unfoldable pub after_field : Bytes → Bytes
after_field s = trim_space (drop (length (first_field s)) s)

unfoldable pub section_header_argument : Bytes → Bytes
section_header_argument header =
    if bytes_eq (after_field (trim_space header)) []
    then []
    else trim_space (trim_prefix (first_field (trim_space header)) header)

abbrev cut_at : Bytes → Option ℕ → Bytes
cut_at raw none = raw
cut_at raw (some i) = take i raw

unfoldable pub state_header_id : Bytes → Bytes
state_header_id raw = first_field (trim_space (cut_at raw (index_of (codes ",") raw)))

-- The name of a state or of a controller: `prefix` is "state:" or "state-controller:".
unfoldable pub canonical_name : Bytes → Bytes → Bytes
canonical_name prefix name =
    if bytes_eq name []
    then prefix ++ codes "unknown"
    else if bytes_eq name (codes "+1")
    then prefix ++ codes "-10"
    else prefix ++ name

unfoldable pub canonical_state_name : Bytes → Bytes
canonical_state_name raw = canonical_name (codes "state:") (state_header_id raw)

unfoldable pub canonical_state_controller_name : Bytes → Bytes
canonical_state_controller_name raw =
    canonical_name (codes "state-controller:") (state_header_id raw)

unfoldable pub normalize_state_reference_value : Bytes → Bytes
normalize_state_reference_value value =
    if bytes_eq (trim_space value) (codes "+1") then codes "-10" else value

abbrev pub quoted_by : ℕ → Bytes → Bool
quoted_by quote s = has_prefix (quote ∷ []) s && ends_with quote s

unfoldable pub strip_trimmed : Bytes → Bytes
strip_trimmed s =
    if leb 2 (length s) && (quoted_by 34 s || quoted_by 39 s)
    then take (length s - 2) (drop 1 s)
    else s

unfoldable pub strip_quotes : Bytes → Bytes
strip_quotes s = strip_trimmed (trim_space s)

abbrev is_decimal_digit : ℕ → Bool
is_decimal_digit c = leb 48 c && leb c 57

unfoldable pub all_digits : Bytes → Bool
all_digits [] = true
all_digits (c ∷ s) = is_decimal_digit c && all_digits s

unfoldable pub decimal_value : ℕ → Bytes → ℕ
decimal_value n [] = n
decimal_value n (c ∷ s) = decimal_value (n * 10 + (c - 48)) s

abbrev nonempty : Bytes → Bool
nonempty [] = false
nonempty (c ∷ s) = true

-- The digits of a number that is at most `limit`.
unfoldable pub digits_in_range : ℕ → Bytes → Bool
digits_in_range limit s = nonempty s && all_digits s && leb (decimal_value 0 s) limit

-- Whether strconv.Atoi succeeds.
unfoldable pub is_atoi : Bytes → Bool
is_atoi [] = false
is_atoi (c ∷ s) =
    if c == 45
    then digits_in_range 9223372036854775808 s
    else if c == 43
    then digits_in_range 9223372036854775807 s
    else digits_in_range 9223372036854775807 (c ∷ s)

unfoldable pub is_trigger_key : Bytes → Bool
is_trigger_key key =
    if bytes_eq key (codes "triggerall")
    then true
    else if not (has_prefix (codes "trigger") key)
    then false
    else is_atoi (trim_prefix (codes "trigger") key)

unfoldable pub allowed_header : Bytes → Bool
allowed_header header =
    bytes_eq header (codes "characters")
    || bytes_eq header (codes "stages")
    || bytes_eq header (codes "extrastages")
    || has_prefix (codes "begin action ") header

unfoldable pub allows_positional_lines : (Bytes → Bytes) → Bytes → Bool
allows_positional_lines wide_lower header = allowed_header (to_lower wide_lower (trim_space header))
