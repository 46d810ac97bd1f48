-- ===== src/Expr/Unquote.antt =====
-- `strconv.Unquote` on a double-quoted token and `strings.ToLower`, as far as expr.go uses them.
use ikemen_devtools.Prelude.{
  ℕ, zero, suc, ◌+◌, ◌-◌, ◌*◌, ◌/◌, ◌%◌, Bool, true, false, not, ◌&&◌, ◌||◌, Option, none, some, [],
  ◌∷◌, ◌++◌, map, length, take, drop, ltb, leb, ◌==◌, if◌then◌else◌,
}
use ikemen_devtools.Prelude.Text.{Bytes}

in_range : ℕ → ℕ → ℕ → Bool
in_range lo hi c = leb lo c && leb c hi

continues : ℕ → Bool
unfolding in_range
continues c = in_range 0x80 0xBF c

-- How many bytes the UTF-8 character has that the text begins with: 0 if they are none.
rune_size : Bytes → ℕ
unfolding in_range continues
rune_size (a ∷ b ∷ c ∷ d ∷ s) =
    if in_range 0xC2 0xDF a && continues b
    then 2
    else if ((a == 0xE0 && in_range 0xA0 0xBF b)
          || (a == 0xED && in_range 0x80 0x9F b)
          || ((in_range 0xE1 0xEC a || in_range 0xEE 0xEF a) && continues b))
        && continues c
    then 3
    else if ((a == 0xF0 && in_range 0x90 0xBF b)
          || (a == 0xF4 && in_range 0x80 0x8F b)
          || (in_range 0xF1 0xF3 a && continues b))
        && continues c
        && continues d
    then 4
    else 0
rune_size (a ∷ b ∷ c ∷ []) =
    if in_range 0xC2 0xDF a && continues b
    then 2
    else if ((a == 0xE0 && in_range 0xA0 0xBF b)
          || (a == 0xED && in_range 0x80 0x9F b)
          || ((in_range 0xE1 0xEC a || in_range 0xEE 0xEF a) && continues b))
        && continues c
    then 3
    else 0
rune_size (a ∷ b ∷ []) = if in_range 0xC2 0xDF a && continues b then 2 else 0
rune_size _ = 0

encode_rune : ℕ → Bytes
encode_rune v =
    if ltb v 0x80
    then v ∷ []
    else if ltb v 0x800
    then (0xC0 + v / 64) ∷ (0x80 + v % 64) ∷ []
    else if ltb v 0x10000
    then (0xE0 + v / 4096) ∷ (0x80 + v / 64 % 64) ∷ (0x80 + v % 64) ∷ []
    else (0xF0 + v / 262144) ∷ (0x80 + v / 4096 % 64) ∷ (0x80 + v / 64 % 64) ∷ (0x80 + v % 64) ∷ []

valid_rune : ℕ → Bool
unfolding in_range
valid_rune v = ltb v 0xD800 || in_range 0xE000 0x10FFFF v

-- A digit's value; at least 16 for what is no digit.
hex_value : ℕ → ℕ
unfolding in_range
hex_value c =
    if in_range b'0' b'9' c
    then c - b'0'
    else if in_range b'a' b'f' c
    then c - b'a' + 10
    else if in_range b'A' b'F' c
    then c - b'A' + 10
    else 16

-- The value of `n` digits to the base, and what is behind them.
digits_value : ℕ → ℕ → ℕ → Bytes → Option (ℕ × Bytes)
digits_value base zero v s = some (v, s)
digits_value base (suc n) v [] = none
digits_value base (suc n) v (c ∷ s) =
    let rest = digits_value base n (v * base + hex_value c) s in
    if ltb (hex_value c) base then rest else none

-- Bytes to append, and the text that is left.
byte_escape : Option (ℕ × Bytes) → Option (Bytes × Bytes)
byte_escape none = none
byte_escape (some (v, s)) = if ltb v 256 then some (v ∷ [], s) else none

rune_escape : Option (ℕ × Bytes) → Option (Bytes × Bytes)
rune_escape none = none
rune_escape (some (v, s)) = if valid_rune v then some (encode_rune v, s) else none

-- The escape sequence with the letter `c` behind its backslash.
escape : ℕ → Bytes → Option (Bytes × Bytes)
escape c s =
    if c == b'a'
    then some (7 ∷ [], s)
    else if c == b'b'
    then some (8 ∷ [], s)
    else if c == b'f'
    then some (12 ∷ [], s)
    else if c == b'n'
    then some (10 ∷ [], s)
    else if c == b'r'
    then some (13 ∷ [], s)
    else if c == b't'
    then some (9 ∷ [], s)
    else if c == b'v'
    then some (11 ∷ [], s)
    else if c == b'x'
    then byte_escape (digits_value 16 2 0 s)
    else if c == b'u'
    then rune_escape (digits_value 16 4 0 s)
    else if c == b'U'
    then rune_escape (digits_value 16 8 0 s)
    else if in_range b'0' b'7' c
    then byte_escape (digits_value 8 2 (c - b'0') s)
    else if c == 92 || c == 34
    then some (c ∷ [], s)
    else none

-- One character of the text; a byte that begins no UTF-8 character becomes U+FFFD.
unquote_char : ℕ → Bytes → Option (Bytes × Bytes)
unquote_char c s =
    if leb 0x80 c
    then (if rune_size (c ∷ s) == 0
        then some (0xEF ∷ 0xBF ∷ 0xBD ∷ [], s)
        else some (take (rune_size (c ∷ s)) (c ∷ s), drop (rune_size (c ∷ s)) (c ∷ s)))
    else if not (c == 92)
    then some (c ∷ [], s)
    else elim s [ [] ↦ none | d ∷ r ↦ escape d r ]

prepend : Bytes → Option Bytes → Option Bytes
prepend s none = none
prepend s (some t) = some (s ++ t)

-- The text behind the opening quote: the closing one must be its last byte.
-- Behind the closing quote there must be nothing.
at_end : Bytes → Option Bytes
at_end [] = some []
at_end (_ ∷ _) = none

-- The text behind the opening quote.
unquote_loop : ℕ → Bytes → Option Bytes
unquote_loop zero s = none
unquote_loop (suc fuel) [] = none
unquote_loop (suc fuel) (c ∷ s) = elim (c == 34) [
  | true ↦ at_end s
  | false ↦ elim (c == 10) [
    | true ↦ none
    | false ↦ elim (unquote_char c s) [
      | none ↦ none
      | some (out, rest) ↦ prepend out (unquote_loop fuel rest)
    ]
  ]
]

-- `none` is the error. Each round reads a byte, so the length is enough fuel.
unfoldable pub unquote : Bytes → Option Bytes
unfolding unquote_loop at_end prepend unquote_char escape rune_escape byte_escape digits_value
    hex_value valid_rune encode_rune rune_size in_range continues
unquote [] = none
unquote (c ∷ s) = if c == 34 then unquote_loop (length s) s else none

is_ascii : Bytes → Bool
is_ascii [] = true
is_ascii (c ∷ s) = ltb c 0x80 && is_ascii s

lower_byte : ℕ → ℕ
lower_byte c = if leb b'A' c && leb c b'Z' then c + 32 else c

-- Outside ASCII the result is that of Unicode's tables, `wide_lower`.
unfoldable pub to_lower : (Bytes → Bytes) → Bytes → Bytes
unfolding is_ascii lower_byte
to_lower wide_lower s = if is_ascii s then map lower_byte s else wide_lower s
