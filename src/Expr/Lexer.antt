-- ===== src/Expr/Lexer.antt =====
-- internal/expr/expr.go: `lex`, the byte classes and the positions.
pub mod Shapes
pub mod Cover
use ikemen_devtools.Prelude.{
  ℕ, zero, suc, ◌+◌, Bool, true, false, ◌&&◌, ◌||◌, Option, none, some, List, [], ◌∷◌, String,
  length, take, drop, ltb, leb, ◌==◌, if◌then◌else◌,
}
use ikemen_devtools.Prelude.Text.{Bytes}
use ikemen_devtools.Ir.{SourcePosition, SourceSpan}

pub data TokenType : Type 0 where
  tok_eof tok_int tok_string tok_ident tok_plus tok_minus tok_star tok_slash : TokenType
  tok_percent tok_equal tok_eq_eq tok_not_eq tok_not tok_less tok_less_eq : TokenType
  tok_greater tok_greater_eq tok_and_and tok_or_or tok_lparen tok_rparen tok_comma : TokenType

pub record Token : Type 0 where
  pub kind : TokenType
  pub text : Bytes
  pub span : SourceSpan

pub record ParseError : Type 0 where
  pub code : String
  pub message : String
  pub span : SourceSpan

-- The loop of `positionFor`, over the bytes before the index.
unfoldable pub position_loop : Bytes → ℕ → ℕ → SourcePosition
position_loop [] line col = record { line = line; column = col }
position_loop (c ∷ s) line col =
    position_loop s (if c == 10 then line + 1 else line) (if c == 10 then 1 else col + 1)

-- An index past the end is cut to the length, as `take` does.
unfoldable pub position_for : Bytes → ℕ → SourcePosition
unfolding position_loop
position_for source index = position_loop (take index source) 1 1

unfoldable pub span_from : Bytes → ℕ → ℕ → SourceSpan
unfolding position_for
span_from source start end = record {
  start = position_for source start;
  end = position_for source (if ltb end start then start else end);
}

unfoldable pub last_span : Bytes → SourceSpan
unfolding span_from
last_span source = span_from source (length source) (length source)

unfoldable pub span_cover : SourceSpan → SourceSpan → SourceSpan
span_cover a b = record { start = a.start; end = b.end }

unfoldable pub is_digit : ℕ → Bool
is_digit ch = leb b'0' ch && leb ch b'9'

-- `unicode.IsSpace` on a byte: its white space below 256.
unfoldable pub is_space : ℕ → Bool
is_space ch = (leb 9 ch && leb ch 13) || ch == 32 || ch == 0x85 || ch == 0xA0

-- `unicode.IsLetter` on a byte: its letters below 256.
unfoldable pub is_letter : ℕ → Bool
is_letter ch =
    (leb b'A' ch && leb ch b'Z')
    || (leb b'a' ch && leb ch b'z')
    || ch == 0xAA
    || ch == 0xB5
    || ch == 0xBA
    || (leb 0xC0 ch && leb ch 0xD6)
    || (leb 0xD8 ch && leb ch 0xF6)
    || (leb 0xF8 ch && leb ch 0xFF)

unfoldable pub is_ident_start : ℕ → Bool
unfolding is_letter
is_ident_start ch = ch == b'_' || is_letter ch

unfoldable pub is_ident_part : ℕ → Bool
unfolding is_letter is_digit
is_ident_part ch = ch == b'_' || is_letter ch || is_digit ch

-- How many bytes a scanning loop `for i < len(source) && test(source[i])` passes.
unfoldable pub run_length : (ℕ → Bool) → Bytes → ℕ
run_length test [] = 0
run_length test (c ∷ s) = if test c then suc (run_length test s) else 0

abbrev pub after : ℕ → Option ℕ → Option ℕ
after k none = none
after k (some n) = some (k + n)

-- The loop over a quoted string: the bytes behind the opening quote, up to the closing one with it.
unfoldable pub quoted_length : Bytes → Option ℕ
quoted_length [] = none
quoted_length (c ∷ []) = if c == 34 then some 1 else none
quoted_length (c ∷ d ∷ s) =
    let escaped = after 2 (quoted_length s) in
    let plain = after 1 (quoted_length (d ∷ s)) in
    if c == 34 then some 1 else if c == 92 then escaped else plain

-- What one round of the loop does: pass white space, append a token of `n` bytes, append an error
-- about one byte, or append the last error and leave the loop.
pub data Round : Type 0 where
  skip : Round
  emit : TokenType → ℕ → Round
  reject : String → Round
  unterminated : Round

abbrev string_round : Option ℕ → Round
string_round none = unterminated
string_round (some n) = emit tok_string (1 + n)

-- A byte, and whether the one behind it is `c`.
unfoldable pub followed_by : ℕ → Bytes → Bool
followed_by c [] = false
followed_by c (d ∷ s) = d == c

-- The `switch` on the byte, with the bytes behind it.
unfoldable pub symbol_round : ℕ → Bytes → Round
unfolding followed_by
symbol_round ch behind =
    if ch == b'+'
    then emit tok_plus 1
    else if ch == b'-'
    then emit tok_minus 1
    else if ch == b'*'
    then emit tok_star 1
    else if ch == b'/'
    then emit tok_slash 1
    else if ch == b'%'
    then emit tok_percent 1
    else if ch == b'!'
    then (if followed_by b'=' behind then emit tok_not_eq 2 else emit tok_not 1)
    else if ch == b'='
    then (if followed_by b'=' behind then emit tok_eq_eq 2 else emit tok_equal 1)
    else if ch == b'<'
    then (if followed_by b'=' behind then emit tok_less_eq 2 else emit tok_less 1)
    else if ch == b'>'
    then (if followed_by b'=' behind then emit tok_greater_eq 2 else emit tok_greater 1)
    else if ch == b'&'
    then (if followed_by b'&' behind
        then emit tok_and_and 2
        else reject "unexpected '&', expected &&")
    else if ch == b'|'
    then (if followed_by b'|' behind
        then emit tok_or_or 2
        else reject "unexpected '|', expected ||")
    else if ch == b'('
    then emit tok_lparen 1
    else if ch == b')'
    then emit tok_rparen 1
    else if ch == b','
    then emit tok_comma 1
    else reject "unexpected character"

unfoldable pub round : ℕ → Bytes → Round
round ch behind =
    if is_space ch
    then skip
    else if is_digit ch
    then emit tok_int (run_length is_digit (ch ∷ behind))
    else if ch == 34
    then string_round (quoted_length behind)
    else if is_ident_start ch
    then emit tok_ident (run_length is_ident_part (ch ∷ behind))
    else symbol_round ch behind

pub record Lexed : Type 0 where
  pub tokens : List Token
  pub errors : List ParseError

abbrev pub with_token : Token → Option Lexed → Option Lexed
with_token t none = none
with_token t (some r) = some (record r { tokens = t ∷ r.tokens })

abbrev pub with_error : ParseError → Option Lexed → Option Lexed
with_error e none = none
with_error e (some r) = some (record r { errors = e ∷ r.errors })

abbrev pub unexpected : String → SourceSpan → ParseError
unexpected message s = record { code = "unexpected-char"; message = message; span = s }

abbrev pub unterminated_error : SourceSpan → ParseError
unterminated_error s = record {
  code = "unterminated-string";
  message = "unterminated string literal";
  span = s;
}

-- One round, and the rest of the loop; `next k` goes on `k` bytes further.
unfoldable pub finish_round : Bytes → ℕ → Bytes → Round → (ℕ → Option Lexed) → Option Lexed
finish_round source i rest skip next = next 1
finish_round source i rest (emit kind n) next =
    with_token (record { kind = kind; text = take n rest; span = span_from source i (i + n) })
      (next n)
finish_round source i rest (reject message) next =
    with_error (unexpected message (span_from source i (i + 1))) (next 1)
finish_round source i rest unterminated next =
    some (record {
      tokens = [];
      errors = unterminated_error (span_from source i (length source)) ∷ [];
    })

-- The loop at index `i`, with the bytes from there on. `none` means that the fuel ran out.
unfoldable pub lex_loop : ℕ → Bytes → ℕ → Bytes → Option Lexed
lex_loop fuel source i [] = some (record { tokens = []; errors = [] })
lex_loop zero source i (ch ∷ behind) = none
lex_loop (suc fuel) source i (ch ∷ behind) =
    finish_round source i (ch ∷ behind) (round ch behind)
      (λ k. lex_loop fuel source (i + k) (drop k (ch ∷ behind)))

-- Each round passes at least one byte, so the length is enough fuel.
unfoldable pub lex : Bytes → Option Lexed
unfolding lex_loop finish_round round span_from is_space is_digit run_length quoted_length
    is_ident_start is_ident_part symbol_round
lex source = lex_loop (length source) source 0 source
