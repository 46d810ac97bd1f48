-- ===== src/Expr/Parser.antt =====
-- internal/expr/expr.go: the parser's state and its primitive steps.
pub mod Levels
pub mod Primary
pub mod Total
use ikemen_devtools.Prelude.{
  ℕ, ◌+◌, ◌-◌, Bool, true, false, Option, none, some, List, [], ◌∷◌, ◌++◌, String, length,
  get_elem?, ◌==◌, if◌then◌else◌,
}
use ikemen_devtools.Prelude.Text.{Bytes}
use ikemen_devtools.Ir.{SourceSpan}
use ikemen_devtools.Expr.Lexer.{
  TokenType, tok_eof, tok_int, tok_string, tok_ident, tok_plus, tok_minus, tok_star, tok_slash,
  tok_percent, tok_equal, tok_eq_eq, tok_not_eq, tok_not, tok_less, tok_less_eq, tok_greater,
  tok_greater_eq, tok_and_and, tok_or_or, tok_lparen, tok_rparen, tok_comma, Token, ParseError,
  last_span,
}

-- The struct `parser`.
pub record Parser : Type 0 where
  pub source : Bytes
  pub tokens : List Token
  pub pos : ℕ
  pub errors : List ParseError

-- A method of the parser. `none` means that the model's fuel ran out.
abbrev pub P {ℓ} : Type ℓ → Type ℓ
P A = Parser → Option (A × Parser)

infixl 5 ◌>>=◌ ◌>>◌
unfoldable pub ◌>>=◌ {ℓ κ} : {A : Type ℓ} {B : Type κ} → P A → (A → P B) → P B
◌>>=◌ m f s = elim (m s) [ none ↦ none | some (a, s') ↦ f a s' ]

abbrev pub ◌>>◌ {ℓ κ} : {A : Type ℓ} {B : Type κ} → P A → P B → P B
m >> k = m >>= λ _. k

abbrev pub pure {ℓ} : {A : Type ℓ} → A → P A
pure a s = some (a, s)

-- The number of a token type, by `iota`.
abbrev pub kind_code : TokenType → ℕ
kind_code tok_eof = 0
kind_code tok_int = 1
kind_code tok_string = 2
kind_code tok_ident = 3
kind_code tok_plus = 4
kind_code tok_minus = 5
kind_code tok_star = 6
kind_code tok_slash = 7
kind_code tok_percent = 8
kind_code tok_equal = 9
kind_code tok_eq_eq = 10
kind_code tok_not_eq = 11
kind_code tok_not = 12
kind_code tok_less = 13
kind_code tok_less_eq = 14
kind_code tok_greater = 15
kind_code tok_greater_eq = 16
kind_code tok_and_and = 17
kind_code tok_or_or = 18
kind_code tok_lparen = 19
kind_code tok_rparen = 20
kind_code tok_comma = 21

abbrev pub kind_eq : TokenType → TokenType → Bool
kind_eq a b = kind_code a == kind_code b

unfoldable pub eof_token : Bytes → Token
unfolding last_span
eof_token source = record { kind = tok_eof; text = []; span = last_span source }

abbrev pub token_or : Bytes → Option Token → Token
token_or source none = eof_token source
token_or source (some t) = t

unfoldable pub peek : Parser → Token
unfolding eof_token
peek s = token_or s.source (get_elem? s.tokens s.pos)

-- The last token that was read.
unfoldable pub prev : Parser → Token
unfolding eof_token
prev s =
    if s.pos == 0 then eof_token s.source else token_or s.source (get_elem? s.tokens (s.pos - 1))

abbrev pub step_forward : Parser → Parser
step_forward s = record s { pos = s.pos + 1 }

unfoldable pub advance : P Token
unfolding peek
advance s = some (peek s, step_forward s)

-- `match` and `advanceIf`.
unfoldable pub match : TokenType → P Bool
unfolding peek
match kind s = if kind_eq (peek s).kind kind then some (true, step_forward s) else some (false, s)

unfoldable pub add_error : String → String → SourceSpan → P (Unit {0})
add_error code message span s = some (
  tt,
  record s { errors = s.errors ++ record { code = code; message = message; span = span } ∷ [] },
)

-- `p.addError(code, message, p.peek().span)`
unfoldable pub add_error_here : String → String → P (Unit {0})
unfolding add_error peek
add_error_here code message s = add_error code message (peek s).span s

unfoldable pub expect : TokenType → String → String → P Bool
unfolding match add_error_here
expect kind code message = do
  found ← match kind
  if found then pure true else add_error_here code message >> pure false
