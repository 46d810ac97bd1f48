-- ===== src/Expr/Parser/Levels.antt =====
-- internal/expr/expr.go: the levels of binary operators, `parseOrExpr` to `parseMulExpr`, and
-- `parseUnaryExpr`.
use ikemen_devtools.Prelude.{ℕ, zero, suc, Option, none, some}
use ikemen_devtools.Expr.Ast.{
  Operator, add, sub, mul, div, mod_op, eq, neq, assign_eq, lt, lte, gt, gte, and, or, not_op, Node,
  unary_expr, binary_expr, span,
}
use ikemen_devtools.Expr.Lexer.{
  TokenType, tok_plus, tok_minus, tok_star, tok_slash, tok_percent, tok_equal, tok_eq_eq,
  tok_not_eq, tok_not, tok_less, tok_less_eq, tok_greater, tok_greater_eq, tok_and_and, tok_or_or,
  Token, span_cover,
}
use ikemen_devtools.Expr.Parser.{P, ◌>>=◌, ◌>>◌, pure, peek, advance, add_error, add_error_here}

-- A nil node returns nil at once, after what is done about it.
unfoldable pub or_nil : P (Unit {0}) → P (Option Node) → (Node → P (Option Node)) → P (Option Node)
or_nil on_nil parse rest s = elim (parse s) [
  | none ↦ none
  | some (none, s') ↦ (on_nil >> pure none) s'
  | some (some n, s') ↦ rest n s'
]

unfoldable pub or_ops : TokenType → Option Operator
or_ops tok_or_or = some or
or_ops _ = none

unfoldable pub and_ops : TokenType → Option Operator
and_ops tok_and_and = some and
and_ops _ = none

unfoldable pub equality_ops : TokenType → Option Operator
equality_ops tok_eq_eq = some eq
equality_ops tok_not_eq = some neq
equality_ops tok_equal = some assign_eq
equality_ops _ = none

unfoldable pub cmp_ops : TokenType → Option Operator
cmp_ops tok_less = some lt
cmp_ops tok_less_eq = some lte
cmp_ops tok_greater = some gt
cmp_ops tok_greater_eq = some gte
cmp_ops _ = none

unfoldable pub add_ops : TokenType → Option Operator
add_ops tok_plus = some add
add_ops tok_minus = some sub
add_ops _ = none

unfoldable pub mul_ops : TokenType → Option Operator
mul_ops tok_star = some mul
mul_ops tok_slash = some div
mul_ops tok_percent = some mod_op
mul_ops _ = none

-- What a missing right operand is reported as, given the operator's token.
unfoldable pub missing_or : Token → P (Unit {0})
unfolding add_error
missing_or tok = add_error "expected-expression" "expected right expression after '||'" tok.span

unfoldable pub missing_and : Token → P (Unit {0})
unfolding add_error
missing_and tok = add_error "expected-expression" "expected right expression after '&&'" tok.span

unfoldable pub missing_right : Token → P (Unit {0})
unfolding add_error_here
missing_right tok = add_error_here "expected-expression" "expected right expression"

-- One round of a level's loop, with the operator that the next token stands for; `again` is the
-- next round.
unfoldable pub level_round :
    (Token → P (Unit {0}))
    → P (Option Node)
    → (Node → P (Option Node))
    → Node
    → Option Operator
    → P (Option Node)
level_round missing operand again left none = pure (some left)
level_round missing operand again left (some op) = advance >>= λ tok.
    or_nil (missing tok) operand
      λ right. again (binary_expr op left right (span_cover (span left) (span right)))

unfoldable pub level_loop :
    ℕ
    → (TokenType → Option Operator)
    → (Token → P (Unit {0}))
    → P (Option Node)
    → Node
    → P (Option Node)
level_loop zero ops missing operand left s = none
level_loop (suc fuel) ops missing operand left s =
    level_round missing operand (λ n. level_loop fuel ops missing operand n) left
      (ops (peek s).kind) s

-- A level: an operand, and as many operators with right operands as there are.
unfoldable pub level :
    ℕ → (TokenType → Option Operator) → (Token → P (Unit {0})) → P (Option Node) → P (Option Node)
level fuel ops missing operand = or_nil (pure tt) operand (level_loop fuel ops missing operand)

-- The prefix operators; the other tokens are left to `parsePrimary`.
unfoldable pub unary_ops : TokenType → Option Operator
unary_ops tok_not = some not_op
unary_ops tok_minus = some sub
unary_ops _ = none

unfoldable pub missing_operand : Operator → P (Unit {0})
unfolding add_error_here
missing_operand not_op = add_error_here "expected-expression" "expected expression after '!'"
missing_operand _ = add_error_here "expected-expression" "expected expression after '-'"

unfoldable pub unary_round : P (Option Node) → P (Option Node) → Option Operator → P (Option Node)
unary_round primary again none = primary
unary_round primary again (some op) = advance >>= λ tok.
    or_nil (missing_operand op) again
      λ e. pure (some (unary_expr op e (span_cover tok.span (span e))))

unfoldable pub parse_unary_expr : ℕ → P (Option Node) → P (Option Node)
parse_unary_expr zero primary s = none
parse_unary_expr (suc fuel) primary s =
    unary_round primary (λ s'. parse_unary_expr fuel primary s') (unary_ops (peek s).kind) s

module _ (fuel : ℕ) (primary : P (Option Node)) where
  unfoldable pub parse_mul_expr : P (Option Node)
  parse_mul_expr = level fuel mul_ops missing_right (parse_unary_expr fuel primary)

  unfoldable pub parse_add_expr : P (Option Node)
  parse_add_expr = level fuel add_ops missing_right parse_mul_expr

  unfoldable pub parse_cmp_expr : P (Option Node)
  parse_cmp_expr = level fuel cmp_ops missing_right parse_add_expr

  unfoldable pub parse_equality_expr : P (Option Node)
  parse_equality_expr = level fuel equality_ops missing_right parse_cmp_expr

  unfoldable pub parse_and_expr : P (Option Node)
  parse_and_expr = level fuel and_ops missing_and parse_equality_expr

  -- `parseOrExpr`, above a given `parsePrimary`.
  unfoldable pub or_level : P (Option Node)
  or_level = level fuel or_ops missing_or parse_and_expr
