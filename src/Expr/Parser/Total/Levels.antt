-- ===== src/Expr/Parser/Total/Levels.antt =====
-- expr.go: the levels of operators keep the promise, given enough fuel.
use ikemen_devtools.Prelude.{
  ap, ℕ, zero, suc, ◌≤◌, ◌<◌, ◌≡◌, refl, ◌≢◌, inl, inr, Bool, Option, none, some, arith,
  Option-cases,
}
use ikemen_devtools.Expr.Ast.{Operator, not_op, Node}
use ikemen_devtools.Expr.Lexer.{TokenType, tok_eof, Token}
use ikemen_devtools.Expr.Eval.Bounds.{LiteralsInRange}
use ikemen_devtools.Expr.Parser.{
  Parser, P, ◌>>=◌, peek, advance, step_forward, add_error, add_error_here,
}
use ikemen_devtools.Expr.Parser.Levels.{
  or_ops, and_ops, equality_ops, cmp_ops, add_ops, mul_ops, missing_or, missing_and, missing_right,
  level_round, level_loop, level, unary_ops, missing_operand, unary_round, parse_unary_expr,
  parse_mul_expr, parse_add_expr, parse_cmp_expr, parse_equality_expr, parse_and_expr, or_level,
}
use ikemen_devtools.Expr.Parser.Total.Rules.{
  remaining, Steps-refl, remaining-Steps, Steps-forward, Returns, NodePost, Harmless, IsGood,
  NodePost-weaken, or_nil-Returns, nothing-Harmless, peek_consumes, Expected, Steps-error,
}

pub steps_of-Expected :
    (s : Parser) (o : Option (Bool × Parser)) → Returns (Expected s) o → Returns (Harmless s) o
steps_of-Expected s none h = h
steps_of-Expected s (some (b, s')) h = h.steps

pub steps_of_node :
    (s : Parser) (o : Option (Option Node × Parser))
    → Returns (NodePost s) o
    → Returns (Harmless s) o
steps_of_node s none h = h
steps_of_node s (some (b, s')) h = h.steps

missing_or-Harmless : (t : Token) (s : Parser) → Returns (Harmless s) (missing_or t s)
unfolding missing_or add_error
missing_or-Harmless t s = Steps-error s _

missing_and-Harmless : (t : Token) (s : Parser) → Returns (Harmless s) (missing_and t s)
unfolding missing_and add_error
missing_and-Harmless t s = Steps-error s _

missing_right-Harmless : (t : Token) (s : Parser) → Returns (Harmless s) (missing_right t s)
unfolding missing_right add_error_here
missing_right-Harmless t s = Steps-error s _

missing_operand-Harmless :
    (op : Operator) (s : Parser) → Returns (Harmless s) (missing_operand op s)
unfolding missing_operand add_error_here
missing_operand-Harmless not_op s = Steps-error s _
missing_operand-Harmless _ s = Steps-error s _

-- Reading a token that is not the end's leaves fewer.
pub after_advance :
    (f : Token → P (Option Node)) (s : Parser)
    → ((t : Token) → Returns (NodePost (step_forward s)) (f t (step_forward s)))
    → Returns (NodePost s) ((advance >>= f) s)
unfolding advance ◌>>=◌
after_advance f s k = NodePost-weaken _ (Steps-forward s) (k (peek s))

-- The levels of binary operators.
module _ (k : ℕ) (ops : TokenType → Option Operator) (missing : Token → P (Unit {0}))
    (operand : P (Option Node)) (at_end : ops tok_eof ≡ none)
    (report : (t : Token) (s : Parser) → Returns (Harmless s) (missing t s))
    (good : IsGood k operand) where
  ops_consume : (s : Parser) {op : Operator} → ops (peek s).kind ≡ some op → (peek s).kind ≢ tok_eof
  ops_consume s h e = cc (ap ops e)

  level_loop-Returns :
      (fuel : ℕ) (left : Node) (s : Parser)
      → remaining s < fuel
      → remaining s < k
      → LiteralsInRange left
      → Returns (NodePost s) (level_loop fuel ops missing operand left s)
  unfolding level_loop level_round
  level_loop-Returns zero left s h b l = elim h [ ]
  level_loop-Returns (suc fuel) left s h b l = elim (Option-cases (ops (peek s).kind)) [
    | inl e ↦ rw (e, level_round) (record { steps = Steps-refl s; node = l })
    | inr (op, e) ↦
        let less = peek_consumes s (ops_consume s e) in
        rw (e, level_round)
          (after_advance _ s λ t.
            or_nil-Returns (step_forward s) (missing t) operand _
              (good.at (step_forward s) (omega arith)) (report t)
              λ right s' st lr.
                level_loop-Returns fuel _ s' (omega (arith, remaining-Steps st))
                  (omega (arith, remaining-Steps st)) (l, lr))
  ]

  level-Good : (fuel : ℕ) → k ≤ fuel → IsGood k (level fuel ops missing operand)
  unfolding level
  level-Good fuel fits = record {
    at = λ s h. or_nil-Returns s _ operand _ (good.at s h) nothing-Harmless λ left s' st l.
        level_loop-Returns fuel left s' (omega (arith, remaining-Steps st))
          (omega (arith, remaining-Steps st)) l;
  }

unary_at_end : unary_ops tok_eof ≡ none
unfolding unary_ops
unary_at_end = refl

module _ (k : ℕ) (primary : P (Option Node)) (good : IsGood k primary) where
  unary-Returns :
      (fuel : ℕ) (s : Parser)
      → remaining s < fuel
      → remaining s < k
      → Returns (NodePost s) (parse_unary_expr fuel primary s)
  unfolding parse_unary_expr unary_round
  unary-Returns zero s h b = elim h [ ]
  unary-Returns (suc fuel) s h b = elim (Option-cases (unary_ops (peek s).kind)) [
    | inl e ↦ rw (e, unary_round) (good.at s b)
    | inr (op, e) ↦
        let less = peek_consumes s (λ eof. cc (ap unary_ops eof, unary_at_end)) in
        rw (e, unary_round)
          (after_advance _ s λ t.
            or_nil-Returns (step_forward s) (missing_operand op) _ _
              (unary-Returns fuel (step_forward s) (omega arith) (omega arith))
              (missing_operand-Harmless op) λ n s' st l. record { steps = Steps-refl s'; node = l })
  ]

or_at_end : or_ops tok_eof ≡ none
unfolding or_ops
or_at_end = refl

and_at_end : and_ops tok_eof ≡ none
unfolding and_ops
and_at_end = refl

equality_at_end : equality_ops tok_eof ≡ none
unfolding equality_ops
equality_at_end = refl

cmp_at_end : cmp_ops tok_eof ≡ none
unfolding cmp_ops
cmp_at_end = refl

add_at_end : add_ops tok_eof ≡ none
unfolding add_ops
add_at_end = refl

mul_at_end : mul_ops tok_eof ≡ none
unfolding mul_ops
mul_at_end = refl

module _ (k fuel : ℕ) (fits : k ≤ fuel) (primary : P (Option Node)) (good : IsGood k primary) where
  unary-Good : IsGood k (parse_unary_expr fuel primary)
  unary-Good = record { at = λ s h. unary-Returns k primary good fuel s (omega arith) h }

  mul-Good : IsGood k (parse_mul_expr fuel primary)
  unfolding parse_mul_expr
  mul-Good = level-Good k mul_ops _ _ mul_at_end missing_right-Harmless unary-Good fuel fits

  add-Good : IsGood k (parse_add_expr fuel primary)
  unfolding parse_add_expr
  add-Good = level-Good k add_ops _ _ add_at_end missing_right-Harmless mul-Good fuel fits

  cmp-Good : IsGood k (parse_cmp_expr fuel primary)
  unfolding parse_cmp_expr
  cmp-Good = level-Good k cmp_ops _ _ cmp_at_end missing_right-Harmless add-Good fuel fits

  equality-Good : IsGood k (parse_equality_expr fuel primary)
  unfolding parse_equality_expr
  equality-Good =
      level-Good k equality_ops _ _ equality_at_end missing_right-Harmless cmp-Good fuel fits

  and-Good : IsGood k (parse_and_expr fuel primary)
  unfolding parse_and_expr
  and-Good = level-Good k and_ops _ _ and_at_end missing_and-Harmless equality-Good fuel fits

  pub or_level-Good : IsGood k (or_level fuel primary)
  unfolding or_level
  or_level-Good = level-Good k or_ops _ _ or_at_end missing_or-Harmless and-Good fuel fits
