-- ===== src/Expr/Samples.antt =====
-- Runs of the lexer, the parser and the evaluator of expr.go, and the theorems of this part at inputs.
use ikemen_devtools.Prelude.{◌≡◌, refl, Option, none, some, false, true, [], ◌∷◌}
use ikemen_devtools.Prelude.Int.{pos, negsuc}
use ikemen_devtools.Prelude.Text.{Bytes, codes}
use ikemen_devtools.Ir.{SourceSpan}
use ikemen_devtools.Expr.Ast.{
  Node, int_literal, binary_expr, var_expr, random_expr, and, mul, Inputs, EvalResult, finite,
  value_int, value_bool,
}
use ikemen_devtools.Expr.Lexer.{lex}
use ikemen_devtools.Expr.Eval.{evaluate, evaluate_node, var_at}
use ikemen_devtools.Expr.Eval.Stable.{is_dynamic, evaluate_stable}
use ikemen_devtools.Expr.Eval.Bounds.{IsSupplied, evaluate_final}
use ikemen_devtools.Expr.Word.{add64, sub64, mul64, div64, mod64, neg64}
use ikemen_devtools.Expr.Parser.{◌>>=◌, advance, expect}
use ikemen_devtools.Expr.Parser.Levels.{
  level, level_loop, level_round, or_nil, or_ops, and_ops, equality_ops, cmp_ops, add_ops, mul_ops,
  missing_or, missing_and, missing_right, unary_ops, unary_round, missing_operand, parse_unary_expr,
  parse_mul_expr, parse_add_expr, parse_cmp_expr, parse_equality_expr, parse_and_expr, or_level,
}
use ikemen_devtools.Expr.Parser.Primary.{
  parse, parse_lexed, parse_tokens, check_end, parse_or_expr, parse_primary, primary_of,
  unexpected_token, identifier, plain_call, plain_args, call_close, parse_args, args_loop,
  args_round, append_arg, cond_call, pos_axis, random_call, random_args, random_close, var_call,
  grouped, skip_to_rparen, string_node, expect_or_nil, parse_int,
}
use ikemen_devtools.Expr.Parser.Total.{Verdict, parse-Verdict}
use ikemen_devtools.Expr.Unquote.{unquote, to_lower}
use ikemen_devtools.Expr.Ast.{snoc_node, span}
use ikemen_devtools.Expr.Lexer.{span_cover, last_span}

abbrev same : Bytes → Bytes
same s = s

abbrev no_inputs : Inputs
no_inputs = record { vars = none; pos_y = none; command = none; state_type = none; random = none }

abbrev all_inputs : Inputs
all_inputs = record {
  vars = some ((pos 2, pos 7) ∷ (pos 4, pos 4) ∷ []);
  pos_y = some (negsuc 4);
  command = some (codes "x");
  state_type = some (codes "S");
  random = some (pos 999);
}

-- The source, parsed and evaluated.
run : Bytes → Inputs → Option EvalResult
unfolding parse parse_lexed parse_tokens check_end parse_or_expr parse_primary primary_of add64
    sub64 mul64 div64 mod64 neg64 unexpected_token identifier plain_call plain_args call_close
    parse_args args_loop args_round append_arg cond_call pos_axis random_call random_args
    random_close var_call grouped skip_to_rparen string_node expect_or_nil parse_int level
    level_loop level_round or_nil or_ops and_ops equality_ops cmp_ops add_ops mul_ops missing_or
    missing_and missing_right unary_ops unary_round missing_operand parse_unary_expr parse_mul_expr
    parse_add_expr parse_cmp_expr parse_equality_expr parse_and_expr or_level ◌>>=◌ advance expect
    unquote to_lower lex snoc_node span span_cover last_span evaluate_node var_at
run source inputs = elim (parse same source) [
  | none ↦ none
  | some (node, errors) ↦ some (evaluate_node node inputs)
]

precedence :
    run (codes "1 + 2 * -3 == -5 && !(7 % 4 != 3)") no_inputs ≡ some (finite (value_bool true))
unfolding run
precedence = refl

calls :
    run (codes "Var(1 + cond(random() > 500, 3, 4))") all_inputs ≡ some (finite (value_int (pos 4)))
unfolding run
calls = refl

-- The quotient is cut towards zero, and the remainder has the dividend's sign.
truncation : run (codes "-7 / 2 * 10 + -7 % 2") no_inputs ≡ some (finite (value_int (negsuc 30)))
unfolding run
truncation = refl

abbrev nowhere : SourceSpan
nowhere = record { start = record { line = 1; column = 1 }; end = record { line = 1; column = 1 } }

-- 0 && random
abbrev guarded : Node
guarded = binary_expr and (int_literal (pos 0) nowhere) (random_expr nowhere) nowhere

-- 9223372036854775807 * var(2)
abbrev product : Node
product =
    binary_expr mul (int_literal (pos 9223372036854775807) nowhere)
      (var_expr (int_literal (pos 2) nowhere) nowhere) nowhere

evaluate_stable_example : evaluate guarded all_inputs ≡ evaluate guarded no_inputs
unfolding evaluate
evaluate_stable_example =
    evaluate_stable guarded no_inputs all_inputs
      (record { vars = tt; pos_y = tt; command = tt; state_type = tt; random = tt }) refl

product-IsSupplied : IsSupplied all_inputs product
unfolding evaluate var_at
product-IsSupplied = (tt, (tt, λ e. cc))

evaluate_final_example : is_dynamic (evaluate product all_inputs) ≡ false
evaluate_final_example = evaluate_final product all_inputs product-IsSupplied

parse-Verdict_example : Verdict (parse same (codes "var(3) + (2"))
parse-Verdict_example = parse-Verdict same (codes "var(3) + (2")
