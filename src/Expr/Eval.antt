-- ===== src/Expr/Eval.antt =====
-- internal/expr/expr.go: `Evaluate`, its helpers for each node, and `toBool`.
pub mod Stable
pub mod Bounds
use ikemen_devtools.Prelude.{
  ◌+◌, List, [], ◌∷◌, Bool, true, false, not, Option, none, some, ◌==◌, if◌then◌else◌,
}
use ikemen_devtools.Prelude.Int.{ℤ, pos, pos_part, neg_part, ltb_ℤ, leb_ℤ}
use ikemen_devtools.Prelude.Text.{Bytes, codes, bytes_eq}
use ikemen_devtools.Expr.Word.{add64, sub64, mul64, neg64, div64, mod64, magnitude}
use ikemen_devtools.Expr.Ast.{
  Operator, add, sub, mul, div, mod_op, eq, neq, assign_eq, lt, lte, gt, gte, and, or, not_op, Node,
  int_literal, string_literal, unary_expr, binary_expr, var_expr, random_expr, command_expr,
  pos_expr, state_type_expr, cond_expr, unsupported_expr, Value, value_int, value_bool,
  value_string, Reason, because, unsupported_node, EvalResult, finite, dynamic, unsupported, Inputs,
}

-- `a == b` on int64.
abbrev pub int_eq : ℤ → ℤ → Bool
int_eq a b = pos_part a + neg_part b == pos_part b + neg_part a

-- `none` where the second result is false.
unfoldable pub to_bool : Value → Option Bool
to_bool (value_bool b) = some b
to_bool (value_int n) = some (not (magnitude n == 0))
to_bool (value_string s) = none

unfoldable pub not_value : Option Bool → EvalResult
not_value (some b) = finite (value_bool (not b))
not_value none = unsupported (because "'!' expects boolean-like operand")

unfoldable pub eval_unary_value : Operator → Value → EvalResult
unfolding to_bool not_value neg64
eval_unary_value not_op v = not_value (to_bool v)
eval_unary_value sub (value_int n) = finite (value_int (neg64 n))
eval_unary_value sub _ = unsupported (because "'-' expects integer operand")
eval_unary_value _ _ = unsupported (because "unsupported unary operator")

-- `evalUnary`, given the operand's result.
unfoldable pub eval_unary : Operator → EvalResult → EvalResult
unfolding eval_unary_value
eval_unary op (finite v) = eval_unary_value op v
eval_unary op (dynamic r) = dynamic r
eval_unary op (unsupported r) = unsupported r

-- The right operand of `&&` and `||`, read as a truth value.
unfoldable pub logical_rhs : Option Bool → EvalResult
logical_rhs (some b) = finite (value_bool b)
logical_rhs none = unsupported (because "logical rhs must be boolean-like")

unfoldable pub logical_and : Option Bool → EvalResult → EvalResult
unfolding logical_rhs to_bool
logical_and none right = unsupported (because "logical operand must be boolean-like")
logical_and (some false) right = finite (value_bool false)
logical_and (some true) (unsupported r) = unsupported r
logical_and (some true) (dynamic r) = dynamic r
logical_and (some true) (finite v) = logical_rhs (to_bool v)

-- The right operand's result is looked at before the left operand's value.
unfoldable pub logical_or : Option Bool → EvalResult → EvalResult
unfolding logical_rhs to_bool
logical_or none right = unsupported (because "logical operand must be boolean-like")
logical_or (some b) (unsupported r) = unsupported r
logical_or (some b) (dynamic r) = dynamic r
logical_or (some true) (finite v) = finite (value_bool true)
logical_or (some false) (finite v) = logical_rhs (to_bool v)

-- The left operand of `&&` and `||`; `rest` is what follows its conversion to a truth value.
unfoldable pub logical :
    (Option Bool → EvalResult → EvalResult) → EvalResult → EvalResult → EvalResult
unfolding to_bool
logical rest (unsupported r) right = unsupported r
logical rest (dynamic r) right = dynamic r
logical rest (finite v) right = rest (to_bool v) right

-- The two tests on classes that the comparisons and the arithmetic begin with.
unfoldable pub operands :
    Reason → Reason → (Value → Value → EvalResult) → EvalResult → EvalResult → EvalResult
operands bad waiting use_values (unsupported r) right = unsupported bad
operands bad waiting use_values (dynamic r) (unsupported s) = unsupported bad
operands bad waiting use_values (dynamic r) (dynamic s) = dynamic waiting
operands bad waiting use_values (dynamic r) (finite w) = dynamic waiting
operands bad waiting use_values (finite v) (unsupported s) = unsupported bad
operands bad waiting use_values (finite v) (dynamic s) = dynamic waiting
operands bad waiting use_values (finite v) (finite w) = use_values v w

abbrev equal_result : Operator → Bool → EvalResult
equal_result neq equal = finite (value_bool (not equal))
equal_result _ equal = finite (value_bool equal)

unfoldable pub eval_equality : Operator → Value → Value → EvalResult
unfolding bytes_eq
eval_equality op (value_int a) (value_int b) = equal_result op (int_eq a b)
eval_equality op (value_bool true) (value_bool b) = equal_result op b
eval_equality op (value_bool false) (value_bool b) = equal_result op (not b)
eval_equality op (value_string s) (value_string t) = equal_result op (bytes_eq s t)
eval_equality op _ _ = unsupported (because "mixed types in comparison")

unfoldable pub eval_order : (ℤ → ℤ → Bool) → Value → Value → EvalResult
eval_order test (value_int a) (value_int b) = finite (value_bool (test a b))
eval_order test _ _ = unsupported (because "comparison requires integers")

unfoldable pub eval_arithmetic : (ℤ → ℤ → EvalResult) → Value → Value → EvalResult
eval_arithmetic compute (value_int a) (value_int b) = compute a b
eval_arithmetic compute _ _ = unsupported (because "arithmetic expects integers")

-- The `switch` on the arithmetic operator.
abbrev pub add_result : ℤ → ℤ → EvalResult
add_result a b = finite (value_int (add64 a b))

abbrev pub sub_result : ℤ → ℤ → EvalResult
sub_result a b = finite (value_int (sub64 a b))

abbrev pub mul_result : ℤ → ℤ → EvalResult
mul_result a b = finite (value_int (mul64 a b))

abbrev pub div_result : ℤ → ℤ → EvalResult
div_result a b =
    if magnitude b == 0
    then unsupported (because "division by zero")
    else finite (value_int (div64 a b))

abbrev pub mod_result : ℤ → ℤ → EvalResult
mod_result a b =
    if magnitude b == 0 then unsupported (because "mod by zero") else finite (value_int (mod64 a b))

abbrev pub comparison : (Value → Value → EvalResult) → EvalResult → EvalResult → EvalResult
comparison =
    operands (because "unsupported comparison operand")
      (because "comparison requires runtime input")

abbrev pub arithmetic : (ℤ → ℤ → EvalResult) → EvalResult → EvalResult → EvalResult
arithmetic compute =
    operands (because "unsupported arithmetic operand")
      (because "arithmetic requires runtime input") (eval_arithmetic compute)

-- `evalBinary`, given the operands' results. Evaluation has no effect, so the right operand's result
-- may be at hand where the code would not compute it.
unfoldable pub eval_binary : Operator → EvalResult → EvalResult → EvalResult
unfolding logical logical_and logical_or operands eval_equality eval_order eval_arithmetic
eval_binary and left right = logical logical_and left right
eval_binary or left right = logical logical_or left right
eval_binary eq left right = comparison (eval_equality eq) left right
eval_binary neq left right = comparison (eval_equality neq) left right
eval_binary assign_eq left right = comparison (eval_equality assign_eq) left right
eval_binary lt left right = comparison (eval_order ltb_ℤ) left right
eval_binary lte left right = comparison (eval_order leb_ℤ) left right
eval_binary gt left right = comparison (eval_order (λ a b. ltb_ℤ b a)) left right
eval_binary gte left right = comparison (eval_order (λ a b. leb_ℤ b a)) left right
eval_binary add left right = arithmetic add_result left right
eval_binary sub left right = arithmetic sub_result left right
eval_binary mul left right = arithmetic mul_result left right
eval_binary div left right = arithmetic div_result left right
eval_binary mod_op left right = arithmetic mod_result left right
eval_binary not_op left right = unsupported (because "unsupported binary operator")

unfoldable pub var_value : Option ℤ → EvalResult
var_value (some v) = finite (value_int v)
var_value none = dynamic (because "var index unresolved")

-- `inputs.Vars[i]`
unfoldable pub var_at : List (ℤ × ℤ) → ℤ → Option ℤ
var_at [] i = none
var_at ((j, v) ∷ table) i = if int_eq i j then some v else var_at table i

unfoldable pub var_lookup : Option (List (ℤ × ℤ)) → ℤ → EvalResult
unfolding var_value
var_lookup none i = dynamic (because "vars table not supplied")
var_lookup (some table) i = var_value (var_at table i)

-- `evalVar`, given the index's result.
unfoldable pub eval_var : EvalResult → Inputs → EvalResult
unfolding var_lookup
eval_var (finite (value_int i)) inputs = var_lookup inputs.vars i
eval_var (finite (value_bool b)) inputs = unsupported (because "var index must be integer")
eval_var (finite (value_string s)) inputs = unsupported (because "var index must be integer")
eval_var (dynamic r) inputs = dynamic r
eval_var (unsupported r) inputs = unsupported r

unfoldable pub choose : Option Bool → EvalResult → EvalResult → EvalResult
choose none then_result else_result = unsupported (because "cond condition is not boolean-like")
choose (some true) then_result else_result = then_result
choose (some false) then_result else_result = else_result

unfoldable pub eval_cond : EvalResult → EvalResult → EvalResult → EvalResult
unfolding choose to_bool
eval_cond (finite v) then_result else_result = choose (to_bool v) then_result else_result
eval_cond (dynamic r) then_result else_result = dynamic r
eval_cond (unsupported r) then_result else_result = unsupported r

-- A value that the caller may supply.
unfoldable pub supplied {ℓ} : {A : Type ℓ} → Reason → (A → Value) → Option A → EvalResult
supplied waiting wrap_value none = dynamic waiting
supplied waiting wrap_value (some a) = finite (wrap_value a)

unfoldable pub evaluate : Node → Inputs → EvalResult
unfolding eval_unary eval_binary eval_var eval_cond supplied bytes_eq
evaluate (int_literal v s) inputs = finite (value_int v)
evaluate (string_literal v s) inputs = finite (value_string v)
evaluate (unary_expr op e s) inputs = eval_unary op (evaluate e inputs)
evaluate (binary_expr op l r s) inputs = eval_binary op (evaluate l inputs) (evaluate r inputs)
evaluate (var_expr e s) inputs = eval_var (evaluate e inputs) inputs
evaluate (random_expr s) inputs =
    supplied (because "random requires runtime input") value_int inputs.random
evaluate (command_expr s) inputs =
    supplied (because "command requires runtime input") value_string inputs.command
evaluate (pos_expr axis s) inputs =
    if bytes_eq axis (codes "y")
    then supplied (because "pos y requires runtime input") value_int inputs.pos_y
    else unsupported (because "unsupported pos axis")
evaluate (state_type_expr s) inputs =
    supplied (because "statetype requires runtime input") value_string inputs.state_type
evaluate (cond_expr c t e s) inputs =
    eval_cond (evaluate c inputs) (evaluate t inputs) (evaluate e inputs)
evaluate (unsupported_expr name args s) inputs = unsupported (unsupported_node name)

-- `Evaluate` on a node that may be nil.
unfoldable pub evaluate_node : Option Node → Inputs → EvalResult
unfolding evaluate
evaluate_node none inputs = unsupported (because "nil node")
evaluate_node (some n) inputs = evaluate n inputs
