-- ===== src/Expr/Eval/Bounds.antt =====
-- expr.go: the integers of a tree, and when `Evaluate` waits for an input.
use ikemen_devtools.Prelude.{
  List, ◌≡◌, refl, ◌≢◌, false, Option, none, some, arith, Bool-cases, inl, inr,
}
use ikemen_devtools.Prelude.Int.{ℤ}
use ikemen_devtools.Prelude.Text.{codes, bytes_eq}
use ikemen_devtools.Expr.Word.{InRange}
use ikemen_devtools.Expr.Ast.{
  Operator, and, or, not_op, Node, int_literal, string_literal, unary_expr, binary_expr, var_expr,
  random_expr, command_expr, pos_expr, state_type_expr, cond_expr, unsupported_expr, Value,
  value_int, value_bool, value_string, Reason, EvalResult, finite, dynamic, unsupported, Inputs,
  Nodes, no_nodes, one_more, snoc_node,
}
use ikemen_devtools.Expr.Eval.{
  eval_unary, eval_binary, eval_var, var_lookup, var_value, var_at, eval_cond, supplied, evaluate,
}
use ikemen_devtools.Expr.Eval.Stable.{is_dynamic}

-- Every integer of the tree is an int64.
abbrev mutual
  pub LiteralsInRange : Node → Type 0
  LiteralsInRange (int_literal v s) = InRange v
  LiteralsInRange (unary_expr op e s) = LiteralsInRange e
  LiteralsInRange (binary_expr op l r s) = LiteralsInRange l × LiteralsInRange r
  LiteralsInRange (var_expr e s) = LiteralsInRange e
  LiteralsInRange (cond_expr c t e s) = LiteralsInRange c × LiteralsInRange t × LiteralsInRange e
  LiteralsInRange (unsupported_expr name args s) = AllInRange args
  LiteralsInRange (string_literal v s) = Unit
  LiteralsInRange (random_expr s) = Unit
  LiteralsInRange (command_expr s) = Unit
  LiteralsInRange (pos_expr axis s) = Unit
  LiteralsInRange (state_type_expr s) = Unit

  pub AllInRange : Nodes → Type 0
  AllInRange no_nodes = Unit
  AllInRange (one_more n ns) = LiteralsInRange n × AllInRange ns

pub AllInRange-snoc_node :
    (ns : Nodes) (n : Node) → AllInRange ns → LiteralsInRange n → AllInRange (snoc_node ns n)
unfolding snoc_node
AllInRange-snoc_node no_nodes n h k = (k, tt)
AllInRange-snoc_node (one_more m ms) n h k = (h.0, AllInRange-snoc_node ms n h.1 k)

-- The variable of an index is in the table.
abbrev pub IndexSupplied : EvalResult → Option (List (ℤ × ℤ)) → Type 0
IndexSupplied (finite (value_int i)) none = ⊥
IndexSupplied (finite (value_int i)) (some table) = var_at table i ≢ none
IndexSupplied r vars = Unit

-- Every input that the expression asks for is supplied: its variables are those that its indexes
-- evaluate to.
abbrev pub IsSupplied : Inputs → Node → Type 0
IsSupplied inputs (unary_expr op e s) = IsSupplied inputs e
IsSupplied inputs (binary_expr op l r s) = IsSupplied inputs l × IsSupplied inputs r
IsSupplied inputs (var_expr e s) =
    IsSupplied inputs e × IndexSupplied (evaluate e inputs) inputs.vars
IsSupplied inputs (cond_expr c t e s) =
    IsSupplied inputs c × IsSupplied inputs t × IsSupplied inputs e
IsSupplied inputs (random_expr s) = inputs.random ≢ none
IsSupplied inputs (command_expr s) = inputs.command ≢ none
IsSupplied inputs (pos_expr axis s) = inputs.pos_y ≢ none
IsSupplied inputs (state_type_expr s) = inputs.state_type ≢ none
IsSupplied inputs (int_literal v s) = Unit
IsSupplied inputs (string_literal v s) = Unit
IsSupplied inputs (unsupported_expr name args s) = Unit

supplied-final {ℓ} :
    {A : Type ℓ} (why : Reason) (f : A → Value) (o : Option A)
    → o ≢ none
    → is_dynamic (supplied why f o) ≡ false
unfolding supplied
supplied-final why f none h = absurd (h refl)
supplied-final why f (some a) h = refl

eval_binary-final :
    (op : Operator) (l r : EvalResult)
    → is_dynamic l ≡ false
    → is_dynamic r ≡ false
    → is_dynamic (eval_binary op l r) ≡ false
unfolding eval_binary
eval_binary-final and (finite v) (finite w) hl hr = ground arith
eval_binary-final or (finite v) (finite w) hl hr = ground arith
eval_binary-final not_op (finite v) (finite w) hl hr = ground arith
eval_binary-final _ l r hl hr = ground arith

var_value-final : (o : Option ℤ) → o ≢ none → is_dynamic (var_value o) ≡ false
unfolding var_value
var_value-final none k = absurd (k refl)
var_value-final (some v) k = refl

var_lookup-final :
    (i : ℤ) (vars : Option (List (ℤ × ℤ)))
    → IndexSupplied (finite (value_int i)) vars
    → is_dynamic (var_lookup vars i) ≡ false
unfolding var_lookup
var_lookup-final i none k = elim k [ ]
var_lookup-final i (some table) k = var_value-final (var_at table i) k

eval_var-final :
    (r : EvalResult) (inputs : Inputs)
    → IndexSupplied r inputs.vars
    → is_dynamic r ≡ false
    → is_dynamic (eval_var r inputs) ≡ false
unfolding eval_var
eval_var-final (finite (value_int i)) inputs c h = var_lookup-final i inputs.vars c
eval_var-final (finite (value_bool b)) inputs c h = refl
eval_var-final (finite (value_string v)) inputs c h = refl
eval_var-final (dynamic r) inputs c h = cc
eval_var-final (unsupported r) inputs c h = refl

eval_unary-final :
    (op : Operator) (r : EvalResult) → is_dynamic r ≡ false → is_dynamic (eval_unary op r) ≡ false
unfolding eval_unary
eval_unary-final op r h = ground arith

eval_cond-final :
    (c t e : EvalResult)
    → is_dynamic c ≡ false
    → is_dynamic t ≡ false
    → is_dynamic e ≡ false
    → is_dynamic (eval_cond c t e) ≡ false
unfolding eval_cond
eval_cond-final c t e hc ht he = ground arith

-- An expression whose inputs are all supplied does not evaluate to a dynamic result: it suffices that
-- the table of variables has the indexes that the expression's own indexes evaluate to.
pub evaluate_final :
    (n : Node) (inputs : Inputs) → IsSupplied inputs n → is_dynamic (evaluate n inputs) ≡ false
unfolding evaluate
evaluate_final (int_literal v s) inputs c = refl
evaluate_final (string_literal v s) inputs c = refl
evaluate_final (unary_expr op e s) inputs c = eval_unary-final op _ (evaluate_final e inputs c)
evaluate_final (binary_expr op l r s) inputs c =
    eval_binary-final op _ _ (evaluate_final l inputs c.0) (evaluate_final r inputs c.1)
evaluate_final (var_expr e s) inputs c = eval_var-final _ inputs c.1 (evaluate_final e inputs c.0)
evaluate_final (random_expr s) inputs c = supplied-final _ _ _ c
evaluate_final (command_expr s) inputs c = supplied-final _ _ _ c
evaluate_final (pos_expr axis s) inputs c = elim (Bool-cases (bytes_eq axis (codes "y"))) [
  | inl e ↦ rw e (supplied-final _ _ _ c)
  | inr e ↦ rw e refl
]
evaluate_final (state_type_expr s) inputs c = supplied-final _ _ _ c
evaluate_final (cond_expr c t e s) inputs h =
    eval_cond-final _ _ _ (evaluate_final c inputs h.0) (evaluate_final t inputs h.1)
      (evaluate_final e inputs h.2)
evaluate_final (unsupported_expr name args s) inputs c = refl
