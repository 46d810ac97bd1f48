-- ===== src/Expr/Eval/Stable.antt =====
-- expr.go, `Evaluate`: what more runtime inputs can change.
use ikemen_devtools.Prelude.{
  ◌≡◌, refl, inl, inr, Bool, true, false, List, Option, none, some, arith, Bool-cases,
}
use ikemen_devtools.Prelude.Text.{codes, bytes_eq}
use ikemen_devtools.Prelude.Int.{ℤ}
use ikemen_devtools.Expr.Ast.{
  Operator, and, or, not_op, Node, int_literal, string_literal, unary_expr, binary_expr, var_expr,
  random_expr, command_expr, pos_expr, state_type_expr, cond_expr, unsupported_expr, Value,
  value_int, value_bool, value_string, Reason, EvalResult, finite, dynamic, unsupported, Inputs,
}
use ikemen_devtools.Expr.Eval.{
  eval_unary, eval_binary, eval_var, eval_cond, supplied, evaluate, operands, var_lookup, var_value,
  var_at, logical, logical_and, logical_or,
}

abbrev pub is_dynamic : EvalResult → Bool
is_dynamic (dynamic r) = true
is_dynamic (finite v) = false
is_dynamic (unsupported r) = false

-- A value that was supplied is still supplied, and is the same.
abbrev pub Keeps {ℓ} : {A : Type ℓ} → Option A → Option A → Type ℓ
Keeps none o = Unit
Keeps (some a) o = o ≡ some a

abbrev pub KeepsTable : Option (List (ℤ × ℤ)) → Option (List (ℤ × ℤ)) → Type 0
KeepsTable none o = Unit
KeepsTable (some t) none = ⊥
KeepsTable (some t) (some t') = (i : ℤ) → Keeps (var_at t i) (var_at t' i)

-- `more` supplies all that `inputs` does, with the same values.
pub record Extends (inputs more : Inputs) : Type 0 where
  pub vars : KeepsTable inputs.vars more.vars
  pub pos_y : Keeps inputs.pos_y more.pos_y
  pub command : Keeps inputs.command more.command
  pub state_type : Keeps inputs.state_type more.state_type
  pub random : Keeps inputs.random more.random

-- `s` may differ from `r` only where `r` waits for an input.
abbrev pub Settles : EvalResult → EvalResult → Type 0
Settles r s = is_dynamic r ≡ false → s ≡ r

eval_unary-Settles :
    (op : Operator) (r s : EvalResult) → Settles r s → Settles (eval_unary op r) (eval_unary op s)
unfolding eval_unary
eval_unary-Settles op (finite v) s h = λ _. rw (h refl)
eval_unary-Settles op (dynamic v) s h = λ e. cc
eval_unary-Settles op (unsupported v) s h = λ _. rw (h refl)

operands-Settles :
    (bad waiting : Reason) (f : Value → Value → EvalResult) (l r l' r' : EvalResult)
    → Settles l l'
    → Settles r r'
    → Settles (operands bad waiting f l r) (operands bad waiting f l' r')
unfolding operands
operands-Settles bad waiting f l r l' r' hl hr = ground arith

logical_and-Settles :
    (b : Option Bool) (r r' : EvalResult)
    → Settles r r'
    → Settles (logical_and b r) (logical_and b r')
unfolding logical_and
logical_and-Settles b r r' h = ground arith

logical_or-Settles :
    (b : Option Bool) (r r' : EvalResult)
    → Settles r r'
    → Settles (logical_or b r) (logical_or b r')
unfolding logical_or
logical_or-Settles b r r' h = ground arith

logical-Settles :
    (rest : Option Bool → EvalResult → EvalResult) (l r l' r' : EvalResult)
    → ((b : Option Bool) → Settles (rest b r) (rest b r'))
    → Settles l l'
    → Settles (logical rest l r) (logical rest l' r')
unfolding logical
logical-Settles rest (finite v) r l' r' hrest hl = rw (hl refl) (hrest _)
logical-Settles rest (dynamic v) r l' r' hrest hl = λ e. cc
logical-Settles rest (unsupported v) r l' r' hrest hl = λ _. rw (hl refl)

eval_binary-Settles :
    (op : Operator) (l r l' r' : EvalResult)
    → Settles l l'
    → Settles r r'
    → Settles (eval_binary op l r) (eval_binary op l' r')
unfolding eval_binary
eval_binary-Settles and l r l' r' hl hr =
    logical-Settles logical_and l r l' r' (λ b. logical_and-Settles b r r' hr) hl
eval_binary-Settles or l r l' r' hl hr =
    logical-Settles logical_or l r l' r' (λ b. logical_or-Settles b r r' hr) hl
eval_binary-Settles not_op l r l' r' hl hr = λ _. refl
eval_binary-Settles _ l r l' r' hl hr = operands-Settles _ _ _ l r l' r' hl hr

eval_cond-Settles :
    (c t e c' t' e' : EvalResult)
    → Settles c c'
    → Settles t t'
    → Settles e e'
    → Settles (eval_cond c t e) (eval_cond c' t' e')
unfolding eval_cond
eval_cond-Settles c t e c' t' e' hc ht he = ground arith

var_lookup-Settles :
    (i : ℤ) (o p : Option (List (ℤ × ℤ)))
    → KeepsTable o p
    → Settles (var_lookup o i) (var_lookup p i)
unfolding var_lookup
var_lookup-Settles i none p h = ground arith
var_lookup-Settles i (some t) none h = absurd h
var_lookup-Settles i (some t) (some t') h = var_value-Settles (var_at t i) (var_at t' i) (h i)
  where
    var_value-Settles : (o p : Option ℤ) → Keeps o p → Settles (var_value o) (var_value p)
    var_value-Settles none p k = ground arith
    var_value-Settles (some v) p k = ground arith

eval_var-Settles :
    (r s : EvalResult) (inputs more : Inputs)
    → Extends inputs more
    → Settles r s
    → Settles (eval_var r inputs) (eval_var s more)
unfolding eval_var
eval_var-Settles (finite (value_int i)) s inputs more x h =
    rw (h refl) (var_lookup-Settles i inputs.vars more.vars x.vars)
eval_var-Settles (finite (value_bool i)) s inputs more x h = rw (h refl) (λ _. refl)
eval_var-Settles (finite (value_string i)) s inputs more x h = rw (h refl) (λ _. refl)
eval_var-Settles (dynamic i) s inputs more x h = λ e. cc
eval_var-Settles (unsupported i) s inputs more x h = rw (h refl) (λ _. refl)

supplied-Settles {ℓ} :
    {A : Type ℓ} (why : Reason) (f : A → Value) (o p : Option A)
    → Keeps o p
    → Settles (supplied why f o) (supplied why f p)
unfolding supplied
supplied-Settles why f none p h = λ e. cc
supplied-Settles why f (some a) p h = λ _. rw h

-- A result that does not wait for an input is final: evaluating the same node with inputs that
-- supply at least the same values gives the same result, finite or unsupported.
pub evaluate_stable :
    (n : Node) (inputs more : Inputs)
    → Extends inputs more
    → is_dynamic (evaluate n inputs) ≡ false
    → evaluate n more ≡ evaluate n inputs
unfolding evaluate
evaluate_stable (int_literal v s) inputs more x = λ _. refl
evaluate_stable (string_literal v s) inputs more x = λ _. refl
evaluate_stable (unary_expr op e s) inputs more x =
    eval_unary-Settles op _ _ (evaluate_stable e inputs more x)
evaluate_stable (binary_expr op l r s) inputs more x =
    eval_binary-Settles op _ _ _ _ (evaluate_stable l inputs more x)
      (evaluate_stable r inputs more x)
evaluate_stable (var_expr e s) inputs more x =
    eval_var-Settles _ _ inputs more x (evaluate_stable e inputs more x)
evaluate_stable (random_expr s) inputs more x = supplied-Settles _ _ _ _ x.random
evaluate_stable (command_expr s) inputs more x = supplied-Settles _ _ _ _ x.command
evaluate_stable (pos_expr axis s) inputs more x = elim (Bool-cases (bytes_eq axis (codes "y"))) [
  | inl e ↦ rw e (supplied-Settles _ _ _ _ x.pos_y)
  | inr e ↦ rw e (λ _. refl)
]
evaluate_stable (state_type_expr s) inputs more x = supplied-Settles _ _ _ _ x.state_type
evaluate_stable (cond_expr c t e s) inputs more x =
    eval_cond-Settles _ _ _ _ _ _ (evaluate_stable c inputs more x)
      (evaluate_stable t inputs more x) (evaluate_stable e inputs more x)
evaluate_stable (unsupported_expr name args s) inputs more x = λ _. refl
