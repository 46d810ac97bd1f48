-- ===== src/Expr/Ast.antt =====
-- internal/expr/expr.go: the tree, the operators, the runtime values and the inputs.
use ikemen_devtools.Prelude.{Bool, List, Option, String}
use ikemen_devtools.Prelude.Int.{ℤ}
use ikemen_devtools.Prelude.Text.{Bytes}
use ikemen_devtools.Ir.{SourceSpan}

pub data Operator : Type 0 where
  add sub mul div mod_op eq neq assign_eq lt lte gt gte and or not_op : Operator

-- A node is a non-nil `Node`; where the code may hold nil the model has an `Option Node`.
mutual
  pub data Node : Type 0 where
    int_literal : ℤ → SourceSpan → Node
    string_literal : Bytes → SourceSpan → Node
    unary_expr : Operator → Node → SourceSpan → Node
    binary_expr : Operator → Node → Node → SourceSpan → Node
    var_expr : Node → SourceSpan → Node
    random_expr : SourceSpan → Node
    command_expr : SourceSpan → Node
    pos_expr : Bytes → SourceSpan → Node
    state_type_expr : SourceSpan → Node
    cond_expr : Node → Node → Node → SourceSpan → Node
    unsupported_expr : Bytes → Nodes → SourceSpan → Node

  pub data Nodes : Type 0 where
    no_nodes : Nodes
    one_more : Node → Nodes → Nodes

-- `Span()` of each node.
unfoldable pub span : Node → SourceSpan
span (int_literal v s) = s
span (string_literal v s) = s
span (unary_expr op e s) = s
span (binary_expr op l r s) = s
span (var_expr e s) = s
span (random_expr s) = s
span (command_expr s) = s
span (pos_expr a s) = s
span (state_type_expr s) = s
span (cond_expr c t e s) = s
span (unsupported_expr name args s) = s

-- `append(args, arg)`.
unfoldable pub snoc_node : Nodes → Node → Nodes
snoc_node no_nodes n = one_more n no_nodes
snoc_node (one_more m ms) n = one_more m (snoc_node ms n)

-- The struct `Value`, split by its kind. A number is an int64.
pub data Value : Type 0 where
  value_int : ℤ → Value
  value_bool : Bool → Value
  value_string : Bytes → Value

-- The texts of `Reason`; one of them ends in a node's name.
pub data Reason : Type 0 where
  because : String → Reason
  unsupported_node : Bytes → Reason

-- The struct `EvalResult`, split by its class: only a finite result holds a value, and only the
-- others hold a reason.
pub data EvalResult : Type 0 where
  finite : Value → EvalResult
  dynamic : Reason → EvalResult
  unsupported : Reason → EvalResult

-- A nil pointer, or a nil map, is `none`; the map of the variables is a list of indexes and values.
pub record Inputs : Type 0 where
  pub vars : Option (List (ℤ × ℤ))
  pub pos_y : Option ℤ
  pub command : Option Bytes
  pub state_type : Option Bytes
  pub random : Option ℤ
