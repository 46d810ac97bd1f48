-- ===== src/Expr.antt =====
-- internal/expr/expr.go: the expressions of state triggers, their tree, evaluator, lexer and parser.
pub mod Ast
pub mod Word
pub mod Eval
pub mod Lexer
pub mod Unquote
pub mod Parser
mod Samples
