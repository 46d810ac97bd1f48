-- ===== src/Ir.antt =====
-- internal/ir/types.go: positions and spans in a source text.
pub mod Documents
use ikemen_devtools.Prelude.{ℕ}

pub record SourcePosition : Type 0 where
  pub line : ℕ
  pub column : ℕ

pub record SourceSpan : Type 0 where
  pub start : SourcePosition
  pub end : SourcePosition
