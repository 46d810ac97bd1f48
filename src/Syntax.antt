-- ===== src/Syntax.antt =====
-- internal/syntax/syntax.go: source files as lines, tokens and sections.
pub mod Lines
pub mod Split
pub mod Tokens
mod Samples
