-- ===== src/Patch.antt =====
-- internal/patch/patch.go: guarded edits of files in a workspace.
pub mod Edits
pub mod Splice
pub mod Prepare
pub mod Paths
pub mod Apply
pub mod Transaction
mod Samples
