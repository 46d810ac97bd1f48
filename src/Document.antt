-- ===== src/Document.antt =====
-- internal/document/document.go: the snapshot of a parsed file, and when two of them agree.
pub mod Agreement
pub mod Creation
mod Samples
use ikemen_devtools.Prelude.{
  Bool, true, false, not, ◌&&◌, ◌||◌, Option, none, some, List, [], ◌∷◌, length, ◌==◌,
  if◌then◌else◌,
}
use ikemen_devtools.Prelude.Text.{Bytes, bytes_eq}
use ikemen_devtools.Ir.Documents.{Document}

pub record Snapshot : Type 0 where
  pub raw : Bytes
  pub line_endings : List Bytes
  pub normalized_path : Bytes
  pub file_type : Bytes
  pub content_hash : Bytes
  pub version : Bytes
  pub identity_contract : Bytes
  pub parsed_doc : Option Document

-- The loop over two lists of the same length.
unfoldable pub all_equal : List Bytes → List Bytes → Bool
all_equal [] [] = true
all_equal (x ∷ xs) (y ∷ ys) = if not (bytes_eq x y) then false else all_equal xs ys
all_equal _ _ = false

unfoldable pub endings_equal : List Bytes → List Bytes → Bool
endings_equal xs ys = if not (length xs == length ys) then false else all_equal xs ys

unfoldable pub docs_equal : Document → Document → Bool
docs_equal d e =
    bytes_eq d.version e.version && bytes_eq d.path e.path && bytes_eq d.file_type e.file_type

-- The part of the comparison that begins with the documents: two missing ones end it.
unfoldable pub content_equal : Snapshot → Snapshot → Option Document → Option Document → Bool
content_equal s t none none = true
content_equal s t none (some e) = false
content_equal s t (some d) none = false
content_equal s t (some d) (some e) =
    if not (bytes_eq s.raw t.raw)
    then false
    else if not (endings_equal s.line_endings t.line_endings)
    then false
    else docs_equal d e

unfoldable pub heads_equal : Snapshot → Snapshot → Bool
heads_equal s t =
    if not (bytes_eq s.normalized_path t.normalized_path)
    then false
    else if not (bytes_eq s.file_type t.file_type)
    then false
    else if not (bytes_eq s.content_hash t.content_hash)
    then false
    else if not (bytes_eq s.version t.version)
    then false
    else bytes_eq s.identity_contract t.identity_contract

-- `Equal`; `none` is a nil snapshot.
unfoldable pub equal : Option Snapshot → Option Snapshot → Bool
equal none none = true
equal none (some t) = false
equal (some s) none = false
equal (some s) (some t) =
    if not (heads_equal s t) then false else content_equal s t s.parsed_doc t.parsed_doc
