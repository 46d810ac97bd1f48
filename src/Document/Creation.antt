-- ===== src/Document/Creation.antt =====
-- document.go, `NewSnapshot`, and the calls that it rests on: `Parse` of internal/parser/parser.go and of
-- internal/syntax/syntax.go.
pub mod Determined
pub mod Outline
use mathlib.Core.List.{reverse}
use ikemen_devtools.Prelude.{
  ℕ, Bool, true, false, not, Option, none, some, List, [], ◌∷◌, ◌++◌, map, ◌==◌, if◌then◌else◌,
}
use ikemen_devtools.Prelude.Text.{Bytes, codes, bytes_eq}
use ikemen_devtools.FilePath.{slash, trim_space, clean}
use ikemen_devtools.Expr.Unquote.{to_lower}
use ikemen_devtools.Syntax.Lines.{ending_bytes, split_lines}
use ikemen_devtools.Syntax.Tokens.{parse_syntax_lines}
use ikemen_devtools.Ir.Documents.{Document, identity_contract_version}
use ikemen_devtools.Adapter.Texts.{trim_prefix}
use ikemen_devtools.Adapter.{from_syntax}
use ikemen_devtools.Document.{Snapshot}

-- filepath.Ext, the path being read from its end.
ext_from : Bytes → Bytes → Bytes
ext_from behind [] = []
ext_from behind (c ∷ s) =
    let rest = ext_from (c ∷ behind) s in
    if c == slash then [] else if c == 46 then c ∷ behind else rest

unfoldable pub ext : Bytes → Bytes
unfolding ext_from
ext path = ext_from [] (reverse path)

abbrev type_of_ext : Bytes → Bytes
type_of_ext e =
    if bytes_eq e (codes ".def")
    then codes "def"
    else if bytes_eq e (codes ".cns")
    then codes "cns"
    else if bytes_eq e (codes ".cmd")
    then codes "cmd"
    else if bytes_eq e (codes ".st")
    then codes "st"
    else codes "text"

-- What a parse of a file gives; `out_of_range` is an index out of range, at which the program stops.
pub data Parsed : Type 0 where
  out_of_range : Parsed
  no_document : Parsed
  parsed : Document → Parsed

pub data SnapshotError : Type 0 where
  nil_source blank_path invalid_version nil_parsed_doc : SnapshotError

pub data Made : Type 0 where
  stopped : Made
  failed : SnapshotError → Made
  made : Snapshot → Made

abbrev parsed_of : Option Document → Parsed
parsed_of none = out_of_range
parsed_of (some doc) = parsed doc

module _ (wide_lower : Bytes → Bytes) where
  unfoldable pub detect_file_type : Bytes → Bytes
  detect_file_type path = type_of_ext (to_lower wide_lower (ext path))

  -- `normalizePath` of internal/syntax.
  unfoldable pub syntax_path : Bytes → Bytes
  syntax_path path = if bytes_eq (trim_space path) [] then [] else clean (trim_space path)

  -- `Parse` of the provider, as far as the document goes; `none` is a nil source.
  unfoldable pub provider_parse : Bytes → Option Bytes → Parsed
  provider_parse path none = no_document
  provider_parse path (some source) = parsed_of (
      from_syntax wide_lower (syntax_path path) (detect_file_type (syntax_path path))
        (parse_syntax_lines wide_lower source).tokens)

  -- `Parse` of internal/parser.
  unfoldable pub parse_source : Bytes → Bytes → Parsed
  parse_source path source = provider_parse path (some source)

-- `normalizePath` of internal/document.
unfoldable pub normalize_path : Bytes → Bytes
normalize_path path = trim_prefix (codes "./") (clean (trim_space path))

unfoldable pub endings_of : Bytes → List Bytes
endings_of source = map (λ l. ending_bytes l.ending) (split_lines source)

module _ (wide_lower content_hash : Bytes → Bytes) where
  -- The snapshot of a document; `path` is the normalized path.
  abbrev pub snapshot_of : Bytes → Bytes → Document → Snapshot
  snapshot_of path source doc = record {
    raw = source;
    line_endings = endings_of source;
    normalized_path = path;
    file_type = doc.file_type;
    content_hash = content_hash source;
    version = doc.version;
    identity_contract = identity_contract_version;
    parsed_doc = some doc;
  }

  unfoldable pub with_document : Bytes → Bytes → Parsed → Made
  with_document path source out_of_range = stopped
  with_document path source no_document = failed nil_parsed_doc
  with_document path source (parsed doc) =
      if not (bytes_eq doc.version identity_contract_version)
      then failed invalid_version
      else made (snapshot_of path source doc)

  unfoldable pub new_snapshot : Bytes → Option Bytes → Made
  new_snapshot path none = failed nil_source
  new_snapshot path (some source) =
      if bytes_eq (trim_space path) []
      then failed blank_path
      else if bytes_eq (normalize_path path) []
      then failed blank_path
      else with_document (normalize_path path) source
          (parse_source wide_lower (normalize_path path) source)
