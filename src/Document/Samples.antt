-- ===== src/Document/Samples.antt =====
-- document.go at inputs: `Equal` at two snapshots that differ in one line ending, and `NewSnapshot`.
use ikemen_devtools.Prelude.{◌≡◌, refl, ◌↔◌, true, false, some, [], ◌∷◌, map}
use ikemen_devtools.Prelude.Text.{Bytes, codes, bytes_eq}
use ikemen_devtools.Document.{
  Snapshot, all_equal, endings_equal, docs_equal, content_equal, heads_equal, equal,
}
use ikemen_devtools.Document.Agreement.{Same, equal-Same}
use ikemen_devtools.Ir.Documents.{Document}
use ikemen_devtools.FilePath.{trim_space, leading_space}
use ikemen_devtools.Expr.Unquote.{to_lower}
use ikemen_devtools.Syntax.Tokens.{parse_syntax_lines}
use ikemen_devtools.Document.Creation.{
  ext, detect_file_type, parsed, parse_source, made, new_snapshot, normalize_path,
}
use ikemen_devtools.Document.Creation.Determined.{new_snapshot-equal}
use ikemen_devtools.Document.Creation.Outline.{outline, kept, parse_source-outline}

abbrev sample_of : Bytes → Bytes → Snapshot
sample_of raw ending = record {
  raw = raw;
  line_endings = ending ∷ [] ∷ [];
  normalized_path = codes "a.cns";
  file_type = codes "cns";
  content_hash = codes "h";
  version = codes "0.2.0";
  identity_contract = codes "0.2.0";
  parsed_doc = some (record {
    version = codes "0.2.0";
    path = codes "a.cns";
    file_type = codes "cns";
    sections = [];
    symbols = [];
    references = [];
    diagnostics = [];
  });
}

abbrev unix : Snapshot
unix = sample_of (codes "x\ny") (codes "\n")

abbrev dos : Snapshot
dos = sample_of (codes "x\r\ny") (codes "\r\n")

same_snapshot : equal (some unix) (some unix) ≡ true
unfolding equal heads_equal content_equal endings_equal all_equal docs_equal bytes_eq
same_snapshot = refl

other_ending : equal (some unix) (some dos) ≡ false
unfolding equal heads_equal content_equal endings_equal all_equal docs_equal bytes_eq
other_ending = refl

equal-Same_example : (equal (some unix) (some dos) ≡ true) ↔ Same (some unix) (some dos)
equal-Same_example = equal-Same (some unix) (some dos)

abbrev same : Bytes → Bytes
same s = s

state_path_not_blank : bytes_eq (trim_space (codes "x/../a.cns")) [] ≡ false
unfolding trim_space leading_space bytes_eq
state_path_not_blank = refl

other_path_not_blank : bytes_eq (trim_space (codes " a.cns")) [] ≡ false
unfolding trim_space leading_space bytes_eq
other_path_not_blank = refl

file_types :
    map (λ p. detect_file_type same (codes p)) ("a.b/c.cns" ∷ "a.b/c" ∷ "c.x.def" ∷ [])
    ≡ codes "cns" ∷ codes "text" ∷ codes "def" ∷ []
unfolding detect_file_type ext to_lower bytes_eq
file_types = refl

-- The same bytes under two spellings of a path.
new_snapshot-equal_example :
    (s : Snapshot) × (t : Snapshot) × ((new_snapshot same same
          (codes "x/../a.cns")
          (some (codes "[State 1]"))
        ≡ made s)
      × (new_snapshot same same (codes " a.cns") (some (codes "[State 1]")) ≡ made t)
      × ((equal (some s) (some t) ≡ true) ↔ (
          (normalize_path (codes "x/../a.cns") ≡ normalize_path (codes " a.cns"))
          × (codes "[State 1]" ≡ codes "[State 1]"))))
new_snapshot-equal_example =
    new_snapshot-equal same same (codes "x/../a.cns") (codes " a.cns") (codes "[State 1]")
      (codes "[State 1]") state_path_not_blank other_path_not_blank

parse_source-outline_example :
    (doc : Document) × ((parse_source same (codes "a.cns") (codes "x = 1\n[ ]\n[State 1]")
        ≡ parsed doc)
      × (map outline doc.sections
          ≡ kept (parse_syntax_lines same (codes "x = 1\n[ ]\n[State 1]")).sections))
parse_source-outline_example =
    parse_source-outline same (codes "a.cns") (codes "x = 1\n[ ]\n[State 1]")
