-- ===== src/Document/Creation/Determined.antt =====
-- document.go, `NewSnapshot` and `Equal` together.
use ikemen_devtools.Prelude.{◌≡◌, refl, sym, ap, ◌∙◌, ◌↔◌, true, false, some, []}
use ikemen_devtools.Prelude.Text.{Bytes, bytes_eq, bytes_eq_refl}
use ikemen_devtools.FilePath.{trim_space, clean}
use ikemen_devtools.FilePath.Cleaned.{clean-no_dot, clean-nonempty}
use ikemen_devtools.Syntax.Tokens.{parse_syntax_lines}
use ikemen_devtools.Ir.Documents.{Document, identity_contract_version}
use ikemen_devtools.Adapter.Texts.{trim_prefix}
use ikemen_devtools.Adapter.{document_of}
use ikemen_devtools.Adapter.Whole.{from_syntax-document}
use ikemen_devtools.Document.{Snapshot, equal}
use ikemen_devtools.Document.Agreement.{Same, equal-Same}
use ikemen_devtools.Document.Creation.{
  made, parsed, normalize_path, syntax_path, detect_file_type, provider_parse, parse_source,
  endings_of, snapshot_of, with_document, new_snapshot,
}

normalize_path-clean : (path : Bytes) → normalize_path path ≡ clean (trim_space path)
unfolding normalize_path trim_prefix
normalize_path-clean path = rw (clean-no_dot (trim_space path)) refl

normalize_path-nonempty : (path : Bytes) → bytes_eq (normalize_path path) [] ≡ false
normalize_path-nonempty path = rw (normalize_path-clean path) (clean-nonempty (trim_space path))

-- A document as `Parse` makes it of a path.
record ParsedOf (wide_lower : Bytes → Bytes) (path : Bytes) (doc : Document) : Type 0 where
  version_eq : doc.version ≡ identity_contract_version
  path_eq : doc.path ≡ syntax_path wide_lower path
  type_eq : doc.file_type ≡ detect_file_type wide_lower (syntax_path wide_lower path)

module _ (wide_lower content_hash : Bytes → Bytes) where
  parse_source-document :
      (path source : Bytes)
      → (doc : Document) × ((parse_source wide_lower path source ≡ parsed doc)
          × ParsedOf wide_lower path doc)
  unfolding parse_source provider_parse
  parse_source-document path source =
      let (b, e) =
        from_syntax-document wide_lower (syntax_path wide_lower path)
          (detect_file_type wide_lower (syntax_path wide_lower path))
          (parse_syntax_lines wide_lower source).tokens in
      (
        document_of (syntax_path wide_lower path)
            (detect_file_type wide_lower (syntax_path wide_lower path)) b,
        (rw e refl, record { version_eq = refl; path_eq = refl; type_eq = refl }),
      )

  created :
      (path source : Bytes)
      → bytes_eq (trim_space path) [] ≡ false
      → (doc : Document) × ((new_snapshot wide_lower content_hash path (some source)
            ≡ made (snapshot_of wide_lower content_hash (normalize_path path) source doc))
          × ParsedOf wide_lower (normalize_path path) doc)
  unfolding new_snapshot with_document
  created path source h =
      let (doc, (e, p)) = parse_source-document (normalize_path path) source in
      (
        doc,
        (
          rw
              (
                h,
                normalize_path-nonempty path,
                e,
                p.version_eq,
                bytes_eq_refl identity_contract_version,
              )
              refl,
          p,
        ),
      )

  snapshot_of-Same :
      (p q a b : Bytes) (d e : Document)
      → ParsedOf wide_lower p d
      → ParsedOf wide_lower q e
      → p ≡ q
      → a ≡ b
      → Same
          (some (snapshot_of wide_lower content_hash p a d))
          (some (snapshot_of wide_lower content_hash q b e))
  snapshot_of-Same p q a b d e f g pq ab = (
    record {
      path_eq = pq;
      type_eq = types;
      hash_eq = ap content_hash ab;
      version_eq = f.version_eq ∙ sym g.version_eq;
      contract_eq = refl;
    },
    (
      ab,
      ap endings_of ab,
      record {
        version_eq = f.version_eq ∙ sym g.version_eq;
        path_eq = f.path_eq ∙ (ap (syntax_path wide_lower) pq ∙ sym g.path_eq);
        type_eq = types;
      },
    ),
  )
    where
      types : d.file_type ≡ e.file_type
      types =
          f.type_eq
          ∙ (ap (λ p. detect_file_type wide_lower (syntax_path wide_lower p)) pq ∙ sym g.type_eq)

  -- `NewSnapshot` makes a snapshot of every source under a path that is not blank, and two snapshots
  -- made so are equal for `Equal` exactly when their normalized paths and their sources are the same,
  -- whatever the hash function is.
  pub new_snapshot-equal :
      (p q a b : Bytes)
      → bytes_eq (trim_space p) [] ≡ false
      → bytes_eq (trim_space q) [] ≡ false
      → (s : Snapshot) × (t : Snapshot) × ((new_snapshot wide_lower content_hash p (some a)
            ≡ made s)
          × (new_snapshot wide_lower content_hash q (some b) ≡ made t)
          × ((equal (some s) (some t) ≡ true) ↔ ((normalize_path p ≡ normalize_path q) × (a ≡ b))))
  new_snapshot-equal p q a b hp hq =
      let (d, (ed, f)) = created p a hp in
      let (e, (ee, g)) = created q b hq in
      let decides =
        equal-Same (some (snapshot_of wide_lower content_hash (normalize_path p) a d))
          (some (snapshot_of wide_lower content_hash (normalize_path q) b e)) in
      (
        _,
        _,
        (
          ed,
          ee,
          (
            λ h. let same = decides.0 h in (same.0.path_eq, same.1.0),
            λ k.
                decides.1
                  (snapshot_of-Same (normalize_path p) (normalize_path q) a b d e f g k.0 k.1),
          ),
        ),
      )
