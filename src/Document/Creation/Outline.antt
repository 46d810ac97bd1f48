-- ===== src/Document/Creation/Outline.antt =====
-- internal/parser/parser.go, `Parse`: the sections that the provider lists and those of its document.
use ikemen_devtools.Prelude.{
  ◌≡◌, refl, sym, ap, ◌∙◌, some, none, Option, List, [], ◌∷◌, ◌++◌, map, if◌then◌else◌, Bool-cases,
  inl, inr, append_assoc, append-nil,
}
use ikemen_devtools.Prelude.Text.{Bytes, bytes_eq}
use ikemen_devtools.Ir.{SourceSpan}
use ikemen_devtools.Ir.Documents.{Document, DocumentSection}
use ikemen_devtools.FilePath.{trim_space}
use ikemen_devtools.FilePath.Trimmed.{trim_space_idempotent}
use ikemen_devtools.Syntax.Lines.{LineInfo, split_lines}
use ikemen_devtools.Syntax.Split.{SplitLine, split_line, split_key_value, parse_section_header}
use ikemen_devtools.Syntax.Tokens.{
  TokenKind, token_section, token_key_value, token_comment, token_blank, token_malformed, Token,
  Section, section_kind, Added, with_comment, make_comment_token, empty_line, section_line,
  malformed_line, key_value_line, code_line, split_parts, add_line, add_lines, parse_syntax_lines,
}
use ikemen_devtools.Adapter.Sections.{Grouped, add_to_group, group}
use ikemen_devtools.Adapter.Whole.{from_syntax-group}
use ikemen_devtools.Document.Creation.{
  parsed, parse_source, provider_parse, syntax_path, detect_file_type,
}

-- A section of the document without its lines.
abbrev pub outline : DocumentSection → Section
outline s = record { header = s.header; kind = s.kind; span = s.span }

-- The provider's sections that have a header.
abbrev pub kept : List Section → List Section
kept [] = []
kept (s ∷ ss) = if bytes_eq s.header [] then kept ss else s ∷ kept ss

kept-append : (ts us : List Section) → kept (ts ++ us) ≡ kept ts ++ kept us
kept-append [] us = refl
kept-append (t ∷ ts) us = elim (Bool-cases (bytes_eq t.header [])) [
  | inl e ↦ rw (e, kept-append ts us) refl
  | inr e ↦ rw (e, kept-append ts us) refl
]

module _ (wide_lower : Bytes → Bytes) where
  -- What a header opens in the document, its blanks trimmed once more.
  abbrev opened : Bytes → SourceSpan → List Section
  opened header span =
      if bytes_eq (trim_space header) []
      then []
      else record {
        header = trim_space header;
        kind = section_kind wide_lower (trim_space header);
        span = span;
      }
        ∷ []

  abbrev heads_of : TokenKind → Token → List Section
  heads_of token_section t = opened t.text t.span
  heads_of k t = []

  abbrev heads : List Token → List Section
  heads [] = []
  heads (t ∷ ts) = heads_of t.kind t ++ heads ts

  outline-add :
      (k : TokenKind) (t : Token) (g : Grouped)
      → map outline (add_to_group wide_lower k t g).sections
        ≡ heads_of k t ++ map outline g.sections
  outline-add token_section t g = elim (Bool-cases (bytes_eq (trim_space t.text) [])) [
    | inl e ↦ rw e refl
    | inr e ↦ rw e refl
  ]
  outline-add token_key_value t g = refl
  outline-add token_comment t g = refl
  outline-add token_blank t g = refl
  outline-add token_malformed t g = refl

  outline-group : (ts : List Token) → map outline (group wide_lower ts).sections ≡ heads ts
  unfolding group
  outline-group [] = refl
  outline-group (t ∷ ts) =
      outline-add t.kind t (group wide_lower ts)
      ∙ ap (λ ss. heads_of t.kind t ++ ss) (outline-group ts)

  heads-append : (ts us : List Token) → heads (ts ++ us) ≡ heads ts ++ heads us
  heads-append [] us = refl
  heads-append (t ∷ ts) us =
      rw (heads-append ts us, append_assoc (heads_of t.kind t) (heads ts) (heads us)) refl

  heads-with_comment :
      (line : LineInfo) (parts : SplitLine) (t : Token)
      → heads (with_comment line parts t) ≡ heads_of t.kind t
  unfolding with_comment make_comment_token
  heads-with_comment line parts t = elim (Bool-cases (bytes_eq parts.comment [])) [
    | inl e ↦ rw e (append-nil _)
    | inr e ↦ rw e (append-nil _)
  ]

  -- The tokens that a line, or a source, adds have the heads of the sections that it adds.
  abbrev Agrees : Added → Type 0
  Agrees a = heads a.tokens ≡ kept a.sections

  empty_line-Agrees :
      (line : LineInfo) (parts : SplitLine) → Agrees (empty_line wide_lower line parts)
  unfolding empty_line make_comment_token
  empty_line-Agrees line parts = elim (Bool-cases (bytes_eq parts.comment [])) [
    | inl e ↦ rw e refl
    | inr e ↦ rw e refl
  ]

  key_value_line-Agrees :
      (line : LineInfo) (parts : SplitLine) (span : SourceSpan) (code : Bytes)
      (o : Option (Bytes × Bytes))
      → Agrees (key_value_line wide_lower line parts span code o)
  unfolding key_value_line malformed_line
  key_value_line-Agrees line parts span code none = heads-with_comment line parts _
  key_value_line-Agrees line parts span code (some ([], value)) = heads-with_comment line parts _
  key_value_line-Agrees line parts span code (some (c ∷ key, value)) =
      heads-with_comment line parts _

  code_line-Agrees :
      (line : LineInfo) (parts : SplitLine) (span : SourceSpan) (code : Bytes) (o : Option Bytes)
      → Agrees (code_line wide_lower line parts span code o)
  unfolding code_line section_line
  code_line-Agrees line parts span code none =
      key_value_line-Agrees line parts span code (split_key_value code)
  code_line-Agrees line parts span code (some header) =
      heads-with_comment line parts _ ∙ rw (trim_space_idempotent header) refl

  split_parts-Agrees :
      (line : LineInfo) (parts : SplitLine) (code : Bytes)
      → Agrees (split_parts wide_lower line parts code)
  unfolding split_parts
  split_parts-Agrees line parts code = elim (Bool-cases (bytes_eq code [])) [
    | inl e ↦ rw e (empty_line-Agrees line parts)
    | inr e ↦ rw e (code_line-Agrees line parts _ code (parse_section_header code))
  ]

  add_lines-Agrees : (ls : List LineInfo) → Agrees (add_lines wide_lower ls)
  unfolding add_lines add_line
  add_lines-Agrees [] = refl
  add_lines-Agrees (l ∷ ls) =
      let first : Agrees (add_line wide_lower l) =
        split_parts-Agrees l (split_line l.text) (trim_space (split_line l.text).code) in
      heads-append (add_line wide_lower l).tokens (add_lines wide_lower ls).tokens
      ∙ ap (λ hs. hs ++ heads (add_lines wide_lower ls).tokens) first
      ∙ ap (λ hs. kept (add_line wide_lower l).sections ++ hs) (add_lines-Agrees ls)
      ∙ sym (kept-append (add_line wide_lower l).sections (add_lines wide_lower ls).sections)

  -- `Parse` makes a document of every source, and the document's sections are exactly those that the
  -- provider lists for the source, in their order, with the same headers, kinds and spans; only those whose
  -- header is empty are left out.
  pub parse_source-outline :
      (path source : Bytes)
      → (doc : Document) × ((parse_source wide_lower path source ≡ parsed doc)
          × (map outline doc.sections ≡ kept (parse_syntax_lines wide_lower source).sections))
  unfolding parse_source provider_parse parse_syntax_lines
  parse_source-outline path source =
      let tokens : List Token = (parse_syntax_lines wide_lower source).tokens in
      let (doc, (e, g)) =
        from_syntax-group wide_lower (syntax_path wide_lower path)
          (detect_file_type wide_lower (syntax_path wide_lower path)) tokens in
      (
        doc,
        (
          rw e refl,
          ap (λ ss. map outline ss) g
              ∙ outline-group tokens
              ∙ add_lines-Agrees (split_lines source),
        ),
      )
