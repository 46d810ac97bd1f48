-- ===== src/Adapter/Whole.antt =====
-- adapter.go, `FromSyntax`: the whole document.
use ikemen_devtools.Prelude.{◌≡◌, refl, ◌∙◌, none, some, List, [], ◌∷◌, All}
use ikemen_devtools.Prelude.Text.{Bytes}
use ikemen_devtools.Ir.Documents.{Document}
use ikemen_devtools.Syntax.Tokens.{Token}
use ikemen_devtools.Adapter.Sections.{Opened, group, place, place_all, all-place_all}
use ikemen_devtools.Adapter.Sources.{Names}
use ikemen_devtools.Adapter.Rounds.{Holds, Round, adapt_token-Round}
use ikemen_devtools.Adapter.{
  Builder, adapt_tokens, empty_builder, from_syntax, document_of, canonical_path_id,
}

module _ (wide_lower : Bytes → Bytes) (path path_id : Bytes) where
  pub adapt_tokens-Round :
      (ts : List Token) (o : Opened) (b : Builder)
      → Holds o b
      → Round (place_all wide_lower ts o) (adapt_tokens wide_lower path path_id ts b)
  unfolding adapt_tokens place_all
  adapt_tokens-Round [] o b h = (b, (refl, h))
  adapt_tokens-Round (t ∷ ts) o b h =
      let (next, (e, k)) = adapt_token-Round wide_lower path path_id t.kind t o b h in
      rw e (adapt_tokens-Round ts (place wide_lower t.kind t o) next k)

abbrev no_sections : Opened
no_sections = record { done = []; last = none }

empty_builder-Holds : Holds no_sections empty_builder
empty_builder-Holds = record {
  stands = record { sections_eq = refl; current_eq = refl };
  supported = record { sources = tt; ready = tt };
}

module _ (wide_lower : Bytes → Bytes) (path file_type : Bytes) (tokens : List Token) where
  abbrev built :
      Round
        (place_all wide_lower tokens no_sections)
        (adapt_tokens wide_lower path (canonical_path_id path) tokens empty_builder)
  built =
      adapt_tokens-Round wide_lower path (canonical_path_id path) tokens no_sections empty_builder
        empty_builder-Holds

  -- The document's version, path and type are those given.
  pub from_syntax-document :
      (b : Builder) × (from_syntax wide_lower path file_type tokens
        ≡ some (document_of path file_type b))
  unfolding from_syntax
  from_syntax-document = (built.0, rw (from_syntax, built.1.0) refl)

  -- Every list of tokens gives a document (no index is ever out of range), whose sections are those of
  -- `group`: each header that is not blank opens a section with the comments, the malformed lines and the
  -- lines with a key up to the next header, in their order; what stands behind a blank header, or in
  -- front of the first header, is in no section.
  pub from_syntax-group :
      (doc : Document) × ((from_syntax wide_lower path file_type tokens ≡ some doc)
        × (doc.sections ≡ (group wide_lower tokens).sections))
  unfolding from_syntax
  from_syntax-group = (
    document_of path file_type built.0,
    (
      rw (from_syntax, built.1.0) refl,
      built.1.1.stands.sections_eq ∙ all-place_all wide_lower tokens no_sections,
    ),
  )

  -- Every list of tokens gives a document in which the source of every reference is the identifier, and
  -- not an empty one, of a controller among the document's symbols.
  pub from_syntax-Names :
      (doc : Document) × ((from_syntax wide_lower path file_type tokens ≡ some doc)
        × All (λ r. Names doc.symbols r.source_symbol) doc.references)
  unfolding from_syntax
  from_syntax-Names = (
    document_of path file_type built.0,
    (rw (from_syntax, built.1.0) refl, built.1.1.supported.sources),
  )
