-- ===== src/Adapter/Rounds.antt =====
-- adapter.go, `FromSyntax`: one round of the loop.
use ikemen_devtools.Prelude.{
  ℕ, ◌≡◌, refl, sym, ap, ◌∙◌, false, Option, none, some, List, [], ◌∷◌, ◌++◌, append-nil, All,
  Any-append_right, Bool-cases, inl, inr, get_elem?, length, String,
}
use mathlib.Core.Path.{subst}
use ikemen_devtools.Prelude.Text.{Bytes, bytes_eq}
use ikemen_devtools.Ir.{SourceSpan}
use ikemen_devtools.Ir.Documents.{
  severity_error, SourceLine, SectionKind, section_other, section_statedef, section_state,
  section_command, DocumentSection,
}
use ikemen_devtools.FilePath.{trim_space}
use ikemen_devtools.Expr.Unquote.{to_lower}
use ikemen_devtools.Syntax.Tokens.{
  TokenKind, token_section, token_key_value, token_comment, token_blank, token_malformed, Token,
}
use ikemen_devtools.Adapter.Texts.{allows_positional_lines}
use ikemen_devtools.Adapter.Names.{state_symbol_id}
use ikemen_devtools.Adapter.Sections.{
  Opened, all, new_section, index_of_open, place, line_of, extend_last, extend_last-nil, Stands,
  append_line-last, get_elem?-last, with_lines,
}
use ikemen_devtools.Adapter.Sources.{Names, Supported, Stays, sources-append}
use ikemen_devtools.Adapter.Sources.Keys.{diagnose-Stays, add_state_def-Stays, section_key-Returns}
use ikemen_devtools.Adapter.{
  Builder, source_line_of, append_line, diagnose, add_controller, add_by_kind, open_section,
  section_token, add_line, comment_token, malformed_token, key_value_token, body_token, in_section,
  adapt_token,
}

abbrev pub kind_of_last : Option DocumentSection → Option SectionKind
kind_of_last none = none
kind_of_last (some s) = some s.kind

-- What is known of the builder when the sections are `o`.
pub record Holds (o : Opened) (b : Builder) : Type 0 where
  pub stands : Stands b o
  pub supported : Supported (kind_of_last o.last) b

abbrev pub Round : Opened → Option Builder → Type 0
Round o r = (next : Builder) × ((r ≡ some next) × Holds o next)

abbrev at : List DocumentSection → Option DocumentSection → Opened
at done last = record { done = done; last = last }

stay :
    (o : Opened) (b next : Builder) → Stays (kind_of_last o.last) b next → Holds o b → Holds o next
stay o b next f h = record {
  stands = record {
    sections_eq = f.same_sections ∙ h.stands.sections_eq;
    current_eq = f.same_current ∙ h.stands.current_eq;
  };
  supported = f.supported h.supported;
}

with_sections :
    (b : Builder) (o o2 : Opened) (ss : List DocumentSection)
    → ss ≡ all o2
    → index_of_open o.done o.last ≡ index_of_open o2.done o2.last
    → kind_of_last o.last ≡ kind_of_last o2.last
    → Holds o b
    → Holds o2 (record b { sections = ss })
with_sections b o o2 ss e f k h = record {
  stands = record { sections_eq = e; current_eq = h.stands.current_eq ∙ f };
  supported =
      subst (λ k. Supported k (record b { sections = ss })) k
        (record { sources = h.supported.sources; ready = h.supported.ready });
}

module _ (wide_lower : Bytes → Bytes) (path path_id : Bytes) where
  add_line-Round :
      (done : List DocumentSection) (s : DocumentSection) (l : SourceLine) (b : Builder)
      → Holds (at done (some s)) b
      → Round
          (at done (some (with_lines s (l ∷ []))))
          (add_line wide_lower path path_id (length done) l b)
  unfolding add_line append_line
  add_line-Round done s l b h = (
    record b { sections = done ++ with_lines s (l ∷ []) ∷ [] },
    (
      rw (h.stands.sections_eq, append_line-last done s l) refl,
      with_sections b (at done (some s)) (at done (some (with_lines s (l ∷ [])))) _ refl refl refl
          h,
    ),
  )

  state_symbol_id-nonempty :
      (name : Bytes) (n : ℕ) → bytes_eq (state_symbol_id name n path_id) [] ≡ false
  unfolding state_symbol_id bytes_eq
  state_symbol_id-nonempty [] n = refl
  state_symbol_id-nonempty (c ∷ name) n = refl

  -- A header that opens a section.
  add_by_kind-Holds :
      (k : SectionKind) (header : Bytes) (span : SourceSpan) (b : Builder)
      (done : List DocumentSection) (s : DocumentSection)
      → s.kind ≡ k
      → Stands b (at done (some s))
      → All (λ r. Names b.symbols r.source_symbol) b.references
      → Holds (at done (some s)) (add_by_kind wide_lower path path_id k header span b)
  unfolding add_by_kind add_controller
  add_by_kind-Holds section_other header span b done s e st src = record {
    stands = st;
    supported = rw e (record { sources = src; ready = tt });
  }
  add_by_kind-Holds section_command header span b done s e st src = record {
    stands = st;
    supported = rw e (record { sources = src; ready = tt });
  }
  add_by_kind-Holds section_statedef header span b done s e st src =
      stay (at done (some s)) b _
        (add_state_def-Stays wide_lower path path_id (some s.kind) header span b)
        (record { stands = st; supported = rw e (record { sources = src; ready = tt }) })
  add_by_kind-Holds section_state header span b done s e st src = record {
    stands = record { sections_eq = st.sections_eq; current_eq = st.current_eq };
    supported = rw e (record {
      sources = sources-append b.symbols _ b.references src;
      ready = record {
        not_empty = state_symbol_id-nonempty _ _;
        named = Any-append_right _ b.symbols _ (inl (refl, refl));
      };
    });
  }

  section_token-Holds :
      (t : Token) (o : Opened) (b : Builder)
      → Holds o b
      → Holds (place wide_lower token_section t o) (section_token wide_lower path path_id t b)
  unfolding section_token place open_section diagnose
  section_token-Holds t o b h = elim (Bool-cases (bytes_eq (trim_space t.text) [])) [
    | inl e ↦ rw e (record {
      stands = record {
        sections_eq = h.stands.sections_eq ∙ sym (append-nil (all o));
        current_eq = refl;
      };
      supported = record { sources = h.supported.sources; ready = tt };
    })
    | inr e ↦ rw e (
        add_by_kind-Holds _ _ t.span _ (all o) _ refl
          (record {
            sections_eq = ap (λ ss. ss ++ new_section wide_lower t ∷ []) h.stands.sections_eq;
            current_eq = ap (λ ss. some (length ss)) h.stands.sections_eq;
          })
          h.supported.sources)
  ]

  comment_token-Round :
      (t : Token) (done : List DocumentSection) (last : Option DocumentSection) (b : Builder)
      → Holds (at done last) b
      → Round
          (place wide_lower token_comment t (at done last))
          (comment_token wide_lower path path_id (index_of_open done last) t b)
  unfolding comment_token place line_of
  comment_token-Round t done none b h = (b, (refl, h))
  comment_token-Round t done (some s) b h =
      add_line-Round done s (source_line_of token_comment t) b h

  diagnose-Holds :
      (o : Opened) (message code : String) (span : SourceSpan) (b : Builder)
      → Holds o b
      → Holds o (diagnose wide_lower path path_id severity_error message code span b)
  diagnose-Holds o message code span b h =
      stay o b _
        (diagnose-Stays wide_lower path path_id (kind_of_last o.last) severity_error message code
          span b)
        h

  malformed_token-Round :
      (t : Token) (done : List DocumentSection) (s : DocumentSection) (b : Builder)
      → Holds (at done (some s)) b
      → Round
          (place wide_lower token_malformed t (at done (some s)))
          (malformed_token wide_lower path path_id (length done) s t b)
  unfolding malformed_token place line_of
  malformed_token-Round t done s b h =
      elim (Bool-cases (allows_positional_lines wide_lower s.header)) [
        | inl e ↦ rw e (add_line-Round done s (source_line_of token_malformed t) b h)
        | inr e ↦ rw e (
            add_line-Round done s (source_line_of token_malformed t) _
              (diagnose-Holds (at done (some s)) _ _ t.span b h))
      ]

  key_value_token-Round :
      (t : Token) (done : List DocumentSection) (s : DocumentSection) (b : Builder)
      → Holds (at done (some s)) b
      → Round
          (place wide_lower token_key_value t (at done (some s)))
          (key_value_token wide_lower path path_id (length done) s t b)
  unfolding key_value_token place line_of
  key_value_token-Round t done s b h = elim (Bool-cases (bytes_eq t.key [])) [
    | inl e ↦
        rw (e, extend_last-nil (some s))
          (_, (refl, diagnose-Holds (at done (some s)) _ _ t.span b h))
    | inr e ↦
        let (b2, (r, h2)) = add_line-Round done s (source_line_of token_key_value t) b h in
        let (b3, (r3, f)) =
          section_key-Returns wide_lower path path_id s s.kind t (to_lower wide_lower t.key) b2 in
        rw (e, r, r3) (b3, (refl, stay _ b2 b3 f h2))
  ]

  body_token-Round :
      (next : ℕ → DocumentSection → Token → Builder → Option Builder) (k : TokenKind) (t : Token)
      (done : List DocumentSection) (last : Option DocumentSection) (b : Builder)
      → Holds (at done last) b
      → ((s : DocumentSection)
          → Holds (at done (some s)) b
          → Round (at done (extend_last (some s) (line_of k t))) (next (length done) s t b))
      → Round
          (at done (extend_last last (line_of k t)))
          (body_token wide_lower path path_id next (index_of_open done last) t b)
  unfolding body_token
  body_token-Round next k t done none b h f =
      (_, (refl, diagnose-Holds (at done none) _ _ t.span b h))
  body_token-Round next k t done (some s) b h f =
      subst
        (λ g.
          Round (at done (extend_last (some s) (line_of k t)))
            (in_section wide_lower path path_id (λ section. next (length done) section t b) g))
        (sym (ap (λ ss. get_elem? ss (length done)) h.stands.sections_eq ∙ get_elem?-last done s))
        (f s h)

  body_token-current :
      (next : ℕ → DocumentSection → Token → Builder → Option Builder) (k : TokenKind) (t : Token)
      (o : Opened) (b : Builder)
      → Holds o b
      → ((s : DocumentSection)
          → Holds (at o.done (some s)) b
          → Round (at o.done (extend_last (some s) (line_of k t))) (next (length o.done) s t b))
      → Round
          (at o.done (extend_last o.last (line_of k t)))
          (body_token wide_lower path path_id next b.current t b)
  body_token-current next k t o b h f =
      subst
        (λ i.
          Round (at o.done (extend_last o.last (line_of k t)))
            (body_token wide_lower path path_id next i t b))
        (sym h.stands.current_eq) (body_token-Round next k t o.done o.last b h f)

  -- A round returns, and does to the sections what `place` says.
  pub adapt_token-Round :
      (k : TokenKind) (t : Token) (o : Opened) (b : Builder)
      → Holds o b
      → Round (place wide_lower k t o) (adapt_token wide_lower path path_id k t b)
  unfolding adapt_token place line_of
  adapt_token-Round token_section t o b h = (_, (refl, section_token-Holds t o b h))
  adapt_token-Round token_comment t o b h =
      subst
        (λ i.
          Round (at o.done (extend_last o.last (line_of token_comment t)))
            (comment_token wide_lower path path_id i t b))
        (sym h.stands.current_eq) (comment_token-Round t o.done o.last b h)
  adapt_token-Round token_blank t o b h = (b, (refl, rw (extend_last-nil o.last) h))
  adapt_token-Round token_malformed t o b h =
      body_token-current (malformed_token wide_lower path path_id) token_malformed t o b h
        (λ s k. malformed_token-Round t o.done s b k)
  adapt_token-Round token_key_value t o b h =
      body_token-current (key_value_token wide_lower path path_id) token_key_value t o b h
        (λ s k. key_value_token-Round t o.done s b k)
