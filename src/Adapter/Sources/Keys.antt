-- ===== src/Adapter/Sources/Keys.antt =====
-- adapter.go, `FromSyntax`: the operations on the keys of a section.
use ikemen_devtools.Prelude.{
  ℕ, suc, ◌≡◌, refl, ◌∙◌, true, not, Option, none, some, List, [], ◌∷◌, ◌++◌, String, Bool-cases,
  inl, inr,
}
use mathlib.Core.Path.{subst}
use ikemen_devtools.Prelude.Text.{Bytes, bytes_eq, codes}
use ikemen_devtools.Ir.{SourceSpan}
use ikemen_devtools.Ir.Documents.{
  Severity, severity_warning, SectionKind, section_other, section_statedef, section_state,
  section_command, DocumentSection, Symbol,
}
use ikemen_devtools.FilePath.{trim_space, has_prefix}
use ikemen_devtools.Expr.Unquote.{to_lower}
use ikemen_devtools.Syntax.Tokens.{Token}
use ikemen_devtools.Adapter.Texts.{strip_quotes, is_trigger_key, section_header_argument}
use ikemen_devtools.Adapter.Commands.{extract_command_references-some}
use ikemen_devtools.Adapter.Controllers.{Controller, is_transition, emit_reference}
use ikemen_devtools.Adapter.{
  Builder, diagnose, add_symbol, add_state_def, add_command, command_key, is_quoted,
  command_references, source_of, trigger_key, type_key, value_key, controller_key, section_key,
  emit_from,
}
use ikemen_devtools.Adapter.Sources.{
  Names, Ready, Stays, Stays-refl, Stays-trans, Ready-append, sources-append, AllFrom,
  add_references, replace_controller, emit_same, emit_from_it,
}

module _ (wide_lower : Bytes → Bytes) (path path_id : Bytes) where
  pub diagnose-Stays :
      (k : Option SectionKind) (severity : Severity) (message code : String) (span : SourceSpan)
      (b : Builder)
      → Stays k b (diagnose wide_lower path path_id severity message code span b)
  unfolding diagnose
  diagnose-Stays k severity message code span b = record {
    same_sections = refl;
    same_current = refl;
    supported = λ h. record { sources = h.sources; ready = h.ready };
  }

  add_symbol-Stays :
      (k : Option SectionKind) (s : Symbol) (b : Builder)
      → Stays k b (add_symbol wide_lower path path_id s b)
  add_symbol-Stays k s b = record {
    same_sections = refl;
    same_current = refl;
    supported = λ h. record {
      sources = sources-append b.symbols (s ∷ []) b.references h.sources;
      ready = Ready-append b.symbols (s ∷ []) k b.controller h.ready;
    };
  }

  pub add_state_def-Stays :
      (k : Option SectionKind) (header : Bytes) (span : SourceSpan) (b : Builder)
      → Stays k b (add_state_def wide_lower path path_id header span b)
  unfolding add_state_def
  add_state_def-Stays k header span b =
      elim (Bool-cases (bytes_eq (trim_space (section_header_argument header)) [])) [
        | inl e ↦ rw e (Stays-trans (add_symbol-Stays k _ b) (diagnose-Stays k _ _ _ span _))
        | inr e ↦ rw e (add_symbol-Stays k _ b)
      ]

  add_command-Stays :
      (k : Option SectionKind) (section : DocumentSection) (t : Token) (cmd : Bytes) (b : Builder)
      → Stays k b (add_command wide_lower path path_id section t cmd b)
  unfolding add_command
  add_command-Stays k section t cmd b = elim (Bool-cases (bytes_eq cmd [])) [
    | inl e ↦ rw e (diagnose-Stays k _ _ _ t.span b)
    | inr e ↦ rw e (add_symbol-Stays k _ b)
  ]

  pub command_key-Stays :
      (k : Option SectionKind) (section : DocumentSection) (t : Token) (lower_key : Bytes)
      (b : Builder)
      → Stays k b (command_key wide_lower path path_id section t lower_key b)
  unfolding command_key
  command_key-Stays k section t lower_key b =
      elim (Bool-cases (not (bytes_eq lower_key (codes "name")))) [
        | inl e ↦ rw e (Stays-refl k b)
        | inr e ↦ elim (Bool-cases (is_quoted wide_lower path path_id (trim_space t.value))) [
          | inl q ↦ rw (e, q) (add_command-Stays k section t _ b)
          | inr q ↦
              rw (e, q)
                (Stays-trans (diagnose-Stays k _ _ _ t.span b) (add_command-Stays k section t _ _))
        ]
      ]

  source_of-Names :
      (section : DocumentSection) (ss : List Symbol) (o : Option Controller)
      → Ready ss (some section_state) o
      → Names ss (source_of wide_lower path path_id section o)
  source_of-Names section ss none h = elim h [ ]
  source_of-Names section ss (some c) h = rw (h.not_empty) h

  command_references_from :
      (section : DocumentSection) (t : Token) (o : Option Controller) (n : ℕ) (cmds : List Bytes)
      → AllFrom
          (source_of wide_lower path path_id section o)
          (command_references wide_lower path path_id section t o n cmds)
  unfolding command_references
  command_references_from section t o n [] = tt
  command_references_from section t o n (cmd ∷ cmds) =
      (refl, command_references_from section t o (suc n) cmds)

  -- An operation that returns, and what its result keeps.
  abbrev pub Returns : Option SectionKind → Builder → Option Builder → Type 0
  Returns k b o = (next : Builder) × ((o ≡ some next) × Stays k b next)

  trigger_key-Returns :
      (section : DocumentSection) (t : Token) (lower_key : Bytes) (b : Builder)
      → Returns (some section_state) b (trigger_key wide_lower path path_id section t lower_key b)
  unfolding trigger_key
  trigger_key-Returns section t lower_key b =
      let found = extract_command_references-some wide_lower (trim_space t.value) in
      elim (Bool-cases (is_trigger_key lower_key)) [
        | inl e ↦ (
          record b {
            references =
                b.references
                ++ command_references wide_lower path path_id section t b.controller 0 found.0;
          },
          (
            rw (e, found.1) refl,
            add_references (some section_state) b
                (source_of wide_lower path path_id section b.controller)
                (command_references wide_lower path path_id section t b.controller 0 found.0)
                (λ h. source_of-Names section b.symbols b.controller h.ready)
                (command_references_from section t b.controller 0 found.0),
          ),
        )
        | inr e ↦ elim (Bool-cases (has_prefix (codes "trigger") lower_key)) [
          | inl p ↦ (
            diagnose wide_lower path path_id severity_warning "invalid trigger key"
                "malformed-trigger" t.span b,
            (rw (e, p) refl, diagnose-Stays (some section_state) _ _ _ t.span b),
          )
          | inr p ↦ (b, (rw (e, p) refl, Stays-refl (some section_state) b))
        ]
      ]

  emit_from-Stays :
      (t : Token) (b : Builder) (c next : Controller)
      → b.controller ≡ some c
      → next.symbol_id ≡ c.symbol_id
      → Stays (some section_state) b (emit_from wide_lower path path_id t next b)
  emit_from-Stays t b c next e f =
      Stays-trans
        (add_references (some section_state) b c.symbol_id (emit_reference path_id t.span next).1
          (λ h. subst (λ o. Ready b.symbols (some section_state) o) e h.ready)
          (subst (λ i. AllFrom i (emit_reference path_id t.span next).1) f
            (emit_from_it path_id t.span next)))
        (replace_controller
          (record b { references = b.references ++ (emit_reference path_id t.span next).1 }) c
          (emit_reference path_id t.span next).0 e (emit_same path_id t.span next ∙ f))

  type_key-Stays :
      (t : Token) (b : Builder) (c : Controller)
      → b.controller ≡ some c
      → Stays (some section_state) b (type_key wide_lower path path_id t c b)
  unfolding type_key
  type_key-Stays t b c e =
      elim (Bool-cases (
        is_transition
          (record c { controller_type = to_lower wide_lower (strip_quotes t.value) }))) [
            | inl i ↦ rw i (emit_from-Stays t b c _ e refl)
            | inr i ↦ rw i (replace_controller b c _ e refl)
          ]

  value_key-Stays :
      (t : Token) (b : Builder) (c : Controller)
      → b.controller ≡ some c
      → Stays (some section_state) b (value_key wide_lower path path_id t c b)
  unfolding value_key
  value_key-Stays t b c e =
      elim (Bool-cases (
        is_transition (record c {
          pending_value = trim_space t.value;
          pending_span = t.span;
          pending_present = true;
        }))) [
          | inl i ↦ rw i (emit_from-Stays t b c _ e refl)
          | inr i ↦ rw i (replace_controller b c _ e refl)
        ]

  controller_key-Stays :
      (t : Token) (lower_key : Bytes) (o : Option Controller) (b : Builder)
      → b.controller ≡ o
      → Stays (some section_state) b (controller_key wide_lower path path_id t lower_key o b)
  unfolding controller_key
  controller_key-Stays t lower_key none b e = Stays-refl (some section_state) b
  controller_key-Stays t lower_key (some c) b e =
      elim (Bool-cases (bytes_eq lower_key (codes "type"))) [
        | inl k ↦ rw k (type_key-Stays t b c e)
        | inr k ↦ elim (Bool-cases (bytes_eq lower_key (codes "value"))) [
          | inl v ↦ rw (k, v) (value_key-Stays t b c e)
          | inr v ↦ rw (k, v) (Stays-refl (some section_state) b)
        ]
      ]

  after :
      {k : Option SectionKind} {a b : Builder} {o : Option Builder}
      → Stays k a b
      → Returns k b o
      → Returns k a o
  after f (next, (e, g)) = (next, (e, Stays-trans f g))

  -- The keys of a section leave the sections alone, and every reference they add has a source.
  pub section_key-Returns :
      (section : DocumentSection) (k : SectionKind) (t : Token) (lower_key : Bytes) (b : Builder)
      → Returns (some k) b (section_key wide_lower path path_id section k t lower_key b)
  unfolding section_key
  section_key-Returns section section_command t lower_key b =
      (_, (refl, command_key-Stays (some section_command) section t lower_key b))
  section_key-Returns section section_state t lower_key b =
      after (controller_key-Stays t lower_key b.controller b refl)
        (trigger_key-Returns section t lower_key _)
  section_key-Returns section section_statedef t lower_key b =
      (b, (refl, Stays-refl (some section_statedef) b))
  section_key-Returns section section_other t lower_key b =
      (b, (refl, Stays-refl (some section_other) b))
