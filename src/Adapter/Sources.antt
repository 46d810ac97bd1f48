-- ===== src/Adapter/Sources.antt =====
-- adapter.go, `FromSyntax`: what it means that every reference comes from a controller.
pub mod Keys
use ikemen_devtools.Prelude.{
  ℕ, suc, ◌≡◌, refl, sym, ap, ◌∙◌, Bool, true, false, not, ◌||◌, ◌&&◌, Option, none, some, List, [],
  ◌∷◌, ◌++◌, All, Any, All-map, All-append, Any-append_left, Any-append_right, if◌then◌else◌,
  String, Bool-cases, inl, inr, get_elem?, length, Option-cases,
}
use mathlib.Core.Path.{subst}
use ikemen_devtools.Prelude.Text.{Bytes, bytes_eq, codes}
use ikemen_devtools.Ir.{SourceSpan}
use ikemen_devtools.Ir.Documents.{
  Severity, severity_error, severity_warning, SectionKind, section_other, section_statedef,
  section_state, section_command, DocumentSection, Symbol, SymbolKind, symbol_state_controller,
  Reference,
}
use ikemen_devtools.FilePath.{trim_space, has_prefix}
use ikemen_devtools.Expr.Unquote.{to_lower}
use ikemen_devtools.Syntax.Tokens.{Token}
use ikemen_devtools.Adapter.Texts.{
  strip_quotes, is_trigger_key, normalize_state_reference_value, section_header_argument,
  canonical_state_name,
}
use ikemen_devtools.Adapter.Names.{state_symbol_id}
use ikemen_devtools.Adapter.Commands.{extract_command_references, extract_command_references-some}
use ikemen_devtools.Adapter.Controllers.{Controller, is_transition, emit_reference, state_reference}
use ikemen_devtools.Adapter.{
  Builder, diagnose, add_symbol, add_state_def, add_controller, add_command, command_key, is_quoted,
  command_references, source_of, trigger_key, type_key, value_key, controller_key, section_key,
  emit_from,
}

-- An identifier that is not empty and that a controller of the list has.
pub record Names (symbols : List Symbol) (id : Bytes) : Type 0 where
  pub not_empty : bytes_eq id [] ≡ false
  pub named : Any (λ s. (s.id ≡ id) × (s.kind ≡ symbol_state_controller)) symbols

-- In a section of a state there is a controller, and the symbols have it.
abbrev pub Ready : List Symbol → Option SectionKind → Option Controller → Type 0
Ready symbols (some section_state) none = ⊥
Ready symbols (some section_state) (some c) = Names symbols c.symbol_id
Ready symbols k c = Unit

pub record Supported (k : Option SectionKind) (b : Builder) : Type 0 where
  pub sources : All (λ r. Names b.symbols r.source_symbol) b.references
  pub ready : Ready b.symbols k b.controller

-- The sections stay, and so does the support of the references.
pub record Stays (k : Option SectionKind) (b next : Builder) : Type 0 where
  pub same_sections : next.sections ≡ b.sections
  pub same_current : next.current ≡ b.current
  pub supported : Supported k b → Supported k next

pub Stays-refl : (k : Option SectionKind) (b : Builder) → Stays k b b
Stays-refl k b = record { same_sections = refl; same_current = refl; supported = λ h. h }

pub Stays-trans :
    {k : Option SectionKind} {a b c : Builder} → Stays k a b → Stays k b c → Stays k a c
Stays-trans f g = record {
  same_sections = g.same_sections ∙ f.same_sections;
  same_current = g.same_current ∙ f.same_current;
  supported = λ h. g.supported (f.supported h);
}

pub Names-append : (ss ts : List Symbol) (id : Bytes) → Names ss id → Names (ss ++ ts) id
Names-append ss ts id h = record {
  not_empty = h.not_empty;
  named = Any-append_left _ ss ts h.named;
}

pub Ready-append :
    (ss ts : List Symbol) (k : Option SectionKind) (c : Option Controller)
    → Ready ss k c
    → Ready (ss ++ ts) k c
Ready-append ss ts none c h = tt
Ready-append ss ts (some section_state) none h = elim h [ ]
Ready-append ss ts (some section_state) (some c) h = Names-append ss ts c.symbol_id h
Ready-append ss ts (some section_other) c h = tt
Ready-append ss ts (some section_statedef) c h = tt
Ready-append ss ts (some section_command) c h = tt

pub sources-append :
    (ss ts : List Symbol) (rs : List Reference)
    → All (λ r. Names ss r.source_symbol) rs
    → All (λ r. Names (ss ++ ts) r.source_symbol) rs
sources-append ss ts rs h = All-map (λ r. Names-append ss ts r.source_symbol) rs h

-- References from one identifier.
abbrev pub AllFrom : Bytes → List Reference → Type 0
AllFrom id = All (λ r. r.source_symbol ≡ id)

pub add_references :
    (k : Option SectionKind) (b : Builder) (id : Bytes) (rs : List Reference)
    → (Supported k b → Names b.symbols id)
    → AllFrom id rs
    → Stays k b (record b { references = b.references ++ rs })
add_references k b id rs names from = record {
  same_sections = refl;
  same_current = refl;
  supported = λ h. record {
    sources =
        All-append _ b.references rs h.sources
          (All-map (λ r e. subst (λ i. Names b.symbols i) (sym e) (names h)) rs from);
    ready = h.ready;
  };
}

pub replace_controller :
    (b : Builder) (c next : Controller)
    → b.controller ≡ some c
    → next.symbol_id ≡ c.symbol_id
    → Stays (some section_state) b (record b { controller = some next })
replace_controller b c next e f = record {
  same_sections = refl;
  same_current = refl;
  supported = λ h. record {
    sources = h.sources;
    ready =
        subst (λ i. Names b.symbols i) (sym f)
          (subst (λ o. Ready b.symbols (some section_state) o) e h.ready);
  };
}

pub emit_same :
    (path_id : Bytes) (span : SourceSpan) (c : Controller)
    → (emit_reference path_id span c).0.symbol_id ≡ c.symbol_id
unfolding emit_reference
emit_same path_id span c = elim (Bool-cases (not c.pending_present)) [
  | inl e ↦ rw e refl
  | inr e ↦ elim (Bool-cases (not (is_transition c))) [
    | inl t ↦ rw (e, t) refl
    | inr t ↦ rw (e, t) refl
  ]
]

pub emit_from_it :
    (path_id : Bytes) (span : SourceSpan) (c : Controller)
    → AllFrom c.symbol_id (emit_reference path_id span c).1
unfolding emit_reference state_reference
emit_from_it path_id span c = elim (Bool-cases (not c.pending_present)) [
  | inl e ↦ rw e tt
  | inr e ↦ elim (Bool-cases (not (is_transition c))) [
    | inl t ↦ rw (e, t) tt
    | inr t ↦
        elim (Bool-cases (
          bytes_eq (normalize_state_reference_value (strip_quotes (trim_space c.pending_value)))
            [])) [ inl n ↦ rw (e, t, n) tt | inr n ↦ rw (e, t, n) (refl, tt) ]
  ]
]
