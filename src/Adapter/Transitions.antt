-- ===== src/Adapter/Transitions.antt =====
-- adapter.go, `FromSyntax`: the keys "type" and "value" of a state's controller.
use ikemen_devtools.Prelude.{◌≡◌, true, some, [], ◌∷◌, ◌++◌}
use ikemen_devtools.Prelude.Text.{Bytes, codes}
use ikemen_devtools.FilePath.{trim_space}
use ikemen_devtools.Ir.{SourceSpan}
use ikemen_devtools.Ir.Documents.{Reference, reference_state}
use ikemen_devtools.Expr.Unquote.{to_lower}
use ikemen_devtools.Syntax.Tokens.{Token}
use ikemen_devtools.Adapter.Names.{reference_id}
use ikemen_devtools.Adapter.Texts.{strip_quotes, normalize_state_reference_value}
use ikemen_devtools.Adapter.Controllers.{Controller}
use ikemen_devtools.Adapter.{Builder, controller_key}

-- The state that a value names.
abbrev pub target_of : Token → Bytes
target_of v = normalize_state_reference_value (strip_quotes (trim_space (trim_space v.value)))

abbrev pub with_controller : Builder → Controller → Builder
with_controller b c = record b { controller = some c }

-- The reference that a controller emits, if it has a value and is a transition.
abbrev wanted : Controller → Bytes
wanted c = normalize_state_reference_value (strip_quotes (trim_space c.pending_value))

module _ (wide_lower : Bytes → Bytes) (path path_id : Bytes) where
  abbrev pub after_type : Token → Builder → Builder
  after_type t b = controller_key wide_lower path path_id t (codes "type") b.controller b

  abbrev pub after_value : Token → Builder → Builder
  after_value v b = controller_key wide_lower path path_id v (codes "value") b.controller b

  -- The controller with a type and a value.
  abbrev pub typed : Token → Controller → Controller
  typed t c = record c { controller_type = to_lower wide_lower (strip_quotes t.value) }

  abbrev pub valued : Token → Controller → Controller
  valued v c = record c {
    pending_value = trim_space v.value;
    pending_span = v.span;
    pending_present = true;
  }

  -- A reference from the controller to the state of the value, numbered by the line of a span.
  pub record ToState (c : Controller) (v : Token) (at : SourceSpan) (r : Reference) : Type 0 where
    pub target_eq : r.target ≡ codes "state:" ++ target_of v
    pub name_eq : r.name ≡ codes "state:" ++ target_of v
    pub raw_eq : r.raw ≡ target_of v
    pub source_eq : r.source_symbol ≡ c.symbol_id
    pub span_eq : r.span ≡ v.span
    pub kind_eq : r.kind ≡ reference_state
    pub id_eq : r.id ≡ reference_id (codes "state") at.start.line path_id []

  -- The builder has one reference more, to the state of the value.
  abbrev pub AddsReference : Controller → Token → SourceSpan → Builder → Builder → Type 0
  AddsReference c v at b after =
      (r : Reference) × ((after.references ≡ b.references ++ r ∷ []) × ToState c v at r)
