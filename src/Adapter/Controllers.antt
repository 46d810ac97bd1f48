-- ===== src/Adapter/Controllers.antt =====
-- internal/parser/adapter/adapter.go: `stateControllerContext` and `emitStateReference`.
use ikemen_devtools.Prelude.{Bool, false, not, ◌||◌, List, [], ◌∷◌, ◌++◌, if◌then◌else◌}
use ikemen_devtools.Prelude.Text.{Bytes, codes, bytes_eq}
use ikemen_devtools.Ir.{SourceSpan}
use ikemen_devtools.Ir.Documents.{Reference, reference_state}
use ikemen_devtools.FilePath.{trim_space}
use ikemen_devtools.Adapter.Texts.{strip_quotes, normalize_state_reference_value, is_atoi}
use ikemen_devtools.Adapter.Names.{reference_identity, reference_id}

pub record Controller : Type 0 where
  pub symbol_id : Bytes
  pub section_header : Bytes
  pub state_name : Bytes
  pub controller_type : Bytes
  pub pending_value : Bytes
  pub pending_span : SourceSpan
  pub pending_present : Bool

unfoldable pub is_transition : Controller → Bool
is_transition c =
    bytes_eq c.controller_type (codes "changestate")
    || bytes_eq c.controller_type (codes "selfstate")

unfoldable pub state_reference : Bytes → SourceSpan → Controller → Bytes → Reference
state_reference path_id fallback_span c value =
    let id : Bytes = reference_id (codes "state") fallback_span.start.line path_id [] in
    record {
      id = id;
      identity = reference_identity (codes "state:" ++ value) fallback_span.start.line path_id id;
      kind = reference_state;
      name = codes "state:" ++ value;
      raw = value;
      source_symbol = c.symbol_id;
      target = codes "state:" ++ value;
      span = c.pending_span;
      is_dynamic = not (is_atoi value);
    }

abbrev referred : Bytes → SourceSpan → Controller → Bytes → List Reference
referred path_id fallback_span c value =
    if bytes_eq value [] then [] else state_reference path_id fallback_span c value ∷ []

-- The controller behind the call, and the reference that it adds, if any.
unfoldable pub emit_reference : Bytes → SourceSpan → Controller → Controller × List Reference
emit_reference path_id fallback_span c =
    if not c.pending_present
    then (c, [])
    else if not (is_transition c)
    then (record c { pending_present = false }, [])
    else (
      record c { pending_present = false },
      referred path_id fallback_span c
          (normalize_state_reference_value (strip_quotes (trim_space c.pending_value))),
    )
