-- ===== src/Adapter.antt =====
-- internal/parser/adapter/adapter.go: `FromSyntax`, from tokens to a document.
pub mod Texts
pub mod Commands
pub mod Names
pub mod Controllers
pub mod Sections
pub mod Sources
pub mod Rounds
pub mod Whole
pub mod Transitions
mod Samples
use ikemen_devtools.Prelude.{
  ℕ, zero, suc, ◌+◌, Bool, true, false, not, ◌&&◌, ◌||◌, Option, none, some, List, [], ◌∷◌, ◌++◌,
  String, length, get_elem?, ltb, if◌then◌else◌,
}
use ikemen_devtools.Prelude.Text.{Bytes, codes, bytes_eq}
use ikemen_devtools.Ir.{SourceSpan}
use ikemen_devtools.Ir.Documents.{
  Severity, severity_error, severity_warning, SourceLine, line_comment, line_key_value,
  line_malformed, SectionKind, section_other, section_statedef, section_state, section_command,
  DocumentSection, Symbol, symbol_state_def, symbol_state_controller, symbol_command, Reference,
  reference_state, reference_command, Diagnostic, Document, identity_contract_version,
}
use ikemen_devtools.FilePath.{has_prefix, trim_space, clean}
use ikemen_devtools.Expr.Unquote.{to_lower}
use ikemen_devtools.Syntax.Tokens.{
  TokenKind, token_section, token_key_value, token_comment, token_blank, token_malformed, Token,
  section_kind,
}
use ikemen_devtools.Adapter.Texts.{
  trim_prefix, section_header_argument, canonical_state_name, canonical_state_controller_name,
  strip_quotes, is_trigger_key, allows_positional_lines, quoted_by,
}
use ikemen_devtools.Adapter.Names.{
  state_symbol_id, command_symbol_id, symbol_identity, reference_identity, reference_id,
  print_number,
}
use ikemen_devtools.Adapter.Commands.{extract_command_references}
use ikemen_devtools.Adapter.Controllers.{Controller, is_transition, emit_reference}

-- The document so far: the variables of the loop. `current` is the index of the open section.
pub record Builder : Type 0 where
  pub sections : List DocumentSection
  pub current : Option ℕ
  pub controller : Option Controller
  pub symbols : List Symbol
  pub references : List Reference
  pub diagnostics : List Diagnostic

-- Appending a line to the section at an index; `none` is an index out of range.
unfoldable pub append_line : List DocumentSection → ℕ → SourceLine → Option (List DocumentSection)
append_line [] i l = none
append_line (s ∷ ss) zero l = some (record s { lines = s.lines ++ l ∷ [] } ∷ ss)
append_line (s ∷ ss) (suc i) l = elim (append_line ss i l) [
  | none ↦ none
  | some rest ↦ some (s ∷ rest)
]

abbrev pub source_line_of : TokenKind → Token → SourceLine
source_line_of token_key_value t = record {
  kind = line_key_value;
  key = t.key;
  value = t.value;
  text = [];
  span = t.span;
}
source_line_of token_comment t = record {
  kind = line_comment;
  key = [];
  value = [];
  text = t.text;
  span = t.span;
}
source_line_of _ t = record {
  kind = line_malformed;
  key = [];
  value = [];
  text = trim_space t.text;
  span = t.span;
}

-- The column of a diagnostic's end is not in front of its start, and neither is below 1.
abbrev at_least_one : ℕ → ℕ
at_least_one n = if ltb n 1 then 1 else n

unfoldable pub make_diagnostic : Bytes → Severity → String → String → SourceSpan → Diagnostic
make_diagnostic path severity message code span =
    let col_end : ℕ =
      if ltb span.end.column span.start.column then span.start.column else span.end.column in
    record {
      code = codes code;
      severity = severity;
      message = codes message;
      path = path;
      start = record { line = span.start.line; column = at_least_one span.start.column };
      end = record { line = span.start.line; column = at_least_one col_end };
    }

module _ (wide_lower : Bytes → Bytes) (path path_id : Bytes) where
  unfoldable pub diagnose : Severity → String → String → SourceSpan → Builder → Builder
  diagnose severity message code span b = record b {
    diagnostics = b.diagnostics ++ make_diagnostic path severity message code span ∷ [];
  }

  abbrev pub add_symbol : Symbol → Builder → Builder
  add_symbol s b = record b { symbols = b.symbols ++ s ∷ [] }

  unfoldable pub add_state_def : Bytes → SourceSpan → Builder → Builder
  add_state_def header span b =
      let state_arg : Bytes = section_header_argument header in
      let name : Bytes = canonical_state_name state_arg in
      let b1 : Builder =
        add_symbol
          (record {
            id = state_symbol_id name span.start.line path_id;
            identity = symbol_identity name span.start.line path_id;
            kind = symbol_state_def;
            name = name;
            span = span;
            section = header;
            raw = trim_space state_arg;
          })
          b in
      if bytes_eq (trim_space state_arg) []
      then diagnose severity_error "missing state id" "malformed-statedef" span b1
      else b1

  unfoldable pub add_controller : Bytes → SourceSpan → Builder → Builder
  add_controller header span b =
      let state_arg : Bytes = section_header_argument header in
      let name : Bytes = canonical_state_controller_name state_arg in
      record (add_symbol
        (record {
          id = state_symbol_id name span.start.line path_id;
          identity = symbol_identity name span.start.line path_id;
          kind = symbol_state_controller;
          name = name;
          span = span;
          section = header;
          raw = trim_space state_arg;
        })
        b) {
          controller = some (record {
            symbol_id = state_symbol_id name span.start.line path_id;
            section_header = header;
            state_name = name;
            controller_type = [];
            pending_value = [];
            pending_span = span;
            pending_present = false;
          });
        }

  -- What a section's header adds besides the section.
  unfoldable pub add_by_kind : SectionKind → Bytes → SourceSpan → Builder → Builder
  add_by_kind section_statedef header span b = add_state_def header span b
  add_by_kind section_state header span b = add_controller header span b
  add_by_kind section_command header span b = b
  add_by_kind section_other header span b = b

  unfoldable pub open_section : Bytes → SourceSpan → Builder → Builder
  open_section header span b = add_by_kind (section_kind wide_lower header) header span (record b {
    sections =
        b.sections
        ++ record {
          header = header;
          kind = section_kind wide_lower header;
          span = span;
          lines = [];
        }
          ∷ [];
    current = some (length b.sections);
    controller = none;
  })

  unfoldable pub section_token : Token → Builder → Builder
  section_token t b =
      if bytes_eq (trim_space t.text) []
      then record (diagnose severity_error "empty section header" "malformed-section" t.span b) {
        current = none;
        controller = none;
      }
      else open_section (trim_space t.text) t.span b

  -- `section.Lines = append(...)`
  unfoldable pub add_line : ℕ → SourceLine → Builder → Option Builder
  add_line i l b = elim (append_line b.sections i l) [
    | none ↦ none
    | some ss ↦ some (record b { sections = ss })
  ]

  unfoldable pub comment_token : Option ℕ → Token → Builder → Option Builder
  comment_token none t b = some b
  comment_token (some i) t b = add_line i (source_line_of token_comment t) b

  -- The name of a command, `cmd` being the value without its quotes.
  unfoldable pub add_command : DocumentSection → Token → Bytes → Builder → Builder
  add_command section t cmd b =
      if bytes_eq cmd []
      then diagnose severity_warning "empty command name" "malformed-command" t.span b
      else add_symbol
          (record {
            id = command_symbol_id cmd t.span.start.line path_id;
            identity = symbol_identity (codes "command:" ++ cmd) t.span.start.line path_id;
            kind = symbol_command;
            name = codes "command:" ++ cmd;
            span = t.span;
            section = section.header;
            raw = cmd;
          })
          b

  abbrev is_quoted : Bytes → Bool
  is_quoted raw_name = not (ltb (length raw_name) 2) && quoted_by 34 raw_name

  unfoldable pub command_key : DocumentSection → Token → Bytes → Builder → Builder
  command_key section t lower_key b =
      if not (bytes_eq lower_key (codes "name"))
      then b
      else add_command section t (strip_quotes (trim_space t.value)) (
          if is_quoted (trim_space t.value)
          then b
          else diagnose severity_warning "command name should be quoted" "unquoted-command-name"
              t.span b)

  abbrev source_of : DocumentSection → Option Controller → Bytes
  source_of section none = section.header
  source_of section (some c) = if bytes_eq c.symbol_id [] then section.header else c.symbol_id

  -- The references to commands of one trigger, numbered from `occurrence` on.
  unfoldable pub command_references :
      DocumentSection → Token → Option Controller → ℕ → List Bytes → List Reference
  command_references section t controller occurrence [] = []
  command_references section t controller occurrence (cmd ∷ cmds) =
      let id : Bytes =
        reference_id (codes "command") t.span.start.line path_id (print_number occurrence) in
      record {
        id = id;
        identity = reference_identity (codes "command:" ++ cmd) t.span.start.line path_id id;
        kind = reference_command;
        name = codes "command:" ++ cmd;
        raw = t.value;
        source_symbol = source_of section controller;
        target = codes "command:" ++ cmd;
        span = t.span;
        is_dynamic = false;
      }
      ∷ command_references section t controller (suc occurrence) cmds

  abbrev add_found : DocumentSection → Token → Builder → Option (List Bytes) → Option Builder
  add_found section t b none = none
  add_found section t b (some cmds) =
      some
        (record b { references = b.references ++ command_references section t b.controller 0 cmds })

  unfoldable pub trigger_key : DocumentSection → Token → Bytes → Builder → Option Builder
  trigger_key section t lower_key b =
      if is_trigger_key lower_key
      then add_found section t b (extract_command_references wide_lower (trim_space t.value))
      else if has_prefix (codes "trigger") lower_key
      then some (diagnose severity_warning "invalid trigger key" "malformed-trigger" t.span b)
      else some b

  -- `emitStateReference`
  abbrev emit_from : Token → Controller → Builder → Builder
  emit_from t c b = record b {
    controller = some (emit_reference path_id t.span c).0;
    references = b.references ++ (emit_reference path_id t.span c).1;
  }

  unfoldable pub type_key : Token → Controller → Builder → Builder
  type_key t c b =
      let c1 : Controller = record c {
        controller_type = to_lower wide_lower (strip_quotes t.value);
      } in
      if is_transition c1 then emit_from t c1 b else record b {
        controller = some (record c1 { pending_value = []; pending_present = false });
      }

  unfoldable pub value_key : Token → Controller → Builder → Builder
  value_key t c b =
      let c1 : Controller = record c {
        pending_value = trim_space t.value;
        pending_span = t.span;
        pending_present = true;
      } in
      if is_transition c1 then emit_from t c1 b else record b { controller = some c1 }

  unfoldable pub controller_key : Token → Bytes → Option Controller → Builder → Builder
  controller_key t lower_key none b = b
  controller_key t lower_key (some c) b =
      if bytes_eq lower_key (codes "type")
      then type_key t c b
      else if bytes_eq lower_key (codes "value")
      then value_key t c b
      else b

  -- A key of a section, behind its line. The early `continue` of the key "type" leaves out the test for
  -- a trigger, which that key does not pass.
  unfoldable pub section_key :
      DocumentSection → SectionKind → Token → Bytes → Builder → Option Builder
  section_key section section_command t lower_key b = some (command_key section t lower_key b)
  section_key section section_state t lower_key b =
      trigger_key section t lower_key (controller_key t lower_key b.controller b)
  section_key section section_statedef t lower_key b = some b
  section_key section section_other t lower_key b = some b

  abbrev with_line : (Builder → Option Builder) → Option Builder → Option Builder
  with_line next none = none
  with_line next (some b) = next b

  unfoldable pub malformed_token : ℕ → DocumentSection → Token → Builder → Option Builder
  malformed_token i section t b = add_line i (source_line_of token_malformed t) (
      if allows_positional_lines wide_lower section.header
      then b
      else diagnose severity_error "expected key=value" "malformed-line" t.span b)

  unfoldable pub key_value_token : ℕ → DocumentSection → Token → Builder → Option Builder
  key_value_token i section t b =
      if bytes_eq t.key []
      then some (diagnose severity_error "empty key" "malformed-line" t.span b)
      else with_line (section_key section section.kind t (to_lower wide_lower t.key))
          (add_line i (source_line_of token_key_value t) b)

  abbrev in_section : (DocumentSection → Option Builder) → Option DocumentSection → Option Builder
  in_section next none = none
  in_section next (some section) = next section

  -- A token that is no header, comment or blank line.
  unfoldable pub body_token :
      (ℕ → DocumentSection → Token → Builder → Option Builder)
      → Option ℕ
      → Token
      → Builder
      → Option Builder
  body_token next none t b =
      some (diagnose severity_error "key outside section" "orphan-line" t.span b)
  body_token next (some i) t b = in_section (λ section. next i section t b) (get_elem? b.sections i)

  -- One round of the loop; `none` is an index out of range.
  unfoldable pub adapt_token : TokenKind → Token → Builder → Option Builder
  adapt_token token_section t b = some (section_token t b)
  adapt_token token_comment t b = comment_token b.current t b
  adapt_token token_blank t b = some b
  adapt_token token_malformed t b = body_token malformed_token b.current t b
  adapt_token token_key_value t b = body_token key_value_token b.current t b

  unfoldable pub adapt_tokens : List Token → Builder → Option Builder
  adapt_tokens [] b = some b
  adapt_tokens (t ∷ ts) b = with_line (adapt_tokens ts) (adapt_token t.kind t b)

abbrev pub empty_builder : Builder
empty_builder = record {
  sections = [];
  current = none;
  controller = none;
  symbols = [];
  references = [];
  diagnostics = [];
}

unfoldable pub canonical_path_id : Bytes → Bytes
canonical_path_id path = trim_prefix (codes "./") (clean (trim_space path))

abbrev pub document_of : Bytes → Bytes → Builder → Document
document_of path file_type b = record {
  version = identity_contract_version;
  path = path;
  file_type = file_type;
  sections = b.sections;
  symbols = b.symbols;
  references = b.references;
  diagnostics = b.diagnostics;
}

-- `FromSyntax`, given the file's type.
unfoldable pub from_syntax : (Bytes → Bytes) → Bytes → Bytes → List Token → Option Document
from_syntax wide_lower path file_type tokens =
    elim (adapt_tokens wide_lower path (canonical_path_id path) tokens empty_builder) [
      | none ↦ none
      | some b ↦ some (document_of path file_type b)
    ]
