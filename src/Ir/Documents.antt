-- ===== src/Ir/Documents.antt =====
-- internal/ir/types.go: the document that the parser makes of a file.
use ikemen_devtools.Prelude.{Bool, List}
use ikemen_devtools.Prelude.Text.{Bytes, codes}
use ikemen_devtools.Ir.{SourcePosition, SourceSpan}

-- ir.IdentityContractVersion
abbrev pub identity_contract_version : Bytes
identity_contract_version = codes "0.2.0"

pub record Identity : Type 0 where
  pub contract_version : Bytes
  pub semantic_key : Bytes
  pub occurrence_id : Bytes
  pub store_id : Bytes

pub data Severity : Type 0 where
  severity_error severity_warning severity_info : Severity

pub data SourceLineKind : Type 0 where
  line_comment line_key_value line_blank line_malformed : SourceLineKind

pub record SourceLine : Type 0 where
  pub kind : SourceLineKind
  pub key : Bytes
  pub value : Bytes
  pub text : Bytes
  pub span : SourceSpan

pub data SectionKind : Type 0 where
  section_other section_statedef section_state section_command : SectionKind

pub record DocumentSection : Type 0 where
  pub header : Bytes
  pub kind : SectionKind
  pub span : SourceSpan
  pub lines : List SourceLine

pub data SymbolKind : Type 0 where
  symbol_section symbol_state_def symbol_state_controller symbol_command : SymbolKind

pub record Symbol : Type 0 where
  pub id : Bytes
  pub identity : Identity
  pub kind : SymbolKind
  pub name : Bytes
  pub span : SourceSpan
  pub section : Bytes
  pub raw : Bytes

pub data ReferenceKind : Type 0 where
  reference_state reference_command : ReferenceKind

pub record Reference : Type 0 where
  pub id : Bytes
  pub identity : Identity
  pub kind : ReferenceKind
  pub name : Bytes
  pub raw : Bytes
  pub source_symbol : Bytes
  pub target : Bytes
  pub span : SourceSpan
  pub is_dynamic : Bool

pub record Diagnostic : Type 0 where
  pub code : Bytes
  pub severity : Severity
  pub message : Bytes
  pub path : Bytes
  pub start : SourcePosition
  pub end : SourcePosition

pub record Document : Type 0 where
  pub version : Bytes
  pub path : Bytes
  pub file_type : Bytes
  pub sections : List DocumentSection
  pub symbols : List Symbol
  pub references : List Reference
  pub diagnostics : List Diagnostic
