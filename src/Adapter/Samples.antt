-- ===== src/Adapter/Samples.antt =====
-- Runs of adapter.go, and the theorems of this part at inputs.
use ikemen_devtools.Prelude.{
  ℕ, ◌≡◌, refl, true, false, some, none, Option, List, [], ◌∷◌, map, String, All,
}
use ikemen_devtools.Prelude.Text.{Bytes, codes, bytes_eq}
use ikemen_devtools.Ir.{SourceSpan}
use ikemen_devtools.Ir.Documents.{Document}
use ikemen_devtools.FilePath.{
  has_prefix, leading_space, trim_space, clean, clean_part, clean_parts, elements, split_slash,
  join_slash, is_abs, go_up,
}
use ikemen_devtools.Expr.Unquote.{to_lower}
use ikemen_devtools.Syntax.Split.{index_of, first_field, ends_with}
use ikemen_devtools.Syntax.Tokens.{
  TokenKind, token_section, token_key_value, token_comment, token_malformed, Token, section_kind,
  kind_of,
}
use ikemen_devtools.Adapter.Texts.{
  trim_prefix, after_field, section_header_argument, state_header_id, canonical_name,
  canonical_state_name, canonical_state_controller_name, normalize_state_reference_value,
  strip_trimmed, strip_quotes, all_digits, decimal_value, digits_in_range, is_atoi, is_trigger_key,
  allowed_header, allows_positional_lines,
}
use ikemen_devtools.Adapter.Names.{
  print_number, state_symbol_id, command_symbol_id, symbol_identity, reference_identity,
  reference_id,
}
use ikemen_devtools.Adapter.Commands.{
  is_identifier_char, reference_value_of, parse_reference_value, find_command, extract_from,
  extract_command_references,
}
use ikemen_devtools.Adapter.Controllers.{Controller, is_transition, state_reference, emit_reference}
use ikemen_devtools.Adapter.Sections.{group}
use ikemen_devtools.Adapter.Sources.{Names}
use ikemen_devtools.Adapter.Whole.{from_syntax-group, from_syntax-Names}
use ikemen_devtools.Adapter.{
  append_line, make_diagnostic, diagnose, add_state_def, add_controller, add_by_kind, open_section,
  section_token, add_line, comment_token, add_command, command_key, command_references, trigger_key,
  type_key, value_key, controller_key, section_key, malformed_token, key_value_token, body_token,
  adapt_token, adapt_tokens, canonical_path_id, from_syntax,
}

abbrev same : Bytes → Bytes
same s = s

abbrev span_at : ℕ → SourceSpan
span_at n = record {
  start = record { line = n; column = 1 };
  end = record { line = n; column = 9 };
}

abbrev token : ℕ → TokenKind → String → String → String → Token
token n kind text key value = record {
  kind = kind;
  span = span_at n;
  text = codes text;
  key = codes key;
  value = codes value;
}

-- A command, and a state that goes to another one when the command is given.
abbrev commands_and_state : List Token
commands_and_state =
    token 1 token_comment "; moves" "" ""
    ∷ token 2 token_section "Command" "" ""
    ∷ token 3 token_key_value "" "name" "\"jump\""
    ∷ token 4 token_section "State 200, a" "" ""
    ∷ token 5 token_key_value "" "type" "ChangeState"
    ∷ token 6 token_key_value "" "value" "+1"
    ∷ token 7 token_key_value "" "trigger1" "command = \"jump\" && command=down"
    ∷ token 8 token_malformed "?" "" ""
    ∷ []

abbrev parsed : List Token → Option Document
parsed tokens = from_syntax same (codes "./a.cns") (codes "cns") tokens

run : List Token → Option Document
unfolding from_syntax adapt_tokens adapt_token comment_token body_token section_token bytes_eq
    trim_space open_section add_by_kind section_kind kind_of first_field to_lower key_value_token
    add_line append_line extract_command_references extract_from find_command is_identifier_char
    parse_reference_value reference_value_of emit_reference is_transition state_reference
    command_symbol_id print_number reference_id reference_identity state_symbol_id symbol_identity
    after_field all_digits allowed_header allows_positional_lines canonical_name
    canonical_state_controller_name canonical_state_name decimal_value digits_in_range is_atoi
    is_trigger_key normalize_state_reference_value section_header_argument state_header_id
    strip_quotes strip_trimmed trim_prefix add_command add_controller add_state_def
    canonical_path_id command_key command_references controller_key diagnose make_diagnostic
    malformed_token section_key trigger_key type_key value_key clean clean_part clean_parts elements
    go_up has_prefix is_abs join_slash leading_space split_slash ends_with index_of
run tokens = parsed tokens

abbrev on_document : {A : Type 0} → (Document → List A) → Option Document → List A
on_document f none = []
on_document f (some doc) = f doc

reference_names :
    on_document (λ d. map (λ r. r.target) d.references) (run commands_and_state)
    ≡ codes "state:-10" ∷ codes "command:jump" ∷ codes "command:down" ∷ []
unfolding run
reference_names = refl

symbol_ids :
    on_document (λ d. map (λ s. s.id) d.symbols) (run commands_and_state)
    ≡ codes "command:jump:3:a.cns" ∷ codes "state-controller:200:4:a.cns" ∷ []
unfolding run
symbol_ids = refl

diagnostic_codes :
    on_document (λ d. map (λ g. g.code) d.diagnostics) (run commands_and_state)
    ≡ codes "malformed-line" ∷ []
unfolding run
diagnostic_codes = refl

trigger_keys :
    map is_trigger_key
      (codes "triggerall" ∷ codes "trigger12" ∷ codes "trigger" ∷ codes "triggerx" ∷ [])
    ≡ true ∷ true ∷ false ∷ false ∷ []
unfolding is_trigger_key is_atoi digits_in_range all_digits decimal_value trim_prefix has_prefix
    bytes_eq
trigger_keys = refl

longer_words :
    extract_command_references same (codes "commander = 1, command = x y") ≡ some (codes "x" ∷ [])
unfolding extract_command_references extract_from find_command is_identifier_char
    parse_reference_value reference_value_of index_of first_field to_lower has_prefix bytes_eq
    trim_space leading_space
longer_words = refl

from_syntax-group_example :
    (doc : Document) × ((parsed commands_and_state ≡ some doc)
      × (doc.sections ≡ (group same commands_and_state).sections))
from_syntax-group_example =
    from_syntax-group same (codes "./a.cns") (codes "cns") commands_and_state

from_syntax-Names_example :
    (doc : Document) × ((parsed commands_and_state ≡ some doc)
      × All (λ r. Names doc.symbols r.source_symbol) doc.references)
from_syntax-Names_example =
    from_syntax-Names same (codes "./a.cns") (codes "cns") commands_and_state

abbrev fresh : Controller
fresh = record {
  symbol_id = codes "state-controller:200:4:a.cns";
  section_header = codes "State 200";
  state_name = codes "state-controller:200";
  controller_type = [];
  pending_value = [];
  pending_span = span_at 4;
  pending_present = false;
}

abbrev type_token : Token
type_token = token 5 token_key_value "" "type" "ChangeState"

abbrev value_token : Token
value_token = token 6 token_key_value "" "value" "120"
