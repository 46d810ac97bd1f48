-- ===== src/Syntax/Tokens.antt =====
-- internal/syntax/syntax.go: `parseSyntaxLines` and the functions below it. `wide_lower` is the lower
-- case of a text that is not all ASCII.
pub mod Readings
pub mod Spans
use ikemen_devtools.Prelude.{
  ℕ, zero, suc, ◌+◌, ◌-◌, Bool, true, false, not, ◌&&◌, ◌||◌, Option, none, some, List, [], ◌∷◌,
  ◌++◌, length, take, drop, leb, ltb, ◌==◌, if◌then◌else◌,
}
use ikemen_devtools.Prelude.Text.{Bytes, codes, bytes_eq}
use ikemen_devtools.Ir.{SourceSpan}
use ikemen_devtools.Ir.Documents.{
  SectionKind, section_other, section_statedef, section_state, section_command,
}
use ikemen_devtools.FilePath.{has_prefix, leading_space, trim_space}
use ikemen_devtools.Expr.Unquote.{to_lower}
use ikemen_devtools.Syntax.Split.{
  index_of, trim_right, SplitLine, split_line, split_key_value, parse_section_header, first_field,
}
use ikemen_devtools.Syntax.Lines.{LineInfo, split_lines}

pub data TokenKind : Type 0 where
  token_section token_key_value token_comment token_blank token_malformed : TokenKind

pub record Token : Type 0 where
  pub kind : TokenKind
  pub span : SourceSpan
  pub text : Bytes
  pub key : Bytes
  pub value : Bytes

pub record Section : Type 0 where
  pub header : Bytes
  pub kind : SectionKind
  pub span : SourceSpan

unfoldable pub kind_of : Bytes → SectionKind
kind_of name =
    if bytes_eq name (codes "statedef")
    then section_statedef
    else if bytes_eq name (codes "state")
    then section_state
    else if bytes_eq name (codes "command")
    then section_command
    else section_other

abbrev pub behind : Option ℕ → ℕ
behind none = 1
behind (some i) = i + 1

-- The search of `tokenSpanAt` for the token's column.
unfoldable pub find_start : Bytes → Bytes → ℕ
find_start raw [] =
    if bytes_eq (trim_space raw) [] then 1 else behind (index_of (trim_space raw) raw)
find_start raw (c ∷ token) = behind (index_of (c ∷ token) raw)

-- How far the token goes: an empty one as far as the line without its carriage returns.
unfoldable pub extent : Bytes → Bytes → ℕ
extent raw [] = length (trim_right (λ c. c == 13) raw)
extent raw (c ∷ token) = length (c ∷ token)

-- `start_column` is 0 where the code has a number that is not positive.
unfoldable pub token_span_at : Bytes → Bytes → ℕ → ℕ → SourceSpan
token_span_at raw token line_no start_column =
    let start : ℕ = if start_column == 0 then find_start raw token else start_column in
    record {
      start = record { line = line_no; column = start };
      end = record { line = line_no; column = start + extent raw token + 1 };
    }

unfoldable pub token_span : Bytes → Bytes → ℕ → SourceSpan
token_span raw token line_no = token_span_at raw token line_no 0

abbrev pub or_semicolon : Bytes → Bytes
or_semicolon [] = codes ";"
or_semicolon (c ∷ s) = c ∷ s

abbrev shifted : ℕ → Option ℕ → ℕ
shifted i none = i + 1
shifted i (some offset) = i + 1 + offset + 1

-- The column of a comment's text, 0 where there is no comment.
unfoldable pub comment_start : Bytes → Bytes → Option ℕ → ℕ
comment_start raw text none = 0
comment_start raw text (some i) =
    if bytes_eq text (codes ";") then i + 1 else shifted i (index_of text (drop (i + 1) raw))

unfoldable pub make_comment_token : ℕ → Bytes → Bytes → Option ℕ → Token
make_comment_token line_no raw comment comment_idx =
    let text : Bytes = or_semicolon (trim_space comment) in
    record {
      kind = token_comment;
      span = token_span_at raw text line_no (comment_start raw text comment_idx);
      text = text;
      key = [];
      value = [];
    }

abbrev plain_token : TokenKind → SourceSpan → Bytes → Token
plain_token kind span text = record { kind = kind; span = span; text = text; key = []; value = [] }

-- The comment's token behind the line's own, if there is a comment.
unfoldable pub with_comment : LineInfo → SplitLine → Token → List Token
with_comment line parts token =
    if bytes_eq parts.comment []
    then token ∷ []
    else token ∷ make_comment_token line.no line.text parts.comment parts.comment_idx ∷ []

-- What a line adds: its tokens, and its section if it opens one.
pub record Added : Type 0 where
  pub tokens : List Token
  pub sections : List Section

module _ (wide_lower : Bytes → Bytes) where
  unfoldable pub section_kind : Bytes → SectionKind
  section_kind header = kind_of (first_field (trim_space (to_lower wide_lower header)))

  unfoldable pub empty_line : LineInfo → SplitLine → Added
  empty_line line parts = record {
    tokens =
        if bytes_eq parts.comment []
        then plain_token token_blank (token_span line.text [] line.no) [] ∷ []
        else make_comment_token line.no line.text parts.comment parts.comment_idx ∷ [];
    sections = [];
  }

  unfoldable pub section_line : LineInfo → SplitLine → SourceSpan → Bytes → Added
  section_line line parts span header = record {
    tokens = with_comment line parts (plain_token token_section span header);
    sections = record { header = header; kind = section_kind header; span = span } ∷ [];
  }

  unfoldable pub malformed_line : LineInfo → SplitLine → SourceSpan → Bytes → Added
  malformed_line line parts span code = record {
    tokens = with_comment line parts (plain_token token_malformed span (trim_space code));
    sections = [];
  }

  -- A line that is no section's header.
  unfoldable pub key_value_line :
      LineInfo → SplitLine → SourceSpan → Bytes → Option (Bytes × Bytes) → Added
  key_value_line line parts span code none = malformed_line line parts span code
  key_value_line line parts span code (some ([], value)) = malformed_line line parts span code
  key_value_line line parts span code (some (c ∷ key, value)) = record {
    tokens = with_comment line parts (record {
      kind = token_key_value;
      span = span;
      text = trim_space code;
      key = c ∷ key;
      value = value;
    });
    sections = [];
  }

  unfoldable pub code_line : LineInfo → SplitLine → SourceSpan → Bytes → Option Bytes → Added
  code_line line parts span code (some header) = section_line line parts span (trim_space header)
  code_line line parts span code none = key_value_line line parts span code (split_key_value code)

  -- A line with its code and comment apart, `code` being the trimmed code.
  unfoldable pub split_parts : LineInfo → SplitLine → Bytes → Added
  split_parts line parts code =
      if bytes_eq code []
      then empty_line line parts
      else code_line line parts (token_span line.text (trim_space code) line.no) code
          (parse_section_header code)

  -- One round of the loop.
  unfoldable pub add_line : LineInfo → Added
  add_line line = split_parts line (split_line line.text) (trim_space (split_line line.text).code)

  unfoldable pub add_lines : List LineInfo → Added
  add_lines [] = record { tokens = []; sections = [] }
  add_lines (l ∷ ls) = record {
    tokens = (add_line l).tokens ++ (add_lines ls).tokens;
    sections = (add_line l).sections ++ (add_lines ls).sections;
  }

  unfoldable pub parse_syntax_lines : Bytes → Added
  parse_syntax_lines source = add_lines (split_lines source)
