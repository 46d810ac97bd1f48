-- ===== src/Syntax/Samples.antt =====
-- Runs of syntax.go, and the theorems of this part at inputs.
use ikemen_devtools.Prelude.{some, ◌≡◌, refl, [], ◌∷◌, map}
use ikemen_devtools.Prelude.Text.{Bytes, codes, bytes_eq}
use ikemen_devtools.FilePath.{has_prefix, leading_space, trim_space}
use ikemen_devtools.Expr.Unquote.{to_lower}
use ikemen_devtools.Ir.Documents.{section_statedef}
use ikemen_devtools.Syntax.Lines.{break_at, split_from, split_lines}
use ikemen_devtools.Syntax.Lines.Lossless.{Cut, split_lines-Cut}
use ikemen_devtools.Syntax.Tokens.{
  token_section, token_key_value, token_comment, token_blank, token_malformed, kind_of, find_start,
  extent, token_span_at, token_span, comment_start, make_comment_token, with_comment, section_kind,
  empty_line, section_line, malformed_line, key_value_line, code_line, split_parts, add_line,
  add_lines, Added, parse_syntax_lines,
}
use ikemen_devtools.Syntax.Split.{
  index_of, trim_right, begins_comment, comment_from, split_at, split_line, split_key_value,
  ends_with, header_of, parse_section_header, first_field,
}
use ikemen_devtools.Syntax.Split.{is_blank}
use ikemen_devtools.Syntax.Split.Parts.{split_key_value-equals, split_line-semicolon}
use ikemen_devtools.Syntax.Tokens.Readings.{Parsed}
use ikemen_devtools.Syntax.Tokens.Spans.{parse_syntax_lines-Parsed}

abbrev same : Bytes → Bytes
same s = s

-- Two lines that end in "\r\n" and "\n", and a third.
abbrev state_file : Bytes
state_file = codes "[Statedef 200] ; a\r\n x = \"1;2\"\n\n?; b"

run : Bytes → Added
unfolding parse_syntax_lines add_lines add_line split_parts split_lines split_from break_at index_of
    trim_right begins_comment comment_from split_at split_line split_key_value ends_with header_of
    parse_section_header first_field kind_of find_start extent token_span_at token_span
    comment_start make_comment_token with_comment section_kind empty_line section_line
    malformed_line key_value_line code_line to_lower has_prefix leading_space trim_space bytes_eq
run source = parse_syntax_lines same source

kinds :
    map (λ t. t.kind) (run state_file).tokens
    ≡ token_section ∷ token_comment ∷ token_key_value ∷ token_blank ∷ token_malformed
      ∷ token_comment ∷ []
unfolding run
kinds = refl

values : map (λ t. t.value) (run (codes " x = \"1;2\" ; c")).tokens ≡ codes "\"1;2\"" ∷ [] ∷ []
unfolding run
values = refl

sections :
    (run state_file).sections
    ≡ record {
      header = codes "Statedef 200";
      kind = section_statedef;
      span = record {
        start = record { line = 1; column = 1 };
        end = record { line = 1; column = 16 };
      };
    }
      ∷ []
unfolding run
sections = refl

split_lines-Cut_example : Cut state_file (split_lines state_file)
split_lines-Cut_example = split_lines-Cut 91 (codes "Statedef 200] ; a\r\n x = \"1;2\"\n\n?; b")

parse_syntax_lines-Parsed_example :
    Parsed same
      (split_lines state_file)
      (parse_syntax_lines same state_file).tokens
      (parse_syntax_lines same state_file).sections
parse_syntax_lines-Parsed_example = parse_syntax_lines-Parsed same state_file

split_key_value-equals_example :
    split_key_value (codes "value =\"x=1\"")
    ≡ some (trim_space (codes "value "), trim_space (codes "\"x=1\""))
split_key_value-equals_example =
    split_key_value-equals (codes "value ") (codes "\"x=1\"")
      (refl, (refl, (refl, (refl, (refl, (refl, tt))))))

split_line-semicolon_example : split_line (codes "x = 1  ; // note") ≡ record {
  code = trim_right is_blank (codes "x = 1  ");
  comment = trim_space (codes " // note");
  comment_idx = some 7;
}
split_line-semicolon_example =
    split_line-semicolon (codes "x = 1  ") (codes " // note")
      (refl, (refl, (refl, (refl, (refl, (refl, (refl, tt)))))))
