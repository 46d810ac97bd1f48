-- ===== src/Syntax/Tokens/Spans.antt =====
-- syntax.go, `parseSyntaxLines`: what the tokens and sections say about the lines.
use ikemen_devtools.Prelude.{
  ℕ, ◌≤◌, ◌≡◌, refl, ◌≢◌, Bool, true, false, Option, none, some, List, [], ◌∷◌, ◌++◌, arith,
  Bool-cases, inl, inr, ap, sym, ◌∙◌, if◌then◌else◌,
}
use ikemen_devtools.Prelude.Text.{Bytes, bytes_eq, eq_of_bytes_eq}
use ikemen_devtools.Ir.{SourceSpan}
use ikemen_devtools.FilePath.{trim_space}
use ikemen_devtools.Syntax.Lines.{LineInfo, split_lines}
use ikemen_devtools.Syntax.Tokens.{
  token_blank, Token, find_start, token_span_at, token_span, make_comment_token, with_comment,
  empty_line, section_line, malformed_line, key_value_line, code_line, split_parts, add_line,
  add_lines, Added, parse_syntax_lines, or_semicolon, behind,
}
use ikemen_devtools.FilePath.Trimmed.{trim_space_idempotent}
use ikemen_devtools.Syntax.Split.Parts.{AllBytes, no_equals, split_key_value-equals}
use ikemen_devtools.Syntax.Split.Shapes.{
  IsBracketed, header_of-cases, first_equals, split_key_value-none,
}
use mathlib.Core.Path.{subst}
use ikemen_devtools.Syntax.Tokens.Readings.{
  OnLine, section_of, code_of, comment_of, LacksKey, Reads, bracketed, keyed, broken, IsComment,
  LineOf, blank, lone, bare, commented, Parsed, done, next,
}
use ikemen_devtools.Syntax.Split.{
  comment_from, split_at, header_of, index_of, SplitLine, split_line, split_key_value,
  parse_section_header,
}

behind-le : (i : Option ℕ) → 1 ≤ behind i
behind-le none = omega arith
behind-le (some i) = omega arith

find_start-le : (raw token : Bytes) → 1 ≤ find_start raw token
unfolding find_start
find_start-le raw [] = elim (Bool-cases (bytes_eq (trim_space raw) [])) [
  | inl e ↦ rw e (omega arith)
  | inr e ↦ rw e (behind-le (index_of (trim_space raw) raw))
]
find_start-le raw (c ∷ token) = behind-le (index_of (c ∷ token) raw)

token_span_at-OnLine :
    (raw token : Bytes) (n start_column : ℕ) → OnLine n (token_span_at raw token n start_column)
unfolding token_span_at
token_span_at-OnLine raw token n start_column =
    let found = find_start-le raw token in
    record {
      start_line = refl;
      end_line = refl;
      from_one = ground (arith, found);
      forwards = omega arith;
    }

not_empty : (s : Bytes) → bytes_eq s [] ≡ false → s ≢ []
unfolding bytes_eq
not_empty [] h = cc
not_empty (c ∷ s) h = λ e. cc

trim_empty : trim_space [] ≡ []
unfolding trim_space
trim_empty = refl

split_at-trimmed :
    (raw : Bytes) (i : Option ℕ) → trim_space (split_at raw i).comment ≡ (split_at raw i).comment
unfolding split_at
split_at-trimmed raw none = trim_empty
split_at-trimmed raw (some i) = trim_space_idempotent _

split_line-trimmed : (raw : Bytes) → trim_space (split_line raw).comment ≡ (split_line raw).comment
unfolding split_line
split_line-trimmed raw = split_at-trimmed raw (comment_from raw 0 false false raw)

-- The text ";" for an empty comment is never used: a comment that is kept is not empty.
or_semicolon_same : (s : Bytes) → s ≢ [] → or_semicolon s ≡ s
or_semicolon_same [] h = absurd (h refl)
or_semicolon_same (c ∷ s) h = refl

module _ (wide_lower : Bytes → Bytes) (l : LineInfo) where
  abbrev parts : SplitLine
  parts = split_line l.text

  abbrev own_comment : Token
  own_comment = make_comment_token l.no l.text parts.comment parts.comment_idx

  own_comment-IsComment : comment_of l ≢ [] → IsComment l own_comment
  unfolding make_comment_token
  own_comment-IsComment filled = record {
    on = token_span_at-OnLine l.text _ l.no _;
    kind_eq = refl;
    text_eq = ap or_semicolon (split_line-trimmed l.text) ∙ or_semicolon_same (comment_of l) filled;
  }

  with_comment-LineOf :
      (t : Token)
      → code_of l ≢ []
      → OnLine l.no t.span
      → Reads (code_of l) t
      → LineOf wide_lower l (with_comment l parts t) (section_of wide_lower t)
  unfolding with_comment
  with_comment-LineOf t filled on reads = by_comment (bytes_eq (comment_of l) []) refl
    where
      by_comment :
          (b : Bool)
          → bytes_eq (comment_of l) [] ≡ b
          → LineOf wide_lower l
              (if b then t ∷ [] else t ∷ own_comment ∷ [])
              (section_of wide_lower t)
      by_comment true e = bare t filled (eq_of_bytes_eq (comment_of l) [] e) on reads
      by_comment false e =
          let some_comment = not_empty (comment_of l) e in
          commented t own_comment filled some_comment on reads (own_comment-IsComment some_comment)

  -- The tokens and the sections of one line.
  abbrev Lines : Added → Type 0
  Lines a = LineOf wide_lower l a.tokens a.sections

  empty_line-LineOf : code_of l ≡ [] → Lines (empty_line wide_lower l parts)
  unfolding empty_line token_span
  empty_line-LineOf empty = by_comment (bytes_eq (comment_of l) []) refl
    where
      by_comment :
          (b : Bool)
          → bytes_eq (comment_of l) [] ≡ b
          → LineOf wide_lower l
              (if b
                then record {
                  kind = token_blank;
                  span = token_span_at l.text [] l.no 0;
                  text = [];
                  key = [];
                  value = [];
                }
                  ∷ []
                else own_comment ∷ [])
              []
      by_comment true e =
          blank _ empty (eq_of_bytes_eq (comment_of l) [] e) (token_span_at-OnLine l.text [] l.no 0)
            refl refl
      by_comment false e =
          let some_comment = not_empty (comment_of l) e in
          lone own_comment empty some_comment (own_comment-IsComment some_comment)

  module _ (span : SourceSpan) (on : OnLine l.no span) (filled : code_of l ≢ []) where
    same_code : trim_space (code_of l) ≡ code_of l
    same_code = trim_space_idempotent (split_line l.text).code

    malformed_line-LineOf :
        (IsBracketed (code_of l) → ⊥)
        → LacksKey (code_of l)
        → Lines (malformed_line wide_lower l parts span (code_of l))
    unfolding malformed_line
    malformed_line-LineOf open_text lacks =
        with_comment-LineOf _ filled on (broken open_text lacks refl same_code refl refl)

    key_value_line-LineOf :
        (IsBracketed (code_of l) → ⊥)
        → (key value : Bytes) → code_of l ≡ key ++ 61 ∷ value
        → AllBytes no_equals key
        → (k : Bytes) → trim_space key ≡ k
        → Lines (key_value_line wide_lower l parts span (code_of l) (some (k, trim_space value)))
    unfolding key_value_line
    key_value_line-LineOf open_text key value e first [] k =
        malformed_line-LineOf open_text (inr (key, value, e, first, k))
    key_value_line-LineOf open_text key value e first (c ∷ name) k =
        with_comment-LineOf _ filled on (
          keyed key value open_text e first (λ z. let clash = sym k ∙ z in cc) refl same_code
            (sym k) refl)

    no_header-LineOf :
        (IsBracketed (code_of l) → ⊥)
        → Lines (key_value_line wide_lower l parts span (code_of l) (split_key_value (code_of l)))
    unfolding key_value_line
    no_header-LineOf open_text = elim (first_equals (code_of l)) [
      | inl none_there ↦
          subst (λ o. Lines (key_value_line wide_lower l parts span (code_of l) o))
            (sym (split_key_value-none (code_of l) none_there))
            (malformed_line-LineOf open_text (inl none_there))
      | inr (key, value, e, first) ↦
          subst (λ o. Lines (key_value_line wide_lower l parts span (code_of l) o))
            (sym (ap split_key_value e ∙ split_key_value-equals key value first))
            (key_value_line-LineOf open_text key value e first (trim_space key) refl)
    ]

    code_line-LineOf :
        Lines (code_line wide_lower l parts span (code_of l) (parse_section_header (code_of l)))
    unfolding code_line section_line parse_section_header
    code_line-LineOf =
        subst (λ c. Lines (code_line wide_lower l parts span (code_of l) (header_of c)))
          (sym same_code)
          (elim (header_of-cases (code_of l)) [
            | inl (inner, e, h) ↦
                subst (λ o. Lines (code_line wide_lower l parts span (code_of l) o)) (sym h)
                  (with_comment-LineOf _ filled on
                    (bracketed inner e refl (trim_space_idempotent inner) refl refl))
            | inr (h, open_text) ↦
                subst (λ o. Lines (code_line wide_lower l parts span (code_of l) o)) (sym h)
                  (no_header-LineOf open_text)
          ])

  add_line-LineOf : Lines (add_line wide_lower l)
  unfolding add_line split_parts token_span
  add_line-LineOf = elim (Bool-cases (bytes_eq (code_of l) [])) [
    | inl e ↦
        subst (λ b. Lines (by_code b)) (sym e) (empty_line-LineOf (eq_of_bytes_eq (code_of l) [] e))
    | inr e ↦
        subst (λ b. Lines (by_code b)) (sym e)
          (code_line-LineOf _ (token_span_at-OnLine l.text (trim_space (code_of l)) l.no 0)
            (not_empty (code_of l) e))
  ]
    where
      by_code : Bool → Added
      by_code b =
          if b
          then empty_line wide_lower l parts
          else code_line wide_lower l parts (token_span_at l.text (trim_space (code_of l)) l.no 0)
              (code_of l) (parse_section_header (code_of l))

add_lines-Parsed :
    (wide_lower : Bytes → Bytes) (ls : List LineInfo)
    → Parsed wide_lower ls (add_lines wide_lower ls).tokens (add_lines wide_lower ls).sections
unfolding add_lines
add_lines-Parsed wide_lower [] = done
add_lines-Parsed wide_lower (l ∷ ls) =
    next (add_line-LineOf wide_lower l) (add_lines-Parsed wide_lower ls)

-- `parseSyntaxLines` gives every line of the source its tokens, in order: one for its code and one for its comment as
-- far as these are not empty, and a blank token if both are. Code in square brackets gives a section's token with
-- the trimmed text between them; other code with a key before its first "=" gives a token with the trimmed key and
-- value; all other code gives a malformed token. A comment's token has the line's trimmed comment. Each token's
-- span lies on its line, begins at column 1 or later and is not empty. The sections are those of the section
-- tokens, in order, with their headers and spans.
pub parse_syntax_lines-Parsed :
    (wide_lower : Bytes → Bytes) (source : Bytes)
    → Parsed wide_lower
        (split_lines source)
        (parse_syntax_lines wide_lower source).tokens
        (parse_syntax_lines wide_lower source).sections
unfolding parse_syntax_lines
parse_syntax_lines-Parsed wide_lower source = add_lines-Parsed wide_lower (split_lines source)
