-- ===== src/Syntax/Tokens/Readings.antt =====
-- syntax.go, `parseSyntaxLines`: what it means that tokens and sections say what the lines do.
use ikemen_devtools.Prelude.{ℕ, ◌≤◌, ◌<◌, ◌≡◌, ◌≢◌, List, [], ◌∷◌, ◌++◌, ◌⊎◌}
use ikemen_devtools.Prelude.Text.{Bytes}
use ikemen_devtools.Ir.{SourceSpan}
use ikemen_devtools.FilePath.{trim_space}
use ikemen_devtools.Syntax.Lines.{LineInfo}
use ikemen_devtools.Syntax.Tokens.{
  TokenKind, token_section, token_key_value, token_comment, token_blank, token_malformed, Token,
  Section, section_kind,
}
use ikemen_devtools.Syntax.Split.Parts.{AllBytes, no_equals}
use ikemen_devtools.Syntax.Split.Shapes.{IsBracketed}
use ikemen_devtools.Syntax.Split.{split_line}

-- The span stands on line `n` and is not empty.
pub record OnLine (n : ℕ) (s : SourceSpan) : Type 0 where
  pub start_line : s.start.line ≡ n
  pub end_line : s.end.line ≡ n
  pub from_one : 1 ≤ s.start.column
  pub forwards : s.start.column < s.end.column

-- The section that a token opens.
abbrev pub sections_at : (Bytes → Bytes) → TokenKind → Token → List Section
sections_at wide_lower token_section t =
    record { header = t.text; kind = section_kind wide_lower t.text; span = t.span } ∷ []
sections_at wide_lower _ t = []

abbrev pub section_of : (Bytes → Bytes) → Token → List Section
section_of wide_lower t = sections_at wide_lower t.kind t

-- The code of a line, and its comment without the white space around it.
abbrev pub code_of : LineInfo → Bytes
code_of l = trim_space (split_line l.text).code

abbrev pub comment_of : LineInfo → Bytes
comment_of l = (split_line l.text).comment

-- The text has no "=" behind a key.
abbrev pub LacksKey : Bytes → Type 0
LacksKey code =
    AllBytes no_equals code
    ⊎ ((key value : Bytes) × (code ≡ key ++ 61 ∷ value)
        × AllBytes no_equals key
        × (trim_space key ≡ []))

-- How a token reads its line's code: a text in brackets is a section's header; any other text with a key before
-- its first "=" is a key with a value; all else is malformed.
pub data Reads (code : Bytes) (t : Token) : Type 0 where
  bracketed :
      (inner : Bytes)
      → code ≡ 91 ∷ inner ++ 93 ∷ []
      → t.kind ≡ token_section
      → t.text ≡ trim_space inner
      → t.key ≡ []
      → t.value ≡ []
      → Reads code t
  keyed :
      (key value : Bytes)
      → (IsBracketed code → ⊥)
      → code ≡ key ++ 61 ∷ value
      → AllBytes no_equals key
      → trim_space key ≢ []
      → t.kind ≡ token_key_value
      → t.text ≡ code
      → t.key ≡ trim_space key
      → t.value ≡ trim_space value
      → Reads code t
  broken :
      (IsBracketed code → ⊥)
      → LacksKey code
      → t.kind ≡ token_malformed
      → t.text ≡ code
      → t.key ≡ []
      → t.value ≡ []
      → Reads code t

-- The token of the line's comment.
pub record IsComment (l : LineInfo) (c : Token) : Type 0 where
  pub on : OnLine l.no c.span
  pub kind_eq : c.kind ≡ token_comment
  pub text_eq : c.text ≡ comment_of l

-- What one line adds: one token for its code and one for its comment, as far as they are not empty, a blank token if
-- both are; and the section that the code's token opens.
pub data LineOf (wide_lower : Bytes → Bytes) (l : LineInfo)
    : List Token → List Section → Type 0 where
  blank :
      (t : Token)
      → code_of l ≡ []
      → comment_of l ≡ []
      → OnLine l.no t.span
      → t.kind ≡ token_blank
      → t.text ≡ []
      → LineOf wide_lower l (t ∷ []) []
  lone :
      (c : Token)
      → code_of l ≡ []
      → comment_of l ≢ []
      → IsComment l c
      → LineOf wide_lower l (c ∷ []) []
  bare :
      (t : Token)
      → code_of l ≢ []
      → comment_of l ≡ []
      → OnLine l.no t.span
      → Reads (code_of l) t
      → LineOf wide_lower l (t ∷ []) (section_of wide_lower t)
  commented :
      (t c : Token)
      → code_of l ≢ []
      → comment_of l ≢ []
      → OnLine l.no t.span
      → Reads (code_of l) t
      → IsComment l c
      → LineOf wide_lower l (t ∷ c ∷ []) (section_of wide_lower t)

-- The tokens and sections of the lines, line by line.
pub data Parsed (wide_lower : Bytes → Bytes)
    : List LineInfo → List Token → List Section → Type 0 where
  done : Parsed wide_lower [] [] []
  next :
      {l : LineInfo} {ls : List LineInfo} {t ts : List Token} {s ss : List Section}
      → LineOf wide_lower l t s
      → Parsed wide_lower ls ts ss
      → Parsed wide_lower (l ∷ ls) (t ++ ts) (s ++ ss)
