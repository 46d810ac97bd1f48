-- ===== src/Syntax/Lines.antt =====
-- internal/syntax/syntax.go: `splitLines`; internal/document/document.go has the same function.
pub mod Lossless
use ikemen_devtools.Prelude.{
  ℕ, zero, suc, Bool, true, false, List, [], ◌∷◌, ◌++◌, ◌==◌, if◌then◌else◌,
}
use ikemen_devtools.Prelude.Text.{Bytes, codes}

pub data Ending : Type 0 where
  no_ending crlf cr lf : Ending

-- The bytes of an ending.
abbrev pub ending_bytes : Ending → Bytes
ending_bytes no_ending = []
ending_bytes crlf = 13 ∷ 10 ∷ []
ending_bytes cr = 13 ∷ []
ending_bytes lf = 10 ∷ []

pub record LineInfo : Type 0 where
  pub no : ℕ
  pub text : Bytes
  pub ending : Ending

-- How the line ends before the byte `c`, if it does; `behind` says whether a line feed follows.
unfoldable pub break_at : ℕ → Bool → Ending
break_at c behind =
    if c == 13 then (if behind then crlf else cr) else if c == 10 then lf else no_ending

-- The loop: `text` is the source from `start` up to the byte in front.
unfoldable pub split_from : ℕ → Bytes → Bytes → List LineInfo
split_from line_no text [] = record { no = line_no; text = text; ending = no_ending } ∷ []
split_from line_no text (c ∷ []) = elim (break_at c false) [
  | no_ending ↦ split_from line_no (text ++ c ∷ []) []
  | crlf ↦ record { no = line_no; text = text; ending = crlf } ∷ split_from (suc line_no) [] []
  | cr ↦ record { no = line_no; text = text; ending = cr } ∷ split_from (suc line_no) [] []
  | lf ↦ record { no = line_no; text = text; ending = lf } ∷ split_from (suc line_no) [] []
]
split_from line_no text (c ∷ d ∷ s) = elim (break_at c (d == 10)) [
  | no_ending ↦ split_from line_no (text ++ c ∷ []) (d ∷ s)
  | crlf ↦ record { no = line_no; text = text; ending = crlf } ∷ split_from (suc line_no) [] s
  | cr ↦ record { no = line_no; text = text; ending = cr } ∷ split_from (suc line_no) [] (d ∷ s)
  | lf ↦ record { no = line_no; text = text; ending = lf } ∷ split_from (suc line_no) [] (d ∷ s)
]

unfoldable pub split_lines : Bytes → List LineInfo
split_lines [] = []
split_lines (c ∷ s) = split_from 1 [] (c ∷ s)
