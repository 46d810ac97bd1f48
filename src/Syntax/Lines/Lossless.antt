-- ===== src/Syntax/Lines/Lossless.antt =====
-- syntax.go, `splitLines`: the lines are the source, cut at its line ends.
use ikemen_devtools.Prelude.{
  ℕ, suc, ◌≡◌, refl, sym, ap, ◌∙◌, ◌≢◌, ◌⊎◌, Bool, true, false, ◌&&◌, not, List, [], ◌∷◌, ◌++◌,
  append_assoc, append-nil, arith, ◌==◌, Bool-cases, inl, inr,
}
use mathlib.Core.Path.{subst}
use ikemen_devtools.Prelude.Text.{Bytes}
use ikemen_devtools.Syntax.Lines.{
  Ending, no_ending, crlf, cr, lf, ending_bytes, LineInfo, break_at, split_from, split_lines,
}

-- The lines put together again.
abbrev pub joined : List LineInfo → Bytes
joined [] = []
joined (l ∷ ls) = l.text ++ (ending_bytes l.ending ++ joined ls)

-- A text without line ends.
abbrev pub is_plain : ℕ → Bool
is_plain c = not (c == 13) && not (c == 10)

abbrev pub Plain : Bytes → Type 0
Plain [] = Unit
Plain (c ∷ s) = (is_plain c ≡ true) × Plain s

-- The lines from number `line_no` on: numbered without a gap, no line end inside a text, and an
-- ending at every line but the last.
abbrev pub Numbered : ℕ → List LineInfo → Type 0
Numbered line_no [] = ⊥
Numbered line_no (l ∷ []) = (l.no ≡ line_no) × Plain l.text × (l.ending ≡ no_ending)
Numbered line_no (l ∷ k ∷ ls) =
    (l.no ≡ line_no) × Plain l.text × (l.ending ≢ no_ending) × Numbered (suc line_no) (k ∷ ls)

Plain-snoc : (s : Bytes) (c : ℕ) → Plain s → is_plain c ≡ true → Plain (s ++ c ∷ [])
Plain-snoc [] c p h = (h, tt)
Plain-snoc (x ∷ s) c p h = (p.0, Plain-snoc s c p.1 h)

snoc-append : (text : Bytes) (c : ℕ) (s : Bytes) → (text ++ c ∷ []) ++ s ≡ text ++ c ∷ s
snoc-append text c s = append_assoc text (c ∷ []) s

-- What the byte in front means.
break_cases :
    (c : ℕ) (behind : Bool)
    → ((break_at c behind ≡ no_ending) × (is_plain c ≡ true))
      ⊎ ((break_at c behind ≡ crlf) × (c ≡ 13) × (behind ≡ true))
      ⊎ ((break_at c behind ≡ cr) × (c ≡ 13))
      ⊎ ((break_at c behind ≡ lf) × (c ≡ 10))
unfolding break_at
break_cases c behind = elim (Bool-cases (c == 13)) [
  | inl e ↦ elim (Bool-cases behind) [
    | inl b ↦ inr (inl (ground arith, ground arith, b))
    | inr b ↦ inr (inr (inl (ground arith, ground arith)))
  ]
  | inr e ↦ elim (Bool-cases (c == 10)) [
    | inl f ↦ inr (inr (inr (ground arith, ground arith)))
    | inr f ↦ inl (ground arith, ground arith)
  ]
]

joined-split_from : (line_no : ℕ) (text s : Bytes) → joined (split_from line_no text s) ≡ text ++ s
unfolding split_from
joined-split_from line_no text [] = refl
joined-split_from line_no text (c ∷ []) = elim (break_cases c false) [
  | inl (e, _) ↦ rw (e, joined) (append-nil (text ++ c ∷ []))
  | inr (inl (e, ce, b)) ↦ cc
  | inr (inr (inl (e, ce))) ↦ rw (e, ce, joined) refl
  | inr (inr (inr (e, ce))) ↦ rw (e, ce, joined) refl
]
joined-split_from line_no text (c ∷ d ∷ s) = elim (break_cases c (d == 10)) [
  | inl (e, _) ↦
      rw (e, joined)
        (joined-split_from line_no (text ++ c ∷ []) (d ∷ s) ∙ snoc-append text c (d ∷ s))
  | inr (inl (e, ce, b)) ↦
      let de : d ≡ 10 = ground arith in
      rw (e, ce, de, joined)
        (ap (λ t. text ++ (13 ∷ 10 ∷ t)) (joined-split_from (suc line_no) [] s))
  | inr (inr (inl (e, ce))) ↦
      rw (e, ce, joined) (ap (λ t. text ++ (13 ∷ t)) (joined-split_from (suc line_no) [] (d ∷ s)))
  | inr (inr (inr (e, ce))) ↦
      rw (e, ce, joined) (ap (λ t. text ++ (10 ∷ t)) (joined-split_from (suc line_no) [] (d ∷ s)))
]

abbrev line : ℕ → Bytes → Ending → LineInfo
line line_no text ending = record { no = line_no; text = text; ending = ending }

Numbered-cons :
    (line_no : ℕ) (text : Bytes) (e : Ending) (ls : List LineInfo)
    → Plain text
    → e ≢ no_ending
    → Numbered (suc line_no) ls
    → Numbered line_no (line line_no text e ∷ ls)
Numbered-cons line_no text e [] p n h = elim h [ ]
Numbered-cons line_no text e (l ∷ ls) p n h = (refl, p, n, h)

split_from-Numbered :
    (line_no : ℕ) (text s : Bytes) → Plain text → Numbered line_no (split_from line_no text s)
unfolding split_from
split_from-Numbered line_no text [] p = (refl, p, refl)
split_from-Numbered line_no text (c ∷ []) p = elim (break_cases c false) [
  | inl (e, h) ↦ rw (e, Numbered) (refl, Plain-snoc text c p h, refl)
  | inr (inl (e, ce, b)) ↦ cc
  | inr (inr (inl (e, ce))) ↦ rw (e, Numbered) (refl, p, (λ q. cc), (refl, tt, refl))
  | inr (inr (inr (e, ce))) ↦ rw (e, Numbered) (refl, p, (λ q. cc), (refl, tt, refl))
]
split_from-Numbered line_no text (c ∷ d ∷ s) p = elim (break_cases c (d == 10)) [
  | inl (e, h) ↦
      let eq : split_from line_no text (c ∷ d ∷ s) ≡ split_from line_no (text ++ c ∷ []) (d ∷ s) =
        rw (e, split_from) refl in
      subst (Numbered line_no) (sym eq)
        (split_from-Numbered line_no (text ++ c ∷ []) (d ∷ s) (Plain-snoc text c p h))
  | inr (inl (e, ce, b)) ↦
      let eq : split_from line_no text (c ∷ d ∷ s)
          ≡ line line_no text crlf ∷ split_from (suc line_no) [] s =
        rw (e, split_from) refl in
      subst (Numbered line_no) (sym eq)
        (Numbered-cons line_no text crlf _ p (λ q. cc) (split_from-Numbered (suc line_no) [] s tt))
  | inr (inr (inl (e, ce))) ↦
      let eq : split_from line_no text (c ∷ d ∷ s)
          ≡ line line_no text cr ∷ split_from (suc line_no) [] (d ∷ s) =
        rw (e, split_from) refl in
      subst (Numbered line_no) (sym eq) (
        Numbered-cons line_no text cr _ p (λ q. cc)
          (split_from-Numbered (suc line_no) [] (d ∷ s) tt))
  | inr (inr (inr (e, ce))) ↦
      let eq : split_from line_no text (c ∷ d ∷ s)
          ≡ line line_no text lf ∷ split_from (suc line_no) [] (d ∷ s) =
        rw (e, split_from) refl in
      subst (Numbered line_no) (sym eq) (
        Numbered-cons line_no text lf _ p (λ q. cc)
          (split_from-Numbered (suc line_no) [] (d ∷ s) tt))
]

-- The lines of a source that is not empty.
pub record Cut (source : Bytes) (ls : List LineInfo) : Type 0 where
  pub lossless : joined ls ≡ source
  pub numbered : Numbered 1 ls

-- `splitLines` loses nothing: the texts and endings of the lines, put together, are the source. The
-- lines of a source that is not empty are numbered from 1 without a gap, no text holds a line end, and every line but the last
-- has an ending.
pub split_lines-Cut : (c : ℕ) (s : Bytes) → Cut (c ∷ s) (split_lines (c ∷ s))
unfolding split_lines
split_lines-Cut c s = record {
  lossless = joined-split_from 1 [] (c ∷ s);
  numbered = split_from-Numbered 1 [] (c ∷ s) tt;
}
