-- ===== src/Expr/Lexer/Shapes.antt =====
-- expr.go, `lex`: which texts the tokens have, and what one round of the loop takes.
use ikemen_devtools.Prelude.{
  ℕ, suc, ◌+◌, ◌≤◌, ◌≡◌, refl, ap, Bool, true, false, Option, none, some, [], ◌∷◌, ◌++◌, length,
  take, drop, ◌&&◌, ◌||◌, arith, Bool-cases, Option-cases, inl, inr, ◌==◌, ==_iff,
}
use ikemen_devtools.Prelude.Text.{Bytes, codes}
use ikemen_devtools.Expr.Lexer.{
  TokenType, tok_eof, tok_int, tok_string, tok_ident, tok_plus, tok_minus, tok_star, tok_slash,
  tok_percent, tok_equal, tok_eq_eq, tok_not_eq, tok_not, tok_less, tok_less_eq, tok_greater,
  tok_greater_eq, tok_and_and, tok_or_or, tok_lparen, tok_rparen, tok_comma, is_digit, is_space,
  is_ident_start, is_ident_part, run_length, quoted_length, Round, skip, emit, reject, unterminated,
  string_round, symbol_round, round,
}

abbrev pub All : (ℕ → Bool) → Bytes → Type 0
All test [] = Unit
All test (c ∷ s) = (test c ≡ true) × All test s

-- The text of an operator or a punctuation mark.
abbrev pub symbol_text : TokenType → Bytes
symbol_text tok_plus = codes "+"
symbol_text tok_minus = codes "-"
symbol_text tok_star = codes "*"
symbol_text tok_slash = codes "/"
symbol_text tok_percent = codes "%"
symbol_text tok_equal = codes "="
symbol_text tok_eq_eq = codes "=="
symbol_text tok_not_eq = codes "!="
symbol_text tok_not = codes "!"
symbol_text tok_less = codes "<"
symbol_text tok_less_eq = codes "<="
symbol_text tok_greater = codes ">"
symbol_text tok_greater_eq = codes ">="
symbol_text tok_and_and = codes "&&"
symbol_text tok_or_or = codes "||"
symbol_text tok_lparen = codes "("
symbol_text tok_rparen = codes ")"
symbol_text tok_comma = codes ","
symbol_text _ = []

abbrev IdentText : Bytes → Type 0
IdentText [] = ⊥
IdentText (c ∷ s) = (is_ident_start c ≡ true) × All is_ident_part s

-- What stands between the quotes: no quote but behind a backslash.
pub data Body : Bytes → Type 0 where
  nothing : Body []
  escape : (d : ℕ) {s : Bytes} → Body s → Body (92 ∷ d ∷ s)
  plain : (c : ℕ) {s : Bytes} → (c == 34) ≡ false → (c == 92) ≡ false → Body s → Body (c ∷ s)

-- Which texts a token of each kind can have.
abbrev pub Shape : TokenType → Bytes → Type 0
Shape tok_eof t = ⊥
Shape tok_int t = All is_digit t
Shape tok_string t = (body : Bytes) × Body body × (t ≡ 34 ∷ (body ++ 34 ∷ []))
Shape tok_ident t = IdentText t
Shape kind t = t ≡ symbol_text kind

abbrev starts : (ℕ → Bool) → Bytes → Bool
starts test [] = false
starts test (c ∷ s) = test c

-- What stands behind a token does not belong to it.
abbrev pub Stops : TokenType → Bytes → Type 0
Stops tok_int rest = starts is_digit rest ≡ false
Stops tok_ident rest = starts is_ident_part rest ≡ false
Stops tok_equal rest = starts (λ c. c == 61) rest ≡ false
Stops tok_not rest = starts (λ c. c == 61) rest ≡ false
Stops tok_less rest = starts (λ c. c == 61) rest ≡ false
Stops tok_greater rest = starts (λ c. c == 61) rest ≡ false
Stops kind rest = Unit

-- The bytes with which some token begins: the white space and the quote apart.
abbrev one_byte : ℕ → Bytes → Bool
one_byte ch [] = false
one_byte ch (c ∷ cs) = ch == c || one_byte ch cs

abbrev pub begins_token : ℕ → Bytes → Bool
begins_token ch behind =
    is_digit ch
    || is_ident_start ch
    || one_byte ch (codes "+-*/%!=<>(),\"")
    || (ch == 38 && starts (λ c. c == 38) behind)
    || (ch == 124 && starts (λ c. c == 124) behind)

-- What a round's answer says about the bytes that it looked at.
abbrev pub Fits : ℕ → Bytes → Round → Type 0
Fits ch behind skip = is_space ch ≡ true
Fits ch behind (emit kind n) =
    (1 ≤ n)
    × (n ≤ length (ch ∷ behind))
    × Shape kind (take n (ch ∷ behind))
    × Stops kind (drop n (ch ∷ behind))
Fits ch behind (reject message) = (is_space ch ≡ false) × (begins_token ch behind ≡ false)
Fits ch behind unterminated = (ch ≡ 34) × (quoted_length behind ≡ none)

run_length-le : (test : ℕ → Bool) (s : Bytes) → run_length test s ≤ length s
unfolding run_length
run_length-le test [] = omega arith
run_length-le test (c ∷ s) = ground (arith, run_length-le test s)

All-run_length : (test : ℕ → Bool) (s : Bytes) → All test (take (run_length test s) s)
unfolding run_length
All-run_length test [] = tt
All-run_length test (c ∷ s) = elim (Bool-cases (test c)) [
  | inl e ↦ rw (e, run_length) (e, All-run_length test s)
  | inr e ↦ rw (e, run_length) tt
]

-- Behind the run the test fails.
run_length-stops : (test : ℕ → Bool) (s : Bytes) → starts test (drop (run_length test s) s) ≡ false
unfolding run_length
run_length-stops test [] = refl
run_length-stops test (c ∷ s) = elim (Bool-cases (test c)) [
  | inl e ↦ rw (e, run_length) (run_length-stops test s)
  | inr e ↦ rw (e, run_length) e
]

-- The first `n` bytes end in the closing quote.
abbrev Closed : Bytes → ℕ → Type 0
Closed s n = (n ≤ length s) × ((body : Bytes) × Body body × (take n s ≡ body ++ 34 ∷ []))

Closed-quote : (c : ℕ) (s : Bytes) (n : ℕ) → (c == 34) ≡ true → n ≡ 1 → Closed (c ∷ s) n
Closed-quote c s n q e =
    let c_eq : c ≡ 34 = ground arith in rw (e, c_eq) (omega arith, ([], nothing, refl))

Closed-after_one :
    (c : ℕ) (s : Bytes) (m n : ℕ)
    → (c == 34) ≡ false
    → (c == 92) ≡ false
    → Closed s m
    → n ≡ 1 + m
    → Closed (c ∷ s) n
Closed-after_one c s m n q b (fits, (body, is_body, e)) en =
    let step : n ≡ suc m = omega arith in
    rw step (omega arith, (c ∷ body, plain c q b is_body, ap (λ t. c ∷ t) e))

Closed-after_two :
    (c d : ℕ) (s : Bytes) (m n : ℕ)
    → (c == 92) ≡ true
    → Closed s m
    → n ≡ 2 + m
    → Closed (c ∷ d ∷ s) n
Closed-after_two c d s m n b (fits, (body, is_body, e)) en =
    let step : n ≡ suc (suc m) = omega arith in
    let c_eq : c ≡ 92 = ground arith in
    rw (step, c_eq) (omega arith, (92 ∷ d ∷ body, escape d is_body, ap (λ t. 92 ∷ d ∷ t) e))

-- The count ends behind the closing quote.
quoted-Shape : (s : Bytes) (n : ℕ) → quoted_length s ≡ some n → Closed s n
unfolding quoted_length
quoted-Shape [] n h = cc
quoted-Shape (c ∷ []) n h = elim (Bool-cases (c == 34)) [
  | inl q ↦ Closed-quote c [] n q (ground arith)
  | inr q ↦ absurd (ground arith)
]
quoted-Shape (c ∷ d ∷ s) n h = elim (Bool-cases (c == 34)) [
  | inl q ↦ Closed-quote c (d ∷ s) n q (ground arith)
  | inr q ↦ elim (Bool-cases (c == 92)) [
    | inl b ↦ elim (Option-cases (quoted_length s)) [
      | inl e ↦ absurd (ground arith)
      | inr (m, e) ↦ Closed-after_two c d s m n b (quoted-Shape s m e) (ground arith)
    ]
    | inr b ↦ elim (Option-cases (quoted_length (d ∷ s))) [
      | inl e ↦ absurd (ground arith)
      | inr (m, e) ↦ Closed-after_one c (d ∷ s) m n q b (quoted-Shape (d ∷ s) m e) (ground arith)
    ]
  ]
]

symbol_round-Fits :
    (ch : ℕ) (behind : Bytes)
    → is_space ch ≡ false
    → is_digit ch ≡ false
    → is_ident_start ch ≡ false
    → (ch == 34) ≡ false
    → Fits ch behind (symbol_round ch behind)
unfolding symbol_round
symbol_round-Fits ch [] hs hd hi hq = ground arith
symbol_round-Fits ch (d ∷ behind) hs hd hi hq = ground arith

string_round-Fits :
    (behind : Bytes) (o : Option ℕ) → quoted_length behind ≡ o → Fits 34 behind (string_round o)
string_round-Fits behind none e = (refl, e)
string_round-Fits behind (some n) e =
    let (fits, (body, is_body, eq)) = quoted-Shape behind n e in
    let step : 1 + n ≡ suc n = omega arith in
    rw step (omega arith, omega arith, (body, is_body, ap (λ t. 34 ∷ t) eq), tt)

ident-Fits :
    (ch : ℕ) (behind : Bytes)
    → is_ident_start ch ≡ true
    → Fits ch behind (emit tok_ident (run_length is_ident_part (ch ∷ behind)))
unfolding run_length
ident-Fits ch behind h =
    let part : is_ident_part ch ≡ true = unfold is_ident_start is_ident_part in ground arith in
    rw (part, run_length)
      (
        omega arith,
        omega (arith, run_length-le is_ident_part behind),
        (h, All-run_length is_ident_part behind),
        run_length-stops is_ident_part behind,
      )

digits-Fits :
    (ch : ℕ) (behind : Bytes)
    → is_digit ch ≡ true
    → Fits ch behind (emit tok_int (run_length is_digit (ch ∷ behind)))
unfolding run_length
digits-Fits ch behind h =
    rw (h, run_length)
      (
        omega arith,
        omega (arith, run_length-le is_digit behind),
        (h, All-run_length is_digit behind),
        run_length-stops is_digit behind,
      )

pub round-Fits : (ch : ℕ) (behind : Bytes) → Fits ch behind (round ch behind)
unfolding round
round-Fits ch behind = elim (Bool-cases (is_space ch)) [
  | inl s ↦ rw s s
  | inr s ↦ rw s (elim (Bool-cases (is_digit ch)) [
    | inl d ↦ rw d (digits-Fits ch behind d)
    | inr d ↦ rw d (elim (Bool-cases (ch == 34)) [
      | inl q ↦
          rw q (rw ((==_iff ch 34).0 q) (string_round-Fits behind (quoted_length behind) refl))
      | inr q ↦ rw q (elim (Bool-cases (is_ident_start ch)) [
        | inl i ↦ rw i (ident-Fits ch behind i)
        | inr i ↦ rw i (symbol_round-Fits ch behind s d i q)
      ])
    ])
  ])
]
