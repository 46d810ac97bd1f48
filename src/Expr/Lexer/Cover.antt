-- ===== src/Expr/Lexer/Cover.antt =====
-- expr.go, `lex`: what a run of the lexer says about the bytes that it read.
use ikemen_devtools.Prelude.{
  ℕ, zero, suc, ◌+◌, ◌≤◌, ◌≡◌, refl, sym, true, false, Option, none, some, List, [], ◌∷◌, ◌++◌,
  String, length, take, drop, arith, take-append-drop, length-drop, length-take,
}
use ikemen_devtools.Prelude.Text.{Bytes}
use ikemen_devtools.Expr.Lexer.{
  TokenType, Token, ParseError, span_from, is_space, quoted_length, Round, skip, emit, reject,
  unterminated, round, Lexed, unexpected, unterminated_error, finish_round, lex_loop, lex,
}
use ikemen_devtools.Expr.Lexer.Shapes.{Shape, Stops, begins_token, Fits, round-Fits}

-- The bytes `rest` at index `i` of the source are cut into white space, tokens and erroneous bytes,
-- with nothing left out: every token's text is the slice that its span covers, and has the shape of
-- its kind, which does not go on behind it; every error is about one byte that begins no token, or about a
-- string with no end.
pub data Scanned (source : Bytes) : ℕ → Bytes → List Token → List ParseError → Type 0 where
  done : {i : ℕ} → Scanned source i [] [] []
  space :
      {i : ℕ} {c : ℕ} {rest : Bytes} {ts : List Token} {es : List ParseError}
      → is_space c ≡ true
      → Scanned source (i + 1) rest ts es
      → Scanned source i (c ∷ rest) ts es
  token :
      {i : ℕ} {all : Bytes} {ts : List Token} {es : List ParseError} (kind : TokenType)
      (text rest : Bytes) (n : ℕ)
      → all ≡ text ++ rest
      → length text ≡ n
      → 1 ≤ n
      → Shape kind text
      → Stops kind rest
      → Scanned source (i + n) rest ts es
      → Scanned source i all
          (record { kind = kind; text = text; span = span_from source i (i + n) } ∷ ts)
          es
  bad :
      {i : ℕ} {c : ℕ} {rest : Bytes} {ts : List Token} {es : List ParseError} (message : String)
      → is_space c ≡ false
      → begins_token c rest ≡ false
      → Scanned source (i + 1) rest ts es
      → Scanned source i (c ∷ rest) ts (unexpected message (span_from source i (i + 1)) ∷ es)
  cut :
      {i : ℕ} {rest : Bytes}
      → quoted_length rest ≡ none
      → Scanned source i
          (34 ∷ rest)
          []
          (unterminated_error (span_from source i (length source)) ∷ [])

-- The loop from index `i` ends, and has read the rest of the source.
abbrev Ends : Bytes → ℕ → Bytes → Option Lexed → Type 0
Ends source i rest o = (r : Lexed) × (o ≡ some r) × Scanned source i rest r.tokens r.errors

finish_round-Ends :
    (source : Bytes) (i ch : ℕ) (behind : Bytes) (answer : Round) (next : ℕ → Option Lexed)
    → Fits ch behind answer
    → ((k : ℕ) → 1 ≤ k → Ends source (i + k) (drop k (ch ∷ behind)) (next k))
    → Ends source i (ch ∷ behind) (finish_round source i (ch ∷ behind) answer next)
unfolding finish_round
finish_round-Ends source i ch behind skip next fits rest =
    let (r, e, scanned) = rest 1 (omega arith) in (r, e, space fits scanned)
finish_round-Ends source i ch behind (emit kind n) next (pos, fits, shape, stops) rest =
    let (r, e, scanned) = rest n pos in
    (
      record r {
        tokens =
            record { kind = kind; text = take n (ch ∷ behind); span = span_from source i (i + n) }
            ∷ r.tokens;
      },
      rw e,
      token kind (take n (ch ∷ behind)) (drop n (ch ∷ behind)) n
          (sym (take-append-drop n (ch ∷ behind))) (omega (arith, length-take n (ch ∷ behind))) pos
          shape stops scanned,
    )
finish_round-Ends source i ch behind (reject message) next (s, no_token) rest =
    let (r, e, scanned) = rest 1 (omega arith) in
    (
      record r { errors = unexpected message (span_from source i (i + 1)) ∷ r.errors },
      rw e,
      bad message s no_token scanned,
    )
finish_round-Ends source i ch behind unterminated next (q, open_end) rest = (
  record { tokens = []; errors = unterminated_error (span_from source i (length source)) ∷ [] },
  refl,
  rw q (cut open_end),
)

lex_loop-Ends :
    (fuel : ℕ) (source : Bytes) (i : ℕ) (rest : Bytes)
    → length rest ≤ fuel
    → Ends source i rest (lex_loop fuel source i rest)
unfolding lex_loop
lex_loop-Ends fuel source i [] h = (record { tokens = []; errors = [] }, refl, done)
lex_loop-Ends zero source i (ch ∷ behind) h = absurd (omega arith)
lex_loop-Ends (suc fuel) source i (ch ∷ behind) h =
    finish_round-Ends source i ch behind (round ch behind) _ (round-Fits ch behind) λ k pos.
      lex_loop-Ends fuel source (i + k) (drop k (ch ∷ behind))
        (omega (arith, length-drop k (ch ∷ behind)))

pub lex_covers :
    (source : Bytes)
    → (r : Lexed) × (lex source ≡ some r) × Scanned source 0 source r.tokens r.errors
unfolding lex
lex_covers source = lex_loop-Ends (length source) source 0 source (omega arith)
