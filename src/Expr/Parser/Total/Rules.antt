-- ===== src/Expr/Parser/Total/Rules.antt =====
-- What a parsing method promises, and the rules by which the promises of its parts compose.
use ikemen_devtools.Prelude.{
  ap, ◌∙◌, ℕ, zero, suc, ◌-◌, ◌≤◌, ◌<◌, ◌≡◌, refl, ◌≢◌, inl, inr, Bool, true, false, Option, none,
  some, List, [], ◌∷◌, ◌++◌, String, length, get_elem?, arith, Bool-cases, Option-cases,
  if◌then◌else◌,
}
use mathlib.Core.Path.{subst}
use ikemen_devtools.Ir.{SourceSpan}
use ikemen_devtools.Expr.Ast.{Node}
use ikemen_devtools.Expr.Lexer.{TokenType, tok_eof, ParseError}
use ikemen_devtools.Expr.Eval.Bounds.{LiteralsInRange}
use ikemen_devtools.Expr.Parser.{
  Parser, P, ◌>>=◌, ◌>>◌, pure, kind_eq, peek, step_forward, kind_code, match, add_error,
  add_error_here, expect,
}
use ikemen_devtools.Expr.Parser.Levels.{or_nil}
use ikemen_devtools.Expr.Parser.Primary.{has_errors, expect_or_nil}

abbrev pub HasErrors : Parser → Type 0
HasErrors s = has_errors s.errors ≡ true

-- The tokens that are left.
abbrev pub remaining : Parser → ℕ
remaining s = length s.tokens - s.pos

-- From `s` the parser went on to `s'`: it read forward, and dropped no error.
pub record Steps (s s' : Parser) : Type 0 where
  pub tokens : s'.tokens ≡ s.tokens
  pub forward : s.pos ≤ s'.pos
  pub keeps : HasErrors s → HasErrors s'

pub Steps-refl : (s : Parser) → Steps s s
Steps-refl s = record { tokens = refl; forward = omega arith; keeps = λ h. h }

pub Steps-trans : {s t u : Parser} → Steps s t → Steps t u → Steps s u
Steps-trans a b = record {
  tokens = b.tokens ∙ a.tokens;
  forward = omega arith;
  keeps = λ h. b.keeps (a.keeps h);
}

pub remaining-Steps : {s t : Parser} → Steps s t → remaining t ≤ remaining s
remaining-Steps {s} {t} a = rw a.tokens (omega (arith, a.forward))

pub Steps-forward : (s : Parser) → Steps s (step_forward s)
Steps-forward s = record { tokens = refl; forward = omega arith; keeps = λ h. h }

-- The run returned, and `Q` holds of what it returned.
abbrev pub Returns {ℓ} : {A : Type ℓ} → (A → Parser → Type 0) → Option (A × Parser) → Type 0
Returns Q none = ⊥
Returns Q (some (a, s')) = Q a s'

abbrev pub NodeIsOk : Option Node → Parser → Type 0
NodeIsOk none s' = HasErrors s'
NodeIsOk (some n) s' = LiteralsInRange n

-- What parsing a node from `s` promises: nil only with an error.
pub record NodePost (s : Parser) (r : Option Node) (s' : Parser) : Type 0 where
  pub steps : Steps s s'
  pub node : NodeIsOk r s'

abbrev pub Harmless {ℓ} : {A : Type ℓ} → Parser → A → Parser → Type 0
Harmless s a s' = Steps s s'

-- `p` parses a node from every state with fewer than `k` tokens left.
pub record IsGood (k : ℕ) (p : P (Option Node)) : Type 0 where
  pub at : (s : Parser) → remaining s < k → Returns (NodePost s) (p s)

bind_value {ℓ κ} :
    {A : Type ℓ} {B : Type κ} (Q : A → Parser → Type 0) (R : B → Parser → Type 0)
    (o : Option (A × Parser)) (f : A → P B)
    → Returns Q o
    → ((a : A) (s' : Parser) → Q a s' → Returns R (f a s'))
    → Returns R (elim o [ none ↦ none | some (a, s') ↦ f a s' ])
bind_value Q R none f h k = absurd h
bind_value Q R (some (a, s')) f h k = k a s' h

pub bind-Returns {ℓ κ} :
    {A : Type ℓ} {B : Type κ} (Q : A → Parser → Type 0) (R : B → Parser → Type 0) (m : P A)
    (f : A → P B) (s : Parser)
    → Returns Q (m s)
    → ((a : A) (s' : Parser) → Q a s' → Returns R (f a s'))
    → Returns R ((m >>= f) s)
unfolding ◌>>=◌
bind-Returns Q R m f s = bind_value Q R (m s) f

pub NodePost-weaken :
    {s t : Parser} (o : Option (Option Node × Parser))
    → Steps s t
    → Returns (NodePost t) o
    → Returns (NodePost s) o
NodePost-weaken none a h = h
NodePost-weaken (some (r, s')) a h = record { steps = Steps-trans a h.steps; node = h.node }

pub Harmless-weaken {ℓ} :
    {A : Type ℓ} {s t : Parser} (o : Option (A × Parser))
    → Steps s t
    → Returns (Harmless t) o
    → Returns (Harmless s) o
Harmless-weaken none a h = h
Harmless-weaken (some (r, s')) a h = Steps-trans a h

-- Two steps, the second a node.
pub then_node {ℓ} :
    {A : Type ℓ} (m : P A) (f : A → P (Option Node)) (s : Parser)
    → Returns (Harmless s) (m s)
    → ((a : A) (s' : Parser) → Steps s s' → Returns (NodePost s') (f a s'))
    → Returns (NodePost s) ((m >>= f) s)
then_node m f s h k =
    bind-Returns (Harmless s) (NodePost s) m f s h
      (λ a s' st. NodePost-weaken (f a s') st (k a s' st))

pub then-Harmless {ℓ κ} :
    {A : Type ℓ} {B : Type κ} (m : P A) (f : A → P B) (s : Parser)
    → Returns (Harmless s) (m s)
    → ((a : A) (s' : Parser) → Steps s s' → Returns (Harmless s') (f a s'))
    → Returns (Harmless s) ((m >>= f) s)
then-Harmless m f s h k =
    bind-Returns (Harmless s) (Harmless s) m f s h
      (λ a s' st. Harmless-weaken (f a s') st (k a s' st))

after_nil :
    (s s' : Parser) (o : Option (Unit {0} × Parser))
    → NodePost s none s'
    → Returns (Harmless s') o
    → Returns (NodePost s) (elim o [ none ↦ none | some (a, t) ↦ some (none, t) ])
after_nil s s' none h k = absurd k
after_nil s s' (some (a, t)) h k = record { steps = Steps-trans h.steps k; node = k.keeps h.node }

or_nil_value :
    (s : Parser) (on_nil : P (Unit {0})) (rest : Node → P (Option Node))
    (o : Option (Option Node × Parser))
    → Returns (NodePost s) o
    → ((s' : Parser) → Returns (Harmless s') (on_nil s'))
    → ((n : Node) (s' : Parser)
        → Steps s s'
        → LiteralsInRange n
        → Returns (NodePost s') (rest n s'))
    → Returns (NodePost s) (elim o [
      | none ↦ none
      | some (none, s') ↦ (on_nil >> pure none) s'
      | some (some n, s') ↦ rest n s'
    ])
unfolding ◌>>=◌
or_nil_value s on_nil rest none h report k = absurd h
or_nil_value s on_nil rest (some (none, s')) h report k = after_nil s s' (on_nil s') h (report s')
or_nil_value s on_nil rest (some (some n, s')) h report k =
    NodePost-weaken (rest n s') h.steps (k n s' h.steps h.node)

pub or_nil-Returns :
    (s : Parser) (on_nil : P (Unit {0})) (parse_it : P (Option Node))
    (rest : Node → P (Option Node))
    → Returns (NodePost s) (parse_it s)
    → ((s' : Parser) → Returns (Harmless s') (on_nil s'))
    → ((n : Node) (s' : Parser)
        → Steps s s'
        → LiteralsInRange n
        → Returns (NodePost s') (rest n s'))
    → Returns (NodePost s) (or_nil on_nil parse_it rest s)
unfolding or_nil
or_nil-Returns s on_nil parse_it rest = or_nil_value s on_nil rest (parse_it s)

pub nothing-Harmless : (s : Parser) → Returns (Harmless s) (pure {A = Unit {0}} tt s)
nothing-Harmless s = Steps-refl s

has_errors-snoc : (es : List ParseError) (e : ParseError) → has_errors (es ++ e ∷ []) ≡ true
has_errors-snoc [] e = refl
has_errors-snoc (x ∷ es) e = refl

-- A report leaves an error behind.
pub record Reported (s s' : Parser) : Type 0 where
  pub steps : Steps s s'
  pub reported : HasErrors s'

pub add_error-Reports :
    (code message : String) (span : SourceSpan) (s : Parser)
    → Returns (λ _ s'. Reported s s') (add_error code message span s)
unfolding add_error
add_error-Reports code message span s = record {
  steps = record { tokens = refl; forward = omega arith; keeps = λ _. has_errors-snoc s.errors _ };
  reported = has_errors-snoc s.errors _;
}

pub add_error_here-Reports :
    (code message : String) (s : Parser)
    → Returns (λ _ s'. Reported s s') (add_error_here code message s)
unfolding add_error_here
add_error_here-Reports code message s = add_error-Reports code message (peek s).span s

pub Reports-Harmless {ℓ} :
    {A : Type ℓ} (s : Parser) (o : Option (A × Parser))
    → Returns (λ _ s'. Reported s s') o
    → Returns (Harmless s) o
Reports-Harmless s none h = h
Reports-Harmless s (some (a, s')) h = h.steps

get_elem?-lt {ℓ} :
    {A : Type ℓ} (xs : List A) (i : ℕ) {x : A} → get_elem? xs i ≡ some x → i < length xs
get_elem?-lt [] i h = cc
get_elem?-lt (y ∷ xs) zero h = omega arith
get_elem?-lt (y ∷ xs) (suc i) h = omega (arith, get_elem?-lt xs i h)

-- A token that is not the end's is there to be read.
pub peek_consumes :
    (s : Parser) → (peek s).kind ≢ tok_eof → remaining (step_forward s) < remaining s
unfolding peek
peek_consumes s h = elim (Option-cases (get_elem? s.tokens s.pos)) [
  | inl e ↦ absurd (h (rw e refl))
  | inr (t, e) ↦ omega (arith, get_elem?-lt s.tokens s.pos e)
]

pub kind_ne_eof : (k : TokenType) → kind_eq k tok_eof ≡ false → k ≢ tok_eof
kind_ne_eof k h e = cc (subst (λ x. kind_eq x tok_eof ≡ false) e h)

pub kind_eq_ne : (k k' : TokenType) → kind_eq k k' ≡ true → kind_eq k' tok_eof ≡ false → k ≢ tok_eof
kind_eq_ne k k' h n e = ground (arith, ap kind_code e)

-- `match` on a kind other than the end's moves only if it answers true, and then by a token.
pub record Matched (s : Parser) (found : Bool) (s' : Parser) : Type 0 where
  pub steps : Steps s s'
  pub consumes : found ≡ true → remaining s' < remaining s

pub match-Matched :
    (kind : TokenType) (s : Parser)
    → kind_eq kind tok_eof ≡ false
    → Returns (Matched s) (match kind s)
unfolding match
match-Matched kind s h = elim (Bool-cases (kind_eq (peek s).kind kind)) [
  | inl e ↦ rw e (record {
    steps = Steps-forward s;
    consumes = λ _. peek_consumes s (kind_eq_ne (peek s).kind kind e h);
  })
  | inr e ↦ rw e (record { steps = Steps-refl s; consumes = λ x. cc })
]

pub match-Harmless : (kind : TokenType) (s : Parser) → Returns (Harmless s) (match kind s)
unfolding match
match-Harmless kind s = elim (Bool-cases (kind_eq (peek s).kind kind)) [
  | inl e ↦ rw e (Steps-forward s)
  | inr e ↦ rw e (Steps-refl s)
]

-- `expect` answers false only with an error.
pub record Expected (s : Parser) (found : Bool) (s' : Parser) : Type 0 where
  pub steps : Steps s s'
  pub reported : found ≡ false → HasErrors s'

pub expect-Reports :
    (kind : TokenType) (code message : String) (s : Parser)
    → Returns (Expected s) (expect kind code message s)
unfolding expect
expect-Reports kind code message s =
    bind-Returns (Harmless s) (Expected s) (match kind) _ s (match-Harmless kind s) go
  where
    go :
        (b : Bool) (s' : Parser)
        → Steps s s'
        → Returns
            (Expected s)
            ((if b then pure true else add_error_here code message >> pure false) s')
    go true s' st = record { steps = st; reported = λ x. cc }
    go false s' st =
        bind-Returns (λ _ t. Reported s' t) (Expected s) (add_error_here code message)
          (λ _. pure false) s' (add_error_here-Reports code message s')
          λ _ t r. record { steps = Steps-trans st r.steps; reported = λ _. r.reported }

pub expect_or_nil-Returns :
    (kind : TokenType) (code message : String) (rest : P (Option Node)) (s : Parser)
    → ((s' : Parser) → Steps s s' → Returns (NodePost s') (rest s'))
    → Returns (NodePost s) (expect_or_nil kind code message rest s)
unfolding expect_or_nil
expect_or_nil-Returns kind code message rest s k =
    bind-Returns (Expected s) (NodePost s) (expect kind code message) _ s
      (expect-Reports kind code message s) go
  where
    go :
        (b : Bool) (s' : Parser)
        → Expected s b s'
        → Returns (NodePost s) ((if b then rest else pure none) s')
    go true s' x = NodePost-weaken (rest s') x.steps (k s' x.steps)
    go false s' x = record { steps = x.steps; node = x.reported refl }

pub Steps-error : (s : Parser) (e : ParseError) → Steps s (record s { errors = s.errors ++ e ∷ [] })
Steps-error s e = record {
  tokens = refl;
  forward = omega arith;
  keeps = λ _. has_errors-snoc s.errors e;
}

pub add_error_here-Harmless :
    (code message : String) (s : Parser) → Returns (Harmless s) (add_error_here code message s)
unfolding add_error_here
add_error_here-Harmless code message s = Steps-error s _
