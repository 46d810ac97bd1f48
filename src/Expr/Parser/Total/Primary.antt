-- ===== src/Expr/Parser/Total/Primary.antt =====
-- expr.go: the primary expressions, and with them `parseOrExpr`, keep the promise.
use ikemen_devtools.Prelude.{
  ℕ, zero, suc, ◌≤◌, ◌<◌, ◌≡◌, refl, ◌≢◌, inl, inr, Bool, true, false, Option, none, some, String,
  arith, ◌||◌, Bool-cases, if◌then◌else◌,
}
use ikemen_devtools.Prelude.Text.{Bytes, codes, bytes_eq}
use ikemen_devtools.Expr.Unquote.{unquote, to_lower}
use ikemen_devtools.Expr.Ast.{
  Node, int_literal, var_expr, cond_expr, command_expr, state_type_expr, string_literal, Nodes,
  no_nodes,
}
use ikemen_devtools.Expr.Lexer.{
  TokenType, tok_eof, tok_int, tok_string, tok_ident, tok_lparen, tok_rparen, tok_comma, Token,
  span_cover,
}
use ikemen_devtools.Expr.Eval.Bounds.{LiteralsInRange, AllInRange, AllInRange-snoc_node}
use ikemen_devtools.Expr.Parser.{
  Parser, P, ◌>>=◌, ◌>>◌, pure, kind_eq, peek, prev, advance, step_forward, match, add_error_here,
}
use ikemen_devtools.Expr.Parser.Levels.{or_nil}
use ikemen_devtools.Expr.Parser.Primary.{
  parse_int, string_node, skip_to_rparen, grouped, var_call, random_close, random_args, random_call,
  pos_axis, cond_call, args_round, append_arg, args_loop, parse_args, plain_args, call_close,
  unexpected_token, plain_call, identifier, primary_of, parse_primary, expect_or_nil, parse_or_expr,
}
use ikemen_devtools.Expr.Parser.Total.Rules.{
  remaining, Steps, Steps-refl, Steps-trans, remaining-Steps, Steps-forward, Returns, NodePost,
  Harmless, IsGood, bind-Returns, NodePost-weaken, Harmless-weaken, then_node, then-Harmless,
  or_nil-Returns, nothing-Harmless, add_error-Reports, peek_consumes, kind_ne_eof, Matched,
  match-Matched, match-Harmless, expect-Reports, expect_or_nil-Returns, Reported,
  add_error_here-Harmless,
}
use ikemen_devtools.Expr.Parser.Total.Levels.{steps_of-Expected, after_advance, or_level-Good}

-- The primary expressions, where a nested expression is parsed with fewer than `k` tokens left.
module _ (wide_lower : Bytes → Bytes) (k fuel : ℕ) (fits : k ≤ fuel) (rec : P (Option Node))
    (good : IsGood k rec) where
  -- A nested expression after some steps.
  nested :
      {s : Parser} (s' : Parser) → remaining s < k → Steps s s' → Returns (NodePost s') (rec s')
  nested s' h st = good.at s' (omega (arith, remaining-Steps st))

  grouped-Good : IsGood k (grouped wide_lower fuel rec)
  unfolding grouped
  grouped-Good = record {
    at = λ s h. or_nil-Returns s _ rec _ (good.at s h) nothing-Harmless λ n s' st l.
        expect_or_nil-Returns tok_rparen _ _ _ s' λ t _. record { steps = Steps-refl t; node = l };
  }

  -- A nested expression, and an error if there is none.
  nested_or_error :
      (code message : String) (rest : Node → P (Option Node)) (s s' : Parser)
      → remaining s < k
      → Steps s s'
      → ((n : Node) (t : Parser) → Steps s t → LiteralsInRange n → Returns (NodePost t) (rest n t))
      → Returns (NodePost s') (or_nil (add_error_here code message) rec rest s')
  nested_or_error code message rest s s' h st f =
      or_nil-Returns s' _ rec rest (nested s' h st) (add_error_here-Harmless code message)
        λ n t st' l. f n t (Steps-trans st st') l

  -- A closing parenthesis, and the finished node.
  closing :
      (code message : String) (n : Parser → Node) (s : Parser)
      → ((u : Parser) → LiteralsInRange (n u))
      → Returns (NodePost s) (expect_or_nil tok_rparen code message (λ u. pure (some (n u)) u) s)
  closing code message n s l =
      expect_or_nil-Returns tok_rparen code message _ s
        λ u _. record { steps = Steps-refl u; node = l u }

  var_call-Good : (tok : Token) → IsGood k (var_call wide_lower fuel rec tok)
  unfolding var_call
  var_call-Good tok = record {
    at = λ s h. expect_or_nil-Returns tok_lparen _ _ _ s λ s' st.
        nested_or_error _ _ _ s s' h st
          λ n t _ l. closing _ _ (λ u. var_expr n (span_cover tok.span (prev u).span)) t (λ _. l);
  }

  cond_call-Good : (tok : Token) → IsGood k (cond_call wide_lower fuel rec tok)
  unfolding cond_call
  cond_call-Good tok = record {
    at = λ s h. expect_or_nil-Returns tok_lparen _ _ _ s λ s1 st1.
        nested_or_error _ _ _ s s1 h st1 λ c s2 st2 lc.
          expect_or_nil-Returns tok_comma _ _ _ s2 λ s3 st3.
            nested_or_error _ _ _ s s3 h (Steps-trans st2 st3) λ t s4 st4 lt.
              expect_or_nil-Returns tok_comma _ _ _ s4 λ s5 st5.
                nested_or_error _ _ _ s s5 h (Steps-trans st4 st5) λ e s6 _ le.
                  closing _ _ (λ u. cond_expr c t e (span_cover tok.span (prev u).span)) s6
                    λ _. (lc, lt, le);
  }

  skip-Harmless :
      (left : ℕ) (s : Parser) → remaining s < left → Returns (Harmless s) (skip_to_rparen left s)
  unfolding skip_to_rparen advance ◌>>=◌
  skip-Harmless zero s h = elim h [ ]
  skip-Harmless (suc left) s h =
      elim (Bool-cases (kind_eq (peek s).kind tok_eof || kind_eq (peek s).kind tok_rparen)) [
        | inl e ↦ rw (e, skip_to_rparen) (Steps-refl s)
        | inr e ↦
            let less = peek_consumes s (kind_ne_eof (peek s).kind (ground arith)) in
            rw (e, skip_to_rparen)
              (Harmless-weaken _ (Steps-forward s)
                (skip-Harmless left (step_forward s) (omega arith)))
      ]

  random_close-Harmless :
      (b : Bool) (s : Parser)
      → remaining s < fuel
      → Returns (Harmless s) (random_close wide_lower fuel rec b s)
  unfolding random_close
  random_close-Harmless true s h = Steps-refl s
  random_close-Harmless false s h = then-Harmless _ _ s (add_error_here-Harmless _ _ s) λ _ s1 st1.
      then-Harmless _ _ s1 (skip-Harmless fuel s1 (omega (arith, remaining-Steps st1))) λ _ s2 st2.
        then-Harmless _ _ s2 (steps_of-Expected s2 _ (expect-Reports tok_rparen _ _ s2))
          λ _ s3 st3. Steps-refl s3

  random_args-Harmless :
      (b : Bool) (s : Parser)
      → remaining s < fuel
      → Returns (Harmless s) (random_args wide_lower fuel rec b s)
  unfolding random_args
  random_args-Harmless true s h =
      then-Harmless _ _ s (match-Harmless tok_rparen s)
        λ b s1 st1. random_close-Harmless b s1 (omega (arith, remaining-Steps st1))
  random_args-Harmless false s h = Steps-refl s

  random_call-Good : (tok : Token) → IsGood k (random_call wide_lower fuel rec tok)
  unfolding random_call
  random_call-Good tok = record {
    at = λ s h. then_node _ _ s (match-Harmless tok_lparen s) λ b s1 st1.
        then_node _ _ s1 (random_args-Harmless b s1 (omega (arith, remaining-Steps st1)))
          λ _ s2 st2. record { steps = Steps-refl s2; node = tt };
  }

  -- The arguments that a run returned hold only integers in range.
  abbrev ArgsOk : Parser → Nodes → Parser → Type 0
  ArgsOk s args s' = Steps s s' × AllInRange args

  append_arg-AllInRange :
      (args : Nodes) (arg : Option Node) {s t : Parser}
      → AllInRange args
      → NodePost s arg t
      → AllInRange (append_arg wide_lower fuel rec args arg)
  unfolding append_arg
  append_arg-AllInRange args none h p = h
  append_arg-AllInRange args (some n) h p = AllInRange-snoc_node args n h p.node

  later_args :
      {s t : Parser} (o : Option (Nodes × Parser))
      → Steps s t
      → Returns (ArgsOk t) o
      → Returns (ArgsOk s) o
  later_args none st h = h
  later_args (some (args, u)) st h = (Steps-trans st h.0, h.1)

  args_round-Returns :
      (again : Nodes → P Nodes) (args : Nodes) (found : Bool) (s s' : Parser)
      → remaining s < k
      → Matched s found s'
      → AllInRange args
      → ((more : Nodes) (t : Parser)
          → remaining t < remaining s
          → AllInRange more
          → Returns (ArgsOk t) (again more t))
      → Returns (ArgsOk s') (args_round wide_lower fuel rec again args found s')
  unfolding args_round
  args_round-Returns again args true s s' b m h next =
      let less = m.consumes refl in
      bind-Returns (NodePost s') (ArgsOk s') rec _ s' (good.at s' (omega arith)) λ arg t p.
        later_args _ p.steps
          (next _ t (omega (arith, remaining-Steps p.steps)) (append_arg-AllInRange args arg h p))
  args_round-Returns again args false s s' b m h next = (Steps-refl s', h)

  args_loop-Returns :
      (left : ℕ) (args : Nodes) (s : Parser)
      → remaining s < left
      → remaining s < k
      → AllInRange args
      → Returns (ArgsOk s) (args_loop wide_lower fuel rec left args s)
  unfolding args_loop
  args_loop-Returns zero args s h b a = elim h [ ]
  args_loop-Returns (suc left) args s h b a =
      bind-Returns (Matched s) (ArgsOk s) (match tok_comma) _ s (match-Matched tok_comma s refl)
        λ found s' m. later_args _ m.steps (
          args_round-Returns _ args found s s' b m a
            λ more t less c. args_loop-Returns left more t (omega arith) (omega arith) c)

  parse_args-Returns :
      (s : Parser) → remaining s < k → Returns (ArgsOk s) (parse_args wide_lower fuel rec s)
  unfolding parse_args
  parse_args-Returns s h = elim (Bool-cases (kind_eq (peek s).kind tok_rparen)) [
    | inl e ↦ rw e (Steps-refl s, tt)
    | inr e ↦ rw e (
        bind-Returns (NodePost s) (ArgsOk s) rec _ s (good.at s h) λ arg t p. later_args _ p.steps (
          args_loop-Returns fuel _ t (omega (arith, remaining-Steps p.steps))
            (omega (arith, remaining-Steps p.steps)) (append_arg-AllInRange no_nodes arg tt p)))
  ]

  call_close-Returns :
      (tok : Token) (name : Bytes) (args : Nodes) (s : Parser)
      → AllInRange args
      → Returns (NodePost s) (call_close tok name args s)
  unfolding call_close
  call_close-Returns tok name args s h =
      then_node _ _ s (steps_of-Expected s _ (expect-Reports tok_rparen _ _ s))
        λ _ t st. record { steps = Steps-refl t; node = h }

  plain_args-Returns :
      (tok : Token) (name : Bytes) (called : Bool) (s : Parser)
      → remaining s < k
      → Returns (NodePost s) (plain_args wide_lower fuel rec tok name called s)
  unfolding plain_args
  plain_args-Returns tok name true s h =
      bind-Returns (ArgsOk s) (NodePost s) _ _ s (parse_args-Returns s h)
        λ args t a. NodePost-weaken _ a.0 (call_close-Returns tok name args t a.1)
  plain_args-Returns tok name false s h = record { steps = Steps-refl s; node = tt }

  plain_call-Good :
      (tok : Token) (name : Bytes) → IsGood k (plain_call wide_lower fuel rec tok name)
  unfolding plain_call
  plain_call-Good tok name = record {
    at = λ s h.
        then_node _ _ s (match-Harmless tok_lparen s)
          λ called t st. plain_args-Returns tok name called t (omega (arith, remaining-Steps st));
  }

  pos_axis-Good : (tok : Token) → IsGood k (pos_axis wide_lower fuel rec tok)
  unfolding pos_axis
  pos_axis-Good tok = record {
    at = λ s h. elim (Bool-cases (kind_eq (peek s).kind tok_ident)) [
      | inl e ↦ rw e (after_advance _ s λ t. record { steps = Steps-refl _; node = tt })
      | inr e ↦ rw e (
          bind-Returns (λ _ t. Reported s t) (NodePost s) _ _ s
            (add_error-Reports _ _ (peek s).span s)
            λ _ t r. record { steps = r.steps; node = r.reported })
    ];
  }

  node-Good : (n : Node) → LiteralsInRange n → IsGood k (pure (some n))
  node-Good n l = record { at = λ s h. record { steps = Steps-refl s; node = l } }

  if-Good :
      (b : Bool) (p q : P (Option Node)) → IsGood k p → IsGood k q → IsGood k (if b then p else q)
  if-Good true p q gp gq = gp
  if-Good false p q gp gq = gq

  identifier-Good :
      (tok : Token) (name : Bytes) → IsGood k (identifier wide_lower fuel rec tok name)
  unfolding identifier
  identifier-Good tok name = if-Good (bytes_eq name (codes "var")) _ _ (var_call-Good tok) (
      if-Good (bytes_eq name (codes "random")) _ _ (random_call-Good tok) (
        if-Good (bytes_eq name (codes "command")) _ _ (node-Good (command_expr tok.span) tt) (
          if-Good (bytes_eq name (codes "pos")) _ _ (pos_axis-Good tok) (
            if-Good (bytes_eq name (codes "statetype")) _ _
              (node-Good (state_type_expr tok.span) tt)
              (if-Good (bytes_eq name (codes "cond")) _ _ (cond_call-Good tok)
                (plain_call-Good tok name))))))

  string_node-Good : (tok : Token) (value : Option Bytes) → IsGood k (string_node tok value)
  unfolding string_node
  string_node-Good tok none = record {
    at = λ s h.
        bind-Returns (λ _ t. Reported s t) (NodePost s) _ _ s (add_error-Reports _ _ tok.span s)
          λ _ t r. record { steps = r.steps; node = r.reported };
  }
  string_node-Good tok (some v) = node-Good (string_literal v tok.span) tt

  int-Good : (tok : Token) → IsGood k (pure (some (int_literal (parse_int tok.text) tok.span)))
  unfolding parse_int
  int-Good tok =
      node-Good (int_literal (parse_int tok.text) tok.span)
        (record { upper = omega arith; lower = omega arith })

  -- What follows the reading of a first token that is not the end's.
  after_first :
      (p : P (Option Node)) (s : Parser)
      → remaining s < suc k
      → (peek s).kind ≢ tok_eof
      → IsGood k p
      → Returns (NodePost s) ((advance >> p) s)
  after_first p s h ne g =
      let less = peek_consumes s ne in after_advance _ s λ t. g.at (step_forward s) (omega arith)

  unexpected-Returns : (tok : Token) (s : Parser) → Returns (NodePost s) (unexpected_token tok s)
  unfolding unexpected_token
  unexpected-Returns tok s =
      bind-Returns (λ _ t. Reported s t) (NodePost s) _ _ s (add_error-Reports _ _ tok.span s)
        λ _ t r.
          NodePost-weaken _ r.steps (
            after_advance _ t
              λ _. record { steps = Steps-refl (step_forward t); node = r.reported })

  primary_of-Returns :
      (kind : TokenType) (tok : Token) (s : Parser)
      → (peek s).kind ≡ kind
      → remaining s < suc k
      → Returns (NodePost s) (primary_of wide_lower fuel rec kind tok s)
  unfolding primary_of
  primary_of-Returns tok_eof tok s e h =
      bind-Returns (λ _ t. Reported s t) (NodePost s) _ _ s (add_error-Reports _ _ tok.span s)
        λ _ t r. record { steps = r.steps; node = r.reported }
  primary_of-Returns tok_int tok s e h = after_first _ s h (λ x. cc) (int-Good tok)
  primary_of-Returns tok_string tok s e h =
      after_first _ s h (λ x. cc) (string_node-Good tok (unquote tok.text))
  primary_of-Returns tok_lparen tok s e h = after_first _ s h (λ x. cc) grouped-Good
  primary_of-Returns tok_ident tok s e h =
      after_first _ s h (λ x. cc) (identifier-Good tok (to_lower wide_lower tok.text))
  primary_of-Returns _ tok s e h = unexpected-Returns tok s

  parse_primary-Good : IsGood (suc k) (parse_primary wide_lower fuel rec)
  unfolding parse_primary
  parse_primary-Good = record { at = λ s h. primary_of-Returns (peek s).kind (peek s) s refl h }

pub parse_or_expr-Good :
    (wide_lower : Bytes → Bytes) (width depth : ℕ)
    → depth ≤ width
    → IsGood depth (parse_or_expr wide_lower width depth)
unfolding parse_or_expr
parse_or_expr-Good wide_lower width zero h = record { at = λ s b. elim b [ ] }
parse_or_expr-Good wide_lower width (suc depth) h =
    let inner = parse_or_expr-Good wide_lower width depth (omega arith) in
    let outer =
      or_level-Good (suc depth) width h _
        (parse_primary-Good wide_lower depth width (omega arith) _ inner) in
    record { at = outer.at }
