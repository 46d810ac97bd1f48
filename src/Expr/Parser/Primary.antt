-- ===== src/Expr/Parser/Primary.antt =====
-- internal/expr/expr.go: `parsePrimary` with the forms of an identifier, and `Parse`.
use ikemen_devtools.Prelude.{
  ℕ, zero, suc, ◌+◌, ◌-◌, ◌*◌, Bool, true, false, ◌||◌, Option, none, some, List, [], ◌∷◌, String,
  length, min, if◌then◌else◌,
}
use ikemen_devtools.Prelude.Int.{ℤ, pos}
use ikemen_devtools.Prelude.Text.{Bytes, codes, bytes_eq}
use ikemen_devtools.Expr.Word.{half_range}
use ikemen_devtools.Expr.Unquote.{unquote, to_lower}
use ikemen_devtools.Expr.Ast.{
  Node, int_literal, string_literal, var_expr, random_expr, command_expr, pos_expr, state_type_expr,
  cond_expr, unsupported_expr, Nodes, no_nodes, snoc_node,
}
use ikemen_devtools.Expr.Lexer.{
  TokenType, tok_eof, tok_int, tok_string, tok_ident, tok_lparen, tok_rparen, tok_comma, Token,
  ParseError, Lexed, span_cover, lex,
}
use ikemen_devtools.Expr.Parser.{
  Parser, P, ◌>>=◌, ◌>>◌, pure, kind_eq, peek, prev, advance, match, add_error, add_error_here,
  expect,
}
use ikemen_devtools.Expr.Parser.Levels.{or_nil, or_level}

-- `strconv.ParseInt` on a run of digits. On overflow it returns the largest int64 and an error,
-- which the code ignores.
unfoldable pub decimal : ℕ → Bytes → ℕ
decimal n [] = n
decimal n (c ∷ s) = decimal (n * 10 + (c - b'0')) s

unfoldable pub parse_int : Bytes → ℤ
unfolding decimal
parse_int text = pos (min (decimal 0 text) (half_range - 1))

-- `if !p.expect(...) { return nil }`
unfoldable pub expect_or_nil : TokenType → String → String → P (Option Node) → P (Option Node)
expect_or_nil kind code message rest = do
  found ← expect kind code message
  if found then rest else pure none

unfoldable pub string_node : Token → Option Bytes → P (Option Node)
string_node tok none = do add_error "invalid-string" "malformed quoted string" tok.span; pure none
string_node tok (some value) = pure (some (string_literal value tok.span))

-- The recovery loop of `random`: up to a right parenthesis or the end.
unfoldable pub skip_to_rparen : ℕ → P (Unit {0})
skip_to_rparen zero s = none
skip_to_rparen (suc fuel) s =
    elim (kind_eq (peek s).kind tok_eof || kind_eq (peek s).kind tok_rparen) [
      | true ↦ some (tt, s)
      | false ↦ (advance >> (λ s'. skip_to_rparen fuel s')) s
    ]

-- The end of a call: the node is the same with the closing parenthesis and without it.
unfoldable pub call_close : Token → Bytes → Nodes → P (Option Node)
call_close tok name args =
    expect tok_rparen "expected-token" "expected ')' after function call" >> λ s.
    pure (some (unsupported_expr name args (span_cover tok.span (prev s).span))) s

-- A token that begins no expression is passed.
unfoldable pub unexpected_token : Token → P (Option Node)
unexpected_token tok = do
  add_error "unexpected-token" "unexpected token" tok.span
  advance
  pure none

-- `fuel` bounds the rounds of each loop, `rec` is `parseOrExpr` and `wide_lower` lowers a text that
-- is not ASCII.
module _ (wide_lower : Bytes → Bytes) (fuel : ℕ) (rec : P (Option Node)) where
  unfoldable pub grouped : P (Option Node)
  grouped = or_nil (pure tt) rec λ e.
      expect_or_nil tok_rparen "expected-token" "expected ')' after grouped expression"
        (pure (some e))

  unfoldable pub var_call : Token → P (Option Node)
  var_call tok = expect_or_nil tok_lparen "expected-token" "expected '(' after var" (
      or_nil (add_error_here "expected-expression" "expected var index") rec λ arg.
        expect_or_nil tok_rparen "expected-token" "expected ')' after var index"
          λ s. pure (some (var_expr arg (span_cover tok.span (prev s).span))) s)

  -- What follows `random`, given whether a left parenthesis was read.
  unfoldable pub random_close : Bool → P (Unit {0})
  random_close true = pure tt
  random_close false = do
    add_error_here "random-arity" "random accepts no arguments"
    skip_to_rparen fuel
    expect tok_rparen "expected-token" "expected ')' after random"
    pure tt

  unfoldable pub random_args : Bool → P (Unit {0})
  random_args true = match tok_rparen >>= λ closed. random_close closed
  random_args false = pure tt

  unfoldable pub random_call : Token → P (Option Node)
  random_call tok = do
    called ← match tok_lparen
    random_args called
    pure (some (random_expr tok.span))

  -- The axis token is any identifier.
  unfoldable pub pos_axis : Token → P (Option Node)
  pos_axis tok s =
      if kind_eq (peek s).kind tok_ident
      then (advance >>= λ next.
            pure (some (pos_expr (to_lower wide_lower next.text) (span_cover tok.span next.span))))
          s
      else (add_error "expected-token" "expected axis after pos" (peek s).span >> pure none) s

  unfoldable pub cond_call : Token → P (Option Node)
  cond_call tok = expect_or_nil tok_lparen "expected-token" "expected '(' after cond" (
      or_nil (add_error_here "expected-expression" "expected cond condition") rec λ c.
        expect_or_nil tok_comma "expected-token" "expected first comma in cond" (
          or_nil (add_error_here "expected-expression" "expected cond true branch") rec λ t.
            expect_or_nil tok_comma "expected-token" "expected second comma in cond" (
              or_nil (add_error_here "expected-expression" "expected cond false branch") rec λ e.
                expect_or_nil tok_rparen "expected-token" "expected ')' after cond"
                  λ s. pure (some (cond_expr c t e (span_cover tok.span (prev s).span))) s)))

  -- A nil argument is left out.
  unfoldable pub append_arg : Nodes → Option Node → Nodes
  append_arg args none = args
  append_arg args (some n) = snoc_node args n

  -- A round of `for p.match(tokComma)`; `again` is the next one.
  unfoldable pub args_round : (Nodes → P Nodes) → Nodes → Bool → P Nodes
  args_round again args true = rec >>= λ arg. again (append_arg args arg)
  args_round again args false = pure args

  unfoldable pub args_loop : ℕ → Nodes → P Nodes
  args_loop zero args s = none
  args_loop (suc left) args s =
      (match tok_comma >>= args_round (λ more s'. args_loop left more s') args) s

  unfoldable pub parse_args : P Nodes
  parse_args s =
      if kind_eq (peek s).kind tok_rparen
      then pure no_nodes s
      else (rec >>= λ arg. args_loop fuel (append_arg no_nodes arg)) s

  -- A call of a function that the language does not know, once its name was read.
  unfoldable pub plain_args : Token → Bytes → Bool → P (Option Node)
  plain_args tok name true = parse_args >>= λ args. call_close tok name args
  plain_args tok name false = pure (some (unsupported_expr name no_nodes tok.span))

  unfoldable pub plain_call : Token → Bytes → P (Option Node)
  plain_call tok name = match tok_lparen >>= λ called. plain_args tok name called

  -- The `switch` on the identifier's name.
  unfoldable pub identifier : Token → Bytes → P (Option Node)
  identifier tok name =
      if bytes_eq name (codes "var")
      then var_call tok
      else if bytes_eq name (codes "random")
      then random_call tok
      else if bytes_eq name (codes "command")
      then pure (some (command_expr tok.span))
      else if bytes_eq name (codes "pos")
      then pos_axis tok
      else if bytes_eq name (codes "statetype")
      then pure (some (state_type_expr tok.span))
      else if bytes_eq name (codes "cond")
      then cond_call tok
      else plain_call tok name

  unfoldable pub primary_of : TokenType → Token → P (Option Node)
  primary_of tok_eof tok =
      add_error "expected-expression" "unexpected end of expression" tok.span >> pure none
  primary_of tok_int tok = advance >> pure (some (int_literal (parse_int tok.text) tok.span))
  primary_of tok_string tok = advance >> string_node tok (unquote tok.text)
  primary_of tok_lparen tok = advance >> grouped
  primary_of tok_ident tok = advance >> identifier tok (to_lower wide_lower tok.text)
  primary_of _ tok = unexpected_token tok

  unfoldable pub parse_primary : P (Option Node)
  parse_primary s = primary_of (peek s).kind (peek s) s

-- `parseOrExpr`. `width` bounds the rounds of each loop, `depth` how deep expressions nest.
unfoldable pub parse_or_expr : (Bytes → Bytes) → ℕ → ℕ → P (Option Node)
parse_or_expr wide_lower width zero s = none
parse_or_expr wide_lower width (suc depth) s =
    or_level width (parse_primary wide_lower width (λ s'. parse_or_expr wide_lower width depth s'))
      s

-- `Parse`, from the parser's state behind `newParser`.
abbrev pub has_errors : List ParseError → Bool
has_errors [] = false
has_errors (_ ∷ _) = true

unfoldable pub check_end : Option Node → Parser → Option (Option Node × List ParseError)
check_end node s =
    if has_errors s.errors
    then some (none, s.errors)
    else elim (expect tok_eof "expected-token" "unexpected trailing input" s) [
      | none ↦ none
      | some (true, s') ↦ some (node, [])
      | some (false, s') ↦ some (none, s'.errors)
    ]

unfoldable pub parse_tokens :
    (Bytes → Bytes) → Bytes → Lexed → Option (Option Node × List ParseError)
parse_tokens wide_lower source lexed =
    elim (parse_or_expr wide_lower (length lexed.tokens + 1) (length lexed.tokens + 1)
      (record { source = source; tokens = lexed.tokens; pos = 0; errors = lexed.errors })) [
        | none ↦ none
        | some (node, s) ↦ check_end node s
      ]

unfoldable pub parse_lexed :
    (Bytes → Bytes) → Bytes → Option Lexed → Option (Option Node × List ParseError)
parse_lexed wide_lower source none = none
parse_lexed wide_lower source (some lexed) = parse_tokens wide_lower source lexed

-- The node and the errors. `none` means that the model's fuel ran out, which never happens.
unfoldable pub parse : (Bytes → Bytes) → Bytes → Option (Option Node × List ParseError)
parse wide_lower source = parse_lexed wide_lower source (lex source)
