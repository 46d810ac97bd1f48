-- ===== src/Expr/Parser/Total.antt =====
-- expr.go: every parsing method returns, reads forward only, and reports what it does not parse.
mod Rules
mod Levels
mod Primary
use ikemen_devtools.Prelude.{
  ap, sym, ◌∙◌, ℕ, zero, suc, ◌+◌, ◌-◌, ◌≤◌, ◌<◌, ◌≡◌, refl, ◌≢◌, ◌⊎◌, inl, inr, Bool, true, false,
  Option, none, some, List, [], ◌∷◌, ◌++◌, String, length, get_elem?, arith, ◌==◌, Bool-cases,
  Option-cases, if◌then◌else◌,
}
use ikemen_devtools.Prelude.Text.{Bytes}
use ikemen_devtools.Expr.Ast.{Node}
use ikemen_devtools.Expr.Lexer.{Lexed, ParseError, lex, tok_eof}
use ikemen_devtools.Expr.Lexer.Cover.{lex_covers}
use ikemen_devtools.Expr.Eval.Bounds.{LiteralsInRange}
use ikemen_devtools.Expr.Parser.{Parser, expect}
use ikemen_devtools.Expr.Parser.Primary.{parse, parse_lexed, parse_tokens, check_end, has_errors}
use Rules.{HasErrors, NodePost, Returns, Expected, expect-Reports}
use mathlib.Core.Bool.{false≢true}
use mathlib.Core.Path.{subst}
use Primary.{parse_or_expr-Good}

-- Either a node that can be evaluated in range and no error, or no node and at least one error.
abbrev pub Verdict : Option (Option Node × List ParseError) → Type 0
Verdict none = ⊥
Verdict (some (some n, errors)) = (errors ≡ []) × LiteralsInRange n
Verdict (some (none, errors)) = errors ≢ []

has_errors-ne : (es : List ParseError) → has_errors es ≡ true → es ≢ []
has_errors-ne es h e = cc (ap has_errors e)

end-Verdict :
    (parsed : Option Node) (s t : Parser) (o : Option (Bool × Parser))
    → NodePost s parsed t
    → has_errors t.errors ≡ false
    → Returns (Expected t) o
    → Verdict (elim o [
      | none ↦ none
      | some (true, s') ↦ some (parsed, [])
      | some (false, s') ↦ some (none, s'.errors)
    ])
end-Verdict parsed s t none p h e = e
end-Verdict none s t (some (true, s')) p h e = absurd (false≢true (sym h ∙ p.node))
end-Verdict (some n) s t (some (true, s')) p h e = (refl, p.node)
end-Verdict parsed s t (some (false, s')) p h e = has_errors-ne s'.errors (e.reported refl)

check_end-Verdict :
    (parsed : Option Node) (s t : Parser) → NodePost s parsed t → Verdict (check_end parsed t)
unfolding check_end
check_end-Verdict parsed s t p = elim (Bool-cases (has_errors t.errors)) [
  | inl e ↦ rw e (has_errors-ne t.errors e)
  | inr e ↦ rw e (end-Verdict parsed s t _ p e (expect-Reports tok_eof _ _ t))
]

after_parse :
    (s : Parser) (o : Option (Option Node × Parser))
    → Returns (NodePost s) o
    → Verdict (elim o [ none ↦ none | some (parsed, t) ↦ check_end parsed t ])
after_parse s none h = h
after_parse s (some (parsed, t)) h = check_end-Verdict parsed s t h

parse_tokens-Verdict :
    (wide_lower : Bytes → Bytes) (source : Bytes) (lexed : Lexed)
    → Verdict (parse_tokens wide_lower source lexed)
unfolding parse_tokens
parse_tokens-Verdict wide_lower source lexed =
    let width : ℕ = length lexed.tokens + 1 in
    let start : Parser = record {
      source = source;
      tokens = lexed.tokens;
      pos = 0;
      errors = lexed.errors;
    } in
    after_parse start _
      ((parse_or_expr-Good wide_lower width width (omega arith)).at start (omega arith))

-- The parser ends on every source. It returns a node exactly when it reports no error, and then
-- every integer of the node is an int64.
pub parse-Verdict :
    (wide_lower : Bytes → Bytes) (source : Bytes) → Verdict (parse wide_lower source)
unfolding parse parse_lexed
parse-Verdict wide_lower source =
    let (lexed, e, _) = lex_covers source in
    subst (λ o. Verdict (parse_lexed wide_lower source o)) (sym e)
      (parse_tokens-Verdict wide_lower source lexed)
