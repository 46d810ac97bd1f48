-- ===== src/Provenance/Samples.antt =====
-- Runs of provenance.go, and the theorems of this part at inputs.
use ikemen_devtools.Prelude.{◌≡◌, refl, true, false, none, some, List, [], ◌∷◌}
use ikemen_devtools.Prelude.Int.{ℤ, pos, negsuc}
use ikemen_devtools.Prelude.Text.{Bytes, codes, bytes_eq}
use ikemen_devtools.FilePath.{trim_space}
use ikemen_devtools.Provenance.{
  is_exact, exact, inferred, lexical, complete, partial, Result, rank, action_safe, allows,
  is_skipped, chain_from, limit_of, chain,
}
use ikemen_devtools.Provenance.Chained.{Chained, chain-Chained}
use ikemen_devtools.Provenance.Policies.{action_safe-allows}

abbrev steps : List Bytes
steps = codes " parse" ∷ codes "  " ∷ codes "index" ∷ codes "parse " ∷ codes "graph" ∷ []

run : List Bytes → ℤ → List Bytes
unfolding chain chain_from is_skipped limit_of trim_space bytes_eq
run xs limit = chain xs limit

two_steps : run steps (pos 2) ≡ codes "parse" ∷ codes "index" ∷ []
unfolding run
two_steps = refl

all_steps : run steps (negsuc 0) ≡ codes "parse" ∷ codes "index" ∷ codes "graph" ∷ []
unfolding run
all_steps = refl

chain-Chained_example : Chained steps (pos 2) (chain steps (pos 2))
chain-Chained_example = chain-Chained steps (pos 2)

abbrev sure : Result
sure = record { class = exact; completeness = complete }

-- A lexical result does not reach "inferred".
too_weak :
    allows
      (record { include = none; minimum = some inferred })
      (record { class = lexical; completeness = partial })
    ≡ false
unfolding allows rank
too_weak = refl

action_safe-allows_example :
    allows (record { include = some is_exact; minimum = some exact }) sure ≡ true
unfolding action_safe
action_safe-allows_example =
    action_safe-allows (record { include = some is_exact; minimum = some exact }) sure refl refl
