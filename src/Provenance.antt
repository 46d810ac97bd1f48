-- ===== src/Provenance.antt =====
-- internal/provenance/provenance.go: how far a result is to be trusted, and the chain of its steps.
pub mod Chained
pub mod Policies
mod Samples
use ikemen_devtools.Prelude.{
  ℕ, zero, suc, Bool, true, false, not, ◌&&◌, ◌||◌, Option, none, some, List, [], ◌∷◌, ◌++◌, length,
  leb, ltb, ◌==◌, if◌then◌else◌,
}
use ikemen_devtools.Prelude.Int.{ℤ, pos, negsuc, pos_part, ltb_ℤ}
use ikemen_devtools.Prelude.Text.{Bytes, bytes_eq, contains}
use ikemen_devtools.FilePath.{trim_space}

-- `other` is any text that is no class of the package.
pub data Class : Type 0 where
  exact inferred lexical ambiguous unresolved unsupported : Class
  other : Bytes → Class

pub data Completeness : Type 0 where
  complete partial unavailable : Completeness
  other : Bytes → Completeness

-- The fields of a result that the policy and the safety of an action read.
pub record Result : Type 0 where
  pub class : Class
  pub completeness : Completeness

-- `include` is `none` for a nil map, and `minimum` for the empty text.
pub record Policy : Type 0 where
  pub include : Option (Class → Bool)
  pub minimum : Option Class

-- A class that the map `rank` does not have ranks 0.
unfoldable pub rank : Class → ℕ
rank exact = 5
rank inferred = 4
rank lexical = 3
rank ambiguous = 2
rank unresolved = 1
rank unsupported = 0
rank (other name) = 0

abbrev pub is_exact : Class → Bool
is_exact exact = true
is_exact _ = false

abbrev pub is_complete : Completeness → Bool
is_complete complete = true
is_complete _ = false

unfoldable pub action_safe : Result → Bool
action_safe r = is_exact r.class && is_complete r.completeness

abbrev included : Option (Class → Bool) → Class → Bool
included none c = true
included (some include) c = include c

abbrev reaches : Option Class → Class → Bool
reaches none c = true
reaches (some minimum) c = leb (rank minimum) (rank c)

unfoldable pub allows : Policy → Result → Bool
allows p r = if not (included p.include r.class) then false else reaches p.minimum r.class

-- A step that the loop passes over; the texts seen so far are those in `out`.
unfoldable pub is_skipped : List Bytes → Bytes → Bool
is_skipped out t = bytes_eq t [] || contains t out

-- The loop; it stops where `out` has reached the limit.
unfoldable pub chain_from : ℕ → List Bytes → List Bytes → List Bytes
chain_from limit out [] = out
chain_from limit out (s ∷ steps) =
    let skipped : Bool = is_skipped out (trim_space s) in
    let next : List Bytes = if skipped then out else out ++ trim_space s ∷ [] in
    let rest = chain_from limit next steps in
    if not skipped && leb limit (length next) then next else rest

unfoldable pub limit_of : ℤ → ℕ
limit_of limit = if ltb_ℤ (pos 0) limit then pos_part limit else 32

unfoldable pub chain : List Bytes → ℤ → List Bytes
chain steps limit = chain_from (limit_of limit) [] steps
