-- ===== src/FilePath/Cleaned.antt =====
-- filepath.Clean: how a cleaned path begins.
use ikemen_devtools.Prelude.{
  ◌≡◌, refl, sym, ◌∙◌, ap, arith, true, false, List, [], ◌∷◌, ◌++◌, ◌⊎◌, Bool-cases, inl, inr,
  append-nil,
}
use ikemen_devtools.Prelude.Text.{Bytes, codes, bytes_eq}
use ikemen_devtools.FilePath.{
  slash, has_prefix, join_slash, elements, or_dot, is_abs, clean, dot_dot,
}
use ikemen_devtools.FilePath.Laws.{is_name, All, elements_of_relative}

join_slash-first : (p : Bytes) (ps : List Bytes) → (t : Bytes) × (join_slash (p ∷ ps) ≡ p ++ t)
unfolding join_slash
join_slash-first p [] = ([], sym (append-nil p))
join_slash-first p (q ∷ qs) = (slash ∷ join_slash (q ∷ qs), refl)

name-no_dot : (p t : Bytes) → is_name p ≡ true → has_prefix (codes "./") (p ++ t) ≡ false
unfolding has_prefix bytes_eq
name-no_dot [] t h = cc
name-no_dot (c ∷ []) t h = ground arith
name-no_dot (c ∷ d ∷ p) t h = ground arith

or_dot-no_dot :
    (s : Bytes) → has_prefix (codes "./") s ≡ false → has_prefix (codes "./") (or_dot s) ≡ false
unfolding has_prefix
or_dot-no_dot [] h = refl
or_dot-no_dot (c ∷ s) h = h

elements-no_dot :
    (ps : List Bytes)
    → (All is_name ps ⊎ ((rest : List Bytes) × (ps ≡ dot_dot ∷ rest)))
    → has_prefix (codes "./") (join_slash ps) ≡ false
unfolding has_prefix join_slash
elements-no_dot [] h = refl
elements-no_dot (p ∷ ps) (inl h) = let (t, e) = join_slash-first p ps in rw e (name-no_dot p t h.0)
elements-no_dot (p ∷ ps) (inr (rest, eq)) = dots (p ∷ ps) rest eq
  where
    dots :
        (ps rest : List Bytes)
        → ps ≡ dot_dot ∷ rest
        → has_prefix (codes "./") (join_slash ps) ≡ false
    dots ps rest eq =
        let (t, e) = join_slash-first dot_dot rest in
        ap (λ qs. has_prefix (codes "./") (join_slash qs)) eq
        ∙ (ap (λ s. has_prefix (codes "./") s) e ∙ refl)

-- A cleaned path does not begin with "./".
pub clean-no_dot : (path : Bytes) → has_prefix (codes "./") (clean path) ≡ false
unfolding clean has_prefix
clean-no_dot path = elim (Bool-cases (is_abs path)) [
  | inl e ↦ rw e refl
  | inr e ↦ rw e (
      or_dot-no_dot (join_slash (elements path))
        (elements-no_dot (elements path) (elements_of_relative path e)))
]

or_dot-nonempty : (s : Bytes) → bytes_eq (or_dot s) [] ≡ false
unfolding bytes_eq
or_dot-nonempty [] = refl
or_dot-nonempty (c ∷ s) = refl

pub clean-nonempty : (path : Bytes) → bytes_eq (clean path) [] ≡ false
unfolding clean bytes_eq
clean-nonempty path = elim (Bool-cases (is_abs path)) [
  | inl e ↦ rw e refl
  | inr e ↦ rw e (or_dot-nonempty (join_slash (elements path)))
]
