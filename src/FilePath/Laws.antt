-- ===== src/FilePath/Laws.antt =====
-- Which elements a cleaned relative path has.
use mathlib.Core.Path.{subst}
use mathlib.Core.List.{reverse, reverse-append}
use ikemen_devtools.Prelude.{
  ℕ, ◌≡◌, refl, ap, ◌∙◌, ◌⊎◌, inl, inr, Bool, true, false, not, ◌&&◌, ◌||◌, List, [], ◌∷◌, ◌++◌,
  arith, ◌==◌, if◌then◌else◌, Bool-cases,
}
use ikemen_devtools.Prelude.Text.{Bytes, codes, bytes_eq}
use ikemen_devtools.FilePath.{
  slash, split_slash, join_slash, dot_dot, cons_first, go_up, clean_part, clean_parts, is_abs,
  elements,
}

abbrev pub no_slash : Bytes → Bool
no_slash [] = true
no_slash (c ∷ s) = not (c == slash) && no_slash s

-- A name of a file: not empty, no "." and no "..", and in one piece.
abbrev pub is_name : Bytes → Bool
is_name p =
    not (bytes_eq p []) && not (bytes_eq p (codes ".")) && not (bytes_eq p dot_dot) && no_slash p

abbrev pub All : (Bytes → Bool) → List Bytes → Type 0
All test [] = Unit
All test (p ∷ ps) = (test p ≡ true) × All test ps

All-append :
    (test : Bytes → Bool) (ps qs : List Bytes) → All test ps → All test qs → All test (ps ++ qs)
All-append test [] qs h k = k
All-append test (p ∷ ps) qs h k = (h.0, All-append test ps qs h.1 k)

reverse-cons : (p : Bytes) (ps : List Bytes) → reverse (p ∷ ps) ≡ reverse ps ++ p ∷ []
reverse-cons p ps = reverse-append (p ∷ []) ps

All-reverse : (test : Bytes → Bool) (ps : List Bytes) → All test ps → All test (reverse ps)
All-reverse test [] h = tt
All-reverse test (p ∷ ps) h =
    rw (reverse-cons p ps)
      (All-append test (reverse ps) (p ∷ []) (All-reverse test ps h.1) (h.0, tt))

cons_first-no_slash :
    (c : ℕ) (parts : List Bytes)
    → (c == slash) ≡ false
    → All no_slash parts
    → All no_slash (cons_first c parts)
cons_first-no_slash c [] e h = ground arith
cons_first-no_slash c (p ∷ ps) e h = (ground arith, h.1)

split_slash-no_slash : (s : Bytes) → All no_slash (split_slash s)
unfolding split_slash
split_slash-no_slash [] = (refl, tt)
split_slash-no_slash (c ∷ s) = elim (Bool-cases (c == slash)) [
  | inl e ↦ rw (e, All) (refl, split_slash-no_slash s)
  | inr e ↦ rw (e, All) (cons_first-no_slash c (split_slash s) e (split_slash-no_slash s))
]

-- The elements so far of a relative path, the last first: names above "..".
abbrev Dots : List Bytes → Type 0
Dots [] = Unit
Dots (p ∷ ps) = (p ≡ dot_dot) × Dots ps

abbrev Stack : List Bytes → Type 0
Stack [] = Unit
Stack (p ∷ ps) = ((is_name p ≡ true) × Stack ps) ⊎ ((p ≡ dot_dot) × Dots ps)

Dots-Stack : (ps : List Bytes) → Dots ps → Stack ps
Dots-Stack [] h = tt
Dots-Stack (p ∷ ps) h = inr h

go_up-Stack : (ps : List Bytes) → Stack ps → Stack (go_up false ps)
unfolding go_up
go_up-Stack [] h = inr (refl, tt)
go_up-Stack (p ∷ ps) (inl (n, h)) = elim (Bool-cases (bytes_eq p dot_dot)) [
  | inl e ↦ absurd (ground arith)
  | inr e ↦ rw (e, Stack) h
]
go_up-Stack (p ∷ ps) (inr (d, h)) = elim (Bool-cases (bytes_eq p dot_dot)) [
  | inl e ↦ rw (e, Stack) (inr (refl, (d, h)))
  | inr e ↦ rw (e, Stack) (Dots-Stack ps h)
]

clean_part-Stack :
    (ps : List Bytes) (p : Bytes) → no_slash p ≡ true → Stack ps → Stack (clean_part false ps p)
unfolding clean_part
clean_part-Stack ps p n h = elim (Bool-cases (bytes_eq p [] || bytes_eq p (codes "."))) [
  | inl e ↦ rw e h
  | inr e ↦ rw e (elim (Bool-cases (bytes_eq p dot_dot)) [
    | inl d ↦ rw d (go_up-Stack ps h)
    | inr d ↦ rw (d, Stack) (inl (ground arith, h))
  ])
]

clean_parts-Stack :
    (ps qs : List Bytes) → All no_slash qs → Stack ps → Stack (clean_parts false ps qs)
unfolding clean_parts
clean_parts-Stack ps [] n h = h
clean_parts-Stack ps (q ∷ qs) n h =
    clean_parts-Stack (clean_part false ps q) qs n.1 (clean_part-Stack ps q n.0 h)

Dots-first :
    (p : Bytes) (ps : List Bytes)
    → p ≡ dot_dot
    → Dots ps
    → (rest : List Bytes) × (reverse (p ∷ ps) ≡ dot_dot ∷ rest)
Dots-first p [] e h = ([], ap (λ x. x ∷ []) e)
Dots-first p (q ∷ qs) e h =
    let (rest, eq) = Dots-first q qs h.0 h.1 in
    (rest ++ p ∷ [], reverse-cons p (q ∷ qs) ∙ ap (λ l. l ++ p ∷ []) eq)

-- The elements are all names, or the first of them is "..".
Stack-first :
    (ps : List Bytes)
    → Stack ps
    → All is_name ps ⊎ ((rest : List Bytes) × (reverse ps ≡ dot_dot ∷ rest))
Stack-first [] h = inl tt
Stack-first (p ∷ ps) (inr (d, h)) = inr (Dots-first p ps d h)
Stack-first (p ∷ ps) (inl (n, h)) = elim (Stack-first ps h) [
  | inl names ↦ inl (n, names)
  | inr (rest, eq) ↦ inr (rest ++ p ∷ [], reverse-cons p ps ∙ ap (λ l. l ++ p ∷ []) eq)
]

-- The elements of a relative path, cleaned: all names, or the first one is "..".
pub elements_of_relative :
    (path : Bytes)
    → is_abs path ≡ false
    → All is_name (elements path) ⊎ ((rest : List Bytes) × (elements path ≡ dot_dot ∷ rest))
unfolding elements
elements_of_relative path h =
    rw h
      (elim (Stack-first (clean_parts false [] (split_slash path))
        (clean_parts-Stack [] (split_slash path) (split_slash-no_slash path) tt)) [
          | inl names ↦ inl (All-reverse is_name _ names)
          | inr first ↦ inr first
        ])

split_slash-name : (p : Bytes) → no_slash p ≡ true → split_slash p ≡ p ∷ []
unfolding split_slash
split_slash-name [] h = refl
split_slash-name (c ∷ p) h = ground (arith, split_slash-name p)

split_slash-append :
    (p s : Bytes) → no_slash p ≡ true → split_slash (p ++ slash ∷ s) ≡ p ∷ split_slash s
unfolding split_slash
split_slash-append [] s h = refl
split_slash-append (c ∷ p) s h = ground (arith, split_slash-append p s)

name-no_slash : (p : Bytes) → is_name p ≡ true → no_slash p ≡ true
name-no_slash p h = ground arith

-- Joining names and splitting again gives the names.
pub split-join_slash :
    (p : Bytes) (ps : List Bytes)
    → All is_name (p ∷ ps)
    → split_slash (join_slash (p ∷ ps)) ≡ p ∷ ps
unfolding join_slash
split-join_slash p [] h = split_slash-name p (name-no_slash p h.0)
split-join_slash p (q ∷ qs) h =
    split_slash-append p (join_slash (q ∷ qs)) (name-no_slash p h.0)
    ∙ ap (λ l. p ∷ l) (split-join_slash q qs h.1)

-- A path of names only is relative.
pub names-relative : (s : Bytes) → All is_name (split_slash s) → is_abs s ≡ false
unfolding split_slash is_abs bytes_eq
names-relative [] h = refl
names-relative (c ∷ s) h = elim (Bool-cases (c == slash)) [
  | inl e ↦
      let named =
        subst (λ b. All is_name (if b then [] ∷ split_slash s else cons_first c (split_slash s))) e
          h in
      cc named.0
  | inr e ↦ e
]
