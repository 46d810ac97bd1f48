-- ===== src/Patch/Paths/Confined.antt =====
-- patch.go: which files a patch can name.
use ikemen_devtools.Prelude.{
  ◌≡◌, refl, sym, ap, ◌∙◌, inl, inr, true, false, ◌||◌, some, List, [], ◌∷◌, ◌++◌, arith, Option,
  none, Bool-cases, Option-cases, if◌then◌else◌,
}
use mathlib.Core.Path.{subst}
use ikemen_devtools.Prelude.Text.{Bytes, codes, bytes_eq, bytes_eq_refl, eq_of_bytes_eq}
use ikemen_devtools.FilePath.{
  dot_dot, has_prefix, split_slash, join_slash, trim_space, is_abs, elements, clean, join, or_dot,
  ups, strip_common, rel_rest, rel,
}
use ikemen_devtools.FilePath.Laws.{
  All, is_name, elements_of_relative, split-join_slash, names-relative,
}
use ikemen_devtools.Patch.Paths.{
  leads_out, canonical_trimmed, canonical_relative, Links, resolved, location, inside_only,
  resolve_below, base_of, resolve_canonical, resolve_path,
}

-- Joined elements that begin with ".." lead out.
dots_lead_out : (rest : List Bytes) → leads_out (join_slash (dot_dot ∷ rest)) ≡ true
unfolding leads_out join_slash bytes_eq has_prefix
dots_lead_out [] = refl
dots_lead_out (p ∷ ps) = refl

or_dot_dots : (rest : List Bytes) → leads_out (or_dot (join_slash (dot_dot ∷ rest))) ≡ true
unfolding leads_out join_slash bytes_eq has_prefix
or_dot_dots [] = refl
or_dot_dots (p ∷ ps) = refl

clean_relative :
    (path : Bytes) → is_abs path ≡ false → clean path ≡ or_dot (join_slash (elements path))
unfolding clean
clean_relative path h = rw h

or_dot_names :
    (p : Bytes) (ps : List Bytes)
    → All is_name (p ∷ ps)
    → or_dot (join_slash (p ∷ ps)) ≡ join_slash (p ∷ ps)
unfolding join_slash bytes_eq
or_dot_names [] ps h = cc h.0
or_dot_names (c ∷ p) [] h = refl
or_dot_names (c ∷ p) (q ∷ qs) h = refl

-- A relative path whose cleaned form is accepted has only names in that form.
names_of_accepted :
    (path : Bytes) (es : List Bytes)
    → elements path ≡ es
    → is_abs path ≡ false
    → bytes_eq (clean path) (codes ".") ≡ false
    → leads_out (clean path) ≡ false
    → All is_name (split_slash (clean path))
unfolding join_slash
names_of_accepted path [] e h d l =
    let dot : clean path ≡ codes "." =
      clean_relative path h ∙ ap (λ es. or_dot (join_slash es)) e in
    cc (subst (λ c. bytes_eq c (codes ".") ≡ false) dot d, bytes_eq_refl (codes "."))
names_of_accepted path (p ∷ ps) e h d l = elim (elements_of_relative path h) [
  | inr (rest, first) ↦
      let out : clean path ≡ or_dot (join_slash (dot_dot ∷ rest)) =
        clean_relative path h ∙ ap (λ es. or_dot (join_slash es)) first in
      cc (subst (λ c. leads_out c ≡ false) out l, or_dot_dots rest)
  | inl names ↦
      let named : All is_name (p ∷ ps) = subst (All is_name) e names in
      let joined : clean path ≡ join_slash (p ∷ ps) =
        clean_relative path h ∙ ap (λ es. or_dot (join_slash es)) e ∙ or_dot_names p ps named in
      subst (λ c. All is_name (split_slash c)) (sym joined)
        (subst (All is_name) (sym (split-join_slash p ps named)) named)
]

-- A patch names only files below the workspace's root: the canonical form of a path is relative, and
-- each of its elements is a file's name: not empty, not "." and not "..".
pub canonical_relative-Confined :
    (path c : Bytes)
    → canonical_relative path ≡ some c
    → (is_abs c ≡ false) × All is_name (split_slash c)
unfolding canonical_relative canonical_trimmed
canonical_relative-Confined path c h =
    let trimmed = trim_space path in
    elim (Bool-cases (bytes_eq trimmed [] || is_abs trimmed)) [
      | inl e ↦ absurd (ground arith)
      | inr e ↦
          elim (Bool-cases (bytes_eq (clean trimmed) (codes ".") || leads_out (clean trimmed))) [
            | inl o ↦ absurd (ground arith)
            | inr o ↦
                let c_eq : clean trimmed ≡ c = ground arith in
                let names =
                  subst (λ x. All is_name (split_slash x)) c_eq
                    (names_of_accepted trimmed (elements trimmed) refl (ground arith) (ground arith)
                      (ground arith)) in
                (names-relative c names, names)
          ]
    ]

strip_common-inside :
    (bs ts : List Bytes) → (strip_common bs ts).0 ≡ [] → (rest : List Bytes) × (ts ≡ bs ++ rest)
unfolding strip_common
strip_common-inside [] ts h = (ts, refl)
strip_common-inside (b ∷ bs) [] h = cc
strip_common-inside (b ∷ bs) (t ∷ ts) h = elim (Bool-cases (bytes_eq b t)) [
  | inl e ↦
      let tail_eq = subst (λ x. (if x then strip_common bs ts else (b ∷ bs, t ∷ ts)).0 ≡ []) e h in
      let (rest, eq) = strip_common-inside bs ts tail_eq in
      let head_eq = eq_of_bytes_eq b t e in (rest, cc)
  | inr e ↦ absurd (ground arith)
]

-- A relative path that leads nowhere out has nothing of its base left.
rel_rest-inside :
    (bs ts : List Bytes) (inside : Bytes)
    → rel_rest bs ts ≡ some inside
    → leads_out inside ≡ false
    → bs ≡ []
unfolding rel_rest
rel_rest-inside [] ts inside e l = refl
rel_rest-inside (b ∷ bs) ts inside e l =
    let out = dots_lead_out (ups bs ts) in
    elim (Bool-cases (bytes_eq b dot_dot)) [
      | inl d ↦ absurd (ground arith)
      | inr d ↦
          let inside_eq : join_slash (ups (b ∷ bs) ts) ≡ inside = ground arith in
          cc (subst (λ x. leads_out x ≡ true) inside_eq out)
    ]

rel-below :
    (base target inside : Bytes)
    → rel base target ≡ some inside
    → leads_out inside ≡ false
    → (rest : List Bytes) × (elements target ≡ elements base ++ rest)
unfolding rel
rel-below base target inside e l = strip_common-inside (elements base) (elements target) (
    rel_rest-inside (strip_common (elements base) (elements target)).0
      (strip_common (elements base) (elements target)).1 inside (ground arith) l)

-- `path` lies below `base`: its elements begin with those of `base`.
abbrev pub IsBelow : Bytes → Bytes → Type 0
IsBelow base path = (rest : List Bytes) × (elements path ≡ elements base ++ rest)

-- What following the links of `target` gives lies below the base; where they cannot be followed, `target`
-- itself does.
abbrev pub LeadsBelow : Bytes → Bytes → Option Bytes → Type 0
LeadsBelow base target none = IsBelow base target
LeadsBelow base target (some real) = IsBelow base real

pub record Below (links : Links) (root relative target : Bytes) : Type 0 where
  pub base : Bytes
  pub base_eq : base_of links root ≡ some base
  pub canonical : Bytes
  pub canonical_eq : canonical_relative relative ≡ some canonical
  pub target_eq : target ≡ join base canonical
  pub leads_below : LeadsBelow base target (links.eval_symlinks target)

location-LeadsBelow :
    (links : Links) (base target : Bytes)
    → IsBelow base (location links target)
    → LeadsBelow base target (links.eval_symlinks target)
unfolding location
location-LeadsBelow links base target below = resolved-LeadsBelow (links.eval_symlinks target) below
  where
    resolved-LeadsBelow :
        (r : Option Bytes) → IsBelow base (resolved links target r) → LeadsBelow base target r
    resolved-LeadsBelow none h = h
    resolved-LeadsBelow (some real) h = h

-- A path that `resolvePath` accepts is the canonical path joined to the workspace's real root. If the
-- symbolic links on the way can be followed, then the real path that they lead to lies below that root;
-- if they cannot be followed, then the path as it is written does.
pub resolve_path-Below :
    (links : Links) (root relative target : Bytes)
    → resolve_path links root relative ≡ some target
    → Below links root relative target
unfolding resolve_path resolve_canonical resolve_below inside_only
resolve_path-Below links root relative target h =
    elim (Option-cases (canonical_relative relative)) [
      | inl e ↦ absurd (ground arith)
      | inr (c, e) ↦ elim (Option-cases (base_of links root)) [
        | inl f ↦ absurd (ground arith)
        | inr (base, f) ↦ elim (Option-cases (rel base (location links (join base c)))) [
          | inl g ↦ absurd (ground arith)
          | inr (inside, g) ↦
              let target_eq : target ≡ join base c = ground arith in
              let inside_ok : leads_out inside ≡ false = ground arith in
              let below = rel-below base (location links (join base c)) inside g inside_ok in
              record {
                base = base;
                base_eq = f;
                canonical = c;
                canonical_eq = e;
                target_eq = target_eq;
                leads_below =
                    subst (λ t. LeadsBelow base t (links.eval_symlinks t)) (sym target_eq)
                      (location-LeadsBelow links base (join base c) below);
              }
        ]
      ]
    ]
