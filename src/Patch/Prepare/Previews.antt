-- ===== src/Patch/Prepare/Previews.antt =====
-- patch.go, `prepare`: what a successful preview says of each file.
use ikemen_devtools.Prelude.{
  ◌≡◌, refl, ap, ◌∙◌, inl, inr, true, ◌||◌, Option, none, some, List, [], ◌∷◌, arith, Bool-cases,
  if◌then◌else◌,
}
use mathlib.Core.Path.{subst}
use ikemen_devtools.Prelude.Text.{
  contains, Bytes, bytes_eq, bytes_eq_refl, eq_of_bytes_eq, bytes_lt, bytes_lt_total,
}
use ikemen_devtools.FilePath.{trim_space}
use ikemen_devtools.Patch.Paths.{canonical_relative, resolve_path}
use ikemen_devtools.Patch.Edits.{
  Edit, PatchError, path_escape, read_failed, Checked, accepted, refused, ◌>>=◌, edit_file,
}
use ikemen_devtools.Patch.Splice.{Edited, edit_file-Edited}
use ikemen_devtools.Patch.Prepare.{
  Host, FilePreview, or_err, grouped, group_of, insert_path, sorted_paths, preview_file,
  preview_files, preview_groups, prepare,
}

-- Inversion of a step that succeeded.
>>=-eq-accepted {ℓ κ} :
    {A : Type ℓ} {B : Type κ} (m : Checked A) (f : A → Checked B) {b : B}
    → (m >>= f) ≡ accepted b
    → (a : A) × (m ≡ accepted a) × (f a ≡ accepted b)
>>=-eq-accepted (accepted a) f h = (a, refl, h)
>>=-eq-accepted (refused e) f h = cc

or_err-eq-accepted :
    {A : Type 0} (e : PatchError) (o : Option A) {a : A} → or_err e o ≡ accepted a → o ≡ some a
or_err-eq-accepted e none h = cc
or_err-eq-accepted e (some x) h = cc

-- A preview is the file's bytes with the path's edits spliced in, and has the hashes of both.
pub record Previewed (host : Host) (root : Bytes) (groups : List (Bytes × Edit)) (f : FilePreview)
    : Type 0 where
  pub place : Bytes
  pub place_eq : resolve_path host.links root f.path ≡ some place
  pub original : Bytes
  pub read_eq : host.read place ≡ some original
  pub old_hash_eq : f.old_hash ≡ host.digest original
  pub new_hash_eq : f.new_hash ≡ host.digest f.bytes
  pub edited : Edited original (group_of f.path groups) f.bytes

-- In the order of the paths.
abbrev pub AllPreviewed :
    Host → Bytes → List (Bytes × Edit) → List Bytes → List FilePreview → Type 0
AllPreviewed host root groups [] [] = Unit
AllPreviewed host root groups (p ∷ ps) (f ∷ fs) =
    (f.path ≡ p) × Previewed host root groups f × AllPreviewed host root groups ps fs
AllPreviewed host root groups _ _ = ⊥

accepted-injective : {A : Type 0} {a b : A} → accepted a ≡ accepted b → a ≡ b
accepted-injective h = cc

-- The paths increase strictly, so each file is previewed once.
abbrev pub Increasing : List Bytes → Type 0
Increasing [] = Unit
Increasing (p ∷ []) = Unit
Increasing (p ∷ q ∷ ps) = (bytes_lt p q ≡ true) × Increasing (q ∷ ps)

insert_path-Increasing_below :
    (p q : Bytes) (qs : List Bytes)
    → bytes_lt q p ≡ true
    → Increasing (q ∷ qs)
    → Increasing (q ∷ insert_path p qs)
unfolding insert_path
insert_path-Increasing_below p q [] h k = (h, tt)
insert_path-Increasing_below p q (r ∷ rs) h k = elim (Bool-cases (bytes_eq p r)) [
  | inl e ↦ rw (e, Increasing) k
  | inr e ↦ elim (Bool-cases (bytes_lt p r)) [
    | inl l ↦ rw (e, l, Increasing) (h, (l, k.1))
    | inr l ↦
        rw (e, l, Increasing)
          (k.0, insert_path-Increasing_below p r rs (bytes_lt_total p r e l) k.1)
  ]
]

insert_path-Increasing :
    (p : Bytes) (qs : List Bytes) → Increasing qs → Increasing (insert_path p qs)
unfolding insert_path
insert_path-Increasing p [] k = tt
insert_path-Increasing p (q ∷ qs) k = elim (Bool-cases (bytes_eq p q)) [
  | inl e ↦ rw (e, Increasing) k
  | inr e ↦ elim (Bool-cases (bytes_lt p q)) [
    | inl l ↦ rw (e, l, Increasing) (l, k)
    | inr l ↦ rw (e, l, Increasing) (insert_path-Increasing_below p q qs (bytes_lt_total p q e l) k)
  ]
]

sorted_paths-Increasing : (groups : List (Bytes × Edit)) → Increasing (sorted_paths groups)
unfolding sorted_paths
sorted_paths-Increasing [] = tt
sorted_paths-Increasing ((p, e) ∷ rest) =
    insert_path-Increasing p (sorted_paths rest) (sorted_paths-Increasing rest)

contains-insert_path :
    (k p : Bytes) (qs : List Bytes)
    → contains k (insert_path p qs) ≡ (bytes_eq k p || contains k qs)
unfolding insert_path
contains-insert_path k p [] = refl
contains-insert_path k p (q ∷ qs) = elim (Bool-cases (bytes_eq p q)) [
  | inl e ↦ rw (e, ← eq_of_bytes_eq p q e) (ground arith)
  | inr e ↦ elim (Bool-cases (bytes_lt p q)) [
    | inl l ↦ rw (e, l) refl
    | inr l ↦ rw (e, l) (ground (arith, contains-insert_path k p qs))
  ]
]

-- Every edit has its canonical path, and that path is among the sorted ones.
abbrev pub AllListed : List Bytes → List (Bytes × Edit) → Type 0
AllListed paths [] = Unit
AllListed paths ((p, e) ∷ rest) =
    (canonical_relative e.path ≡ some p) × (contains p paths ≡ true) × AllListed paths rest

AllListed-insert_path :
    (p : Bytes) (paths : List Bytes) (groups : List (Bytes × Edit))
    → AllListed paths groups
    → AllListed (insert_path p paths) groups
AllListed-insert_path p paths [] h = tt
AllListed-insert_path p paths ((q, e) ∷ rest) (c, l, r) =
    (c, ground (arith, contains-insert_path q p paths), AllListed-insert_path p paths rest r)

abbrev pub edits_of : List (Bytes × Edit) → List Edit
edits_of [] = []
edits_of ((p, e) ∷ rest) = e ∷ edits_of rest

-- The groups hold every edit, in order, each under its canonical path.
record Grouped (edits : List Edit) (groups : List (Bytes × Edit)) : Type 0 where
  same_edits : edits_of groups ≡ edits
  listed : AllListed (sorted_paths groups) groups

grouped-Grouped :
    (edits : List Edit) (groups : List (Bytes × Edit))
    → grouped edits ≡ accepted groups
    → Grouped edits groups
unfolding grouped sorted_paths
grouped-Grouped [] groups h =
    subst (Grouped []) (accepted-injective h) (record { same_edits = refl; listed = tt })
grouped-Grouped (e ∷ es) groups h =
    let (path, hp, h1) = >>=-eq-accepted (or_err path_escape (canonical_relative e.path)) _ h in
    let (rest, hr, h2) = >>=-eq-accepted (grouped es) _ h1 in
    let ih = grouped-Grouped es rest hr in
    subst (Grouped (e ∷ es)) (accepted-injective h2) (record {
      same_edits = ap (λ t. e ∷ t) ih.same_edits;
      listed = (
        or_err-eq-accepted path_escape (canonical_relative e.path) hp,
        contains-insert_path path path (sorted_paths rest) ∙ rw bytes_eq_refl,
        AllListed-insert_path path (sorted_paths rest) rest ih.listed,
      );
    })

module _ (host : Host) (root : Bytes) (groups : List (Bytes × Edit)) where
  preview_file-Previewed :
      (path : Bytes) (f : FilePreview)
      → preview_file host root groups path ≡ accepted f
      → (f.path ≡ path) × Previewed host root groups f
  unfolding preview_file
  preview_file-Previewed path f h =
      let (place, hp, h1) =
        >>=-eq-accepted (or_err path_escape (resolve_path host.links root path)) _ h in
      let (original, ho, h2) = >>=-eq-accepted (or_err read_failed (host.read place)) _ h1 in
      let (result, hr, h3) =
        >>=-eq-accepted (edit_file path (host.digest original) original (group_of path groups)) _
          h2 in
      subst (λ x. (x.path ≡ path) × Previewed host root groups x) (accepted-injective h3)
        (
          refl,
          record {
            place = place;
            place_eq = or_err-eq-accepted path_escape (resolve_path host.links root path) hp;
            original = original;
            read_eq = or_err-eq-accepted read_failed (host.read place) ho;
            old_hash_eq = refl;
            new_hash_eq = refl;
            edited =
                edit_file-Edited path (host.digest original) original (group_of path groups) result
                  hr;
          },
        )

  preview_files-Previewed :
      (paths : List Bytes) (fs : List FilePreview)
      → preview_files host root groups paths ≡ accepted fs
      → AllPreviewed host root groups paths fs
  unfolding preview_files
  preview_files-Previewed [] fs h =
      subst (AllPreviewed host root groups []) (accepted-injective h) tt
  preview_files-Previewed (p ∷ ps) fs h =
      let (f, hf, h1) = >>=-eq-accepted (preview_file host root groups p) _ h in
      let (rest, hr, h2) = >>=-eq-accepted (preview_files host root groups ps) _ h1 in
      let (path_eq, made) = preview_file-Previewed p f hf in
      subst (AllPreviewed host root groups (p ∷ ps)) (accepted-injective h2)
        (path_eq, made, preview_files-Previewed ps rest hr)

-- A patch that `prepare` accepts.
pub record Prepared (host : Host) (root : Bytes) (edits : List Edit) (fs : List FilePreview)
    : Type 0 where
  pub groups : List (Bytes × Edit)
  pub same_edits : edits_of groups ≡ edits
  pub listed : AllListed (sorted_paths groups) groups
  pub increasing : Increasing (sorted_paths groups)
  pub previewed : AllPreviewed host root groups (sorted_paths groups) fs

-- If `prepare` accepts a patch, then every edit has a canonical path and belongs to the preview of that
-- path; the previewed paths increase strictly, one preview for each; and each preview is the bytes
-- that were read from the path's place in the workspace with that path's edits spliced in, together
-- with the hashes of the bytes before and after.
pub prepare-Prepared :
    (host : Host) (root : Bytes) (edits : List Edit) (fs : List FilePreview)
    → prepare host root edits ≡ accepted fs
    → Prepared host root edits fs
unfolding prepare
prepare-Prepared host root edits fs h = elim (Bool-cases (bytes_eq (trim_space root) [])) [
  | inl e ↦ absurd (ground arith)
  | inr e ↦ from_groups (grouped edits) refl (
      subst
        (λ b.
          (if b then refused path_escape else preview_groups host root (grouped edits))
          ≡ accepted fs)
        e h)
]
  where
    from_groups :
        (r : Checked (List (Bytes × Edit)))
        → grouped edits ≡ r
        → preview_groups host root r ≡ accepted fs
        → Prepared host root edits fs
    from_groups (refused x) e k = cc
    from_groups (accepted groups) e k =
        let g = grouped-Grouped edits groups e in
        record {
          groups = groups;
          same_edits = g.same_edits;
          listed = g.listed;
          increasing = sorted_paths-Increasing groups;
          previewed = preview_files-Previewed host root groups (sorted_paths groups) fs k;
        }
