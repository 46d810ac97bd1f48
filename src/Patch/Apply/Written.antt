-- ===== src/Patch/Apply/Written.antt =====
-- patch.go, `ApplyPatch`: which files a call changes, and to what.
use ikemen_devtools.Prelude.{
  ◌≡◌, refl, sym, ap, ◌∙◌, ◌⊎◌, inl, inr, true, false, Option, none, some, List, [], ◌∷◌,
  Bool-cases,
}
use mathlib.Core.Path.{subst}
use ikemen_devtools.Prelude.Text.{Bytes, bytes_eq, eq_of_bytes_eq, bytes_eq_refl}
use ikemen_devtools.Patch.Paths.{Links, resolved, location, base_of, resolve_path}
use ikemen_devtools.Patch.Paths.Confined.{IsBelow, LeadsBelow, Below, resolve_path-Below}
use ikemen_devtools.Patch.Edits.{Edit, write_failed, Checked, accepted, refused}
use ikemen_devtools.Patch.Prepare.{Host, FilePreview, prepare}
use ikemen_devtools.Patch.Prepare.Previews.{AllPreviewed, prepare-Prepared}
use ikemen_devtools.Patch.Apply.{
  Store, WriteResult, writes, breaks, write_any, write, Applied, go_on, try_write, read_at,
  write_at, apply_files, apply_checked, apply_patch,
}

-- `real` is the real path of the file that the preview names, links followed.
abbrev pub RealOf : Links → Bytes → FilePreview → Bytes → Type 0
RealOf links root f real =
    (place : Bytes) × (resolve_path links root f.path ≡ some place)
    × (links.eval_symlinks place ≡ some real)

abbrev AllReal : Links → Bytes → List FilePreview → Type 0
AllReal links root [] = Unit
AllReal links root (f ∷ fs) = ((real : Bytes) × RealOf links root f real) × AllReal links root fs

-- `q` is the real path of one of the previews.
abbrev Touched : Links → Bytes → List FilePreview → Bytes → Type 0
Touched links root [] q = ⊥
Touched links root (f ∷ fs) q = RealOf links root f q ⊎ Touched links root fs q

-- `q` is the real path of one of the previews, and holds its bytes.
abbrev pub From : Links → Bytes → List FilePreview → Bytes → Store → Type 0
From links root [] q after = ⊥
From links root (f ∷ fs) q after =
    (RealOf links root f q × (after q ≡ some f.bytes)) ⊎ From links root fs q after

abbrev pub AllFrom : Links → Bytes → List FilePreview → List FilePreview → Store → Type 0
AllFrom links root all [] after = Unit
AllFrom links root all (f ∷ fs) after =
    ((real : Bytes) × RealOf links root f real × From links root all real after)
    × AllFrom links root all fs after

-- The real path `q` lies below the real root of the workspace: it is where the links of an accepted path
-- lead.
pub record Inside (links : Links) (root q : Bytes) : Type 0 where
  pub base : Bytes
  pub base_eq : base_of links root ≡ some base
  pub relative : Bytes
  pub path : Bytes
  pub path_eq : resolve_path links root relative ≡ some path
  pub real_eq : links.eval_symlinks path ≡ some q
  pub below : IsBelow base q

RealOf-Inside :
    (links : Links) (root : Bytes) (f : FilePreview) (q : Bytes)
    → RealOf links root f q
    → Inside links root q
RealOf-Inside links root f q (place, place_eq, real_eq) =
    let b : Below links root f.path place = resolve_path-Below links root f.path place place_eq in
    record {
      base = b.base;
      base_eq = b.base_eq;
      relative = f.path;
      path = place;
      path_eq = place_eq;
      real_eq = real_eq;
      below = subst (LeadsBelow b.base place) real_eq b.leads_below;
    }

Touched-Inside :
    (links : Links) (root : Bytes) (fs : List FilePreview) (q : Bytes)
    → Touched links root fs q
    → Inside links root q
Touched-Inside links root [] q h = elim h [ ]
Touched-Inside links root (f ∷ fs) q (inl h) = RealOf-Inside links root f q h
Touched-Inside links root (f ∷ fs) q (inr h) = Touched-Inside links root fs q h

write_any-other :
    (store : Store) (path : Bytes) (left : Option Bytes) (q : Bytes)
    → bytes_eq q path ≡ false
    → write_any store path left q ≡ store q
write_any-other store path left q e = rw e refl

write-same :
    (store : Store) (path bytes q : Bytes)
    → bytes_eq q path ≡ true
    → write store path bytes q ≡ some bytes
write-same store path bytes q e = rw e refl

-- A file that could be read has a real path.
read_at-real :
    (links : Links) (store : Store) (place original : Bytes)
    → read_at links store place ≡ some original
    → (real : Bytes) × (links.eval_symlinks place ≡ some real)
unfolding read_at
read_at-real links store place original h = real_of (links.eval_symlinks place) refl h
  where
    real_of :
        (o : Option Bytes)
        → links.eval_symlinks place ≡ o
        → elim o [ none ↦ none | some real ↦ store real ] ≡ some original
        → (real : Bytes) × (links.eval_symlinks place ≡ some real)
    real_of none e k = cc
    real_of (some real) e k = (real, e)

module _ (links : Links) (digest : Bytes → Bytes) (outcome : Bytes → Bytes → WriteResult)
    (root : Bytes) where
  abbrev host_of : Store → Host
  host_of store = record { links = links; read = read_at links store; digest = digest }

  AllPreviewed-AllReal :
      (store : Store) (groups : List (Bytes × Edit)) (paths : List Bytes) (fs : List FilePreview)
      → AllPreviewed (host_of store) root groups paths fs
      → AllReal links root fs
  AllPreviewed-AllReal store groups [] [] h = tt
  AllPreviewed-AllReal store groups [] (f ∷ fs) h = elim h [ ]
  AllPreviewed-AllReal store groups (p ∷ ps) [] h = elim h [ ]
  AllPreviewed-AllReal store groups (p ∷ ps) (f ∷ fs) (path_eq, previewed, rest) =
      let (real, real_eq) =
        read_at-real links store previewed.place previewed.original previewed.read_eq in
      (
        (real, (previewed.place, previewed.place_eq, real_eq)),
        AllPreviewed-AllReal store groups ps fs rest,
      )

  prepare-AllReal :
      (store : Store) (edits : List Edit) (fs : List FilePreview)
      → prepare (host_of store) root edits ≡ accepted fs
      → AllReal links root fs
  prepare-AllReal store edits fs h =
      let p = prepare-Prepared (host_of store) root edits fs h in
      AllPreviewed-AllReal store p.groups _ fs p.previewed

  abbrev files_from : List FilePreview → Store → Applied
  files_from fs s = apply_files links digest outcome root s fs

  -- A round of the loop writes at the real path.
  apply_files-try_write :
      (f : FilePreview) (fs : List FilePreview) (store : Store) (real : Bytes)
      → RealOf links root f real
      → files_from (f ∷ fs) store
        ≡ go_on (files_from fs) (try_write store real f.bytes (outcome real f.bytes))
  unfolding apply_files write_at location
  apply_files-try_write f fs store real (place, place_eq, real_eq) =
      ap (λ o. go_on (files_from fs) (write_at links digest outcome root store o f)) place_eq
      ∙ ap
          (λ o. go_on (files_from fs) (
            try_write store (resolved links place o) f.bytes
              (outcome (resolved links place o) f.bytes)))
          real_eq

  -- Every outcome: a file that is not the real path of a preview stays as it was.
  apply_files-Touched :
      (fs : List FilePreview) (store : Store) (q : Bytes)
      → AllReal links root fs
      → ((files_from fs store).1 q ≡ store q) ⊎ Touched links root fs q
  unfolding apply_files
  apply_files-Touched [] store q h = inl refl
  apply_files-Touched (f ∷ fs) store q ((real, r), rs) =
      subst (λ a. (a.1 q ≡ store q) ⊎ Touched links root (f ∷ fs) q)
        (sym (apply_files-try_write f fs store real r))
        (elim (Bool-cases (bytes_eq q real)) [
          | inl b ↦ inr (inl (subst (RealOf links root f) (sym (eq_of_bytes_eq q real b)) r))
          | inr b ↦ elsewhere b (outcome real f.bytes) (λ s. apply_files-Touched fs s q rs)
        ])
    where
      elsewhere :
          bytes_eq q real ≡ false
          → (w : WriteResult)
          → ((s : Store) → ((files_from fs s).1 q ≡ s q) ⊎ Touched links root fs q)
          → ((go_on (files_from fs) (try_write store real f.bytes w)).1 q ≡ store q)
            ⊎ Touched links root (f ∷ fs) q
      elsewhere b (breaks left) rest = inl (write_any-other store real left q b)
      elsewhere b writes rest = elim (rest (write store real f.bytes)) [
        | inl kept ↦ inl (kept ∙ write_any-other store real (some f.bytes) q b)
        | inr later ↦ inr (inr later)
      ]

  try_write-done :
      (fs : List FilePreview) (store : Store) (real bytes : Bytes) (w : WriteResult) (after : Store)
      → go_on (files_from fs) (try_write store real bytes w) ≡ (none, after)
      → files_from fs (write store real bytes) ≡ (none, after)
  try_write-done fs store real bytes writes after h = h
  try_write-done fs store real bytes (breaks left) after h =
      absurd (failed (write_any store real left) h)
    where
      failed : (s : Store) → Path Applied (some write_failed, s) (none, after) → ⊥
      failed s e = cc

  -- After a round without error the rest of the loop has none.
  apply_files-rest :
      (f : FilePreview) (fs : List FilePreview) (store after : Store) (real : Bytes)
      → RealOf links root f real
      → files_from (f ∷ fs) store ≡ (none, after)
      → files_from fs (write store real f.bytes) ≡ (none, after)
  apply_files-rest f fs store after real r h =
      try_write-done fs store real f.bytes (outcome real f.bytes) after
        (sym (apply_files-try_write f fs store real r) ∙ h)

  apply_files-only :
      (fs : List FilePreview) (store after : Store) (q : Bytes)
      → AllReal links root fs
      → files_from fs store ≡ (none, after)
      → (after q ≡ store q) ⊎ From links root fs q after
  unfolding apply_files
  apply_files-only [] store after q h done = inl (ap (λ r. r.1 q) (sym done))
  apply_files-only (f ∷ fs) store after q ((real, r), rs) done =
      elim (apply_files-only fs (write store real f.bytes) after q rs
        (apply_files-rest f fs store after real r done)) [
          | inr later ↦ inr (inr later)
          | inl kept ↦ elim (Bool-cases (bytes_eq q real)) [
            | inl b ↦ inr (
                inl (
                  subst (RealOf links root f) (sym (eq_of_bytes_eq q real b)) r,
                  kept ∙ write-same store real f.bytes q b,
                ))
            | inr b ↦ inl (kept ∙ write_any-other store real (some f.bytes) q b)
          ]
        ]

  AllFrom-later :
      (f : FilePreview) (all fs : List FilePreview) (after : Store)
      → AllFrom links root all fs after
      → AllFrom links root (f ∷ all) fs after
  AllFrom-later f all [] after h = tt
  AllFrom-later f all (g ∷ fs) after h =
      ((h.0.0, h.0.1, inr h.0.2), AllFrom-later f all fs after h.1)

  apply_files-each :
      (fs : List FilePreview) (store after : Store)
      → AllReal links root fs
      → files_from fs store ≡ (none, after)
      → AllFrom links root fs fs after
  apply_files-each [] store after h done = tt
  apply_files-each (f ∷ fs) store after ((real, r), rs) done =
      let rest = apply_files-rest f fs store after real r done in
      let from : From links root (f ∷ fs) real after =
        elim (apply_files-only fs (write store real f.bytes) after real rs rest) [
          | inl kept ↦ inl (r, kept ∙ write-same store real f.bytes real (bytes_eq_refl real))
          | inr later ↦ inr later
        ] in
      (
        (real, r, from),
        AllFrom-later f fs fs after (apply_files-each fs (write store real f.bytes) after rs rest),
      )

  -- `ApplyPatch` changes no file outside the workspace, whether it succeeds or stops with an error, and
  -- whatever a write that fails leaves: every real path whose file is not as before is the one that the
  -- symbolic links of an accepted path lead to, and it lies below the real root of the workspace. The
  -- links are those that the package found, and no one else changes files during the call.
  pub apply_patch-Inside :
      (store : Store) (edits : List Edit) (q : Bytes)
      → ((apply_patch links digest outcome root store edits).1 q ≡ store q) ⊎ Inside links root q
  unfolding apply_patch apply_checked
  apply_patch-Inside store edits q = of_result (prepare (host_of store) root edits) refl
    where
      of_result :
          (r : Checked (List FilePreview))
          → prepare (host_of store) root edits ≡ r
          → ((apply_checked links digest outcome root store r).1 q ≡ store q) ⊎ Inside links root q
      of_result (refused x) e = inl refl
      of_result (accepted fs) e =
          elim (apply_files-Touched fs store q (prepare-AllReal store edits fs e)) [
            | inl kept ↦ inl kept
            | inr h ↦ inr (Touched-Inside links root fs q h)
          ]

  -- What a call that reports no error has done.
  pub record Written (store : Store) (edits : List Edit) (after : Store) : Type 0 where
    pub files : List FilePreview
    pub prepared : prepare (host_of store) root edits ≡ accepted files
    pub each : AllFrom links root files files after
    pub only : (q : Bytes) → (after q ≡ store q) ⊎ From links root files q after

  -- If `ApplyPatch` reports no error, then `prepare` accepted the patch; the real path of every preview,
  -- symbolic links followed, holds the bytes of a preview with that real path; and the file of every
  -- other real path is as it was.
  pub apply_patch-Written :
      (store : Store) (edits : List Edit) (after : Store)
      → apply_patch links digest outcome root store edits ≡ (none, after)
      → Written store edits after
  unfolding apply_patch apply_checked
  apply_patch-Written store edits after h = from_result (prepare (host_of store) root edits) refl h
    where
      from_result :
          (r : Checked (List FilePreview))
          → prepare (host_of store) root edits ≡ r
          → apply_checked links digest outcome root store r ≡ (none, after)
          → Written store edits after
      from_result (refused x) e k = cc
      from_result (accepted fs) e k =
          let real = prepare-AllReal store edits fs e in
          record {
            files = fs;
            prepared = e;
            each = apply_files-each fs store after real k;
            only = λ q. apply_files-only fs store after q real k;
          }
