-- ===== src/Patch/Transaction/Rollback.antt =====
-- patch.go, `rollback`: what becomes of one file that existed before.
use ikemen_devtools.Prelude.{
  ℕ, ◌+◌, suc, ◌≡◌, refl, sym, ap, ◌∙◌, ◌⊎◌, inl, inr, arith, false, some, List, [], ◌∷◌, ◌++◌,
  Bool-cases, if◌then◌else◌,
}
use mathlib.Core.Path.{subst}
use ikemen_devtools.Prelude.Text.{Bytes, bytes_eq, eq_of_bytes_eq}
use ikemen_devtools.Patch.Transaction.{
  File, Files, Disk, Faults, tick, after, op, erase, remove, rename, backup_of, rollback,
}
use ikemen_devtools.Patch.Transaction.Steps.{
  ignored-rule, erase_other, moved_other, moved_to, rename-eq, backup_of-ne, op-done, rename-done,
}

-- How often the path stands in the list.
abbrev pub count : Bytes → List Bytes → ℕ
count q [] = 0
count q (p ∷ ps) = (if bytes_eq q p then 1 else 0) + count q ps

pub count-snoc :
    (q : Bytes) (ps : List Bytes) (p : Bytes)
    → count q (ps ++ p ∷ []) ≡ (if bytes_eq q p then 1 else 0) + count q ps
count-snoc q [] p = refl
count-snoc q (r ∷ ps) p = omega (arith, count-snoc q ps p)

-- The paths `q` and `p` and their backups do not get in each other's way.
pub record Apart (q p : Bytes) : Type 0 where
  pub not_backup : bytes_eq q (backup_of p) ≡ false
  pub backup_not : bytes_eq (backup_of q) p ≡ false

abbrev pub AllApart : Bytes → List Bytes → Type 0
AllApart q [] = Unit
AllApart q (p ∷ ps) = Apart q p × AllApart q ps

pub AllApart-snoc :
    (q : Bytes) (ps : List Bytes) (p : Bytes)
    → AllApart q ps
    → Apart q p
    → AllApart q (ps ++ p ∷ [])
AllApart-snoc q [] p h a = (a, tt)
AllApart-snoc q (r ∷ ps) p h a = (h.0, AllApart-snoc q ps p h.1 a)

-- The file stands at its path or at its backup's.
abbrev pub Kept : Bytes → File → Files → Type 0
Kept q f files = (files q ≡ some f) ⊎ (files (backup_of q) ≡ some f)

-- It stands at its path if it was not moved away, and at its backup's path if it was.
abbrev pub Saved : Bytes → File → List Bytes → Files → Type 0
Saved q f away files =
    ((count q away ≡ 0) × (files q ≡ some f))
    ⊎ ((count q away ≡ 1) × (files (backup_of q) ≡ some f))

-- Two sets of files that agree at the path and at its backup's.
pub record Same (q : Bytes) (files files' : Files) : Type 0 where
  pub own : files' q ≡ files q
  pub copy : files' (backup_of q) ≡ files (backup_of q)

pub Same-refl : (q : Bytes) (files : Files) → Same q files files
Same-refl q files = record { own = refl; copy = refl }

pub Same-trans : (q : Bytes) (a b c : Files) → Same q a b → Same q b c → Same q a c
Same-trans q a b c h k = record { own = k.own ∙ h.own; copy = k.copy ∙ h.copy }

pub Same-erase :
    (q p : Bytes) (files : Files)
    → bytes_eq q p ≡ false
    → bytes_eq (backup_of q) p ≡ false
    → Same q files (erase p files)
Same-erase q p files h k = record {
  own = erase_other p q files h;
  copy = erase_other p (backup_of q) files k;
}

pub Same-rename :
    (q from to : Bytes) (files files' : Files)
    → rename from to files ≡ some files'
    → bytes_eq q from ≡ false
    → bytes_eq q to ≡ false
    → bytes_eq (backup_of q) from ≡ false
    → bytes_eq (backup_of q) to ≡ false
    → Same q files files'
Same-rename q from to files files' e h1 h2 h3 h4 =
    let (f, at, eq) = rename-eq from to files files' e in
    subst (Same q files) (sym eq) (record {
      own = moved_other from to q f files h1 h2;
      copy = moved_other from to (backup_of q) f files h3 h4;
    })

pub Saved-Same :
    (q : Bytes) (f : File) (away : List Bytes) (a b : Files)
    → Same q a b
    → Saved q f away a
    → Saved q f away b
Saved-Same q f away a b s (inl (n, h)) = inl (n, s.own ∙ h)
Saved-Same q f away a b s (inr (n, h)) = inr (n, s.copy ∙ h)

-- Undoing the replacement of another file.
undo_other-Same :
    (undo : Faults) (q p : Bytes) (d : Disk)
    → bytes_eq q p ≡ false
    → Apart q p
    → Same q d.files (op undo (rename (backup_of p) p) (op undo (remove p) d).1).1.files
undo_other-Same undo q p d ne a =
    let backups = backup_of-ne q p ne in
    let renamed : (d1 : Disk)
        → Same q d.files d1.files
        → Same q d.files (op undo (rename (backup_of p) p) d1).1.files =
      λ d1 h.
        ignored-rule (λ d2. Same q d.files d2.files) undo d1 (rename (backup_of p) p)
          (λ files e.
            Same-trans q d.files d1.files files h
              (Same-rename q (backup_of p) p d1.files files e a.not_backup ne backups a.backup_not))
          h in
    ignored-rule (λ d1. Same q d.files (op undo (rename (backup_of p) p) d1).1.files) undo d
      (remove p)
      (λ files e.
        let eq : erase p d.files ≡ files = ground arith in
        renamed (after d files)
          (subst (Same q d.files) eq (Same-erase q p d.files ne a.backup_not)))
      (renamed (tick d) (Same-refl q d.files))

-- Undoing the replacement of the file itself, whatever is refused.
undo_own-Kept :
    (undo : Faults) (q : Bytes) (f : File) (d : Disk)
    → Apart q q
    → d.files (backup_of q) ≡ some f
    → Kept q f (op undo (rename (backup_of q) q) (op undo (remove q) d).1).1.files
undo_own-Kept undo q f d a h =
    let renamed : (d1 : Disk)
        → d1.files (backup_of q) ≡ some f
        → Kept q f (op undo (rename (backup_of q) q) d1).1.files =
      λ d1 k.
        ignored-rule (λ d2. Kept q f d2.files) undo d1 (rename (backup_of q) q)
          (λ files e.
            let (g, at, eq) = rename-eq (backup_of q) q d1.files files e in
            let same : g ≡ f = ground arith in
            inl (
              subst (λ fs. fs q ≡ some f) (sym eq)
                (moved_to (backup_of q) q g d1.files ∙ ap some same)))
          (inr k) in
    ignored-rule (λ d1. Kept q f (op undo (rename (backup_of q) q) d1).1.files) undo d (remove q)
      (λ files e.
        let eq : erase q d.files ≡ files = ground arith in
        renamed (after d files) (
          subst (λ fs. fs (backup_of q) ≡ some f) eq
            (erase_other q (backup_of q) d.files a.backup_not ∙ h)))
      (renamed (tick d) h)

-- Nothing refused: the file is back.
undo_own-back :
    (undo : Faults) (q : Bytes) (f : File) (d : Disk)
    → ((k : ℕ) → undo k ≡ false)
    → Apart q q
    → d.files (backup_of q) ≡ some f
    → (op undo (rename (backup_of q) q) (op undo (remove q) d).1).1.files q ≡ some f
undo_own-back undo q f d calm a h =
    let gone = op-done undo (remove q) d (erase q d.files) (calm d.clock) refl in
    let copy : erase q d.files (backup_of q) ≡ some f =
      erase_other q (backup_of q) d.files a.backup_not ∙ h in
    let back =
      op-done undo (rename (backup_of q) q) (after d (erase q d.files)) _ (calm (suc d.clock))
        (rename-done (backup_of q) q f (erase q d.files) copy) in
    rw (gone, back) (moved_to (backup_of q) q f (erase q d.files))

module _ (undo : Faults) (q : Bytes) (f : File) (own : Apart q q) where
  abbrev Loose : List Bytes → Files → Type 0
  Loose away files =
      ((count q away ≡ 0) × Kept q f files) ⊎ ((count q away ≡ 1) × (files (backup_of q) ≡ some f))

  Loose-Same : (away : List Bytes) (a b : Files) → Same q a b → Loose away a → Loose away b
  Loose-Same away a b s (inl (n, inl h)) = inl (n, inl (s.own ∙ h))
  Loose-Same away a b s (inl (n, inr h)) = inl (n, inr (s.copy ∙ h))
  Loose-Same away a b s (inr (n, h)) = inr (n, s.copy ∙ h)

  rollback-Loose :
      (away : List Bytes) (d : Disk)
      → AllApart q away
      → Loose away d.files
      → Kept q f (rollback undo away d).files
  unfolding rollback
  rollback-Loose [] d a (inl (n, h)) = h
  rollback-Loose [] d a (inr (n, h)) = inr h
  rollback-Loose (p ∷ ps) d a h = elim (Bool-cases (bytes_eq q p)) [
    | inr ne ↦
        let same = undo_other-Same undo q p d ne a.0 in
        let count_eq : count q (p ∷ ps) ≡ count q ps = ground arith in
        rollback-Loose ps (op undo (rename (backup_of p) p) (op undo (remove p) d).1).1 a.1 (
          Loose-Same ps d.files _ same (
            subst (λ n. ((n ≡ 0) × Kept q f d.files) ⊎ ((n ≡ 1) × (d.files (backup_of q) ≡ some f)))
              count_eq h))
    | inl eq ↦
        let p_eq = eq_of_bytes_eq q p eq in
        elim h [
          | inl (n, k) ↦ absurd (ground arith)
          | inr (n, k) ↦
              let none_left : count q ps ≡ 0 = ground arith in
              let kept = undo_own-Kept undo q f d own k in
              rollback-Loose ps (op undo (rename (backup_of p) p) (op undo (remove p) d).1).1 a.1 (
                inl (
                  none_left,
                  subst
                      (λ r.
                        Kept q f
                          (op undo (rename (backup_of r) r) (op undo (remove r) d).1).1.files)
                      p_eq kept,
                ))
        ]
  ]

  -- Whatever is refused, the rollback loses no file.
  pub rollback-Kept :
      (away : List Bytes) (d : Disk)
      → AllApart q away
      → Saved q f away d.files
      → Kept q f (rollback undo away d).files
  rollback-Kept away d a (inl (n, h)) = rollback-Loose away d a (inl (n, inl h))
  rollback-Kept away d a (inr h) = rollback-Loose away d a (inr h)

  -- If nothing is refused, the rollback puts every file back.
  pub rollback-restores :
      (away : List Bytes) (d : Disk)
      → ((k : ℕ) → undo k ≡ false)
      → AllApart q away
      → Saved q f away d.files
      → (rollback undo away d).files q ≡ some f
  unfolding rollback
  rollback-restores [] d calm a (inl (n, h)) = h
  rollback-restores [] d calm a (inr (n, h)) = absurd (ground arith)
  rollback-restores (p ∷ ps) d calm a h = elim (Bool-cases (bytes_eq q p)) [
    | inr ne ↦
        let same = undo_other-Same undo q p d ne a.0 in
        let count_eq : count q (p ∷ ps) ≡ count q ps = ground arith in
        rollback-restores ps (op undo (rename (backup_of p) p) (op undo (remove p) d).1).1 calm a.1
          (Saved-Same q f ps d.files _ same (
            subst
              (λ n. ((n ≡ 0) × (d.files q ≡ some f)) ⊎ ((n ≡ 1) × (d.files (backup_of q) ≡ some f)))
              count_eq h))
    | inl eq ↦
        let p_eq = eq_of_bytes_eq q p eq in
        elim h [
          | inl (n, k) ↦ absurd (ground arith)
          | inr (n, k) ↦
              let none_left : count q ps ≡ 0 = ground arith in
              let back = undo_own-back undo q f d calm own k in
              rollback-restores ps (op undo (rename (backup_of p) p) (op undo (remove p) d).1).1
                calm a.1
                (inl (
                  none_left,
                  subst
                      (λ r.
                        (op undo (rename (backup_of r) r) (op undo (remove r) d).1).1.files q
                        ≡ some f)
                      p_eq back,
                ))
        ]
  ]
