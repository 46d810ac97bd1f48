-- ===== src/Patch/Transaction/Steps.antt =====
-- patch.go, `ApplyAtomic`: rules for one operation, which may be refused.
use ikemen_devtools.Prelude.{
  ◌≡◌, refl, true, false, Option, none, some, [], ◌∷◌, ◌++◌, length, arith, Bool-cases,
  Option-cases, inl, inr, length-append,
}
use ikemen_devtools.Prelude.Text.{Bytes, bytes_eq, bytes_eq_refl, eq_of_bytes_eq}
use ikemen_devtools.Patch.Transaction.{
  File, Files, Disk, Faults, tick, after, op, attempt, put, erase, moved, stat, rename,
  write_journal, left_journal, Journal, backup_of, backup_suffix,
}

-- What holds of both continuations holds of an attempt.
pub op-rule {ℓ κ} :
    {R : Type ℓ} (P : R → Type κ) (faults : Faults) (d : Disk) (good bad : Disk → R)
    (effect : Files → Option Files)
    → ((files : Files) → effect d.files ≡ some files → P (good (after d files)))
    → P (bad (tick d))
    → P (attempt (op faults effect d) good bad)
unfolding op
op-rule P faults d good bad effect ok no_op = elim (Bool-cases (faults d.clock)) [
  | inl e ↦ rw e no_op
  | inr e ↦ elim (Option-cases (effect d.files)) [
    | inl n ↦ rw (e, n) no_op
    | inr (files, s) ↦ rw (e, s) (ok files s)
  ]
]

-- An operation whose error is ignored.
pub ignored-rule {κ} :
    (P : Disk → Type κ) (faults : Faults) (d : Disk) (effect : Files → Option Files)
    → ((files : Files) → effect d.files ≡ some files → P (after d files))
    → P (tick d)
    → P (op faults effect d).1
unfolding op
ignored-rule P faults d effect ok no_op = elim (Bool-cases (faults d.clock)) [
  | inl e ↦ rw e no_op
  | inr e ↦ elim (Option-cases (effect d.files)) [
    | inl n ↦ rw (e, n) no_op
    | inr (files, s) ↦ rw (e, s) (ok files s)
  ]
]

pub write_journal-rule {ℓ κ} :
    {R : Type ℓ} (P : R → Type κ) (faults : Faults) (j : Journal) (d : Disk) (good bad : Disk → R)
    → P (good (record (tick d) { journal = some j }))
    → P (bad (record (tick d) { journal = left_journal d }))
    → P (attempt (write_journal faults j d) good bad)
unfolding write_journal
write_journal-rule P faults j d good bad ok no_op = elim (Bool-cases (faults d.clock)) [
  | inl e ↦ rw e no_op
  | inr e ↦ rw e ok
]

pub put_other :
    (p q : Bytes) (f : File) (files : Files) → bytes_eq q p ≡ false → put p f files q ≡ files q
put_other p q f files h = rw h refl

pub put_own : (p : Bytes) (f : File) (files : Files) → put p f files p ≡ some f
put_own p f files = rw (bytes_eq_refl p) refl

pub erase_other : (p q : Bytes) (files : Files) → bytes_eq q p ≡ false → erase p files q ≡ files q
erase_other p q files h = rw h refl

pub moved_other :
    (from to q : Bytes) (f : File) (files : Files)
    → bytes_eq q from ≡ false
    → bytes_eq q to ≡ false
    → moved from to f files q ≡ files q
moved_other from to q f files h k = rw (k, h) refl

pub moved_to : (from to : Bytes) (f : File) (files : Files) → moved from to f files to ≡ some f
moved_to from to f files = rw (bytes_eq_refl to) refl

-- What a rename that succeeded has done.
pub rename-eq :
    (from to : Bytes) (files files' : Files)
    → rename from to files ≡ some files'
    → (f : File) × (files from ≡ some f) × (files' ≡ moved from to f files)
rename-eq from to files files' h = elim (Option-cases (files from)) [
  | inl e ↦ absurd (ground arith)
  | inr (f, e) ↦ (f, e, ground arith)
]

pub stat-eq :
    (path : Bytes) (files files' : Files)
    → stat path files ≡ some files'
    → (f : File) × (files path ≡ some f) × (files' ≡ files)
stat-eq path files files' h = elim (Option-cases (files path)) [
  | inl e ↦ absurd (ground arith)
  | inr (f, e) ↦ (f, e, ground arith)
]

-- Different texts at one file system entry each: a missing and a present entry differ.
pub present-ne-absent :
    (files : Files) (p q : Bytes) (f : File)
    → files p ≡ some f
    → files q ≡ none
    → bytes_eq p q ≡ false
present-ne-absent files p q f h k = elim (Bool-cases (bytes_eq p q)) [
  | inr e ↦ e
  | inl e ↦ absurd (let eq = eq_of_bytes_eq p q e in cc)
]

append_cancel : (s t u : Bytes) → length s ≡ length t → bytes_eq (s ++ u) (t ++ u) ≡ bytes_eq s t
unfolding bytes_eq
append_cancel [] [] u h = bytes_eq_refl u
append_cancel [] (b ∷ t) u h = absurd (omega arith)
append_cancel (a ∷ s) [] u h = absurd (omega arith)
append_cancel (a ∷ s) (b ∷ t) u h = rw (append_cancel s t u (omega arith)) refl

length-bytes_eq : (s t : Bytes) → bytes_eq s t ≡ true → length s ≡ length t
length-bytes_eq s t h = let eq = eq_of_bytes_eq s t h in rw eq refl

-- Different files have different backups.
pub backup_of-ne :
    (p q : Bytes) → bytes_eq p q ≡ false → bytes_eq (backup_of p) (backup_of q) ≡ false
unfolding backup_of
backup_of-ne p q h = elim (Bool-cases (bytes_eq (p ++ backup_suffix) (q ++ backup_suffix))) [
  | inr e ↦ e
  | inl e ↦
      let sizes = length-bytes_eq (p ++ backup_suffix) (q ++ backup_suffix) e in
      let same : length p ≡ length q =
        omega (arith, length-append p backup_suffix, length-append q backup_suffix) in
      absurd (let step = append_cancel p q backup_suffix same in cc)
]

pub op-done :
    (faults : Faults) (effect : Files → Option Files) (d : Disk) (files : Files)
    → faults d.clock ≡ false
    → effect d.files ≡ some files
    → op faults effect d ≡ (true, after d files)
unfolding op
op-done faults effect d files h e = rw (h, e) refl

pub rename-done :
    (from to : Bytes) (f : File) (files : Files)
    → files from ≡ some f
    → rename from to files ≡ some (moved from to f files)
rename-done from to f files h = rw (h, rename) refl
