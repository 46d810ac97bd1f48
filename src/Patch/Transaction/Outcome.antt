-- ===== src/Patch/Transaction/Outcome.antt =====
-- patch.go, `ApplyAtomic`: all or nothing, file by file.
use ikemen_devtools.Prelude.{
  ℕ, ◌+◌, ◌≤◌, ◌≡◌, ◌≢◌, refl, ap, ◌∙◌, ◌⊎◌, inl, inr, arith, Bool, true, false, none, some, List,
  [], ◌∷◌, ◌++◌, length, length-append, Bool-cases, if◌then◌else◌,
}
use mathlib.Core.Path.{subst}
use ikemen_devtools.Prelude.Text.{Bytes, bytes_eq, eq_of_bytes_eq}
use ikemen_devtools.Patch.Paths.{Links, resolve_path}
use ikemen_devtools.Patch.Edits.{Edit, Checked, accepted, refused}
use ikemen_devtools.Patch.Prepare.{FilePreview, prepare}
use ikemen_devtools.Patch.Transaction.{
  File, Files, Disk, Faults, tick, after, erase, remove, backup_of, backup_suffix, Temp, Outcome,
  TransactionError, fail, rollback, drop_journal, drop_backups, commit, replace_files,
  replace_checked, bytes_at, apply_atomic, left_journal,
}
use ikemen_devtools.Patch.Transaction.Steps.{ignored-rule, write_journal-rule, erase_other}
use ikemen_devtools.Patch.Transaction.Rollback.{
  count, count-snoc, Apart, AllApart, AllApart-snoc, Kept, Saved, rollback-Kept, rollback-restores,
}
use ikemen_devtools.Patch.Transaction.Rounds.{
  NewNames, At, next_file, hits, ApartAt, replace_file-Q,
}

-- A path is no backup's path of its own.
pub Apart-self : (q : Bytes) → Apart q q
unfolding backup_of
Apart-self q = record { not_backup = longer q (q ++ backup_suffix) grown; backup_not = bigger }
  where
    grown : length (q ++ backup_suffix) ≡ length q + 11
    grown = length-append q backup_suffix

    longer : (s t : Bytes) → length t ≡ length s + 11 → bytes_eq s t ≡ false
    longer s t h = elim (Bool-cases (bytes_eq s t)) [
      | inr e ↦ e
      | inl e ↦ absurd (let eq = ap length (eq_of_bytes_eq s t e) in omega arith)
    ]

    bigger : bytes_eq (q ++ backup_suffix) q ≡ false
    bigger = elim (Bool-cases (bytes_eq (q ++ backup_suffix) q)) [
      | inr e ↦ e
      | inl e ↦
          absurd
            (let eq = ap length (eq_of_bytes_eq (q ++ backup_suffix) q e) in omega (arith, grown))
    ]

abbrev pub accepted_files : Checked (List FilePreview) → List FilePreview
accepted_files (refused e) = []
accepted_files (accepted fs) = fs

module _ (links : Links) (root q : Bytes) where
  -- How many previews have the place `q`.
  abbrev pub times : List FilePreview → ℕ
  times [] = 0
  times (f ∷ fs) = hits q (resolve_path links root f.path) + times fs

  -- No preview's place or backup is in the way of `q` and its backup.
  abbrev pub Clear : List FilePreview → Type 0
  Clear [] = Unit
  Clear (f ∷ fs) = ApartAt q (resolve_path links root f.path) × Clear fs

  -- What the file `q` holds behind the previews: the new bytes with its old mode if it is a place of one.
  abbrev pub final : File → List FilePreview → File → File
  final old [] v = v
  final old (f ∷ fs) v = final old fs (next_file q old (resolve_path links root f.path) f v)

module _ (links : Links) (temp : Temp) (faults undo : Faults) (root q : Bytes) (old : File)
    (G : Files → Type 0)
    (undone : (away : List Bytes) (d : Disk)
      → AllApart q away
      → Saved q old away d.files
      → G (rollback undo away d).files)
    (names : NewNames temp) (new : File) where
  -- No error and the new file, or an error and what a rollback leaves.
  abbrev Ended : Outcome → Type 0
  Ended r = ((r.0 ≡ none) × (r.1.files q ≡ some new)) ⊎ ((r.0 ≢ none) × G r.1.files)

  failing :
      (e : TransactionError) (away : List Bytes) (d : Disk)
      → AllApart q away
      → Saved q old away d.files
      → Ended (fail undo e away d)
  unfolding fail
  failing e away d a h = inr ((λ k. cc), undone away d a h)

  drop_backups-files :
      (away : List Bytes) (d : Disk)
      → AllApart q away
      → d.files q ≡ some new
      → (drop_backups links temp faults undo root away d).files q ≡ some new
  unfolding drop_backups
  drop_backups-files [] d a h = h
  drop_backups-files (p ∷ ps) d a h =
      ignored-rule (λ d1. (drop_backups links temp faults undo root ps d1).files q ≡ some new)
        faults d (remove (backup_of p))
        (λ files e.
          let eq : erase (backup_of p) d.files ≡ files = ground arith in
          drop_backups-files ps (after d files) a.1 (
            subst (λ fs. fs q ≡ some new) eq
              (erase_other (backup_of p) q d.files a.0.not_backup ∙ h)))
        (drop_backups-files ps (tick d) a.1 h)

  drop_journal-files :
      (b : Bool) (d : Disk) → (drop_journal links temp faults undo root b d).files q ≡ d.files q
  drop_journal-files true d = refl
  drop_journal-files false d = refl

  commit-Ended :
      (away : List Bytes) (d : Disk)
      → AllApart q away
      → d.files q ≡ some new
      → Ended (commit links temp faults undo root away d)
  unfolding commit
  commit-Ended away d a h = inl (
    refl,
    drop_journal-files (faults (drop_backups links temp faults undo root away d).clock) _
        ∙ drop_backups-files away d a h,
  )

  replace_files-Ended :
      (fs : List FilePreview) (away : List Bytes) (v : File) (d : Disk)
      → times links root q fs + count q away ≤ 1
      → Clear links root q fs
      → AllApart q away
      → At q old away v d.files
      → final links root q old fs v ≡ new
      → Ended (replace_files links temp faults undo root fs away d)
  unfolding replace_files
  replace_files-Ended [] away v d once clear apart h e =
      commit-Ended away d apart (h.here ∙ ap some e)
  replace_files-Ended (f ∷ fs) away v d once clear apart h e =
      replace_file-Q links temp faults undo root q old Ended failing (Apart-self q) names away apart
        (resolve_path links root f.path) f (replace_files links temp faults undo root fs) v d
        clear.0 (omega arith) h
        (λ p d' at a.
          let hit : hits q (resolve_path links root f.path) ≡ (if bytes_eq q p then 1 else 0) =
            rw at refl in
          replace_files-Ended fs (away ++ p ∷ []) _ d' (omega (arith, count-snoc q away p)) clear.1
            (AllApart-snoc q away p apart (subst (ApartAt q) at clear.0)) a e)

  replace_checked-Ended :
      (r : Checked (List FilePreview)) (d : Disk)
      → d.files q ≡ some old
      → times links root q (accepted_files r) ≤ 1
      → Clear links root q (accepted_files r)
      → final links root q old (accepted_files r) old ≡ new
      → Ended (replace_checked links temp faults undo root r d)
  unfolding replace_checked rollback
  replace_checked-Ended (refused e) d h once clear new_eq =
      inr ((λ k. cc), undone [] d tt (inl (refl, h)))
  replace_checked-Ended (accepted fs) d h once clear new_eq =
      write_journal-rule Ended faults _ d _ _
        (replace_files-Ended fs [] old _ (omega arith) clear tt
          (record { here = h; stands = inl (refl, refl) }) new_eq)
        (inr
          ((λ k. cc), undone [] (record (tick d) { journal = left_journal d }) tt (inl (refl, h))))

module _ (links : Links) (digest : Bytes → Bytes) (temp : Temp) (faults undo : Faults)
    (root : Bytes) (edits : List Edit) (d : Disk) (q : Bytes) (old : File) where
  -- The previews that `prepare` makes of the disk's files; none if it refuses the patch.
  abbrev pub previews_on : List FilePreview
  previews_on = accepted_files (
      prepare (record { links = links; read = λ p. bytes_at (d.files p); digest = digest }) root
        edits)

  abbrev pub result : Outcome
  result = apply_atomic links digest temp faults undo root edits d

  -- `ApplyAtomic` loses no file, whatever operations the system refuses and wherever the process stops. A
  -- file that existed before, that is the place of at most one preview, and that is not in the way of the backups:
  -- if there is no error, it holds the bytes of the preview with its old mode, or is as it was if it is no preview's place; if there is
  -- one, it stands unchanged at its path or at its backup's path.
  pub apply_atomic-Kept :
      d.files q ≡ some old
      → NewNames temp
      → times links root q previews_on ≤ 1
      → Clear links root q previews_on
      → ((result.0 ≡ none) × (result.1.files q ≡ some (final links root q old previews_on old)))
        ⊎ ((result.0 ≢ none) × Kept q old result.1.files)
  unfolding apply_atomic
  apply_atomic-Kept h names once clear =
      replace_checked-Ended links temp faults undo root q old (Kept q old)
        (λ away d1 a s. rollback-Kept undo q old (Apart-self q) away d1 a s) names _ _ d h once
        clear refl

  -- `ApplyAtomic` is all or nothing if no operation of the rollback is refused: where it ends with an
  -- error, every file that existed before is as it was, with its bytes and its mode (under the
  -- conditions on the file that it loses none under).
  pub apply_atomic-restores :
      d.files q ≡ some old
      → NewNames temp
      → times links root q previews_on ≤ 1
      → Clear links root q previews_on
      → ((k : ℕ) → undo k ≡ false)
      → ((result.0 ≡ none) × (result.1.files q ≡ some (final links root q old previews_on old)))
        ⊎ ((result.0 ≢ none) × (result.1.files q ≡ some old))
  unfolding apply_atomic
  apply_atomic-restores h names once clear calm =
      replace_checked-Ended links temp faults undo root q old (λ files. files q ≡ some old)
        (λ away d1 a s. rollback-restores undo q old (Apart-self q) away d1 calm a s) names _ _ d h
        once clear refl
