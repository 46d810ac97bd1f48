-- ===== src/Patch/Transaction/Samples.antt =====
-- Runs of `ApplyAtomic` and `Recover`, and the theorems of this part at inputs.
use ikemen_devtools.Prelude.{
  ℕ, ◌≡◌, ◌≢◌, refl, ap, ◌⊎◌, inl, inr, arith, false, Option, none, some, [], ◌∷◌, length,
  length-append, leb, if◌then◌else◌, Bool-cases,
}
use ikemen_devtools.Prelude.Text.{Bytes, codes, bytes_eq, bytes_lt, eq_of_bytes_eq}
use ikemen_devtools.FilePath.{
  split_slash, join_slash, clean, clean_parts, clean_part, go_up, elements, is_abs, join, rel,
  rel_rest, strip_common, has_prefix, trim_space,
}
use ikemen_devtools.Patch.Paths.{
  leads_out, canonical_trimmed, canonical_relative, location, inside_only, resolve_below, base_of,
  resolve_canonical, resolve_path,
}
use ikemen_devtools.Patch.Edits.{
  is_zero, line_starts, line_length, rune_start, column_byte, to_byte, line_byte_offsets,
  offsets_ok, positions_ok, validate_span, check_edit, check_edits, edit_less, insert_edit,
  sort_edits, has_overlap, replace, apply_edits, edit_file,
}
use ikemen_devtools.Patch.Prepare.{
  grouped, group_of, insert_path, sorted_paths, preview_file, preview_files, prepare,
}
use ikemen_devtools.Patch.Samples.{contents, host, two_edits}
use ikemen_devtools.Patch.Transaction.{
  File, Disk, replacing, Faults, Temp, Outcome, at_replace, backup_of, backup_suffix, op,
  write_journal, rollback, fail, swap_in, back_up, drop_staged, stage_file, create_temp,
  replace_file, drop_backups, commit, replace_files, replace_checked, apply_atomic, has_suffix,
  trim_suffix, finish_recovery, restore, recover,
}
use ikemen_devtools.Patch.Transaction.Rollback.{Kept}
use ikemen_devtools.Patch.Transaction.Rounds.{NewNames}
use ikemen_devtools.Patch.Transaction.Outcome.{apply_atomic-Kept, apply_atomic-restores}
use ikemen_devtools.Patch.Transaction.Restored.{Recovered, recover-Recovered}

-- The only temporary name is "t".
abbrev free : Option File → Option Bytes
free none = some (codes "t")
free (some f) = none

abbrev one_name : Temp
one_name files path = free (files (codes "t"))

free-none : (o : Option File) (name : Bytes) → free o ≡ some name → (o ≡ none) × (name ≡ codes "t")
free-none none name h = (refl, cc)
free-none (some f) name h = cc

backup_of-long : (p : Bytes) → bytes_eq (backup_of p) (codes "t") ≡ false
unfolding backup_of
backup_of-long p = elim (Bool-cases (bytes_eq (backup_of p) (codes "t"))) [
  | inr e ↦ e
  | inl e ↦ absurd (
      let eq = ap length (eq_of_bytes_eq (backup_of p) (codes "t") e) in
      omega (arith, length-append p backup_suffix))
]

one_name-NewNames : NewNames one_name
one_name-NewNames = record {
  is_new = λ files path name e. let (gone, eq) = free-none (files (codes "t")) name e in rw eq gone;
  no_backup = λ files path name p e.
      let (gone, eq) = free-none (files (codes "t")) name e in rw eq (backup_of-long p);
}

abbrev place : Bytes
place = codes "/w/b.cns"

abbrev old_file : File
old_file = record { bytes = contents; mode = 0o640 }

abbrev disk : Disk
disk = record {
  files = λ q. if bytes_eq q place then some old_file else none;
  journal = none;
  clock = 0;
  spares = λ n. false;
}

-- Nothing is refused; and the process stops at operation `n`.
abbrev calm : Faults
calm k = false

abbrev stops_at : ℕ → Faults
stops_at n k = leb n k

run : Faults → Faults → Outcome
unfolding apply_atomic replace_checked replace_files commit drop_backups replace_file create_temp
    stage_file drop_staged back_up swap_in fail rollback write_journal op backup_of prepare
    preview_files preview_file grouped group_of insert_path sorted_paths edit_file check_edits
    check_edit validate_span offsets_ok positions_ok is_zero line_byte_offsets to_byte column_byte
    line_starts line_length rune_start edit_less insert_edit sort_edits has_overlap replace
    apply_edits canonical_relative canonical_trimmed leads_out trim_space clean elements clean_parts
    clean_part go_up is_abs split_slash join_slash has_prefix bytes_eq bytes_lt resolve_path
    resolve_canonical resolve_below base_of inside_only location join rel rel_rest strip_common
run faults undo =
    apply_atomic host.links host.digest one_name faults undo (codes "/w") two_edits disk

abbrev new_file : File
new_file = record { bytes = codes "[Bee]\nx = 25\n"; mode = 0o640 }

committed : ((run calm calm).0 ≡ none) × ((run calm calm).1.files place ≡ some new_file)
unfolding run
committed = (refl, refl)

-- The rename to the new file is refused, and the rollback is not.
undone :
    ((run (stops_at 10) calm).0 ≡ some at_replace)
    × ((run (stops_at 10) calm).1.files place ≡ some old_file)
unfolding run
undone = (refl, refl)

-- The process stops behind the rename to the backup and before the journal names it: the journal cannot
-- tell where the file is.
window :
    ((run (stops_at 9) (stops_at 0)).1.files place ≡ none)
    × ((run (stops_at 9) (stops_at 0)).1.files (codes "/w/b.cns.ikm-backup") ≡ some old_file)
    × ((run (stops_at 9) (stops_at 0)).1.journal ≡ none)
unfolding run
window = (refl, refl, refl)

-- It stops behind the journal: `Recover` finds the file's backup.
recovery : (recover calm (run (stops_at 10) (stops_at 0)).1).1.files place ≡ some old_file
unfolding run recover restore finish_recovery has_suffix trim_suffix
recovery = refl

apply_atomic-Kept_example :
    (((run (stops_at 9) (stops_at 0)).0 ≡ none)
      × ((run (stops_at 9) (stops_at 0)).1.files place ≡ some new_file))
    ⊎ (((run (stops_at 9) (stops_at 0)).0 ≢ none)
        × Kept place old_file (run (stops_at 9) (stops_at 0)).1.files)
unfolding run
apply_atomic-Kept_example =
    apply_atomic-Kept host.links host.digest one_name (stops_at 9) (stops_at 0) (codes "/w")
      two_edits disk place old_file refl one_name-NewNames (omega arith)
      (record { not_backup = refl; backup_not = refl }, tt)

apply_atomic-restores_example :
    (((run (stops_at 10) calm).0 ≡ none) × ((run (stops_at 10) calm).1.files place ≡ some new_file))
    ⊎ (((run (stops_at 10) calm).0 ≢ none)
        × ((run (stops_at 10) calm).1.files place ≡ some old_file))
unfolding run
apply_atomic-restores_example =
    apply_atomic-restores host.links host.digest one_name (stops_at 10) calm (codes "/w") two_edits
      disk place old_file refl one_name-NewNames (omega arith)
      (record { not_backup = refl; backup_not = refl }, tt) (λ k. refl)

abbrev stopped : Disk
stopped = record {
  files = λ q. if bytes_eq q (codes "/w/b.cns.ikm-backup") then some old_file else none;
  journal =
      some (record {
        phase = replacing;
        root = codes "/w";
        backups = codes "/w/b.cns.ikm-backup" ∷ [];
      });
  clock = 0;
  spares = λ n. false;
}

recover-Recovered_example : Recovered calm (λ k. refl) place old_file (recover calm stopped)
unfolding backup_of bytes_eq
recover-Recovered_example =
    recover-Recovered calm (λ k. refl) _ (place ∷ []) place old_file stopped refl refl
      (record { not_backup = refl; backup_not = refl }, tt) (inl (omega arith, refl))
