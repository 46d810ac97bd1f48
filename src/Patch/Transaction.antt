-- ===== src/Patch/Transaction.antt =====
-- internal/patch/patch.go: `ApplyAtomic` with its rollback, and `Recover`.
pub mod Steps
pub mod Rollback
pub mod Rounds
pub mod Outcome
pub mod Restored
mod Samples
use mathlib.Core.List.{reverse}
use ikemen_devtools.Prelude.{
  ℕ, suc, Bool, true, false, ◌&&◌, Option, none, some, List, [], ◌∷◌, ◌++◌, map, length, take, ◌-◌,
  if◌then◌else◌,
}
use ikemen_devtools.Prelude.Text.{Bytes, codes, bytes_eq}
use ikemen_devtools.FilePath.{has_prefix}
use ikemen_devtools.Patch.Paths.{Links, resolve_path}
use ikemen_devtools.Patch.Edits.{Edit, PatchError, Checked, accepted, refused}
use ikemen_devtools.Patch.Prepare.{FilePreview, prepare}

pub record File : Type 0 where
  pub bytes : Bytes
  pub mode : ℕ

abbrev pub Files : Type 0
Files = Bytes → Option File

pub data Phase : Type 0 where
  staging replacing : Phase

pub record Journal : Type 0 where
  pub phase : Phase
  pub root : Bytes
  pub backups : List Bytes

-- The files, the journal's file apart from the others, how many operations were tried, and which refused
-- writes of the journal, by their number, leave the journal that was there. `none` is a journal that is
-- missing or cannot be read.
pub record Disk : Type 0 where
  pub files : Files
  pub journal : Option Journal
  pub clock : ℕ
  pub spares : ℕ → Bool

-- Which operations the system refuses, by their number. A process that stops at operation `n` is one
-- whose operations from `n` on are all refused.
abbrev pub Faults : Type 0
Faults = ℕ → Bool

abbrev pub tick : Disk → Disk
tick d = record d { clock = suc d.clock }

-- The disk behind an operation that left these files.
abbrev pub after : Disk → Files → Disk
after d files = record {
  files = files;
  journal = d.journal;
  clock = suc d.clock;
  spares = d.spares;
}

abbrev pub landed : Disk → Option Files → Bool × Disk
landed d none = (false, tick d)
landed d (some files) = (true, after d files)

-- One operation: whether it succeeded. A refused one changes nothing.
unfoldable pub op : Faults → (Files → Option Files) → Disk → Bool × Disk
op faults effect d = if faults d.clock then (false, tick d) else landed d (effect d.files)

abbrev pub put : Bytes → File → Files → Files
put path f files q = if bytes_eq q path then some f else files q

abbrev pub erase : Bytes → Files → Files
erase path files q = if bytes_eq q path then none else files q

abbrev pub moved : Bytes → Bytes → File → Files → Files
moved from to f files q =
    if bytes_eq q to then some f else if bytes_eq q from then none else files q

-- The effects: writing, removing, looking at a file, renaming, and setting a mode.
abbrev pub put_file : Bytes → File → Files → Option Files
put_file path f files = some (put path f files)

abbrev pub remove : Bytes → Files → Option Files
remove path files = some (erase path files)

abbrev pub stat : Bytes → Files → Option Files
stat path files = elim (files path) [ none ↦ none | some f ↦ some files ]

abbrev pub rename : Bytes → Bytes → Files → Option Files
rename from to files = elim (files from) [ none ↦ none | some f ↦ some (moved from to f files) ]

-- What a refused write leaves: the previous journal, or none that can be read.
abbrev pub left_journal : Disk → Option Journal
left_journal d = if d.spares d.clock then d.journal else none

unfoldable pub write_journal : Faults → Journal → Disk → Bool × Disk
write_journal faults j d =
    if faults d.clock
    then (false, record (tick d) { journal = left_journal d })
    else (true, record (tick d) { journal = some j })

abbrev pub attempt {ℓ} : {R : Type ℓ} → Bool × Disk → (Disk → R) → (Disk → R) → R
attempt (true, d) good bad = good d
attempt (false, d) good bad = bad d

abbrev pub backup_suffix : Bytes
backup_suffix = codes ".ikm-backup"

unfoldable pub backup_of : Bytes → Bytes
backup_of path = path ++ backup_suffix

-- The stages of `TransactionError`, and the errors of `prepare`.
pub data TransactionError : Type 0 where
  preparing : PatchError → TransactionError
  at_journal at_validate at_stage at_backup at_replace : TransactionError

abbrev pub Outcome : Type 0
Outcome = Option TransactionError × Disk

-- `os.CreateTemp`: a new name beside the file at this path.
abbrev pub Temp : Type 0
Temp = Files → Bytes → Option Bytes

abbrev pub mode_at : Option File → ℕ
mode_at none = 0
mode_at (some f) = f.mode

module _ (undo : Faults) where
  -- `rollback`; errors are ignored.
  unfoldable pub rollback : List Bytes → Disk → Disk
  rollback [] d = d
  rollback (p ∷ ps) d = rollback ps (op undo (rename (backup_of p) p) (op undo (remove p) d).1).1

  unfoldable pub fail : TransactionError → List Bytes → Disk → Outcome
  fail e moved_away d = (some e, rollback moved_away d)

module _ (links : Links) (temp : Temp) (faults undo : Faults) (root : Bytes) where
  abbrev pub Next : Type 0
  Next = List Bytes → Disk → Outcome

  -- From the rename of the staged file `name` to `path` on.
  unfoldable pub swap_in : List Bytes → Bytes → Bytes → Next → Disk → Outcome
  swap_in moved_away path name next d =
      attempt
        (write_journal faults
          (record { phase = replacing; root = root; backups = map backup_of moved_away }) d)
        (λ d1.
          attempt (op faults (rename name path) d1) (next moved_away)
            (fail undo at_replace moved_away))
        (fail undo at_journal moved_away)

  -- From the removal of an old backup on.
  unfoldable pub back_up : List Bytes → Bytes → Bytes → Next → Disk → Outcome
  back_up moved_away path name next d =
      attempt (op faults (rename path (backup_of path)) (op faults (remove (backup_of path)) d).1)
        (swap_in (moved_away ++ path ∷ []) path name next)
        (λ d1. fail undo at_backup moved_away (op faults (remove name) d1).1)

  -- The staged file is removed before the rollback.
  unfoldable pub drop_staged : List Bytes → Bytes → Disk → Outcome
  drop_staged moved_away name d = fail undo at_stage moved_away (op faults (remove name) d).1

  -- The staged file gets its bytes, is synced and closed, and gets the mode of the file. A write that is
  -- refused leaves the file empty; it is closed in any case.
  unfoldable pub stage_file : List Bytes → Bytes → Bytes → FilePreview → ℕ → Next → Disk → Outcome
  stage_file moved_away path name f mode next d =
      attempt (op faults (put_file name (record { bytes = f.bytes; mode = 0o600 })) d)
        (λ d1.
          attempt (op faults (λ files. some files) d1)
            (λ d2.
              attempt (op faults (λ files. some files) d2)
                (λ d3.
                  attempt (op faults (put_file name (record { bytes = f.bytes; mode = mode })) d3)
                    (back_up moved_away path name next) (drop_staged moved_away name))
                (drop_staged moved_away name))
            (λ d2. drop_staged moved_away name (op faults (λ files. some files) d2).1))
        (λ d1. drop_staged moved_away name (op faults (λ files. some files) d1).1)

  unfoldable pub create_temp :
      List Bytes → Bytes → FilePreview → ℕ → Next → Option Bytes → Disk → Outcome
  create_temp moved_away path f mode next none d = fail undo at_stage moved_away (tick d)
  create_temp moved_away path f mode next (some name) d =
      attempt (op faults (put_file name (record { bytes = []; mode = 0o600 })) d)
        (stage_file moved_away path name f mode next) (fail undo at_stage moved_away)

  -- One round of the loop over the previews.
  unfoldable pub replace_file : List Bytes → Option Bytes → FilePreview → Next → Disk → Outcome
  replace_file moved_away none f next d = fail undo at_validate moved_away d
  replace_file moved_away (some path) f next d =
      attempt (op faults (stat path) d)
        (λ d1. create_temp moved_away path f (mode_at (d1.files path)) next (temp d1.files path) d1)
        (fail undo at_validate moved_away)

  unfoldable pub drop_backups : List Bytes → Disk → Disk
  drop_backups [] d = d
  drop_backups (p ∷ ps) d = drop_backups ps (op faults (remove (backup_of p)) d).1

  abbrev drop_journal : Bool → Disk → Disk
  drop_journal true d = tick d
  drop_journal false d = record (tick d) { journal = none }

  -- Behind the loop: the backups and the journal go, errors ignored.
  unfoldable pub commit : List Bytes → Disk → Outcome
  commit moved_away d =
      (none, drop_journal (faults (drop_backups moved_away d).clock) (drop_backups moved_away d))

  unfoldable pub replace_files : List FilePreview → Next
  replace_files [] moved_away d = commit moved_away d
  replace_files (f ∷ fs) moved_away d =
      replace_file moved_away (resolve_path links root f.path) f (replace_files fs) d

  unfoldable pub replace_checked : Checked (List FilePreview) → Disk → Outcome
  replace_checked (refused e) d = (some (preparing e), d)
  replace_checked (accepted fs) d =
      attempt (write_journal faults (record { phase = staging; root = root; backups = [] }) d)
        (replace_files fs []) (λ d1. (some at_journal, d1))

abbrev bytes_at : Option File → Option Bytes
bytes_at none = none
bytes_at (some f) = some f.bytes

unfoldable pub apply_atomic :
    Links → (Bytes → Bytes) → Temp → Faults → Faults → Bytes → List Edit → Disk → Outcome
apply_atomic links digest temp faults undo root edits d =
    replace_checked links temp faults undo root
      (prepare (record { links = links; read = λ q. bytes_at (d.files q); digest = digest }) root
        edits)
      d

-- strings.HasSuffix and strings.TrimSuffix
unfoldable pub has_suffix : Bytes → Bytes → Bool
has_suffix suffix s = has_prefix (reverse suffix) (reverse s)

unfoldable pub trim_suffix : Bytes → Bytes → Bytes
trim_suffix suffix s = if has_suffix suffix s then take (length s - length suffix) s else s

-- What `Recover` ends with: whether without an error, and the disk.
abbrev pub Recovery : Type 0
Recovery = Bool × Disk

module _ (faults : Faults) where
  -- The journal is removed at the end.
  unfoldable pub finish_recovery : Disk → Recovery
  finish_recovery d =
      if faults d.clock then (false, tick d) else (true, record (tick d) { journal = none })

  unfoldable pub restore : List Bytes → Disk → Recovery
  restore [] d = finish_recovery d
  restore (b ∷ bs) d =
      let rest = restore bs in
      attempt (op faults (stat b) d)
        (λ d1.
          attempt
            (op faults (rename b (trim_suffix backup_suffix b))
              (op faults (remove (trim_suffix backup_suffix b)) d1).1)
            rest (λ d2. (false, d2)))
        rest

  abbrev restore_journal : Option Journal → Disk → Recovery
  restore_journal none d = (false, tick d)
  restore_journal (some j) d = restore j.backups d

  unfoldable pub recover : Disk → Recovery
  recover d = restore_journal d.journal d
