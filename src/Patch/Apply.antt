-- ===== src/Patch/Apply.antt =====
-- internal/patch/patch.go: `ApplyPatch`, which writes the previews of a patch, and `PatchPlan.Validate`.
pub mod Written
use ikemen_devtools.Prelude.{
  Bool, true, false, not, ◌&&◌, ◌||◌, Option, none, some, List, [], ◌∷◌, if◌then◌else◌,
}
use ikemen_devtools.Prelude.Int.{pos, ltb_ℤ}
use ikemen_devtools.Prelude.Text.{Bytes, codes, bytes_eq}
use ikemen_devtools.FilePath.{trim_space}
use ikemen_devtools.Patch.Paths.{Links, location, resolve_path}
use ikemen_devtools.Patch.Edits.{
  Edit, PatchError, path_escape, write_failed, Checked, accepted, refused,
}
use ikemen_devtools.Patch.Prepare.{FilePreview, prepare}

-- The files of the operating system, by their real paths.
abbrev pub Store : Type 0
Store = Bytes → Option Bytes

abbrev pub write_any : Store → Bytes → Option Bytes → Store
write_any store path left q = if bytes_eq q path then left else store q

abbrev pub write : Store → Bytes → Bytes → Store
write store path bytes = write_any store path (some bytes)

-- What a call leaves: the error that it stopped with, if any, and the files.
abbrev pub Applied : Type 0
Applied = Option PatchError × Store

abbrev pub go_on : (Store → Applied) → Applied → Applied
go_on next (some e, store) = (some e, store)
go_on next (none, store) = next store

-- What the operating system does with a call of `os.WriteFile` that has found its file: it writes the
-- bytes, or it fails and leaves any bytes, or no file at all.
pub data WriteResult : Type 0 where
  writes : WriteResult
  breaks : Option Bytes → WriteResult

-- `os.WriteFile` at the real place of a file.
abbrev pub try_write : Store → Bytes → Bytes → WriteResult → Applied
try_write store real bytes writes = (none, write store real bytes)
try_write store real bytes (breaks left) = (some write_failed, write_any store real left)

-- `os.ReadFile` follows the symbolic links of a path and finds nothing where they lead nowhere.
unfoldable pub read_at : Links → Store → Bytes → Option Bytes
read_at links store path = elim (links.eval_symlinks path) [ none ↦ none | some real ↦ store real ]

-- The files are those of the real paths: `links` says which real path a path leads to, for reading and for
-- writing. `outcome` says how the writing of bytes at a real path ends.
module _ (links : Links) (digest : Bytes → Bytes) (outcome : Bytes → Bytes → WriteResult)
    (root : Bytes) where
  -- `os.WriteFile`, which follows the links too and creates the file where none stands.
  unfoldable pub write_at : Store → Option Bytes → FilePreview → Applied
  write_at store none file = (some path_escape, store)
  write_at store (some path) file =
      try_write store (location links path) file.bytes (outcome (location links path) file.bytes)

  unfoldable pub apply_files : Store → List FilePreview → Applied
  apply_files store [] = (none, store)
  apply_files store (f ∷ fs) =
      go_on (λ s. apply_files s fs) (write_at store (resolve_path links root f.path) f)

  unfoldable pub apply_checked : Store → Checked (List FilePreview) → Applied
  apply_checked store (refused e) = (some e, store)
  apply_checked store (accepted files) = apply_files store files

  unfoldable pub apply_patch : Store → List Edit → Applied
  apply_patch store edits =
      apply_checked store
        (prepare (record { links = links; read = read_at links store; digest = digest }) root edits)

-- The fields of a plan that `Validate` reads.
pub record PatchPlan : Type 0 where
  pub version : Bytes
  pub input_snapshot : Bytes
  pub edits : List Edit

abbrev plan_version : Bytes
plan_version = codes "1"

unfoldable pub valid_edit : Edit → Bool
valid_edit e = not (
    bytes_eq e.content_hash []
    || bytes_eq e.identity_contract []
    || ltb_ℤ e.span.byte_start (pos 0)
    || ltb_ℤ e.span.byte_end e.span.byte_start)

unfoldable pub valid_edits : List Edit → Bool
valid_edits [] = true
valid_edits (e ∷ es) = valid_edit e && valid_edits es

-- `Validate() == nil`
unfoldable pub validate : PatchPlan → Bool
validate p =
    if bytes_eq p.version [] || not (bytes_eq p.version plan_version)
    then false
    else if bytes_eq (trim_space p.input_snapshot) []
    then false
    else if has_none p.edits
    then false
    else valid_edits p.edits
  where
    has_none : List Edit → Bool
    has_none [] = true
    has_none (_ ∷ _) = false
