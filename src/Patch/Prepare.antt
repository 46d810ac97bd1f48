-- ===== src/Patch/Prepare.antt =====
-- internal/patch/patch.go: `prepare` over the files of a workspace.
pub mod Previews
use ikemen_devtools.Prelude.{
  Bool, true, false, Option, none, some, List, [], ◌∷◌, ◌++◌, if◌then◌else◌,
}
use ikemen_devtools.Prelude.Text.{Bytes, bytes_eq, bytes_lt}
use ikemen_devtools.FilePath.{trim_space}
use ikemen_devtools.Patch.Paths.{canonical_relative, Links, resolve_path}
use ikemen_devtools.Patch.Edits.{
  Edit, PatchError, path_escape, read_failed, Checked, accepted, refused, ◌>>=◌, edit_file,
}

-- The operating system's files, links and the hash function: what the package calls and does not
-- define. `none` is a failure to read.
pub record Host : Type 0 where
  pub links : Links
  pub read : Bytes → Option Bytes
  pub digest : Bytes → Bytes

pub record FilePreview : Type 0 where
  pub path : Bytes
  pub old_hash : Bytes
  pub new_hash : Bytes
  pub bytes : Bytes

abbrev pub or_err : {A : Type 0} → PatchError → Option A → Checked A
or_err e none = refused e
or_err e (some a) = accepted a

-- Each edit with its canonical path, or the error of the first edit that has none.
unfoldable pub grouped : List Edit → Checked (List (Bytes × Edit))
grouped [] = accepted []
grouped (e ∷ es) = do
  path ← or_err path_escape (canonical_relative e.path)
  rest ← grouped es
  accepted ((path, e) ∷ rest)

-- `groups[path]`: the edits of one path, in their order.
unfoldable pub group_of : Bytes → List (Bytes × Edit) → List Edit
group_of path [] = []
group_of path ((p, e) ∷ rest) =
    if bytes_eq p path then e ∷ group_of path rest else group_of path rest

-- The keys of `groups`, sorted.
unfoldable pub insert_path : Bytes → List Bytes → List Bytes
insert_path p [] = p ∷ []
insert_path p (q ∷ qs) =
    if bytes_eq p q then q ∷ qs else if bytes_lt p q then p ∷ q ∷ qs else q ∷ insert_path p qs

unfoldable pub sorted_paths : List (Bytes × Edit) → List Bytes
sorted_paths [] = []
sorted_paths ((p, e) ∷ rest) = insert_path p (sorted_paths rest)

module _ (host : Host) (root : Bytes) where
  -- One round of the loop over the paths.
  unfoldable pub preview_file : List (Bytes × Edit) → Bytes → Checked FilePreview
  preview_file groups path = do
    place ← or_err path_escape (resolve_path host.links root path)
    original ← or_err read_failed (host.read place)
    result ← edit_file path (host.digest original) original (group_of path groups)
    accepted (record {
      path = path;
      old_hash = host.digest original;
      new_hash = host.digest result;
      bytes = result;
    })

  unfoldable pub preview_files : List (Bytes × Edit) → List Bytes → Checked (List FilePreview)
  preview_files groups [] = accepted []
  preview_files groups (p ∷ ps) = do
    file ← preview_file groups p
    files ← preview_files groups ps
    accepted (file ∷ files)

  abbrev pub preview_groups : Checked (List (Bytes × Edit)) → Checked (List FilePreview)
  preview_groups (refused e) = refused e
  preview_groups (accepted groups) = preview_files groups (sorted_paths groups)

  unfoldable pub prepare : List Edit → Checked (List FilePreview)
  prepare edits =
      if bytes_eq (trim_space root) [] then refused path_escape else preview_groups (grouped edits)
