-- ===== src/Patch/Paths.antt =====
-- internal/patch/patch.go: `canonicalRelative` and `resolvePath`.
pub mod Confined
use ikemen_devtools.Prelude.{Bool, true, false, ◌||◌, Option, none, some, [], if◌then◌else◌}
use ikemen_devtools.Prelude.Text.{Bytes, codes, bytes_eq}
use ikemen_devtools.FilePath.{has_prefix, trim_space, is_abs, clean, join, rel}

-- The error is always `ErrPathEscape`.
unfoldable pub leads_out : Bytes → Bool
unfolding has_prefix
leads_out c = bytes_eq c (codes "..") || has_prefix (codes "../") c

unfoldable pub canonical_trimmed : Bytes → Option Bytes
canonical_trimmed path =
    if bytes_eq path [] || is_abs path
    then none
    else if bytes_eq (clean path) (codes ".") || leads_out (clean path)
    then none
    else some (clean path)

unfoldable pub canonical_relative : Bytes → Option Bytes
canonical_relative path = canonical_trimmed (trim_space path)

-- The operating system: the absolute form of a path, and a path with its symbolic links followed.
-- `none` is an error.
pub record Links : Type 0 where
  pub abs : Bytes → Option Bytes
  pub eval_symlinks : Bytes → Option Bytes

module _ (links : Links) where
  abbrev pub resolved : Bytes → Option Bytes → Bytes
  resolved candidate none = candidate
  resolved candidate (some r) = r

  -- Where the candidate leads, links followed if that succeeds.
  unfoldable pub location : Bytes → Bytes
  location candidate = resolved candidate (links.eval_symlinks candidate)

  unfoldable pub inside_only : Option Bytes → Bytes → Option Bytes
  inside_only none candidate = none
  inside_only (some inside) candidate =
      if leads_out inside || is_abs inside then none else some candidate

  unfoldable pub resolve_below : Option Bytes → Bytes → Option Bytes
  resolve_below none relative = none
  resolve_below (some base) relative =
      inside_only (rel base (location (join base relative))) (join base relative)

  abbrev pub follow : Option Bytes → Option Bytes
  follow none = none
  follow (some path) = links.eval_symlinks path

  unfoldable pub base_of : Bytes → Option Bytes
  base_of root = follow (links.abs root)

  unfoldable pub resolve_canonical : Bytes → Option Bytes → Option Bytes
  resolve_canonical root none = none
  resolve_canonical root (some relative) = resolve_below (base_of root) relative

  unfoldable pub resolve_path : Bytes → Bytes → Option Bytes
  resolve_path root relative = resolve_canonical root (canonical_relative relative)
