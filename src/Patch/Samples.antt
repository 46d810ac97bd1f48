-- ===== src/Patch/Samples.antt =====
-- Runs of patch.go on a small workspace, and the theorems of this part at inputs.
use ikemen_devtools.Prelude.{
  ◌≡◌, refl, ◌⊎◌, true, Option, none, some, List, [], ◌∷◌, false, ℕ, take, if◌then◌else◌,
}
use ikemen_devtools.Prelude.Int.{pos}
use ikemen_devtools.Prelude.Text.{Bytes, codes, bytes_eq, bytes_lt}
use ikemen_devtools.FilePath.{
  split_slash, join_slash, clean, clean_parts, clean_part, go_up, elements, is_abs, join, rel,
  rel_rest, strip_common, has_prefix, trim_space,
}
use ikemen_devtools.FilePath.Laws.{All, is_name}
use ikemen_devtools.Patch.Paths.{
  Links, leads_out, canonical_trimmed, canonical_relative, location, inside_only, resolve_below,
  base_of, resolve_canonical, resolve_path,
}
use ikemen_devtools.Patch.Paths.Confined.{canonical_relative-Confined, Below, resolve_path-Below}
use ikemen_devtools.Patch.Edits.{
  write_failed, Position, Span, Edit, Checked, accepted, refused, overlap, is_zero, line_starts,
  line_length, rune_start, column_byte, to_byte, line_byte_offsets, offsets_ok, positions_ok,
  validate_span, check_edit, check_edits, edit_less, insert_edit, sort_edits, has_overlap, replace,
  apply_edits, edit_file,
}
use ikemen_devtools.Patch.Splice.{Edited, edit_file-Edited}
use ikemen_devtools.Patch.Prepare.{
  Host, FilePreview, grouped, group_of, insert_path, sorted_paths, preview_file, preview_files,
  prepare,
}
use ikemen_devtools.Patch.Apply.{
  Applied, WriteResult, writes, breaks, read_at, write_at, apply_files, apply_checked, apply_patch,
  PatchPlan, valid_edit, valid_edits, validate,
}
use ikemen_devtools.Patch.Apply.Written.{Written, Inside, apply_patch-Inside, apply_patch-Written}
use ikemen_devtools.Patch.Prepare.Previews.{Prepared, prepare-Prepared}

-- A workspace without links whose files all hold "[A]\nx = 1\n", with a hash function that keeps its input.
abbrev pub contents : Bytes
contents = codes "[A]\nx = 1\n"

abbrev pub host : Host
host = record {
  links = record { abs = some; eval_symlinks = some };
  read = λ path. some contents;
  digest = λ s. s;
}

abbrev nowhere : Position
nowhere = record { line = pos 0; column = pos 0 }

abbrev edit_of : Bytes → Span → Bytes → Bytes → Edit
edit_of path span before after = record {
  path = path;
  content_hash = contents;
  identity_contract = codes "0.2.0";
  identity = record { contract_version = []; semantic_key = []; occurrence_id = []; store_id = [] };
  span = span;
  old_text = before;
  new_text = after;
}

abbrev offsets : ℕ → ℕ → Span
offsets a b = record { byte_start = pos a; byte_end = pos b; start = nowhere; end = nowhere }

-- The number of the second line, by offsets and by positions.
abbrev number : Span
number = record {
  byte_start = pos 8;
  byte_end = pos 9;
  start = record { line = pos 2; column = pos 5 };
  end = record { line = pos 2; column = pos 6 };
}

abbrev pub two_edits : List Edit
two_edits =
    edit_of (codes "a/../b.cns") number (codes "1") (codes "25")
    ∷ edit_of (codes "b.cns") (offsets 1 2) (codes "A") (codes "Bee")
    ∷ []

run : List Edit → Checked Bytes
unfolding edit_file check_edits check_edit validate_span offsets_ok positions_ok is_zero
    line_byte_offsets to_byte column_byte line_starts line_length rune_start edit_less insert_edit
    sort_edits has_overlap replace apply_edits canonical_relative canonical_trimmed leads_out
    trim_space clean elements clean_parts clean_part go_up is_abs split_slash join_slash has_prefix
    bytes_eq bytes_lt
run es = edit_file (codes "b.cns") contents contents es

two_edits_result : run two_edits ≡ accepted (codes "[Bee]\nx = 25\n")
unfolding run
two_edits_result = refl

-- Both edits would change offset 8.
overlapping :
    run (edit_of (codes "b.cns") (offsets 4 9) (codes "x = 1") [] ∷ two_edits) ≡ refused overlap
unfolding run
overlapping = refl

edit_file-Edited_example : Edited contents two_edits (codes "[Bee]\nx = 25\n")
unfolding run
edit_file-Edited_example =
    edit_file-Edited (codes "b.cns") contents contents two_edits (codes "[Bee]\nx = 25\n")
      two_edits_result

canonical : Bytes → Option Bytes
unfolding canonical_relative canonical_trimmed leads_out trim_space clean elements clean_parts
    clean_part go_up is_abs split_slash join_slash has_prefix bytes_eq
canonical path = canonical_relative path

outside : canonical (codes "a/../../b") ≡ none
unfolding canonical
outside = refl

canonical_relative-Confined_example :
    (is_abs (codes "chars/kfm.cns") ≡ false) × All is_name (split_slash (codes "chars/kfm.cns"))
unfolding canonical
canonical_relative-Confined_example =
    canonical_relative-Confined (codes " ./chars//x/../kfm.cns ") (codes "chars/kfm.cns") refl

place : Bytes → Option Bytes
unfolding resolve_path resolve_canonical resolve_below base_of inside_only location join rel
    rel_rest strip_common canonical
place relative = resolve_path host.links (codes "/w") relative

resolve_path-Below_example :
    Below host.links (codes "/w") (codes "x/../chars/kfm.cns") (codes "/w/chars/kfm.cns")
unfolding place
resolve_path-Below_example =
    resolve_path-Below host.links (codes "/w") (codes "x/../chars/kfm.cns")
      (codes "/w/chars/kfm.cns") refl

previews : List Edit → Checked (List FilePreview)
unfolding prepare preview_files preview_file grouped group_of insert_path sorted_paths run place
previews edits = prepare host (codes "/w") edits

abbrev two_previews : List FilePreview
two_previews =
    record {
      path = codes "b.cns";
      old_hash = contents;
      new_hash = codes "[Bee]\nx = 25\n";
      bytes = codes "[Bee]\nx = 25\n";
    }
    ∷ []

two_previews_result : previews two_edits ≡ accepted two_previews
unfolding previews
two_previews_result = refl

prepare-Prepared_example : Prepared host (codes "/w") two_edits two_previews
unfolding previews
prepare-Prepared_example =
    prepare-Prepared host (codes "/w") two_edits two_previews two_previews_result

-- The same workspace, where "b.cns" is a symbolic link to "c.cns".
abbrev linked : Links
linked = record {
  abs = some;
  eval_symlinks =
      λ path. some (if bytes_eq path (codes "/w/b.cns") then codes "/w/c.cns" else path);
}

abbrev succeeds : Bytes → Bytes → WriteResult
succeeds real bytes = writes

abbrev cut_off : Bytes → Bytes → WriteResult
cut_off real bytes = breaks (some (take 3 bytes))

abbrev patched_by : (Bytes → Bytes → WriteResult) → Applied
patched_by outcome = apply_patch linked host.digest outcome (codes "/w") host.read two_edits

-- The write reaches the file that the link leads to, and not the link.
patched_result :
    ((patched_by succeeds).0 ≡ none)
    × ((patched_by succeeds).1 (codes "/w/c.cns") ≡ some (codes "[Bee]\nx = 25\n"))
    × ((patched_by succeeds).1 (codes "/w/b.cns") ≡ some contents)
unfolding previews apply_patch apply_checked apply_files write_at read_at
patched_result = (refl, refl, refl)

-- A write that fails can leave a part of the bytes.
cut_off_result :
    ((patched_by cut_off).0 ≡ some write_failed)
    × ((patched_by cut_off).1 (codes "/w/c.cns") ≡ some (codes "[Be"))
unfolding previews apply_patch apply_checked apply_files write_at read_at
cut_off_result = (refl, refl)

apply_patch-Inside_example :
    ((patched_by cut_off).1 (codes "/w/c.cns") ≡ some contents)
    ⊎ Inside linked (codes "/w") (codes "/w/c.cns")
apply_patch-Inside_example =
    apply_patch-Inside linked host.digest cut_off (codes "/w") host.read two_edits
      (codes "/w/c.cns")

apply_patch-Written_example :
    Written linked host.digest succeeds (codes "/w") host.read two_edits (patched_by succeeds).1
unfolding previews apply_patch apply_checked apply_files write_at read_at
apply_patch-Written_example =
    apply_patch-Written linked host.digest succeeds (codes "/w") host.read two_edits
      (patched_by succeeds).1 refl

abbrev plan : PatchPlan
plan = record { version = codes "1"; input_snapshot = codes "s"; edits = two_edits }

plan_accepted : validate plan ≡ true
unfolding validate valid_edits valid_edit bytes_eq trim_space
plan_accepted = refl
