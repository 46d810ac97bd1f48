-- ===== src/Syntax/Split/Parts.antt =====
-- syntax.go, `splitLine` and `splitKeyValue`: a line that is put together is taken apart again.
use ikemen_devtools.Prelude.{
  ℕ, suc, ◌+◌, ◌≡◌, refl, ap, ◌∙◌, arith, Bool, true, false, not, ◌||◌, some, [], ◌∷◌, ◌++◌, length,
  drop, take-length-append, ◌==◌,
}
use ikemen_devtools.Prelude.Text.{Bytes, codes}
use ikemen_devtools.FilePath.{has_prefix, trim_space}
use ikemen_devtools.Syntax.Split.{
  index_of, is_blank, trim_right, begins_comment, comment_from, split_at, split_line,
  split_key_value,
}

abbrev pub AllBytes : (ℕ → Bool) → Bytes → Type 0
AllBytes test [] = Unit
AllBytes test (c ∷ s) = (test c ≡ true) × AllBytes test s

abbrev pub no_equals : ℕ → Bool
no_equals c = not (c == 61)

-- No quote, backslash, semicolon or slash.
abbrev pub is_code : ℕ → Bool
is_code c = not (c == 34 || c == 92 || c == 59 || c == 47)

drop-front : (s : Bytes) (c : ℕ) (t : Bytes) → drop (length s + 1) (s ++ c ∷ t) ≡ t
drop-front [] c t = refl
drop-front (b ∷ s) c t =
    let e : suc (length s) + 1 ≡ suc (length s + 1) = omega arith in rw e (drop-front s c t)

index_of-equals :
    (key value : Bytes)
    → AllBytes no_equals key
    → index_of (codes "=") (key ++ 61 ∷ value) ≡ some (length key)
unfolding index_of has_prefix
index_of-equals [] value h = refl
index_of-equals (c ∷ key) value h =
    let other : (61 == c) ≡ false = ground (arith, h.0) in
    rw (other, index_of-equals key value h.1) refl

-- A key without "=" and a value, put together with "=", are found again without the white space around them.
pub split_key_value-equals :
    (key value : Bytes)
    → AllBytes no_equals key
    → split_key_value (key ++ 61 ∷ value) ≡ some (trim_space key, trim_space value)
unfolding split_key_value
split_key_value-equals key value h =
    rw (index_of-equals key value h, take-length-append key (61 ∷ value), drop-front key 61 value)
      refl

comment_from-code :
    (raw : Bytes) (i : ℕ) (code comment : Bytes)
    → AllBytes is_code code
    → comment_from raw i false false (code ++ 59 ∷ comment) ≡ some (i + length code)
unfolding comment_from begins_comment
comment_from-code raw i [] comment h = ap some (omega arith)
comment_from-code raw i (c ∷ code) comment h =
    let rest = comment_from-code raw (suc i) code comment h.1 in
    let quote : (c == 34) ≡ false = ground (arith, h.0) in
    let back : (c == 92) ≡ false = ground (arith, h.0) in
    let semi : (c == 59) ≡ false = ground (arith, h.0) in
    let slash : (c == 47) ≡ false = ground (arith, h.0) in
    let size : suc i + length code ≡ i + suc (length code) = omega arith in
    rw (quote, back, semi, slash) (rest ∙ ap some size)

-- Code without quotes, backslashes, semicolons and slashes, and a comment behind a semicolon: the line is split at
-- that semicolon, into the code without the blanks at its end and the comment without the white space around it.
pub split_line-semicolon :
    (code comment : Bytes)
    → AllBytes is_code code
    → split_line (code ++ 59 ∷ comment) ≡ record {
      code = trim_right is_blank code;
      comment = trim_space comment;
      comment_idx = some (length code);
    }
unfolding split_line split_at has_prefix
split_line-semicolon code comment h =
    let zero_add : 0 + length code ≡ length code = omega arith in
    rw
      (
        comment_from-code (code ++ 59 ∷ comment) 0 code comment h,
        zero_add,
        take-length-append code (59 ∷ comment),
        drop-behind code comment,
        drop-front code 59 comment,
      )
      refl
  where
    drop-behind : (code comment : Bytes) → drop (length code) (code ++ 59 ∷ comment) ≡ 59 ∷ comment
    drop-behind [] comment = refl
    drop-behind (c ∷ code) comment = drop-behind code comment
