-- ===== src/Oracle/Samples.antt =====
-- Runs of oracle.go, and its theorem at an input.
use ikemen_devtools.Prelude.{
  ℕ, ◌≡◌, ◌≤◌, refl, ◌↔◌, Bool, true, false, ◌==◌, ◌&&◌, ◌||◌, ◌-◌, ◌+◌, ◌*◌, if◌then◌else◌, length,
  Option, none, some, [], ◌∷◌, map,
}
use ikemen_devtools.Prelude.Int.{pos}
use ikemen_devtools.Prelude.Text.{Bytes, codes, bytes_eq, bytes_lt}
use ikemen_devtools.FilePath.{
  clean, clean_parts, clean_part, elements, split_slash, join_slash, is_abs, go_up,
}
use ikemen_devtools.Adapter.Names.{print_number}
use ikemen_devtools.Adapter.Texts.{is_atoi, digits_in_range, all_digits, decimal_value}
use ikemen_devtools.Oracle.Values.{
  Scalar, Literal, raw_null, raw_boolean, raw_number, raw_text, Json, scalar, array, object,
  no_items, item, no_fields, field, scalar_eq, same_bool, int_value, normalize_number,
  normalize_literal, normalize_value,
}
use ikemen_devtools.Oracle.Guard.{
  GuardPolicy, GuardOutcome, Ran, bound, is_allowed, guard_outcome, with_root, with_command,
  run_guarded, Guarded, run_guarded-Guarded, run_guarded-le,
}
use ikemen_devtools.Oracle.Decides.{Ordered, Same}
use ikemen_devtools.Oracle.Matches.{compare-decides}
use ikemen_devtools.Oracle.{
  Shown, Tools, Request, RunResult, lookup, json_pointer, replace_byte, index_path, count_items,
  missing_items, unexpected_items, unexpected_fields, mismatch, diff_values, diff_json, is_match,
  compare,
}

abbrev expected_value : Json Literal
expected_value = object (
    field (codes "a/b") (scalar (raw_number (codes "1"))) (
      field (codes "c") (array (item (scalar (raw_boolean true)) (item (scalar raw_null) no_items)))
        (field (codes "d") (scalar (raw_text (codes "x"))) no_fields)))

abbrev zero : Bytes → Json Literal
zero s = object (field (codes "x") (scalar (raw_number s)) no_fields)

abbrev actual_value : Json Literal
actual_value = object (
    field (codes "a/b") (scalar (raw_number (codes "1.0")))
      (field (codes "c") (array (item (scalar (raw_boolean true)) no_items)) no_fields))

abbrev decode_sample : Bytes → Option (Json Literal)
decode_sample [] = some expected_value
decode_sample (c ∷ s) = some actual_value

-- Floats are numbers of one digit with a sign, in tenths; both zeros are the same number.
abbrev Tenths : Type 0
Tenths = Bool × ℕ

abbrev shown : Shown (Scalar Tenths) → Bytes
shown v = codes "v"

abbrev raw_sample : RunResult
raw_sample = record { stdout = codes "{}"; stderr = []; exit_code = pos 0 }

abbrev digits : Bool → Bytes → Option Tenths
digits sign (a ∷ point ∷ b ∷ []) =
    if point == 46 then some (sign, (a - 48) * 10 + (b - 48)) else none
digits sign _ = none

abbrev tenths : Bytes → Option Tenths
tenths [] = none
tenths (c ∷ s) = if c == 45 then digits true s else digits false (c ∷ s)

abbrev tenths_eq : Tenths → Tenths → Bool
tenths_eq (s, a) (t, b) = a == b && (same_bool s t || a == 0)

abbrev sample_tools : Tools Tenths
sample_tools = record {
  decode = decode_sample;
  float_of = tenths;
  float_eq = tenths_eq;
  marshal = λ v. [];
  show = shown;
  type_name = shown;
  run = λ r. (true, raw_sample);
}

abbrev normal : Json Literal → Json (Scalar Tenths)
normal v = normalize_value sample_tools.float_of v

-- An integer and the same number with a point differ.
mismatch_paths :
    map
      (λ m. m.path)
      (diff_json sample_tools.float_eq shown shown (normal expected_value) (normal actual_value))
    ≡ codes "$.a~1b" ∷ codes "$.c" ∷ codes "$.c[1]" ∷ codes "$.d" ∷ []
unfolding diff_json diff_values normalize_value normalize_literal normalize_number scalar_eq is_atoi
    digits_in_range all_digits decimal_value int_value lookup json_pointer replace_byte index_path
    print_number count_items missing_items unexpected_items unexpected_fields mismatch bytes_eq
mismatch_paths = refl

-- A number that is neither an int64 nor a float64 is the same as the text of its literal.
number_as_text :
    diff_json sample_tools.float_eq shown shown
      (normalize_value (λ s. none) (scalar (raw_number (codes "1e999"))))
      (normalize_value (λ s. none) (scalar (raw_text (codes "1e999"))))
    ≡ []
unfolding diff_json diff_values normalize_value normalize_literal normalize_number scalar_eq is_atoi
    digits_in_range all_digits decimal_value bytes_eq
number_as_text = refl

expected_value-Ordered : Ordered expected_value
unfolding Ordered bytes_lt
expected_value-Ordered =
    (((refl, (refl, tt)), ((refl, tt), (tt, tt))), (tt, ((tt, (tt, tt)), (tt, tt))))

actual_value-Ordered : Ordered actual_value
unfolding Ordered bytes_lt
actual_value-Ordered = (((refl, tt), (tt, tt)), (tt, ((tt, tt), tt)))

abbrev request_sample : Request
request_sample = record { command = codes "engine"; args = []; working_dir = []; timeout = pos 0 }

compare-decides_example :
    ((compare sample_tools request_sample []).1 ≡ none)
    × ((is_match (compare sample_tools request_sample []).0 ≡ true)
        ↔ Same tenths_eq (normal expected_value) (normal actual_value))
compare-decides_example =
    compare-decides sample_tools request_sample [] raw_sample expected_value actual_value refl refl
      refl expected_value-Ordered actual_value-Ordered

-- The zeros of both signs match.
zeros_match :
    diff_json tenths_eq shown shown (normal (zero (codes "-0.0"))) (normal (zero (codes "0.0")))
    ≡ []
unfolding diff_json diff_values normalize_value normalize_literal normalize_number scalar_eq is_atoi
    digits_in_range all_digits decimal_value lookup json_pointer replace_byte unexpected_fields
    bytes_eq
zeros_match = refl

-- A policy that permits one engine in a directory, with eight bytes of output.
abbrev policy_sample : GuardPolicy
policy_sample = record {
  enabled = true;
  allowed_executables = codes "/bin/engine" ∷ [];
  max_stdout = pos 8;
  max_stderr = pos 4;
  timeout = pos 5;
  disposable_root = codes "/tmp/run";
}

abbrev run_sample : Request → Ran
run_sample r = record {
  result = record { stdout = codes "0123456789"; stderr = codes "e"; exit_code = pos 0 };
  succeeded = true;
  out_of_time = false;
}

abbrev yes_dir : Bytes → Bool
yes_dir s = true

abbrev guarded_run : GuardOutcome
guarded_run =
    run_guarded (λ s. some s) bytes_eq yes_dir run_sample policy_sample
      (codes "/bin/../bin/engine" ∷ codes "-x" ∷ [])

engine_output : guarded_run.stdout ≡ codes "01234567"
unfolding run_guarded with_command with_root is_allowed guard_outcome bound clean clean_parts
    clean_part elements split_slash join_slash is_abs go_up bytes_eq
engine_output = refl

run_guarded-Guarded_example :
    Guarded
      (λ s. some s)
      bytes_eq
      yes_dir
      run_sample
      policy_sample
      (codes "/bin/../bin/engine" ∷ codes "-x" ∷ [])
      guarded_run
run_guarded-Guarded_example =
    run_guarded-Guarded (λ s. some s) bytes_eq yes_dir run_sample policy_sample
      (codes "/bin/../bin/engine" ∷ codes "-x" ∷ [])

run_guarded-le_example : (length guarded_run.stdout ≤ 8) × (length guarded_run.stderr ≤ 4)
run_guarded-le_example =
    run_guarded-le (λ s. some s) bytes_eq yes_dir run_sample policy_sample
      (codes "/bin/../bin/engine" ∷ codes "-x" ∷ []) 7 3 refl refl
