-- ===== src/Oracle.antt =====
-- internal/oracle/oracle.go: `diffJSON` and `Compare`.
pub mod Values
pub mod Equal
pub mod Sorted
pub mod Decides
pub mod Matches
pub mod Guard
mod Samples
use ikemen_devtools.Prelude.{
  ℕ, suc, ◌+◌, Bool, true, false, not, ◌&&◌, ◌==◌, Option, none, some, List, [], ◌∷◌, ◌++◌, String,
  if◌then◌else◌,
}
use ikemen_devtools.Prelude.Int.{ℤ, pos}
use ikemen_devtools.Prelude.Text.{Bytes, codes, bytes_eq}
use ikemen_devtools.Adapter.Names.{print_number}
use ikemen_devtools.Oracle.Values.{
  Scalar, Literal, Json, scalar, array, object, Items, no_items, item, Fields, no_fields, field,
  scalar_eq, normalize_value,
}

pub data MismatchKind : Type 0 where
  kind_type kind_missing kind_unexpected kind_length kind_value : MismatchKind

-- What a mismatch shows of a side: nothing, a length, or a value.
pub data Shown (S : Type 0) : Type 0 where
  nothing : Shown S
  a_length : ℕ → Shown S
  a_value : Json S → Shown S

pub record Mismatch (S : Type 0) : Type 0 where
  pub path : Bytes
  pub kind : MismatchKind
  pub message : Bytes
  pub expected : Shown S
  pub actual : Shown S

-- strings.ReplaceAll of one byte by two.
unfoldable pub replace_byte : ℕ → Bytes → Bytes → Bytes
replace_byte c by [] = []
replace_byte c by (d ∷ s) = if c == d then by ++ replace_byte c by s else d ∷ replace_byte c by s

unfoldable pub json_pointer : Bytes → Bytes → Bytes
json_pointer base key =
    let escaped : Bytes = replace_byte 47 (codes "~1") (replace_byte 126 (codes "~0") key) in
    if bytes_eq base (codes "$") then codes "$." ++ escaped else base ++ (codes "." ++ escaped)

unfoldable pub index_path : Bytes → ℕ → Bytes
index_path path i = path ++ (codes "[" ++ (print_number i ++ codes "]"))

unfoldable pub count_items : {S : Type 0} → Items S → ℕ
count_items no_items = 0
count_items (item x xs) = suc (count_items xs)

unfoldable pub lookup : {S : Type 0} → Bytes → Fields S → Option (Json S)
lookup k no_fields = none
lookup k (field l v fs) = if bytes_eq k l then some v else lookup k fs

-- `show` is "%v" and `type_name` is "%T" of package fmt.
module _ {F : Type 0} (float_eq : F → F → Bool) (show type_name : Shown (Scalar F) → Bytes) where
  abbrev S : Type 0
  S = Scalar F

  unfoldable pub format_mismatch_message : Bytes → MismatchKind → Shown S → Shown S → Bytes
  format_mismatch_message path kind_missing e a =
      path ++ codes ": expected key exists but was missing in actual snapshot"
  format_mismatch_message path kind_unexpected e a =
      path ++ codes ": unexpected key in actual snapshot"
  format_mismatch_message path kind_length e a =
      path ++ (codes ": lengths differ; expected=" ++ (show e ++ (codes " actual=" ++ show a)))
  format_mismatch_message path kind_type e a =
      path
      ++ (codes ": type mismatch; expected=" ++ (type_name e ++ (codes " actual=" ++ type_name a)))
  format_mismatch_message path kind_value e a =
      path ++ (codes ": value mismatch; expected=" ++ (show e ++ (codes " actual=" ++ show a)))

  unfoldable pub mismatch : Bytes → MismatchKind → Shown S → Shown S → Mismatch S
  mismatch path kind e a = record {
    path = path;
    kind = kind;
    message = format_mismatch_message path kind e a;
    expected = e;
    actual = a;
  }

  abbrev differ : Bytes → MismatchKind → Json S → Json S → List (Mismatch S)
  differ path kind e a = mismatch path kind (a_value e) (a_value a) ∷ []

  -- The items of one side behind those of the other, numbered from `i` on.
  unfoldable pub missing_items : Bytes → ℕ → Items S → List (Mismatch S)
  missing_items path i no_items = []
  missing_items path i (item x xs) =
      mismatch (index_path path i) kind_missing (a_value x) nothing ∷ missing_items path (suc i) xs

  unfoldable pub unexpected_items : Bytes → ℕ → Items S → List (Mismatch S)
  unexpected_items path i no_items = []
  unexpected_items path i (item y ys) =
      mismatch (index_path path i) kind_unexpected nothing (a_value y)
      ∷ unexpected_items path (suc i) ys

  abbrev lengths : Bytes → ℕ → ℕ → List (Mismatch S)
  lengths path m n = if m == n then [] else mismatch path kind_length (a_length m) (a_length n) ∷ []

  abbrev pub unexpected_field :
      Bytes → Bytes → Json S → Option (Json S) → List (Mismatch S) → List (Mismatch S)
  unexpected_field path k w none rest =
      mismatch (json_pointer path k) kind_unexpected nothing (a_value w) ∷ rest
  unexpected_field path k w (some v) rest = rest

  -- The keys that only the actual object has.
  unfoldable pub unexpected_fields : Bytes → Fields S → Fields S → List (Mismatch S)
  unexpected_fields path fs no_fields = []
  unexpected_fields path fs (field k w gs) =
      unexpected_field path k w (lookup k fs) (unexpected_fields path fs gs)

  -- `diffJSONValues`
  unfoldable mutual
    pub diff_values : Bytes → Json S → Json S → List (Mismatch S)
    diff_values path (object fs) (object gs) =
        diff_fields path fs gs ++ unexpected_fields path fs gs
    diff_values path (object fs) (array ys) = differ path kind_type (object fs) (array ys)
    diff_values path (object fs) (scalar b) = differ path kind_type (object fs) (scalar b)
    diff_values path (array xs) (array ys) =
        lengths path (count_items xs) (count_items ys) ++ diff_items path 0 xs ys
    diff_values path (array xs) (object gs) = differ path kind_type (array xs) (object gs)
    diff_values path (array xs) (scalar b) = differ path kind_type (array xs) (scalar b)
    diff_values path (scalar a) (scalar b) =
        if scalar_eq float_eq a b then [] else differ path kind_value (scalar a) (scalar b)
    diff_values path (scalar a) (array ys) = differ path kind_value (scalar a) (array ys)
    diff_values path (scalar a) (object gs) = differ path kind_value (scalar a) (object gs)

    pub diff_items : Bytes → ℕ → Items S → Items S → List (Mismatch S)
    diff_items path i no_items ys = unexpected_items path i ys
    diff_items path i (item x xs) no_items = missing_items path i (item x xs)
    diff_items path i (item x xs) (item y ys) =
        diff_values (index_path path i) x y ++ diff_items path (suc i) xs ys

    pub diff_fields : Bytes → Fields S → Fields S → List (Mismatch S)
    diff_fields path no_fields gs = []
    diff_fields path (field k v fs) gs =
        (elim (lookup k gs) [
          | none ↦ mismatch (json_pointer path k) kind_missing (a_value v) nothing ∷ []
          | some w ↦ diff_values (json_pointer path k) v w
        ])
        ++ diff_fields path fs gs

  -- `diffJSON`
  unfoldable pub diff_json : Json S → Json S → List (Mismatch S)
  diff_json expected actual = diff_values (codes "$") expected actual

pub record Request : Type 0 where
  pub command : Bytes
  pub args : List Bytes
  pub working_dir : Bytes
  pub timeout : ℤ

pub record RunResult : Type 0 where
  pub stdout : Bytes
  pub stderr : Bytes
  pub exit_code : ℤ

pub data CompareError : Type 0 where
  bad_expected run_failed bad_actual : CompareError

pub record Comparison (T : Type 0) : Type 0 where
  pub request : Request
  pub expected_snapshot : Bytes
  pub actual_snapshot : Bytes
  pub mismatches : List (Mismatch T)
  pub stdout : Bytes
  pub stderr : Bytes
  pub exit_code : ℤ

-- `Match`
unfoldable pub is_match : {T : Type 0} → Comparison T → Bool
is_match c = elim c.mismatches [ [] ↦ true | m ∷ ms ↦ false ]

-- What the comparison is made with: the decoder of JSON, "strconv.ParseFloat", the encoder, the printing of
-- values by package fmt, and the runner, which says whether the command succeeded.
pub record Tools (F : Type 0) : Type 0 where
  pub decode : Bytes → Option (Json Literal)
  pub float_of : Bytes → Option F
  pub float_eq : F → F → Bool
  pub marshal : Json (Scalar F) → Bytes
  pub show : Shown (Scalar F) → Bytes
  pub type_name : Shown (Scalar F) → Bytes
  pub run : Request → Bool × RunResult

module _ {F : Type 0} (tools : Tools F) where
  unfoldable pub normalize_json : Bytes → Option (Json (Scalar F))
  normalize_json payload = elim (tools.decode payload) [
    | none ↦ none
    | some v ↦ some (normalize_value tools.float_of v)
  ]

  abbrev no_comparison : Comparison (Scalar F)
  no_comparison = record {
    request = record { command = []; args = []; working_dir = []; timeout = pos 0 };
    expected_snapshot = [];
    actual_snapshot = [];
    mismatches = [];
    stdout = [];
    stderr = [];
    exit_code = pos 0;
  }

  abbrev pub comparison_of :
      Request
      → Json (Scalar F)
      → RunResult
      → Bytes
      → List (Mismatch (Scalar F))
      → Comparison (Scalar F)
  comparison_of request expected raw snapshot ms = record {
    request = request;
    expected_snapshot = tools.marshal expected;
    actual_snapshot = snapshot;
    mismatches = ms;
    stdout = raw.stdout;
    stderr = raw.stderr;
    exit_code = raw.exit_code;
  }

  unfoldable pub compare_actual :
      Request
      → Json (Scalar F)
      → RunResult
      → Option (Json (Scalar F))
      → Comparison (Scalar F) × Option CompareError
  compare_actual request expected raw none =
      (comparison_of request expected raw raw.stdout [], some bad_actual)
  compare_actual request expected raw (some actual) = (
    comparison_of request expected raw (tools.marshal actual)
        (diff_json tools.float_eq tools.show tools.type_name expected actual),
    none,
  )

  unfoldable pub compare_run :
      Request → Json (Scalar F) → Bool × RunResult → Comparison (Scalar F) × Option CompareError
  compare_run request expected (succeeded, raw) =
      if not succeeded
      then (comparison_of request expected raw raw.stdout [], some run_failed)
      else compare_actual request expected raw (normalize_json raw.stdout)

  abbrev pub compare_expected :
      Request → Option (Json (Scalar F)) → Comparison (Scalar F) × Option CompareError
  compare_expected request none = (no_comparison, some bad_expected)
  compare_expected request (some expected) = compare_run request expected (tools.run request)

  -- `Compare`
  unfoldable pub compare : Request → Bytes → Comparison (Scalar F) × Option CompareError
  compare request expected_snapshot = compare_expected request (normalize_json expected_snapshot)
