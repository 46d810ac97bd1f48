-- ===== src/Oracle/Values.antt =====
-- internal/oracle/oracle.go: JSON values and `normalizeValue`.
use ikemen_devtools.Prelude.{
  Bool, true, false, not, ◌==◌, Option, none, some, [], ◌∷◌, if◌then◌else◌,
}
use ikemen_devtools.Prelude.Int.{ℤ, pos, negsuc, sub_ℕ}
use ikemen_devtools.Prelude.Text.{Bytes, bytes_eq}
use ikemen_devtools.Adapter.Texts.{is_atoi, decimal_value}

-- A value that is no object and no array, behind the normalisation.
pub data Scalar (F : Type 0) : Type 0 where
  null : Scalar F
  boolean : Bool → Scalar F
  integer : ℤ → Scalar F
  float : F → Scalar F
  text : Bytes → Scalar F

-- A scalar as it is decoded: a number is its literal.
pub data Literal : Type 0 where
  raw_null : Literal
  raw_boolean : Bool → Literal
  raw_number : Bytes → Literal
  raw_text : Bytes → Literal

-- JSON values over scalars; the fields of an object stand in the order of their keys.
mutual
  pub data Json (S : Type 0) : Type 0 where
    scalar : S → Json S
    array : Items S → Json S
    object : Fields S → Json S

  pub data Items (S : Type 0) : Type 0 where
    no_items : Items S
    item : Json S → Items S → Items S

  pub data Fields (S : Type 0) : Type 0 where
    no_fields : Fields S
    field : Bytes → Json S → Fields S → Fields S

-- The value of a literal that strconv.ParseInt accepts.
unfoldable pub int_value : Bytes → ℤ
int_value [] = pos 0
int_value (c ∷ s) = if c == 45 then sub_ℕ 0 (decimal_value 0 s) else pos (decimal_value 0 (c ∷ s))

module _ {F : Type 0} (float_of : Bytes → Option F) where
  abbrev float_or_text : Bytes → Option F → Scalar F
  float_or_text s none = text s
  float_or_text s (some f) = float f

  unfoldable pub normalize_number : Bytes → Scalar F
  normalize_number s = if is_atoi s then integer (int_value s) else float_or_text s (float_of s)

  unfoldable pub normalize_literal : Literal → Scalar F
  normalize_literal raw_null = null
  normalize_literal (raw_boolean b) = boolean b
  normalize_literal (raw_number s) = normalize_number s
  normalize_literal (raw_text s) = text s

  -- `normalizeValue`
  unfoldable mutual
    pub normalize_value : Json Literal → Json (Scalar F)
    normalize_value (scalar l) = scalar (normalize_literal l)
    normalize_value (array xs) = array (normalize_items xs)
    normalize_value (object fs) = object (normalize_fields fs)

    pub normalize_items : Items Literal → Items (Scalar F)
    normalize_items no_items = no_items
    normalize_items (item x xs) = item (normalize_value x) (normalize_items xs)

    pub normalize_fields : Fields Literal → Fields (Scalar F)
    normalize_fields no_fields = no_fields
    normalize_fields (field k v fs) = field k (normalize_value v) (normalize_fields fs)

abbrev pub same_bool : Bool → Bool → Bool
same_bool true b = b
same_bool false b = not b

unfoldable pub same_int : ℤ → ℤ → Bool
same_int (pos a) (pos b) = a == b
same_int (negsuc a) (negsuc b) = a == b
same_int (pos a) (negsuc b) = false
same_int (negsuc a) (pos b) = false

-- reflect.DeepEqual of two scalars.
unfoldable pub scalar_eq : {F : Type 0} → (F → F → Bool) → Scalar F → Scalar F → Bool
scalar_eq float_eq null null = true
scalar_eq float_eq (boolean a) (boolean b) = same_bool a b
scalar_eq float_eq (integer a) (integer b) = same_int a b
scalar_eq float_eq (float a) (float b) = float_eq a b
scalar_eq float_eq (text a) (text b) = bytes_eq a b
scalar_eq float_eq _ _ = false
