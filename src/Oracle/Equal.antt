-- ===== src/Oracle/Equal.antt =====
-- oracle.go: what it means that two scalars are equal.
use ikemen_devtools.Prelude.{◌≡◌, refl, ap, arith, Bool, true, false}
use ikemen_devtools.Prelude.Int.{ℤ, pos, negsuc}
use mathlib.Core.Path.{subst}
use ikemen_devtools.Prelude.Text.{Bytes, eq_of_bytes_eq, bytes_eq_refl}
use ikemen_devtools.Oracle.Values.{
  Scalar, null, boolean, integer, float, text, same_bool, same_int, scalar_eq,
}

same_bool-eq : (a b : Bool) → same_bool a b ≡ true → a ≡ b
same_bool-eq true true h = refl
same_bool-eq true false h = cc
same_bool-eq false true h = cc
same_bool-eq false false h = refl

same_bool_refl : (a : Bool) → same_bool a a ≡ true
same_bool_refl true = refl
same_bool_refl false = refl

same_int-eq : (a b : ℤ) → same_int a b ≡ true → a ≡ b
unfolding same_int
same_int-eq (pos a) (pos b) h = ap pos (ground arith)
same_int-eq (negsuc a) (negsuc b) h = ap negsuc (ground arith)
same_int-eq (pos a) (negsuc b) h = cc
same_int-eq (negsuc a) (pos b) h = cc

same_int_refl : (a : ℤ) → same_int a a ≡ true
unfolding same_int
same_int_refl (pos a) = ground arith
same_int_refl (negsuc a) = ground arith

-- Two scalars are the same: of the same kind and with the same value, where floats are compared as numbers.
pub data SameScalar {F : Type 0} (float_eq : F → F → Bool) : Scalar F → Scalar F → Type 0 where
  same_null : SameScalar float_eq null null
  same_boolean : (b : Bool) → SameScalar float_eq (boolean b) (boolean b)
  same_integer : (n : ℤ) → SameScalar float_eq (integer n) (integer n)
  same_float : (a b : F) → float_eq a b ≡ true → SameScalar float_eq (float a) (float b)
  same_text : (s : Bytes) → SameScalar float_eq (text s) (text s)

module _ {F : Type 0} (float_eq : F → F → Bool) where
  pub scalar_eq-SameScalar :
      (a b : Scalar F) → scalar_eq float_eq a b ≡ true → SameScalar float_eq a b
  unfolding scalar_eq
  scalar_eq-SameScalar null null h = same_null
  scalar_eq-SameScalar null (boolean b) h = absurd (let none_same : false ≡ true = h in cc)
  scalar_eq-SameScalar null (integer b) h = absurd (let none_same : false ≡ true = h in cc)
  scalar_eq-SameScalar null (float b) h = absurd (let none_same : false ≡ true = h in cc)
  scalar_eq-SameScalar null (text b) h = absurd (let none_same : false ≡ true = h in cc)
  scalar_eq-SameScalar (boolean a) null h = absurd (let none_same : false ≡ true = h in cc)
  scalar_eq-SameScalar (boolean a) (boolean b) h =
      subst (λ x. SameScalar float_eq (boolean a) (boolean x)) (same_bool-eq a b h) (same_boolean a)
  scalar_eq-SameScalar (boolean a) (integer b) h = absurd (let none_same : false ≡ true = h in cc)
  scalar_eq-SameScalar (boolean a) (float b) h = absurd (let none_same : false ≡ true = h in cc)
  scalar_eq-SameScalar (boolean a) (text b) h = absurd (let none_same : false ≡ true = h in cc)
  scalar_eq-SameScalar (integer a) null h = absurd (let none_same : false ≡ true = h in cc)
  scalar_eq-SameScalar (integer a) (boolean b) h = absurd (let none_same : false ≡ true = h in cc)
  scalar_eq-SameScalar (integer a) (integer b) h =
      subst (λ x. SameScalar float_eq (integer a) (integer x)) (same_int-eq a b h) (same_integer a)
  scalar_eq-SameScalar (integer a) (float b) h = absurd (let none_same : false ≡ true = h in cc)
  scalar_eq-SameScalar (integer a) (text b) h = absurd (let none_same : false ≡ true = h in cc)
  scalar_eq-SameScalar (float a) null h = absurd (let none_same : false ≡ true = h in cc)
  scalar_eq-SameScalar (float a) (boolean b) h = absurd (let none_same : false ≡ true = h in cc)
  scalar_eq-SameScalar (float a) (integer b) h = absurd (let none_same : false ≡ true = h in cc)
  scalar_eq-SameScalar (float a) (float b) h = same_float a b h
  scalar_eq-SameScalar (float a) (text b) h = absurd (let none_same : false ≡ true = h in cc)
  scalar_eq-SameScalar (text a) null h = absurd (let none_same : false ≡ true = h in cc)
  scalar_eq-SameScalar (text a) (boolean b) h = absurd (let none_same : false ≡ true = h in cc)
  scalar_eq-SameScalar (text a) (integer b) h = absurd (let none_same : false ≡ true = h in cc)
  scalar_eq-SameScalar (text a) (float b) h = absurd (let none_same : false ≡ true = h in cc)
  scalar_eq-SameScalar (text a) (text b) h =
      subst (λ x. SameScalar float_eq (text a) (text x)) (eq_of_bytes_eq a b h) (same_text a)

  pub SameScalar-scalar_eq :
      (a b : Scalar F) → SameScalar float_eq a b → scalar_eq float_eq a b ≡ true
  unfolding scalar_eq
  SameScalar-scalar_eq _ _ same_null = refl
  SameScalar-scalar_eq _ _ (same_boolean b) = same_bool_refl b
  SameScalar-scalar_eq _ _ (same_integer n) = same_int_refl n
  SameScalar-scalar_eq _ _ (same_float a b h) = h
  SameScalar-scalar_eq _ _ (same_text s) = bytes_eq_refl s
