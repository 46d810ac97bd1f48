-- ===== src/Expr/Word.antt =====
-- The int64 arithmetic that expr.go uses: an int64 is an integer, and each result is wrapped to 64
-- bits as Go does. The quotient is cut towards zero and the remainder has the dividend's sign.
use ikemen_devtools.Prelude.{
  ℕ, ◌+◌, ◌-◌, ◌/◌, ◌%◌, ◌≤◌, ◌<◌, ◌≡◌, ◌≢◌, Bool, arith, ltb, if◌then◌else◌,
}
use ikemen_devtools.Prelude.Int.{ℤ, pos, negsuc, pos_part, neg_part, sub_ℕ, ◌+ℤ◌, ◌-ℤ◌, ◌*ℤ◌}

-- 2 ^ 63, 2 ^ 64
abbrev pub half_range : ℕ
half_range = 9223372036854775808

abbrev pub full_range : ℕ
full_range = 18446744073709551616

-- The integer that a 64-bit pattern stands for.
unfoldable pub signed : ℕ → ℤ
signed u = if ltb u half_range then pos u else negsuc (full_range - 1 - u)

unfoldable pub wrap : ℤ → ℤ
unfolding signed
wrap (pos n) = signed (n % full_range)
wrap (negsuc n) = signed (full_range - 1 - n % full_range)

unfoldable pub add64 : ℤ → ℤ → ℤ
unfolding wrap ◌+ℤ◌
add64 a b = wrap (a +ℤ b)

unfoldable pub sub64 : ℤ → ℤ → ℤ
unfolding wrap ◌-ℤ◌
sub64 a b = wrap (a -ℤ b)

unfoldable pub mul64 : ℤ → ℤ → ℤ
unfolding wrap ◌*ℤ◌
mul64 a b = wrap (a *ℤ b)

unfoldable pub neg64 : ℤ → ℤ
unfolding wrap ◌-ℤ◌
neg64 a = wrap (pos 0 -ℤ a)

-- One of the two parts is 0, so their sum is the magnitude.
abbrev pub magnitude : ℤ → ℕ
magnitude a = pos_part a + neg_part a

abbrev pub with_sign : Bool → ℕ → ℤ
with_sign negative m = if negative then sub_ℕ 0 m else pos m

abbrev pub is_negative : ℤ → Bool
is_negative a = ltb 0 (neg_part a)

-- The most negative number divided by -1 wraps to itself.
unfoldable pub div64 : ℤ → ℤ → ℤ
unfolding wrap
div64 a b =
    let q = magnitude a / magnitude b in
    wrap (if is_negative a then with_sign (ltb (neg_part b) 1) q else with_sign (is_negative b) q)

unfoldable pub mod64 : ℤ → ℤ → ℤ
mod64 a b = with_sign (is_negative a) (magnitude a % magnitude b)

pub record InRange (a : ℤ) : Type 0 where
  pub upper : pos_part a < half_range
  pub lower : neg_part a ≤ half_range

pub signed-InRange : (u : ℕ) → u < full_range → InRange (signed u)
unfolding signed
signed-InRange u h = ground arith

pub wrap-InRange : (a : ℤ) → InRange (wrap a)
unfolding wrap
wrap-InRange (pos n) = signed-InRange (n % full_range) (omega arith)
wrap-InRange (negsuc n) = signed-InRange (full_range - 1 - n % full_range) (omega arith)

pub wrap-eq : (a : ℤ) → InRange a → wrap a ≡ a
unfolding wrap
wrap-eq (pos n) h = ground arith
wrap-eq (negsuc n) h = ground arith

pub mod64-InRange : (a b : ℤ) → InRange a → magnitude b ≢ 0 → InRange (mod64 a b)
unfolding mod64
mod64-InRange (pos n) b h z = ground arith
mod64-InRange (negsuc n) b h z = ground arith

pub add64-InRange : (a b : ℤ) → InRange (add64 a b)
unfolding add64
add64-InRange a b = wrap-InRange (a +ℤ b)

pub sub64-InRange : (a b : ℤ) → InRange (sub64 a b)
unfolding sub64
sub64-InRange a b = wrap-InRange (a -ℤ b)

pub mul64-InRange : (a b : ℤ) → InRange (mul64 a b)
unfolding mul64
mul64-InRange a b = wrap-InRange (a *ℤ b)

pub neg64-InRange : (a : ℤ) → InRange (neg64 a)
unfolding neg64
neg64-InRange a = wrap-InRange (pos 0 -ℤ a)

pub div64-InRange : (a b : ℤ) → InRange (div64 a b)
unfolding div64
div64-InRange a b = wrap-InRange (
    if is_negative a
    then with_sign (ltb (neg_part b) 1) (magnitude a / magnitude b)
    else with_sign (is_negative b) (magnitude a / magnitude b))
