-- ===== src/FilePath/Trimmed.antt =====
-- strings.TrimSpace: a trimmed text has no white space at its ends.
use mathlib.Core.List.{reverse, reverse-append, reverse-reverse}
use ikemen_devtools.Prelude.{
  ℕ, zero, suc, ◌≤◌, ◌≡◌, refl, sym, ap, ◌∙◌, [], ◌∷◌, ◌++◌, arith, length, take, drop,
  length-append, length-drop, take-append-drop, append_assoc,
}
use ikemen_devtools.Prelude.Text.{Bytes}
use ikemen_devtools.FilePath.{leading_space, trailing_space, strip, trim_space}

length-reverse : (s : Bytes) → length (reverse s) ≡ length s
length-reverse [] = refl
length-reverse (c ∷ s) =
    ap length (reverse-append (c ∷ []) s)
    ∙ length-append (reverse s) (c ∷ [])
    ∙ (let later = length-reverse s in omega arith)

-- `size` says how many bytes to take off; an empty text has none to take.
module _ (size : Bytes → ℕ) (nothing : size [] ≡ 0) where
  -- With enough fuel nothing is left to take off.
  strip-size : (fuel : ℕ) (s : Bytes) → length s ≤ fuel → size (strip size fuel s) ≡ 0
  unfolding strip
  strip-size zero [] h = nothing
  strip-size zero (c ∷ s) h = absurd (omega arith)
  strip-size (suc fuel) [] h = by_size (size []) refl
    where
      by_size :
          (n : ℕ)
          → size [] ≡ n
          → size (elim n [ zero ↦ [] | suc m ↦ strip size fuel (drop (suc m) []) ]) ≡ 0
      by_size zero e = e
      by_size (suc m) e = absurd (omega (arith, nothing))
  strip-size (suc fuel) (c ∷ s) h = by_size (λ t k. strip-size fuel t k) (size (c ∷ s)) refl
    where
      by_size :
          ((t : Bytes) → length t ≤ fuel → size (strip size fuel t) ≡ 0)
          → (n : ℕ) → size (c ∷ s) ≡ n
          → size (elim n [ zero ↦ c ∷ s | suc m ↦ strip size fuel (drop (suc m) (c ∷ s)) ]) ≡ 0
      by_size rest zero e = e
      by_size rest (suc m) e = rest (drop m s) (omega (arith, length-drop m s))

  -- What is stripped stands in front.
  strip-suffix : (fuel : ℕ) (s : Bytes) → (front : Bytes) × (front ++ strip size fuel s ≡ s)
  unfolding strip
  strip-suffix zero s = ([], refl)
  strip-suffix (suc fuel) s = by_size (λ t. strip-suffix fuel t) (size s)
    where
      by_size :
          ((t : Bytes) → (front : Bytes) × (front ++ strip size fuel t ≡ t))
          → (n : ℕ)
          → (front : Bytes) × (front
                ++ elim n [ zero ↦ s | suc m ↦ strip size fuel (drop (suc m) s) ]
              ≡ s)
      by_size rest zero = ([], refl)
      by_size rest (suc m) =
          let (front, eq) = rest (drop (suc m) s) in
          (
            take (suc m) s ++ front,
            append_assoc (take (suc m) s) front _
                ∙ ap (λ t. take (suc m) s ++ t) eq
                ∙ take-append-drop (suc m) s,
          )

  -- A text with nothing to take off stays.
  strip_same : (fuel : ℕ) (s : Bytes) → size s ≡ 0 → strip size fuel s ≡ s
  unfolding strip
  strip_same zero s h = refl
  strip_same (suc fuel) s h =
      ap (λ n. elim n [ zero ↦ s | suc m ↦ strip size fuel (drop (suc m) s) ]) h

-- A text without white space in front has no part with it that begins it.
leading_space_part : (p q : Bytes) → leading_space (p ++ q) ≡ 0 → leading_space p ≡ 0
unfolding leading_space
leading_space_part [] q h = refl
leading_space_part (a ∷ []) [] h = h
leading_space_part (a ∷ []) (b ∷ []) h = ground arith
leading_space_part (a ∷ []) (b ∷ c ∷ q) h = ground arith
leading_space_part (a ∷ b ∷ []) [] h = h
leading_space_part (a ∷ b ∷ []) (c ∷ q) h = ground arith
leading_space_part (a ∷ b ∷ c ∷ p) q h = h

-- Trimming a trimmed text changes nothing.
pub trim_space_idempotent : (s : Bytes) → trim_space (trim_space s) ≡ trim_space s
unfolding trim_space
trim_space_idempotent s =
    let front : Bytes = strip leading_space (length s) s in
    let back : Bytes = strip trailing_space (length front) (reverse front) in
    let none_leads : leading_space front ≡ 0 =
      strip-size leading_space refl (length s) s (omega arith) in
    let none_trails : trailing_space back ≡ 0 =
      strip-size trailing_space refl (length front) (reverse front)
        (omega (arith, length-reverse front)) in
    let (cut, back_eq) = strip-suffix trailing_space refl (length front) (reverse front) in
    let front_eq : reverse back ++ reverse cut ≡ front =
      sym (reverse-append cut back) ∙ ap (λ t. reverse t) back_eq ∙ reverse-reverse front in
    let still_leads : leading_space (reverse back) ≡ 0 =
      leading_space_part (reverse back) (reverse cut) (ap leading_space front_eq ∙ none_leads) in
    ap (λ t. reverse (strip trailing_space (length t) (reverse t)))
      (strip_same leading_space refl (length (reverse back)) (reverse back) still_leads)
    ∙ ap (λ t. reverse (strip trailing_space (length (reverse back)) t)) (reverse-reverse back)
    ∙ ap (λ t. reverse t) (strip_same trailing_space refl (length (reverse back)) back none_trails)
