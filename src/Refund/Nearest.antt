-- ===== src/Refund/Nearest.antt =====
-- A rounding with the laws that the refunds rest on, on whole numbers.
use native.Mathlib.Nat.{
  div-zero, le-div_iff_mul-le, div-mul-le_self, add-mul-div_right, le_trans, add-mul,
  mul-le-mul_left,
}
use ayphen_retail_pos.Common.{ℕ, zero, suc, ap, ◌∙◌, ◌+◌, ◌-◌, ◌*◌, ◌/◌, ◌≤◌, ◌<◌, ◌≡◌, arith}
use ayphen_retail_pos.Refund.Money.{IsProrate}

-- The quotient rounded to the nearest integer, halves up.
unfoldable pub nearest : ℕ → ℕ → ℕ → ℕ
nearest a b t = (2 * (a * t) + b) / (2 * b)

nearest-zero : (b t : ℕ) → 0 < b → nearest 0 b t ≡ 0
unfolding nearest
nearest-zero b t h = grind arith

nearest-all : (b t : ℕ) → 0 < b → nearest b b t ≡ t
unfolding nearest
nearest-all b t h = grind arith

div_mono : (x y n : ℕ) → x ≤ y → x / n ≤ y / n
div_mono x y zero h = omega (arith, div-zero x, div-zero y)
div_mono x y (suc n) h =
    (le-div_iff_mul-le (omega arith)).1 (le_trans (div-mul-le_self x (suc n)) h)

nearest_mono : (a a' b t : ℕ) → a ≤ a' → nearest a b t ≤ nearest a' b t
unfolding nearest
nearest_mono a a' b t h =
    let more : a * t ≤ a' * t = grind arith in
    div_mono (2 * (a * t) + b) (2 * (a' * t) + b) (2 * b) (omega arith)

nearest-no_faster : (a a' b t : ℕ) → a ≤ a' → t ≤ b → nearest a' b t ≤ nearest a b t + (a' - a)
unfolding nearest
nearest-no_faster a a' zero t h k = omega (arith, div-zero (2 * (a' * t) + 0))
nearest-no_faster a a' (suc b) t h k =
    let d = a' - a in
    let same : a' ≡ a + d = omega arith in
    let split : a' * t ≡ a * t + d * t = ap (λ n. n * t) same ∙ add-mul a d t in
    let less : d * t ≤ d * suc b = mul-le-mul_left d k in
    let spread : d * (2 * suc b) ≡ 2 * (d * suc b) = grind arith in
    let bound : 2 * (a' * t) + suc b ≤ 2 * (a * t) + suc b + d * (2 * suc b) =
      omega (arith, split, less, spread) in
    le_trans (div_mono _ _ (2 * suc b) bound)
      (omega (arith, add-mul-div_right (2 * (a * t) + suc b) d {z = 2 * suc b} (omega arith)))

pub nearest-IsProrate : IsProrate nearest
nearest-IsProrate = record {
  zero_given = nearest-zero;
  all_given = nearest-all;
  monotone = nearest_mono;
  no_faster = nearest-no_faster;
}
