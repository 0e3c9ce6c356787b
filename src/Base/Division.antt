-- ===== src/Base/Division.antt =====
-- Division by a number that is not a literal.
use Prim.Native.Nat.{ℕ, zero, suc, ◌+◌, ◌*◌, ◌/◌, ◌≤◌, ◌<◌}
use native.Mathlib.Omega.{arith}
use native.Mathlib.Nat.{
  mul-le-mul_left, le_of_mul-le-mul_left, div-add-mod, div-zero, mod-lt, mul_comm, div-mul-le_self,
  mul-div_left, lt_of_mul-lt-mul_left,
}

pub mul_le_mul : (k a b : ℕ) → a ≤ b → k * a ≤ k * b
mul_le_mul k a b h = mul-le-mul_left k h

pub mul_le_mul_right : (k a b : ℕ) → a ≤ b → a * k ≤ b * k
mul_le_mul_right k a b h = omega (arith, mul-le-mul_left k h, mul_comm a k, mul_comm b k)

-- The quotient times the divisor is at most the dividend.
pub div_mul_le : (a d : ℕ) → d * (a / d) ≤ a
div_mul_le a d = omega (arith, div-mul-le_self a d, mul_comm d (a / d))

pub div_le_of : (a b d : ℕ) → a ≤ d * b → a / d ≤ b
div_le_of a b zero h = omega (arith, div-zero a)
div_le_of a b (suc d) h =
    le_of_mul-le-mul_left {k = suc d} (omega (arith, h, div_mul_le a (suc d))) (omega arith)

pub mul_div_le : (a n d : ℕ) → n ≤ d → (a * n) / d ≤ a
mul_div_le a n d h = div_le_of (a * n) a d (omega (arith, mul_le_mul a n d h, mul_comm a d))

pub div_mono : (a b d : ℕ) → a ≤ b → a / d ≤ b / d
div_mono a b zero h = omega (arith, div-zero a, div-zero b)
div_mono a b (suc d) h =
    let near = mul_lt_cancel (suc d) (a / suc d) (b / suc d + 1) (
      omega (
        arith,
        h,
        div_mul_le a (suc d),
        div-add-mod b (suc d),
        mod-lt b {m = suc d} (omega arith),
      )) in
    omega (arith, near)
  where
    mul_lt_cancel : (k m n : ℕ) → k * m < k * n → m < n
    mul_lt_cancel k m n p = lt_of_mul-lt-mul_left k p

pub le_div_of : (q a d : ℕ) → 0 < d → q * d ≤ a → q ≤ a / d
le_div_of q a d h p = omega (arith, div_mono (q * d) a d p, mul-div_left q h)

pub div_antimono : (a d d' : ℕ) → 0 < d → d ≤ d' → a / d' ≤ a / d
div_antimono a d d' h p =
    le_div_of (a / d') a d h
      (omega (arith, div_mul_le a d', mul_le_mul (a / d') d d' p, mul_comm d' (a / d')))
