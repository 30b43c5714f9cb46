-- ===== src/Dimmer/Steps.antt =====
-- The size of a step, `dimmer_delta_for_fraction` of src/dimmer.c.
use dimmit.Base.{
  ℕ, zero, suc, ◌+◌, ◌*◌, ◌^◌, ◌≤◌, ◌<◌, ◌≡◌, ◌⊎◌, refl, ap, ◌∙◌, sym, arith, ltb, if◌then◌else◌,
}
use dimmit.Base.Int.{
  ℤ, pos, negsuc, pos_part, neg_part, neg, ◌*ℤ◌, int32, int32_lem, int32-neg, neg-neg, pos_part-neg,
  neg_part-neg, eqb_ℤ, ltb_ℤ,
}
use native.Mathlib.Decide.{dec_le}
use native.Mathlib.Nat.{mul-le-mul, mul-le-mul_right, mul-zero}
use dimmit.Dimmer.Bounds.{level_limit, IsLevel, IsStep}
use dimmit.Dimmer.{Fraction, round_div, round_signed, dimmer_delta_for_fraction}

dyadic_pos : (e : ℕ) → 0 < 2 ^ e
dyadic_pos zero = omega arith
dyadic_pos (suc e) = omega (arith, dyadic_pos e)

-- Rounding is to the nearest whole number.
round_div_bounds :
    (n d : ℕ)
    → 0 < d
    → (2 * n ≤ 2 * (round_div n d * d) + d) × (2 * (round_div n d * d) ≤ 2 * n + d)
unfolding round_div
round_div_bounds n d h = grind arith

round_div-le : (n d : ℕ) → 0 < d → round_div n d ≤ n
round_div-le n d h = elim (dec_le (round_div n d) n) [
  | yes p ↦ p
  | no p ↦ absurd (too_large (omega arith))
]
  where
    too_large : n + 1 ≤ round_div n d → ⊥
    too_large q =
        omega (arith, mul-le-mul_right d q, mul-le-mul_right n h, (round_div_bounds n d h).1)

*ℤ-pos : (m n : ℕ) → pos m *ℤ pos n ≡ pos (m * n)
unfolding ◌*ℤ◌
*ℤ-pos m n = ground arith

*ℤ-neg : (m n : ℕ) → pos m *ℤ negsuc n ≡ neg (pos (m * suc n))
unfolding ◌*ℤ◌
*ℤ-neg m n = ground arith

-- A magnitude rounded to a step is never zero.
magnitude : ℕ → ℕ → ℕ → ℕ
magnitude m n e = let r = round_div (m * n) (2 ^ e) in if ltb 0 r then r else 1

zero-round_div : (d : ℕ) → 0 < d → round_div 0 d ≡ 0
zero-round_div d h = omega (arith, round_div-le 0 d h)

round_signed-neg : (k d : ℕ) → 0 < d → round_signed (neg (pos k)) d ≡ neg (pos (round_div k d))
unfolding round_signed
round_signed-neg zero d h = rw (zero-round_div d h)
round_signed-neg (suc k) d h = refl

step_up :
    (m n e : ℕ)
    → m * suc n < 2 ^ 31
    → dimmer_delta_for_fraction (pos m) (record { num = pos (suc n); exp = e })
      ≡ pos (magnitude m (suc n) e)
unfolding dimmer_delta_for_fraction magnitude
step_up m n e h = rw (*ℤ-pos, fits) (ground arith)
  where
    fits : int32 (round_signed (pos (m * suc n)) (2 ^ e)) ≡ pos (round_div (m * suc n) (2 ^ e))
    fits =
        int32_lem _ (omega arith) (omega (arith, round_div-le (m * suc n) (2 ^ e) (dyadic_pos e)))

neg_magnitude :
    (n r : ℕ)
    → (if eqb_ℤ (neg (pos r)) (pos 0)
        then (if ltb_ℤ (pos 0) (negsuc n)
            then pos 1
            else if ltb_ℤ (negsuc n) (pos 0)
            then negsuc 0
            else pos 0)
        else neg (pos r))
      ≡ neg (pos (if ltb 0 r then r else 1))
neg_magnitude n zero = ground arith
neg_magnitude n (suc r) = ground arith

step_down :
    (m n e : ℕ)
    → m * suc n < 2 ^ 31
    → dimmer_delta_for_fraction (pos m) (record { num = negsuc n; exp = e })
      ≡ neg (pos (magnitude m (suc n) e))
unfolding dimmer_delta_for_fraction magnitude
step_down m n e h = rw (*ℤ-neg, sign, fits) (neg_magnitude n (round_div (m * suc n) (2 ^ e)))
  where
    size : round_div (m * suc n) (2 ^ e) ≤ m * suc n
    size = round_div-le (m * suc n) (2 ^ e) (dyadic_pos e)

    sign : round_signed (neg (pos (m * suc n))) (2 ^ e) ≡ neg (pos (round_div (m * suc n) (2 ^ e)))
    sign = round_signed-neg (m * suc n) (2 ^ e) (dyadic_pos e)

    fits :
        int32 (neg (pos (round_div (m * suc n) (2 ^ e))))
        ≡ neg (pos (round_div (m * suc n) (2 ^ e)))
    fits = int32-neg _ (omega (arith, size))

abbrev pub opposite : Fraction → Fraction
opposite f = record f { num = neg f.num }

-- The step of a positive fraction of the maximum, the product of maximum and numerator below 2^31,
-- is at least one level and the nearest whole number of levels, or the one level.
pub step_nearest :
    (m n e : ℕ)
    → m * suc n < 2 ^ 31
    → (r : ℕ) × (dimmer_delta_for_fraction (pos m) (record { num = pos (suc n); exp = e }) ≡ pos r)
      × (1 ≤ r)
      × (2 * (m * suc n) ≤ 2 * (r * 2 ^ e) + 2 ^ e)
      × ((2 * (r * 2 ^ e) ≤ 2 * (m * suc n) + 2 ^ e) ⊎ (r ≡ 1))
unfolding magnitude
step_nearest m n e h =
    let near = round_div_bounds (m * suc n) (2 ^ e) (dyadic_pos e) in
    (magnitude m (suc n) e, step_up m n e h, ground arith, ground arith, ground arith)

zero_step : (m e : ℕ) → dimmer_delta_for_fraction (pos m) (record { num = pos 0; exp = e }) ≡ pos 0
unfolding dimmer_delta_for_fraction int32
zero_step m e = rw (*ℤ-pos, mul-zero, zero-round_div (2 ^ e) (dyadic_pos e))

by_sign :
    (m : ℕ) (num : ℤ) (e : ℕ)
    → m * pos_part num < 2 ^ 31
    → m * neg_part num < 2 ^ 31
    → dimmer_delta_for_fraction (pos m) (record { num = neg num; exp = e })
      ≡ neg (dimmer_delta_for_fraction (pos m) (record { num = num; exp = e }))
by_sign m (pos zero) e h k = rw (zero_step m e)
by_sign m (pos (suc n)) e h k = step_down m n e h ∙ sym (ap neg (step_up m n e h))
by_sign m (negsuc n) e h k =
    step_up m n e k ∙ sym (ap neg (step_down m n e k) ∙ neg-neg (pos (magnitude m (suc n) e)))

-- The step of the opposite fraction is the opposite of the step, where the maximum times the
-- numerator is below 2^31 in size.
step_opposite :
    (m : ℕ) (f : Fraction)
    → m * pos_part f.num < 2 ^ 31
    → m * neg_part f.num < 2 ^ 31
    → dimmer_delta_for_fraction (pos m) (opposite f) ≡ neg (dimmer_delta_for_fraction (pos m) f)
step_opposite m f h k = by_sign m f.num f.exp h k

-- The fractions that the daemon steps by stay far below this bound.
abbrev pub IsFraction : Fraction → Type 0
IsFraction f = (pos_part f.num ≤ 2 ^ 14) × (neg_part f.num ≤ 2 ^ 14)

neg-IsStep : (r : ℕ) → r ≤ 2 ^ 30 → IsStep (neg (pos r))
neg-IsStep zero h = omega arith
neg-IsStep (suc r) h = omega arith

magnitude-le : (m n e : ℕ) → magnitude m n e ≤ m * n + 1
unfolding magnitude
magnitude-le m n e = let size = round_div-le (m * n) (2 ^ e) (dyadic_pos e) in ground arith

step_size : (m n : ℕ) → m ≤ level_limit → n ≤ 2 ^ 14 → m * n + 1 ≤ 2 ^ 30
step_size m n h k = omega (arith, mul-le-mul h k)

-- Such a step of a display's range is a step that `dimmer_adjust` takes without a wrap.
pub dimmer_delta_for_fraction-IsStep :
    (max : ℤ) (f : Fraction) → IsLevel max → IsFraction f → IsStep (dimmer_delta_for_fraction max f)
dimmer_delta_for_fraction-IsStep (negsuc m) f level small = absurd (omega arith)
dimmer_delta_for_fraction-IsStep (pos m) f level small = by_sign_step f.num f.exp small
  where
    by_sign_step :
        (num : ℤ) (e : ℕ)
        → (pos_part num ≤ 2 ^ 14) × (neg_part num ≤ 2 ^ 14)
        → IsStep (dimmer_delta_for_fraction (pos m) (record { num = num; exp = e }))
    by_sign_step (pos zero) e h = rw (zero_step m e) (omega arith)
    by_sign_step (pos (suc n)) e h =
        let small = step_size m (suc n) (omega arith) h.0 in
        rw (step_up m n e (omega arith)) (omega (arith, magnitude-le m (suc n) e))
    by_sign_step (negsuc n) e h =
        let small = step_size m (suc n) (omega arith) h.1 in
        rw (step_down m n e (omega arith))
          (neg-IsStep (magnitude m (suc n) e) (omega (arith, magnitude-le m (suc n) e)))

-- The same in the terms of a display: its maximum is a level.
pub dimmer_delta_for_fraction-opposite :
    (max : ℤ) (f : Fraction)
    → IsLevel max
    → IsFraction f
    → dimmer_delta_for_fraction max (opposite f) ≡ neg (dimmer_delta_for_fraction max f)
dimmer_delta_for_fraction-opposite (negsuc m) f level small = absurd (omega arith)
dimmer_delta_for_fraction-opposite (pos m) f level small =
    let up = step_size m (pos_part f.num) (omega arith) small.0 in
    let down = step_size m (neg_part f.num) (omega arith) small.1 in
    step_opposite m f (omega arith) (omega arith)

pub opposite-IsFraction : (f : Fraction) → IsFraction f → IsFraction (opposite f)
opposite-IsFraction f small = omega (arith, pos_part-neg f.num, neg_part-neg f.num)
