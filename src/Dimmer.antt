-- ===== src/Dimmer.antt =====
-- src/dimmer.{h,c}: the brightness state machine of one display. All values are C `int`s, kept as
-- integers with the wrap of every addition and subtraction written out.
pub mod Bounds
pub mod Knob
pub mod Ready
pub mod Steps
pub mod Coalesce
use dimmit.Base.{ℕ, suc, ◌+◌, ◌*◌, ◌/◌, ◌^◌, Option, none, some, if◌then◌else◌}
use dimmit.Base.Int.{ℤ, pos, negsuc, neg, ◌*ℤ◌, ltb_ℤ, eqb_ℤ, int32, add_int, sub_int}

-- `dimmer_t`
pub record Dimmer : Type 0 where
  pub current : ℤ
  pub max : ℤ
  pub pending_delta : ℤ

unfoldable pub clamp_brightness : ℤ → ℤ → ℤ
clamp_brightness value max =
    if ltb_ℤ value (pos 0) then pos 0 else if ltb_ℤ max value then max else value

unfoldable pub dimmer_init : ℤ → ℤ → Dimmer
dimmer_init current max = record { current = current; max = max; pending_delta = pos 0 }

unfoldable pub dimmer_adjust : Dimmer → ℤ → Dimmer
dimmer_adjust d delta =
    let projected = clamp_brightness (add_int (add_int d.current d.pending_delta) delta) d.max in
    record d { pending_delta = sub_int projected d.current }

-- The result 1 with `*target_out` is `some target`, the result 0 is `none`.
unfoldable pub dimmer_due : Dimmer → Option ℤ
dimmer_due d =
    if eqb_ℤ d.pending_delta (pos 0)
    then none
    else (let target = clamp_brightness (add_int d.current d.pending_delta) d.max in
        if eqb_ℤ target d.current then none else some target)

unfoldable pub dimmer_commit : Dimmer → ℤ → Dimmer
dimmer_commit d applied = record d {
  pending_delta = sub_int d.pending_delta (sub_int applied d.current);
  current = applied;
}

unfoldable pub dimmer_settled : Dimmer → Dimmer
dimmer_settled d = record d { pending_delta = pos 0 }

unfoldable pub dimmer_max : Dimmer → ℤ
dimmer_max d = d.max

-- A `double` of the program: the signed fraction num / 2^exp of a display's range.
pub record Fraction : Type 0 where
  pub num : ℤ
  pub exp : ℕ

-- `(double)max * fraction`; the product of a 16-bit maximum and a small fraction is exact.
abbrev pub scaled : ℤ → Fraction → Fraction
scaled max fraction = record fraction { num = max *ℤ fraction.num }

-- n / d to the nearest whole number, halves up.
unfoldable pub round_div : ℕ → ℕ → ℕ
round_div n d = (2 * n + d) / (2 * d)

unfoldable pub round_signed : ℤ → ℕ → ℤ
unfolding round_div
round_signed (pos n) d = pos (round_div n d)
round_signed (negsuc n) d = neg (pos (round_div (suc n) d))

-- C's `lround`: halves go away from zero.
unfoldable pub lround : Fraction → ℤ
unfolding round_signed
lround x = round_signed x.num (2 ^ x.exp)

unfoldable pub dimmer_delta_for_fraction : ℤ → Fraction → ℤ
unfolding lround
dimmer_delta_for_fraction max fraction =
    let delta = int32 (lround (scaled max fraction)) in
    if eqb_ℤ delta (pos 0)
    then (if ltb_ℤ (pos 0) fraction.num
        then pos 1
        else if ltb_ℤ fraction.num (pos 0)
        then negsuc 0
        else pos 0)
    else delta
