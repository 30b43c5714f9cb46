-- ===== src/Dimmer/Knob.antt =====
-- The abstract view of the state machine of src/dimmer.c: a knob with a level that the display shows
-- and a goal that presses turn.
use dimmit.Base.{◌≡◌, Option, none, some, ap, arith, if◌then◌else◌}
use dimmit.Base.Int.{ℤ, pos, ltb_ℤ, eqb_ℤ, ◌+ℤ◌, ◌-ℤ◌, ◌≤ℤ◌, int_laws}
use dimmit.Dimmer.{
  Dimmer, clamp_brightness, dimmer_init, dimmer_adjust, dimmer_due, dimmer_commit, dimmer_settled,
}
use dimmit.Dimmer.Bounds.{
  IsLevel, IsStep, goal, IsReady, dimmer_adjust_lem, dimmer_commit_lem, dimmer_due_lem,
}

pub record Knob : Type 0 where
  pub level : ℤ
  pub goal : ℤ
  pub top : ℤ

abbrev pub lesser : ℤ → ℤ → ℤ
lesser a b = if ltb_ℤ b a then b else a

abbrev pub greater : ℤ → ℤ → ℤ
greater a b = if ltb_ℤ a b then b else a

-- A press turns the goal, up to the ends of the range.
unfoldable pub turn : ℤ → Knob → Knob
turn delta k = record k { goal = greater (pos 0) (lesser (k.goal +ℤ delta) k.top) }

-- The display is to be written while it does not show the goal.
unfoldable pub wanted : Knob → Option ℤ
wanted k = if eqb_ℤ k.goal k.level then none else some k.goal

unfoldable pub shown : ℤ → Knob → Knob
shown applied k = record k { level = applied }

unfoldable pub given_up : Knob → Knob
given_up k = record k { goal = k.level }

-- The abstract view of a dimmer.
unfoldable pub knob : Dimmer → Knob
knob d = record { level = d.current; goal = goal d; top = d.max }

clamp-eq-bounded :
    (z top : ℤ) → pos 0 ≤ℤ top → clamp_brightness z top ≡ greater (pos 0) (lesser z top)
unfolding clamp_brightness
clamp-eq-bounded z top h = ground arith

cancel : (a b : ℤ) → a +ℤ (b -ℤ a) ≡ b
cancel a b = omega int_laws

-- A fresh dimmer is a knob at rest at the level that was read.
pub knob-dimmer_init :
    (current max : ℤ)
    → knob (dimmer_init current max) ≡ record { level = current; goal = current; top = max }
unfolding knob dimmer_init
knob-dimmer_init current max = ap (λ (g : ℤ). record { level = current; goal = g; top = max }) zero
  where
    zero : current +ℤ pos 0 ≡ current
    zero = omega int_laws

-- On a dimmer in bounds and a step of at most 2^30, `dimmer_adjust` turns the goal by the step,
-- clamped to the range, and keeps the level: no `int` operation wraps.
pub knob-dimmer_adjust :
    (d : Dimmer) (delta : ℤ)
    → IsReady d
    → IsStep delta
    → knob (dimmer_adjust d delta) ≡ turn delta (knob d)
unfolding knob turn
knob-dimmer_adjust d delta r s =
    rw (
      dimmer_adjust_lem d delta r s,
      cancel,
      clamp-eq-bounded (goal d +ℤ delta) d.max r.max_level.0,
    )

-- On a dimmer in bounds `dimmer_due` asks for a write exactly where the goal differs from the
-- level, and for the goal.
pub dimmer_due-eq-wanted : (d : Dimmer) → IsReady d → dimmer_due d ≡ wanted (knob d)
unfolding knob wanted
dimmer_due-eq-wanted d r = dimmer_due_lem d r

-- On a dimmer in bounds `dimmer_commit` of a level sets the level and keeps the goal.
pub knob-dimmer_commit :
    (d : Dimmer) (applied : ℤ)
    → IsReady d
    → IsLevel applied
    → knob (dimmer_commit d applied) ≡ shown applied (knob d)
unfolding knob shown
knob-dimmer_commit d applied r level = rw (dimmer_commit_lem d applied r level, regroup)
  where
    regroup : applied +ℤ (d.pending_delta -ℤ (applied -ℤ d.current)) ≡ goal d
    regroup = omega int_laws

-- `dimmer_settled` gives the goal up.
pub knob-dimmer_settled : (d : Dimmer) → knob (dimmer_settled d) ≡ given_up (knob d)
unfolding knob given_up dimmer_settled
knob-dimmer_settled d = ap (λ (g : ℤ). record { level = d.current; goal = g; top = d.max }) zero
  where
    zero : d.current +ℤ pos 0 ≡ d.current
    zero = omega int_laws
