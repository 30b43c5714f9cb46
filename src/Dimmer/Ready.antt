-- ===== src/Dimmer/Ready.antt =====
-- The bounds of the values after each operation of the state machine (src/dimmer.c).
use dimmit.Base.{◌≡◌, inl, inr, some, refl, ap, arith}
use dimmit.Base.Int.{ℤ, pos, ◌≤ℤ◌, int_laws}
use dimmit.Dimmer.{
  Dimmer, clamp_brightness, dimmer_init, dimmer_adjust, dimmer_due, dimmer_commit, dimmer_settled,
}
use dimmit.Dimmer.Bounds.{IsLevel, IsStep, goal, IsReady, dimmer_commit_lem, dimmer_due_lem}
use dimmit.Dimmer.Knob.{Knob, turn, knob, knob-dimmer_adjust}

pub dimmer_init-IsReady :
    (current max : ℤ) → IsLevel current → IsLevel max → IsReady (dimmer_init current max)
unfolding dimmer_init
dimmer_init-IsReady current max c m = record {
  current_level = c;
  max_level = m;
  goal_level = omega int_laws;
  reachable = inr refl;
}

-- After a press the goal is one that the display can show.
pub goal-dimmer_adjust-bounds :
    (d : Dimmer) (delta : ℤ)
    → IsReady d
    → IsStep delta
    → (pos 0 ≤ℤ goal (dimmer_adjust d delta)) × (goal (dimmer_adjust d delta) ≤ℤ d.max)
unfolding knob turn
goal-dimmer_adjust-bounds d delta r s =
    ground (arith, ap Knob.goal (knob-dimmer_adjust d delta r s), r.max_level.0)

pub dimmer_adjust-IsReady :
    (d : Dimmer) (delta : ℤ) → IsReady d → IsStep delta → IsReady (dimmer_adjust d delta)
dimmer_adjust-IsReady d delta r s =
    let range = goal-dimmer_adjust-bounds d delta r s in
    record {
      current_level = kept_current;
      max_level = kept_max;
      goal_level = (range.0, omega arith);
      reachable = inl in_reach;
    }
  where
    kept_current : IsLevel (dimmer_adjust d delta).current
    kept_current = unfold dimmer_adjust in r.current_level

    kept_max : IsLevel (dimmer_adjust d delta).max
    kept_max = unfold dimmer_adjust in r.max_level

    in_reach : goal (dimmer_adjust d delta) ≤ℤ (dimmer_adjust d delta).max
    in_reach = unfold dimmer_adjust in (goal-dimmer_adjust-bounds d delta r s).1

-- A target is the goal, and the display can show it.
pub dimmer_due-target :
    (d : Dimmer) (target : ℤ)
    → IsReady d
    → dimmer_due d ≡ some target
    → (target ≡ goal d) × IsLevel target × (goal d ≤ℤ d.max)
unfolding dimmer_due clamp_brightness
dimmer_due-target d target r due = elim r.reachable [
  | inl reach ↦ ground (arith, dimmer_due_lem d r)
  | inr idle ↦ ground arith
]

pub dimmer_commit-IsReady :
    (d : Dimmer) (applied : ℤ)
    → IsReady d
    → goal d ≤ℤ d.max
    → IsLevel applied
    → IsReady (dimmer_commit d applied)
dimmer_commit-IsReady d applied r reach level = rw (dimmer_commit_lem d applied r level) record {
  current_level = level;
  max_level = r.max_level;
  goal_level = omega int_laws;
  reachable = inl (omega int_laws);
}

pub dimmer_settled-IsReady : (d : Dimmer) → IsReady d → IsReady (dimmer_settled d)
unfolding dimmer_settled
dimmer_settled-IsReady d r = record {
  current_level = r.current_level;
  max_level = r.max_level;
  goal_level = omega int_laws;
  reachable = inr refl;
}
