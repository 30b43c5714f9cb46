-- ===== src/Tests/Dimmers.antt =====
-- Runs of the state machine of src/dimmer.c, and inputs for its theorems.
use dimmit.Base.{ℕ, ◌≡◌, refl, none, some, [], ◌∷◌, arith, ◌≤◌, ◌*◌, ◌+◌, ◌^◌, ◌⊎◌}
use dimmit.Base.Int.{pos, negsuc, int32, ◌*ℤ◌, ◌+ℤ◌, ◌-ℤ◌}
use dimmit.Dimmer.{
  clamp_brightness, dimmer_init, dimmer_adjust, dimmer_due, dimmer_commit, dimmer_settled,
  dimmer_delta_for_fraction,
}
use dimmit.Dimmer.Knob.{knob, shown}
use dimmit.Dimmer.Coalesce.{adjust_all, turn_all, commit_keeps_presses}
use dimmit.Dimmer.Steps.{step_nearest}
use dimmit.Tests.Fixtures.{left_dimmer, left_dimmer-IsReady}

-- A step that would round to nothing is one level.
small_step : dimmer_delta_for_fraction (pos 4) (record { num = negsuc 0; exp = 6 }) ≡ negsuc 0
unfolding dimmer_delta_for_fraction int32 ◌*ℤ◌
small_step = refl

press_and_write :
    dimmer_due (dimmer_adjust (dimmer_init (pos 50) (pos 100)) (negsuc 5)) ≡ some (pos 44)
unfolding dimmer_due dimmer_adjust dimmer_init clamp_brightness int32 ◌-ℤ◌ ◌+ℤ◌
press_and_write = refl

-- A refused write drops the pending change.
settled : dimmer_due (dimmer_settled left_dimmer) ≡ none
unfolding dimmer_due dimmer_settled
settled = refl

left_dimmer-due : dimmer_due left_dimmer ≡ some (pos 56)
unfolding dimmer_due clamp_brightness int32 ◌+ℤ◌
left_dimmer-due = refl

commit_keeps_presses_example :
    knob (dimmer_commit (adjust_all (pos 6 ∷ negsuc 79 ∷ []) left_dimmer) (pos 56))
    ≡ shown (pos 56) (turn_all (pos 6 ∷ negsuc 79 ∷ []) (knob left_dimmer))
commit_keeps_presses_example =
    commit_keeps_presses left_dimmer (pos 6 ∷ negsuc 79 ∷ []) (pos 56) left_dimmer-IsReady
      (omega arith, (omega arith, tt)) left_dimmer-due

step_nearest_example :
    (r : ℕ) × (dimmer_delta_for_fraction (pos 100) (record { num = pos 1; exp = 4 }) ≡ pos r)
    × (1 ≤ r)
    × (2 * (100 * 1) ≤ 2 * (r * 2 ^ 4) + 2 ^ 4)
    × ((2 * (r * 2 ^ 4) ≤ 2 * (100 * 1) + 2 ^ 4) ⊎ (r ≡ 1))
step_nearest_example = step_nearest 100 0 4 (omega arith)
