-- ===== src/Dimmer/Coalesce.antt =====
-- Presses that land while a write is in flight (src/dimmer.{h,c}): between `dimmer_due` and
-- `dimmer_commit` any number of them may come.
use dimmit.Base.{◌≡◌, some, refl, ap, ◌∙◌, List, [], ◌∷◌, All}
use dimmit.Base.Int.{ℤ, pos, ◌≤ℤ◌}
use dimmit.Dimmer.{Dimmer, dimmer_adjust, dimmer_due, dimmer_commit}
use dimmit.Dimmer.Bounds.{IsStep, goal, IsReady}
use dimmit.Dimmer.Knob.{Knob, turn, shown, knob, knob-dimmer_adjust, knob-dimmer_commit}
use dimmit.Dimmer.Ready.{goal-dimmer_adjust-bounds, dimmer_adjust-IsReady, dimmer_due-target}

-- A run of presses.
unfoldable pub adjust_all : List ℤ → Dimmer → Dimmer
adjust_all [] d = d
adjust_all (delta ∷ deltas) d = adjust_all deltas (dimmer_adjust d delta)

unfoldable pub turn_all : List ℤ → Knob → Knob
turn_all [] k = k
turn_all (delta ∷ deltas) k = turn_all deltas (turn delta k)

pub adjust_all-IsReady :
    (deltas : List ℤ) (d : Dimmer) → IsReady d → All IsStep deltas → IsReady (adjust_all deltas d)
unfolding adjust_all
adjust_all-IsReady [] d r s = r
adjust_all-IsReady (delta ∷ deltas) d r s =
    adjust_all-IsReady deltas (dimmer_adjust d delta) (dimmer_adjust-IsReady d delta r s.0) s.1

pub knob-adjust_all :
    (deltas : List ℤ) (d : Dimmer)
    → IsReady d
    → All IsStep deltas
    → knob (adjust_all deltas d) ≡ turn_all deltas (knob d)
unfolding adjust_all turn_all
knob-adjust_all [] d r s = refl
knob-adjust_all (delta ∷ deltas) d r s =
    knob-adjust_all deltas (dimmer_adjust d delta) (dimmer_adjust-IsReady d delta r s.0) s.1
    ∙ ap (turn_all deltas) (knob-dimmer_adjust d delta r s.0)

-- Committing the target that was due, after any presses since, records the level and keeps the
-- goal to which the presses turned the knob, for a dimmer in bounds and steps of at most 2^30.
pub commit_keeps_presses :
    (d : Dimmer) (deltas : List ℤ) (target : ℤ)
    → IsReady d
    → All IsStep deltas
    → dimmer_due d ≡ some target
    → knob (dimmer_commit (adjust_all deltas d) target) ≡ shown target (turn_all deltas (knob d))
commit_keeps_presses d deltas target r s due =
    knob-dimmer_commit (adjust_all deltas d) target (adjust_all-IsReady deltas d r s)
      (dimmer_due-target d target r due).1
    ∙ ap (shown target) (knob-adjust_all deltas d r s)

dimmer_adjust-max : (d : Dimmer) (delta : ℤ) → (dimmer_adjust d delta).max ≡ d.max
unfolding dimmer_adjust
dimmer_adjust-max d delta = refl

in_range :
    (delta : ℤ) (deltas : List ℤ) (d : Dimmer) (top : ℤ)
    → d.max ≡ top
    → IsReady d
    → All IsStep (delta ∷ deltas)
    → (pos 0 ≤ℤ goal (adjust_all (delta ∷ deltas) d))
      × (goal (adjust_all (delta ∷ deltas) d) ≤ℤ top)
unfolding adjust_all
in_range delta [] d top e r s = rw (← e) (goal-dimmer_adjust-bounds d delta r s.0)
in_range delta (next ∷ deltas) d top e r s =
    in_range next deltas (dimmer_adjust d delta) top (dimmer_adjust-max d delta ∙ e)
      (dimmer_adjust-IsReady d delta r s.0) s.1

-- After any nonempty run of steps of at most 2^30, from a dimmer in bounds, the goal lies between
-- 0 and the maximum.
presses_stay_in_range :
    (delta : ℤ) (deltas : List ℤ) (d : Dimmer)
    → IsReady d
    → All IsStep (delta ∷ deltas)
    → (pos 0 ≤ℤ goal (adjust_all (delta ∷ deltas) d))
      × (goal (adjust_all (delta ∷ deltas) d) ≤ℤ d.max)
presses_stay_in_range delta deltas d r s = in_range delta deltas d d.max refl r s
