-- ===== src/Controller/Lockstep.antt =====
-- A press on all displays at once, `controller_adjust` of src/display_controller.c.
use dimmit.Base.{◌≡◌, refl, ap, ap₂, ◌∙◌, List, [], ◌∷◌, map, arith, All}
use dimmit.Base.Int.{ℤ, pos, neg, ◌+ℤ◌, ◌-ℤ◌, ◌≤ℤ◌, int_laws}
use dimmit.Dimmer.{Fraction, dimmer_adjust, dimmer_max, dimmer_delta_for_fraction}
use dimmit.Dimmer.Bounds.{IsReady, goal}
use dimmit.Dimmer.Knob.{Knob, turn, knob, knob-dimmer_adjust}
use dimmit.Dimmer.Steps.{
  opposite-IsFraction, IsFraction, opposite, dimmer_delta_for_fraction-IsStep,
  dimmer_delta_for_fraction-opposite,
}
use dimmit.Dimmer.Ready.{dimmer_adjust-IsReady}
use dimmit.Controller.{ManagedDisplay, DisplayController, adjust_display, controller_adjust}
use dimmit.Controller.Service.{DisplayReady}

-- The whole set as knobs.
unfoldable pub knobs : {W : Type 0} → List (ManagedDisplay W) → List Knob
knobs [] = []
knobs (d ∷ ds) = knob d.dim ∷ knobs ds

-- A press by a fraction turns each knob by that fraction of its own range.
unfoldable pub press : Fraction → List Knob → List Knob
press f [] = []
press f (k ∷ ks) = turn (dimmer_delta_for_fraction k.top f) k ∷ press f ks

cancel : (a b x y : ℤ) → x ≡ y → a +ℤ x -ℤ (b +ℤ y) ≡ a -ℤ b
cancel a b x y e = rw e (omega int_laws)

add_neg : (a b : ℤ) → a +ℤ b +ℤ neg b ≡ a
add_neg a b = omega int_laws

module _ {W : Type 0} where
  pub adjust_display-turns :
      (f : Fraction) (d : ManagedDisplay W)
      → IsFraction f
      → IsReady d.dim
      → knob (adjust_display f d).dim ≡ turn (dimmer_delta_for_fraction d.dim.max f) (knob d.dim)
  unfolding adjust_display dimmer_max
  adjust_display-turns f d small r =
      knob-dimmer_adjust d.dim (dimmer_delta_for_fraction d.dim.max f) r
        (dimmer_delta_for_fraction-IsStep d.dim.max f r.max_level small)

  pub adjust_display-IsReady :
      (f : Fraction) (d : ManagedDisplay W)
      → IsFraction f
      → IsReady d.dim
      → IsReady (adjust_display f d).dim
  unfolding adjust_display dimmer_max
  adjust_display-IsReady f d small r =
      dimmer_adjust-IsReady d.dim (dimmer_delta_for_fraction d.dim.max f) r
        (dimmer_delta_for_fraction-IsStep d.dim.max f r.max_level small)

  map-adjust_display-press :
      (f : Fraction) (ds : List (ManagedDisplay W))
      → IsFraction f
      → All DisplayReady ds
      → knobs (map (adjust_display f) ds) ≡ press f (knobs ds)
  unfolding knobs press
  map-adjust_display-press f [] small r = refl
  map-adjust_display-press f (d ∷ ds) small r =
      ap₂ ◌∷◌ (unfold knob in adjust_display-turns f d small r.0)
        (map-adjust_display-press f ds small r.1)

  -- `controller_adjust` by a fraction of at most 2^14 either way turns the knob of each display,
  -- with its dimmer in bounds, by that fraction of its own range, clamped to the range.
  pub knobs-controller_adjust :
      (c : DisplayController W) (f : Fraction)
      → IsFraction f
      → All DisplayReady c.displays
      → knobs (controller_adjust c f).displays ≡ press f (knobs c.displays)
  unfolding controller_adjust
  knobs-controller_adjust c f small r = map-adjust_display-press f c.displays small r

  abbrev pub step : Fraction → ManagedDisplay W → ℤ
  step f d = dimmer_delta_for_fraction d.dim.max f

  -- A press by `f` does not take the display past an end of its range.
  abbrev pub HasRoom : Fraction → ManagedDisplay W → Type 0
  HasRoom f d = (pos 0 ≤ℤ goal d.dim +ℤ step f d) × (goal d.dim +ℤ step f d ≤ℤ d.dim.max)

  goal-adjust_display :
      (f : Fraction) (d : ManagedDisplay W)
      → IsFraction f
      → IsReady d.dim
      → HasRoom f d
      → goal (adjust_display f d).dim ≡ goal d.dim +ℤ step f d
  unfolding knob turn
  goal-adjust_display f d small r room =
      ap Knob.goal (adjust_display-turns f d small r) ∙ ground arith

  -- Two displays with dimmers in bounds, of one maximum and with room for the step keep the
  -- distance of their goals.
  pub adjust_display-offset :
      (f : Fraction) (a b : ManagedDisplay W)
      → IsFraction f
      → IsReady a.dim
      → IsReady b.dim
      → a.dim.max ≡ b.dim.max
      → HasRoom f a
      → HasRoom f b
      → goal (adjust_display f a).dim -ℤ goal (adjust_display f b).dim ≡ goal a.dim -ℤ goal b.dim
  adjust_display-offset f a b small ra rb same room_a room_b =
      rw (goal-adjust_display f a small ra room_a, goal-adjust_display f b small rb room_b)
        (cancel (goal a.dim) (goal b.dim) _ _ (ap (λ m. dimmer_delta_for_fraction m f) same))

  adjust_display-max :
      (f : Fraction) (d : ManagedDisplay W) → (adjust_display f d).dim.max ≡ d.dim.max
  unfolding adjust_display dimmer_adjust
  adjust_display-max f d = refl

  step-opposite :
      (f : Fraction) (d : ManagedDisplay W)
      → IsFraction f
      → IsReady d.dim
      → step (opposite f) (adjust_display f d) ≡ neg (step f d)
  step-opposite f d small r =
      ap (λ m. dimmer_delta_for_fraction m (opposite f)) (adjust_display-max f d)
      ∙ dimmer_delta_for_fraction-opposite d.dim.max f r.max_level small

  back :
      (f : Fraction) (d : ManagedDisplay W)
      → IsFraction f
      → IsReady d.dim
      → HasRoom f d
      → goal (adjust_display f d).dim +ℤ step (opposite f) (adjust_display f d) ≡ goal d.dim
  back f d small r room =
      ap₂ ◌+ℤ◌ (goal-adjust_display f d small r room) (step-opposite f d small r)
      ∙ add_neg (goal d.dim) (step f d)

  -- A step and the opposite step, with room for the first and a goal within the range, leave the
  -- goal where it was.
  opposite_press_undoes :
      (f : Fraction) (d : ManagedDisplay W)
      → IsFraction f
      → IsReady d.dim
      → goal d.dim ≤ℤ d.dim.max
      → HasRoom f d
      → goal (adjust_display (opposite f) (adjust_display f d)).dim ≡ goal d.dim
  opposite_press_undoes f d small r reach room =
      goal-adjust_display (opposite f) (adjust_display f d) (opposite-IsFraction f small)
        (adjust_display-IsReady f d small r)
        (rw (back f d small r room, adjust_display-max f d) (r.goal_level.0, reach))
      ∙ back f d small r room
