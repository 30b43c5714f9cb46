-- ===== src/Controller/Press.antt =====
-- A press and the pass that follows it (src/display_controller.c).
use dimmit.Base.{ℕ, ◌≡◌, refl, ap, ap₂, ◌∙◌, true, none, some, List, [], ◌∷◌, All, map, arith}
use dimmit.Base.Int.{ℤ}
use dimmit.Dimmer.{Fraction}
use dimmit.Dimmer.Steps.{IsFraction}
use dimmit.Dimmer.Knob.{Knob, knob, wanted, shown}
use dimmit.Controller.{
  ManagedDisplay, DisplayController, adjust_display, controller_adjust, controller_service,
}
use dimmit.Controller.Service.{
  Serviced, idle, written, refused, AllServiced, nil, cons, DisplayReady,
  controller_service-AllServiced,
}
use dimmit.Controller.Bounds.{controller_adjust-ready}
use dimmit.Controller.Lockstep.{knobs, press, knobs-controller_adjust}

-- A knob whose display shows its goal.
unfoldable pub at_goal : Knob → Knob
at_goal k = record k { level = k.goal }

-- Every write of the display goes through.
abbrev pub Writes : {W : Type 0} → ManagedDisplay W → Type 0
Writes {W = W} d = (target : ℤ) (w : W) → (d.src.ops.set d.src.ctx target w).0 ≡ true

pub wanted-none : (k : Knob) → wanted k ≡ none → k ≡ at_goal k
unfolding wanted at_goal
wanted-none k e = ap (λ l. record k { level = l }) level_goal
  where
    level_goal : k.level ≡ k.goal
    level_goal = ground arith

pub wanted-some : (k : Knob) (target : ℤ) → wanted k ≡ some target → target ≡ k.goal
unfolding wanted
wanted-some k target e = ground arith

module _ {W : Type 0} where
  pub Serviced-at_goal :
      {d d' : ManagedDisplay W} {n : ℕ}
      → Serviced d d' n
      → Writes d
      → knob d'.dim ≡ at_goal (knob d.dim)
  unfolding shown at_goal
  Serviced-at_goal (idle d settled) writes = wanted-none (knob d.dim) settled
  Serviced-at_goal (written d target w dim due ok moved) writes =
      moved ∙ ap (λ l. record (knob d.dim) { level = l }) (wanted-some (knob d.dim) target due)
  Serviced-at_goal (refused d target w dim due failed stays) writes = cc (writes target w)

  AllServiced-at_goal :
      {ds ds' : List (ManagedDisplay W)} {n : ℕ}
      → AllServiced ds ds' n
      → All Writes ds
      → knobs ds' ≡ map at_goal (knobs ds)
  unfolding knobs
  AllServiced-at_goal nil writes = refl
  AllServiced-at_goal (cons one rest count) writes =
      ap₂ ◌∷◌ (Serviced-at_goal one writes.0) (AllServiced-at_goal rest writes.1)

  adjusted-Writes :
      (f : Fraction) (ds : List (ManagedDisplay W))
      → All Writes ds
      → All Writes (map (adjust_display f) ds)
  unfolding adjust_display
  adjusted-Writes f [] writes = tt
  adjusted-Writes f (d ∷ ds) writes = (writes.0, adjusted-Writes f ds writes.1)

  pub press_shows :
      (c : DisplayController W) (f : Fraction) (w : W)
      → IsFraction f
      → All DisplayReady c.displays
      → All Writes c.displays
      → knobs (controller_service (controller_adjust c f) w).0.0.displays
        ≡ map at_goal (press f (knobs c.displays))
  unfolding controller_adjust
  press_shows c f w small ready writes =
      AllServiced-at_goal
        (controller_service-AllServiced (controller_adjust c f) w
          (controller_adjust-ready c f small ready))
        (adjusted-Writes f c.displays writes)
      ∙ ap (map at_goal) (knobs-controller_adjust c f small ready)
