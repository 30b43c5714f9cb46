-- ===== src/Controller/Service.antt =====
-- The writes of `controller_service` (src/display_controller.c), display by display.
use dimmit.Base.{
  ℕ, ◌+◌, ◌≡◌, refl, sym, ◌∙◌, Bool, true, false, none, some, List, [], ◌∷◌, All, Option-cases, inl,
  inr,
}
use dimmit.Base.Int.{ℤ}
use dimmit.Dimmer.{Dimmer, dimmer_due, dimmer_commit, dimmer_settled}
use dimmit.Dimmer.Bounds.{IsReady}
use dimmit.Dimmer.Knob.{
  wanted, shown, given_up, knob, dimmer_due-eq-wanted, knob-dimmer_commit, knob-dimmer_settled,
}
use dimmit.Dimmer.Ready.{dimmer_due-target}
use dimmit.Controller.{
  ManagedDisplay, DisplayController, finish_write, write_due, service_display, service_displays,
  controller_service,
}

-- What a pass does to one display, seen as a knob. `written` and `refused` carry the call of `set`
-- that decided.
pub data Serviced {W : Type 0} : ManagedDisplay W → ManagedDisplay W → ℕ → Type 0 where
  idle : (d : ManagedDisplay W) → wanted (knob d.dim) ≡ none → Serviced d d 0
  written :
      (d : ManagedDisplay W) (target : ℤ) (w : W) (dim : Dimmer)
      → wanted (knob d.dim) ≡ some target
      → (d.src.ops.set d.src.ctx target w).0 ≡ true
      → knob dim ≡ shown target (knob d.dim)
      → Serviced d (record d { dim = dim }) 1
  refused :
      (d : ManagedDisplay W) (target : ℤ) (w : W) (dim : Dimmer)
      → wanted (knob d.dim) ≡ some target
      → (d.src.ops.set d.src.ctx target w).0 ≡ false
      → knob dim ≡ given_up (knob d.dim)
      → Serviced d (record d { dim = dim }) 0

-- The same along the list, with the number of displays written.
pub data AllServiced {W : Type 0}
    : List (ManagedDisplay W) → List (ManagedDisplay W) → ℕ → Type 0 where
  nil : AllServiced [] [] 0
  cons :
      {d d' : ManagedDisplay W} {ds ds' : List (ManagedDisplay W)} {n m k : ℕ}
      → Serviced d d' n
      → AllServiced ds ds' m
      → k ≡ n + m
      → AllServiced (d ∷ ds) (d' ∷ ds') k

module _ {W : Type 0} where
  abbrev pub DisplayReady : ManagedDisplay W → Type 0
  DisplayReady d = IsReady d.dim

  abbrev pub NotDue : ManagedDisplay W → Type 0
  NotDue d = dimmer_due d.dim ≡ none

  write_due-Serviced :
      (d : ManagedDisplay W) (target : ℤ) (written_ok : Bool) (w : W)
      → IsReady d.dim
      → dimmer_due d.dim ≡ some target
      → (d.src.ops.set d.src.ctx target w).0 ≡ written_ok
      → Serviced d (finish_write d target written_ok).0 (finish_write d target written_ok).1
  unfolding finish_write
  write_due-Serviced d target true w r due ok =
      written d target w (dimmer_commit d.dim target) (sym (dimmer_due-eq-wanted d.dim r) ∙ due) ok
        (knob-dimmer_commit d.dim target r (dimmer_due-target d.dim target r due).1)
  write_due-Serviced d target false w r due ok =
      refused d target w (dimmer_settled d.dim) (sym (dimmer_due-eq-wanted d.dim r) ∙ due) ok
        (knob-dimmer_settled d.dim)

  service_display-Serviced :
      (d : ManagedDisplay W) (w : W)
      → IsReady d.dim
      → Serviced d (service_display d w).0.0 (service_display d w).0.1
  unfolding service_display write_due
  service_display-Serviced d w r = elim (Option-cases (dimmer_due d.dim)) [
    | inl none_due ↦ simp none_due (idle d (sym (dimmer_due-eq-wanted d.dim r) ∙ none_due))
    | inr (target, due) ↦ simp due (write_due-Serviced d target _ w r due refl)
  ]

  service_displays-AllServiced :
      (ds : List (ManagedDisplay W)) (w : W)
      → All DisplayReady ds
      → AllServiced ds (service_displays ds w).0.0 (service_displays ds w).0.1
  unfolding service_displays
  service_displays-AllServiced [] w r = nil
  service_displays-AllServiced (d ∷ ds) w r =
      cons (service_display-Serviced d w r.0)
        (service_displays-AllServiced ds (service_display d w).1 r.1) refl

  -- Each display of a pass is idle at its goal, or written to its goal with its level moved there,
  -- or refused with its pending change given up; no display affects another, and the result counts
  -- the writes that went through.
  pub controller_service-AllServiced :
      (c : DisplayController W) (w : W)
      → All DisplayReady c.displays
      → AllServiced c.displays (controller_service c w).0.0.displays (controller_service c w).0.1
  unfolding controller_service
  controller_service-AllServiced c w r = service_displays-AllServiced c.displays w r
