-- ===== src/Controller/Drain.antt =====
-- What is due after a pass of `controller_service` (src/display_controller.c), which decides whether
-- the worker's loop in src/dimmitd.c comes to its wait.
use dimmit.Base.{
  ◌≡◌, refl, ap, ◌∙◌, Bool, true, false, none, some, List, [], ◌∷◌, arith, All, Option-cases, inl,
  inr,
}
use dimmit.Base.Int.{ℤ, ◌≤ℤ◌}
use dimmit.Dimmer.{dimmer_due, dimmer_commit, dimmer_settled}
use dimmit.Dimmer.Bounds.{IsLevel, IsReady, goal}
use dimmit.Dimmer.Knob.{
  Knob, wanted, shown, given_up, knob, dimmer_due-eq-wanted, knob-dimmer_commit,
  knob-dimmer_settled,
}
use dimmit.Dimmer.Ready.{dimmer_due-target, dimmer_commit-IsReady, dimmer_settled-IsReady}
use dimmit.Controller.{
  ManagedDisplay, DisplayController, finish_write, write_due, service_display, service_displays,
  controller_service,
}
use dimmit.Controller.Service.{DisplayReady, NotDue}

wanted-at_goal : (k : Knob) → wanted (shown k.goal k) ≡ none
unfolding wanted shown
wanted-at_goal k = ground arith

wanted-given_up : (k : Knob) → wanted (given_up k) ≡ none
unfolding wanted given_up
wanted-given_up k = ground arith

module _ {W : Type 0} where
  -- What holds of a display after its turn.
  abbrev Settled : ManagedDisplay W → Type 0
  Settled d = IsReady d.dim × (dimmer_due d.dim ≡ none)

  finish_write-Settled :
      (d : ManagedDisplay W) (target : ℤ) (written_ok : Bool)
      → IsReady d.dim
      → dimmer_due d.dim ≡ some target
      → Settled (finish_write d target written_ok).0
  unfolding finish_write
  finish_write-Settled d target true r due = (ready, dimmer_due-eq-wanted _ ready ∙ at_goal)
    where
      found : (target ≡ goal d.dim) × IsLevel target × (goal d.dim ≤ℤ d.dim.max)
      found = dimmer_due-target d.dim target r due

      ready : IsReady (dimmer_commit d.dim target)
      ready = dimmer_commit-IsReady d.dim target r found.2 found.1

      at_goal : wanted (knob (dimmer_commit d.dim target)) ≡ none
      at_goal =
          ap wanted (knob-dimmer_commit d.dim target r found.1)
          ∙ ap (λ t. wanted (shown t (knob d.dim))) found.0
          ∙ unfold knob in wanted-at_goal (knob d.dim)
  finish_write-Settled d target false r due = (ready, dimmer_due-eq-wanted _ ready ∙ resting)
    where
      ready : IsReady (dimmer_settled d.dim)
      ready = dimmer_settled-IsReady d.dim r

      resting : wanted (knob (dimmer_settled d.dim)) ≡ none
      resting = ap wanted (knob-dimmer_settled d.dim) ∙ wanted-given_up (knob d.dim)

  service_display-Settled :
      (d : ManagedDisplay W) (w : W) → IsReady d.dim → Settled (service_display d w).0.0
  unfolding service_display write_due
  service_display-Settled d w r = elim (Option-cases (dimmer_due d.dim)) [
    | inl none_due ↦ simp none_due (r, refl)
    | inr (target, due) ↦ simp due (finish_write-Settled d target _ r due)
  ]

  service_displays-Settled :
      (ds : List (ManagedDisplay W)) (w : W)
      → All DisplayReady ds
      → All DisplayReady (service_displays ds w).0.0 × All NotDue (service_displays ds w).0.0
  unfolding service_displays
  service_displays-Settled [] w r = (tt, tt)
  service_displays-Settled (d ∷ ds) w r =
      let first = service_display-Settled d w r.0 in
      let rest = service_displays-Settled ds (service_display d w).1 r.1 in
      ((first.0, rest.0), (first.1, rest.1))

  -- After one `controller_service` over displays with dimmers in bounds every dimmer is in bounds
  -- and no display is due, whatever the results of the writes.
  pub controller_service-drains :
      (c : DisplayController W) (w : W)
      → All DisplayReady c.displays
      → All DisplayReady (controller_service c w).0.0.displays
        × All NotDue (controller_service c w).0.0.displays
  unfolding controller_service
  controller_service-drains c w r = service_displays-Settled c.displays w r

  service_display-idle :
      (d : ManagedDisplay W) (w : W) → NotDue d → service_display d w ≡ ((d, 0), w)
  unfolding service_display write_due
  service_display-idle d w h = ap (λ due. write_due d due w) h

  service_displays-idle :
      (ds : List (ManagedDisplay W)) (w : W) → All NotDue ds → service_displays ds w ≡ ((ds, 0), w)
  unfolding service_displays
  service_displays-idle [] w h = refl
  service_displays-idle (d ∷ ds) w h =
      rw (service_display-idle d w h.0, service_displays-idle ds w h.1)

  -- Where nothing is due a pass writes nothing and changes nothing.
  pub controller_service-idle :
      (c : DisplayController W) (w : W)
      → All NotDue c.displays
      → controller_service c w ≡ ((c, 0), w)
  unfolding controller_service
  controller_service-idle c w h =
      ap (λ r. ((record c { displays = r.0.0 }, r.0.1), r.1)) (service_displays-idle c.displays w h)

  -- A second `controller_service` right after the first, from dimmers in bounds, writes nothing
  -- and changes nothing, so the worker's loop waits after at most two passes.
  pub controller_service_twice :
      (c : DisplayController W) (w : W)
      → All DisplayReady c.displays
      → controller_service (controller_service c w).0.0 (controller_service c w).1
        ≡ (((controller_service c w).0.0, 0), (controller_service c w).1)
  controller_service_twice c w r = controller_service-idle _ _ (controller_service-drains c w r).1
