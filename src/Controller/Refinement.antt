-- ===== src/Controller/Refinement.antt =====
-- `src/display_controller.c` does what Spec says, from `controller_open` on.
use dimmit.Base.{
  ℕ, ◌≡◌, ◌≢◌, inl, inr, refl, ap, ap₂, ◌∙◌, Bool, true, false, Option, none, some, List, [], ◌∷◌,
  ◌++◌, map, All, Bool-cases,
}
use dimmit.Base.Int.{ℤ}
use dimmit.Base.World.{Action, pure}
use dimmit.Source.{BrightnessSource}
use dimmit.Dimmer.{Dimmer, Fraction}
use dimmit.Dimmer.Steps.{IsFraction}
use dimmit.Dimmer.Knob.{knob, shown, knob-dimmer_init}
use dimmit.Ddc.{Platform}
use dimmit.Ddc.Answers.{Answers}
use dimmit.Controller.{
  ManagedDisplay, DisplayController, dimmer_of, open_display, open_displays, fill_controller,
  adopt_sources, controller_open, adjust_display, controller_adjust, controller_service,
  controller_reconcile,
}
use dimmit.Controller.Service.{
  Serviced, idle, written, refused, AllServiced, nil, cons, DisplayReady,
  controller_service-AllServiced,
}
use dimmit.Controller.Lockstep.{adjust_display-turns}
use dimmit.Controller.Press.{at_goal, wanted-none, wanted-some}
use dimmit.Controller.Reconcile.{
  Matches, here, there, Unmatched, NextOf, controller_reconcile-keeps,
}
use dimmit.Controller.Invariant.{
  IsSound, controller_open-IsSound, controller_adjust-IsSound, controller_service-IsSound,
  controller_reconcile-IsSound,
}
use dimmit.Controller.Spec
use dimmit.Controller.Spec.{
  Named, pressed, Settles, EachSettles, First, Resting, Renewed, Call, press, pass, reconcile, Does,
  DoesAll,
}

-- A display as it is seen from outside.
unfoldable pub named : {W : Type 0} → ManagedDisplay W → Named
named d = record { name = d.src.id; knob = knob d.dim }

abbrev pub view : {W : Type 0} → DisplayController W → List Named
view c = map named c.displays

-- The calls one after another.
unfoldable pub run :
    {W : Type 0} → Platform W → List Call → DisplayController W → Action W (DisplayController W)
run p [] c = pure c
run p (press f small ∷ calls) c = run p calls (controller_adjust c f)
run p (pass ∷ calls) c = λ w. run p calls (controller_service c w).0.0 (controller_service c w).1
run p (reconcile ∷ calls) c =
    λ w. run p calls (controller_reconcile p c w).0 (controller_reconcile p c w).1

module _ {W : Type 0} (p : Platform W) where
  run-append :
      (calls more : List Call) (c : DisplayController W) (w : W)
      → run p (calls ++ more) c w ≡ run p more (run p calls c w).0 (run p calls c w).1
  unfolding run
  run-append [] more c w = refl
  run-append (press f small ∷ calls) more c w = run-append calls more (controller_adjust c f) w
  run-append (pass ∷ calls) more c w = run-append calls more _ _
  run-append (reconcile ∷ calls) more c w = run-append calls more _ _

  -- One call more.
  pub run-then :
      (calls more : List Call) (c c' : DisplayController W) (w w' : W)
      → run p calls c w ≡ (c', w')
      → run p (calls ++ more) c w ≡ run p more c' w'
  run-then calls more c c' w w' e = run-append calls more c w ∙ ap (λ r. run p more r.0 r.1) e

dimmer_of-rests :
    (reading : Option (ℤ × ℤ)) → (knob (dimmer_of reading)).goal ≡ (knob (dimmer_of reading)).level
unfolding dimmer_of
dimmer_of-rests none = rw knob-dimmer_init refl
dimmer_of-rests (some (cur, max)) = rw knob-dimmer_init refl

module _ {W : Type 0} where
  adjusted-view :
      (f : Fraction) (ds : List (ManagedDisplay W))
      → IsFraction f
      → All DisplayReady ds
      → map named (map (adjust_display f) ds) ≡ map (pressed f) (map named ds)
  unfolding named pressed knob adjust_display
  adjusted-view f [] small ready = refl
  adjusted-view f (d ∷ ds) small ready = ap₂ ◌∷◌ first (adjusted-view f ds small ready.1)
    where
      first : named (adjust_display f d) ≡ pressed f (named d)
      first =
          ap (λ k. record { name = d.src.id; knob = k }) (adjust_display-turns f d small ready.0)

  pub press-view :
      (c : DisplayController W) (f : Fraction)
      → IsFraction f
      → All DisplayReady c.displays
      → view (controller_adjust c f) ≡ map (pressed f) (view c)
  unfolding controller_adjust
  press-view c f small ready = adjusted-view f c.displays small ready

  pub Serviced-Settles :
      {d d' : ManagedDisplay W} {n : ℕ} → Serviced d d' n → Settles (named d) (named d')
  unfolding named shown at_goal
  Serviced-Settles (idle d settled) = (refl, inl (wanted-none (knob d.dim) settled))
  Serviced-Settles (written d target w dim due ok moved) = (
    refl,
    inl (moved ∙ ap (λ l. record (knob d.dim) { level = l }) (wanted-some (knob d.dim) target due)),
  )
  Serviced-Settles (refused d target w dim due failed stays) = (refl, inr stays)

  AllServiced-EachSettles :
      {ds ds' : List (ManagedDisplay W)} {n : ℕ}
      → AllServiced ds ds' n
      → EachSettles (map named ds) (map named ds')
  AllServiced-EachSettles nil = Spec.nil
  AllServiced-EachSettles (cons one rest count) =
      Spec.cons (Serviced-Settles one) (AllServiced-EachSettles rest)

  Matches-First :
      {id : List ℕ} {dim : Dimmer} {ds : List (ManagedDisplay W)}
      → Matches id ds dim
      → First id (map named ds) (knob dim)
  unfolding named
  Matches-First (here {d = d} e) = Spec.here e
  Matches-First (there ne m) = Spec.there ne (Matches-First m)

  Unmatched-new :
      (id : List ℕ) (ds : List (ManagedDisplay W))
      → Unmatched id ds
      → All (λ (m : Named). id ≢ m.name) (map named ds)
  unfolding named
  Unmatched-new id [] h = tt
  Unmatched-new id (d ∷ ds) h = (h.0, Unmatched-new id ds h.1)

  NextOf-Renewed :
      (old : List (ManagedDisplay W)) (d : ManagedDisplay W)
      → NextOf old d
      → Renewed (map named old) (named d)
  unfolding named
  NextOf-Renewed old d (inl m) = inl (Matches-First m)
  NextOf-Renewed old d (inr (unmatched, (reading, e))) =
      inr (Unmatched-new d.src.id old unmatched, rw e (dimmer_of-rests reading))

  All-Renewed :
      (old ds : List (ManagedDisplay W))
      → All (NextOf old) ds
      → All (Renewed (map named old)) (map named ds)
  All-Renewed old [] h = tt
  All-Renewed old (d ∷ ds) h = (NextOf-Renewed old d h.0, All-Renewed old ds h.1)

  open_displays-Resting :
      (sources : List (BrightnessSource W)) (w : W)
      → All Resting (map named (open_displays sources w).0)
  unfolding open_displays open_display named
  open_displays-Resting [] w = tt
  open_displays-Resting (s ∷ sources) w = (dimmer_of-rests _, open_displays-Resting sources _)

  abbrev RestingIfAny : Option (DisplayController W) → Type 0
  RestingIfAny none = Unit
  RestingIfAny (some c) = All Resting (view c)

module _ {W : Type 0} (p : Platform W) where
  fill_controller-Resting :
      (allocated : Bool) (sources : List (BrightnessSource W)) (w : W)
      → RestingIfAny (fill_controller allocated sources w).0
  unfolding fill_controller
  fill_controller-Resting false sources w = tt
  fill_controller-Resting true sources w = open_displays-Resting sources w

  adopt_sources-Resting :
      (found : Option (List (BrightnessSource W))) (w : W)
      → RestingIfAny (adopt_sources p found w).0
  unfolding adopt_sources
  adopt_sources-Resting none w = tt
  adopt_sources-Resting (some []) w = tt
  adopt_sources-Resting (some (s ∷ sources)) w = fill_controller-Resting _ (s ∷ sources) _

  controller_open-Resting : (w : W) → RestingIfAny (controller_open p w).0
  unfolding controller_open
  controller_open-Resting w = elim (Bool-cases (p.calloc w).0) [
    | inl allocated ↦ rw allocated (adopt_sources-Resting _ _)
    | inr failed ↦ rw failed tt
  ]

  pub reconcile-Does :
      (c : DisplayController W) (w : W)
      → IsSound p c
      → Does reconcile (view c) (view (controller_reconcile p c w).0)
  reconcile-Does c w sound = elim (controller_reconcile-keeps p c w sound.parallel) [
    | inl same ↦ rw same (Spec.fails (view c))
    | inr (parallel, renewed) ↦ Spec.renews (All-Renewed c.displays _ renewed)
  ]

  run-DoesAll :
      (answers : Answers p) (calls : List Call) (c : DisplayController W) (w : W)
      → IsSound p c
      → DoesAll calls (view c) (view (run p calls c w).0)
  unfolding run
  run-DoesAll answers [] c w sound = Spec.done
  run-DoesAll answers (press f small ∷ calls) c w sound =
      Spec.next (Spec.turns (press-view c f small sound.ready)) (
        run-DoesAll answers calls (controller_adjust c f) w
          (controller_adjust-IsSound p c f small sound))
  run-DoesAll answers (pass ∷ calls) c w sound =
      Spec.next
        (Spec.settles (AllServiced-EachSettles (controller_service-AllServiced c w sound.ready)))
        (run-DoesAll answers calls _ _ (controller_service-IsSound p c w sound))
  run-DoesAll answers (reconcile ∷ calls) c w sound =
      Spec.next (reconcile-Does c w sound)
        (run-DoesAll answers calls _ _ (controller_reconcile-IsSound p answers c w sound))

  -- From `controller_open`, where displays answer with bytes, the knobs rest, and any presses by
  -- at most 2^14, passes and reconciles in any order, with any results of the writes, the
  -- enumerations and the allocations, do to the knobs only what Spec allows: a press turns each by
  -- its fraction, a pass moves each to its goal or gives its goal up, a reconcile keeps all, or
  -- keeps those whose name is found again, drops others and adds resting ones.
  pub controller_open-DoesAll :
      (answers : Answers p) (calls : List Call) (c : DisplayController W) (w : W)
      → (controller_open p w).0 ≡ some c
      → All Resting (view c)
        × DoesAll calls (view c) (view (run p calls c (controller_open p w).1).0)
  controller_open-DoesAll answers calls c w found = (
    rw found at (controller_open-Resting w),
    run-DoesAll answers calls c (controller_open p w).1
        (rw found at (controller_open-IsSound p answers w)),
  )
