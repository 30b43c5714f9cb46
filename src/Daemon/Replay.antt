-- ===== src/Daemon/Replay.antt =====
-- What a display of src/dimmitd.c comes to show: every press since, and nothing else.
use dimmit.Base.{ℕ, ◌≡◌, refl, sym, ap, ◌∙◌, none, List, [], ◌∷◌, ◌++◌, All}
use dimmit.Dimmer.{Fraction}
use dimmit.Dimmer.Knob.{Knob}
use dimmit.Ddc.{Platform}
use dimmit.Ddc.Answers.{Answers}
use dimmit.Controller.{DisplayController}
use dimmit.Controller.Service.{DisplayReady, NotDue}
use dimmit.Controller.Invariant.{IsSound}
use dimmit.Controller.Press.{at_goal}
use dimmit.Controller.Spec
use dimmit.Controller.Spec.{Call, First}
use dimmit.Controller.Refinement.{view, press-view}
use dimmit.Controller.Replay.{
  replay, replay-append, replay-same, First-unique, First-pressed, First-pass, First-reconcile,
  First-NotDue, GoesThrough,
}
use dimmit.Daemon.Threads.{
  waiting, Shared, Step, adjust, signal, unlock, reconcile, stop, worker_lock, worker_pass,
  worker_wait, worker_wake, worker_return, started, Reach, here, next,
}
use dimmit.Daemon.Presses.{Press-IsFraction}
use dimmit.Daemon.Wakeup.{Reach-append, reached-IsSound, Reach-IsSound, waiting-NotDue}
use dimmit.Daemon.Serial.{made, history}

-- The presses among the calls.
unfoldable pub presses : List Call → List Fraction
presses [] = []
presses (Spec.press f small ∷ calls) = f ∷ presses calls
presses (Spec.pass ∷ calls) = presses calls
presses (Spec.reconcile ∷ calls) = presses calls

presses-append : (a b : List Call) → presses (a ++ b) ≡ presses a ++ presses b
unfolding presses
presses-append [] b = refl
presses-append (Spec.press f small ∷ a) b = ap (◌∷◌ f) (presses-append a b)
presses-append (Spec.pass ∷ a) b = presses-append a b
presses-append (Spec.reconcile ∷ a) b = presses-append a b

-- A display of this name is listed in every state on the way.
abbrev pub Stays :
    {W : Type 0} {p : Platform W} {start s : Shared W} → List ℕ → Reach p start s → Type 0
Stays name here = Unit
Stays name (next {s' = s'} r step) = Stays name r × ((k : Knob) × First name (view s'.ctrl) k)

module _ {W : Type 0} (p : Platform W) (writes : GoesThrough p) where
  Step-replays :
      {s s' : Shared W} {name : List ℕ} {k m : Knob} (step : Step p s s')
      → IsSound p s.ctrl
      → First name (view s.ctrl) k
      → First name (view s'.ctrl) m
      → at_goal m ≡ at_goal (replay (presses (made step)) k)
  unfolding made presses replay at_goal
  Step-replays (adjust s c f press free place) sound before after = ap at_goal (
      First-unique (rw (press-view s.ctrl f (Press-IsFraction press) sound.ready) at after)
        (First-pressed f before))
  Step-replays (signal s c place) sound before after = ap at_goal (First-unique after before)
  Step-replays (unlock s c place) sound before after = ap at_goal (First-unique after before)
  Step-replays (reconcile s free place) sound before after =
      ap at_goal (First-reconcile p writes s.ctrl s.world sound before after)
  Step-replays (stop s) sound before after = ap at_goal (First-unique after before)
  Step-replays (worker_lock s free place) sound before after =
      ap at_goal (First-unique after before)
  Step-replays (worker_pass s runs place due) sound before after =
      ap at_goal (First-unique after (First-pass p writes s.ctrl s.world sound before))
  Step-replays (worker_wait s runs place idle) sound before after =
      ap at_goal (First-unique after (First-pass p writes s.ctrl s.world sound before))
  Step-replays (worker_wake s place) sound before after = ap at_goal (First-unique after before)
  Step-replays (worker_return s stopped place) sound before after =
      ap at_goal (First-unique after before)

  Stays-First :
      {start s : Shared W} {name : List ℕ} {k : Knob} (r : Reach p start s)
      → Stays name r
      → First name (view start.ctrl) k
      → (m : Knob) × First name (view s.ctrl) m
  Stays-First here stays first = (_, first)
  Stays-First (next r step) stays first = stays.1

  module _ (answers : Answers p) where
    Reach-replays :
        {start s : Shared W} {name : List ℕ} {k m : Knob} (r : Reach p start s)
        → IsSound p start.ctrl
        → Stays name r
        → First name (view start.ctrl) k
        → First name (view s.ctrl) m
        → at_goal m ≡ at_goal (replay (presses (history r)) k)
    unfolding history presses replay
    Reach-replays here sound stays first last = ap at_goal (First-unique last first)
    Reach-replays {k = k} (next r step) sound stays first last =
        let (between, found) = Stays-First r stays.0 first in
        Step-replays step (Reach-IsSound p answers r sound) found last
        ∙ replay-same (presses (made step)) between (replay (presses (history r)) k)
            (Reach-replays r sound stays.0 first found)
        ∙ ap at_goal (sym (replay-append (presses (history r)) (presses (made step)) k))
        ∙ ap (λ fs. at_goal (replay fs k)) (sym (presses-append (history r) (made step)))

    -- From any reachable state of the daemon's threads, whatever they do then: where the worker
    -- waits and the lock is free, the knob of a display whose name is listed all the while is at
    -- its goal, and the goal is the one to which the presses since, in order, turn it, however the
    -- passes and reconciles fall between them, where the writes go through, displays answer with
    -- bytes and the controller at the start satisfies its invariant.
    pub waiting-replay :
        (c : DisplayController W) (w : W) (start s : Shared W) (name : List ℕ) (k m : Knob)
        → IsSound p c
        → Reach p (started c w) start
        → (r : Reach p start s) → Stays name r
        → First name (view start.ctrl) k
        → First name (view s.ctrl) m
        → s.worker_at ≡ waiting
        → s.lock ≡ none
        → m ≡ at_goal (replay (presses (history r)) k)
    waiting-replay c w start s name k m sound before r stays first last waits free =
        First-NotDue s.ctrl.displays ready idle last
        ∙ Reach-replays r (reached-IsSound p answers c w start sound before) stays first last
      where
        all : Reach p (started c w) s
        all = Reach-append before r

        ready : All DisplayReady s.ctrl.displays
        ready = (reached-IsSound p answers c w s sound all).ready

        idle : All NotDue s.ctrl.displays
        idle = waiting-NotDue p answers c w s sound all waits free
