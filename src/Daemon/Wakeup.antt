-- ===== src/Daemon/Wakeup.antt =====
-- What is due while the worker of src/dimmitd.c waits.
use dimmit.Base.{◌≡◌, ◌≢◌, inl, inr, refl, sym, ap, ◌∙◌, true, false, none, some, All}
use dimmit.Ddc.{Platform}
use dimmit.Controller.{DisplayController, controller_open}
use dimmit.Controller.Service.{NotDue}
use dimmit.Controller.Drain.{controller_service-drains}
use dimmit.Ddc.Answers.{Answers}
use dimmit.Controller.Reconcile.{controller_reconcile-NotDue}
use dimmit.Controller.Invariant.{
  IsSound, controller_open-IsSound, controller_adjust-IsSound, controller_service-IsSound,
  controller_reconcile-IsSound,
}
use dimmit.Daemon.Threads.{
  Client, main_thread, WorkerAt, asking, at_loop, waiting, returned, ClientAt, outside, adjusted,
  leaving, Shared, move, signalled, Step, adjust, signal, unlock, reconcile, stop, worker_lock,
  worker_pass, worker_wait, worker_wake, worker_return, started, Reach, here, next,
}
use dimmit.Daemon.Ownership.{inside, is_adjusted, move-cases, Owned, Step-Owned}
use dimmit.Daemon.Presses.{Press-IsFraction}

-- While the worker waits nothing is due, but for a client that has adjusted and is yet to signal.
abbrev Awake : {W : Type 0} → Shared W → Type 0
Awake s =
    s.worker_at ≡ waiting
    → ((c : Client) → is_adjusted (s.client_at c) ≡ false)
    → All NotDue s.ctrl.displays

record Coherent {W : Type 0} (p : Platform W) (s : Shared W) : Type 0 where
  sound : IsSound p s.ctrl
  owned : Owned s
  awake : Awake s

not-signalled : (place : WorkerAt) → signalled place ≢ waiting
unfolding signalled
not-signalled asking e = cc
not-signalled at_loop e = cc
not-signalled waiting e = cc
not-signalled returned e = cc

-- A client that moves to a place that is not `adjusted`, from one that is not, hides nothing.
moved-adjusted :
    (c : Client) (to : ClientAt) (places : Client → ClientAt)
    → is_adjusted (places c) ≡ false
    → ((other : Client) → is_adjusted (move c to places other) ≡ false)
    → (other : Client) → is_adjusted (places other) ≡ false
moved-adjusted c to places from h other = elim (move-cases c to places other) [
  | inl (same, moved) ↦ ap (λ x. is_adjusted (places x)) (sym same) ∙ from
  | inr (elsewhere, stays) ↦ sym (ap is_adjusted stays) ∙ h other
]

adjusted-there :
    (c : Client) (places : Client → ClientAt)
    → ((other : Client) → is_adjusted (move c adjusted places other) ≡ false)
    → ⊥
adjusted-there c places h = elim (move-cases c adjusted places c) [
  | inl (same, moved) ↦ cc (sym (ap is_adjusted moved) ∙ h c)
  | inr (elsewhere, stays) ↦ absurd (elsewhere refl)
]

not-inside : (place : ClientAt) → (inside place ≡ true → ⊥) → is_adjusted place ≡ false
not-inside outside h = refl
not-inside adjusted h = absurd (h refl)
not-inside leaving h = refl

free-unadjusted :
    {W : Type 0} (s : Shared W)
    → Owned s
    → s.lock ≡ none
    → (c : Client) → is_adjusted (s.client_at c) ≡ false
free-unadjusted s o free c = not-inside (s.client_at c) (λ within. cc (free, o.by_client c within))

module _ {W : Type 0} {p : Platform W} where
  pub Reach-append : {s s' s'' : Shared W} → Reach p s s' → Reach p s' s'' → Reach p s s''
  Reach-append reach here = reach
  Reach-append reach (next onward step) = next (Reach-append reach onward) step

module _ {W : Type 0} (p : Platform W) (answers : Answers p) where
  Step-IsSound : {s s' : Shared W} → Step p s s' → IsSound p s.ctrl → IsSound p s'.ctrl
  Step-IsSound (adjust s c f press free place) h =
      controller_adjust-IsSound p s.ctrl f (Press-IsFraction press) h
  Step-IsSound (signal s c place) h = h
  Step-IsSound (unlock s c place) h = h
  Step-IsSound (reconcile s free place) h = controller_reconcile-IsSound p answers s.ctrl s.world h
  Step-IsSound (stop s) h = h
  Step-IsSound (worker_lock s free place) h = h
  Step-IsSound (worker_pass s runs place due) h = controller_service-IsSound p s.ctrl s.world h
  Step-IsSound (worker_wait s runs place idle) h = controller_service-IsSound p s.ctrl s.world h
  Step-IsSound (worker_wake s place) h = h
  Step-IsSound (worker_return s stopped place) h = h

  pub Reach-IsSound :
      {start s : Shared W} → Reach p start s → IsSound p start.ctrl → IsSound p s.ctrl
  Reach-IsSound here h = h
  Reach-IsSound (next r step) h = Step-IsSound step (Reach-IsSound r h)

  Step-Awake : {s s' : Shared W} → Step p s s' → Coherent p s → Awake s'
  Step-Awake (adjust s c f press free place) h =
      λ waits unseen. absurd (adjusted-there c s.client_at unseen)
  Step-Awake (signal s c place) h = λ waits unseen. absurd (not-signalled s.worker_at waits)
  Step-Awake (unlock s c place) h = λ waits unseen.
      h.awake waits (moved-adjusted c outside s.client_at (ap is_adjusted place) unseen)
  Step-Awake (reconcile s free place) h = λ waits unseen.
      controller_reconcile-NotDue p s.ctrl s.world h.sound.parallel (
        h.awake waits
          (moved-adjusted main_thread leaving s.client_at (ap is_adjusted place) unseen))
  Step-Awake (stop s) h = h.awake
  Step-Awake (worker_lock s free place) h = λ waits unseen. cc
  Step-Awake (worker_pass s runs place due) h = λ waits unseen. cc
  Step-Awake (worker_wait s runs place idle) h =
      λ waits unseen. (controller_service-drains s.ctrl s.world h.sound.ready).1
  Step-Awake (worker_wake s place) h = λ waits unseen. cc
  Step-Awake (worker_return s stopped place) h = λ waits unseen. cc

  Step-Coherent : {s s' : Shared W} → Step p s s' → Coherent p s → Coherent p s'
  Step-Coherent step h = record {
    sound = Step-IsSound step h.sound;
    owned = Step-Owned step h.owned;
    awake = Step-Awake step h;
  }

  Reach-Coherent : {start s : Shared W} → Coherent p start → Reach p start s → Coherent p s
  Reach-Coherent h here = h
  Reach-Coherent h (next r step) = Step-Coherent step (Reach-Coherent h r)

  started-Coherent : (c : DisplayController W) (w : W) → IsSound p c → Coherent p (started c w)
  unfolding started
  started-Coherent c w sound = record {
    sound = sound;
    owned = record { by_worker = λ e. cc; by_client = λ c' e. cc };
    awake = λ e. cc;
  }

  -- In every reachable state of the daemon's threads the controller satisfies its invariant, where
  -- displays answer with bytes and it does so at the start.
  pub reached-IsSound :
      (c : DisplayController W) (w : W) (s : Shared W)
      → IsSound p c
      → Reach p (started c w) s
      → IsSound p s.ctrl
  unfolding started
  reached-IsSound c w s sound reach = Reach-IsSound reach sound

  -- In every reachable state of the daemon's threads, from a controller that `controller_open`
  -- gave, the controller has parallel arrays, sources on DDC_OPS and every dimmer in bounds, where
  -- displays answer with bytes.
  pub running-IsSound :
      (w : W) (c : DisplayController W) (s : Shared W)
      → (controller_open p w).0 ≡ some c
      → Reach p (started c (controller_open p w).1) s
      → IsSound p s.ctrl
  running-IsSound w c s found reach = reached-IsSound c (controller_open p w).1 s sound reach
    where
      sound : IsSound p c
      sound = rw found at (controller_open-IsSound p answers w)

  -- In every reachable state of the daemon's threads in which the worker waits and the lock is
  -- free no display is due, where displays answer with bytes and the controller at the start
  -- satisfies its invariant.
  pub waiting-NotDue :
      (c : DisplayController W) (w : W) (s : Shared W)
      → IsSound p c
      → Reach p (started c w) s
      → s.worker_at ≡ waiting
      → s.lock ≡ none
      → All NotDue s.ctrl.displays
  waiting-NotDue c w s sound reach waits free = h.awake waits (free-unadjusted s h.owned free)
    where
      h : Coherent p s
      h = Reach-Coherent (started-Coherent c w sound) reach
