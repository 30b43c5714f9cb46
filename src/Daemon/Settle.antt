-- ===== src/Daemon/Settle.antt =====
-- That the worker of src/dimmitd.c comes to rest, and returns when it is told to.
use dimmit.Base.{
  ℕ, zero, suc, arith, ◌≡◌, ◌≢◌, ◌⊎◌, inl, inr, refl, ap, ◌∙◌, Bool, true, false, Option, none,
  some, All,
}
use dimmit.Ddc.{Platform}
use dimmit.Controller.{DisplayController, controller_service}
use dimmit.Controller.Service.{NotDue, DisplayReady}
use dimmit.Controller.Drain.{controller_service-drains, controller_service_twice}
use dimmit.Ddc.Answers.{Answers}
use dimmit.Controller.Invariant.{IsSound}
use dimmit.Daemon.Threads.{
  Client, Thread, worker, client, WorkerAt, asking, at_loop, waiting, returned, ClientAt, outside,
  adjusted, leaving, Shared, Step, signal, unlock, worker_lock, worker_pass, worker_wait,
  worker_wake, worker_return, started, Reach, here, next,
}
use dimmit.Daemon.Ownership.{inside, move-cases}
use dimmit.Daemon.Lock.{LockKept, Reach-LockKept}
use dimmit.Daemon.Wakeup.{Reach-append, reached-IsSound}

zero-cases : (n : ℕ) → (n ≡ 0) ⊎ (n ≢ 0)
zero-cases zero = inl refl
zero-cases (suc n) = inr (λ e. omega arith)

-- A run from a state to one that satisfies a predicate.
abbrev pub CanReach : {W : Type 0} → Platform W → (Shared W → Type 0) → Shared W → Type 0
CanReach {W = W} p Goal s = (s' : Shared W) × Reach p s s' × Goal s'

module _ {W : Type 0} (p : Platform W) where
  and_then :
      (Middle Goal : Shared W → Type 0) {s : Shared W}
      → CanReach p Middle s
      → ((s' : Shared W) → Reach p s s' → Middle s' → CanReach p Goal s')
      → CanReach p Goal s
  and_then Middle Goal (s', reach, middle) onward =
      let (s'', reach', goal) = onward s' reach middle in (s'', Reach-append reach reach', goal)

  first_step :
      (Goal : Shared W → Type 0) {s s' : Shared W}
      → Step p s s'
      → CanReach p Goal s'
      → CanReach p Goal s
  first_step Goal step (s'', reach, goal) = (s'', Reach-append (next here step) reach, goal)

  -- The lock is free, or the worker is at its loop with it.
  abbrev IsOpen : Bool → Shared W → Type 0
  IsOpen runs s = (s.running ≡ runs) × ((s.lock ≡ none) ⊎ (s.worker_at ≡ at_loop))

  leaving_opens :
      (s : Shared W) (c : Client) → s.client_at c ≡ leaving → CanReach p (IsOpen s.running) s
  leaving_opens s c place =
      first_step (IsOpen s.running) (unlock s c place) (_, here, (refl, inl refl))

  adjusted_opens :
      (s : Shared W) (c : Client) → s.client_at c ≡ adjusted → CanReach p (IsOpen s.running) s
  adjusted_opens s c place = first_step (IsOpen s.running) (signal s c place) (
      leaving_opens _ c (elim (move-cases c leaving s.client_at c) [
        | inl (same, moved) ↦ moved
        | inr (other, stays) ↦ absurd (other refl)
      ]))

  client_opens :
      (s : Shared W) (c : Client) (place : ClientAt)
      → s.client_at c ≡ place
      → inside place ≡ true
      → CanReach p (IsOpen s.running) s
  client_opens s c outside at within = cc
  client_opens s c adjusted at within = adjusted_opens s c at
  client_opens s c leaving at within = leaving_opens s c at

  lock_opens :
      (s : Shared W) (held : Option Thread)
      → LockKept s
      → s.lock ≡ held
      → CanReach p (IsOpen s.running) s
  lock_opens s none kept at = (s, here, (refl, inl at))
  lock_opens s (some worker) kept at = (s, here, (refl, inr (kept.by_worker at)))
  lock_opens s (some (client c)) kept at =
      client_opens s c (s.client_at c) refl (kept.by_client c at)

  -- The worker is at its loop, or has returned.
  abbrev IsThere : Bool → Shared W → Type 0
  IsThere runs s = (s.running ≡ runs) × ((s.worker_at ≡ at_loop) ⊎ (s.worker_at ≡ returned))

  asking_comes :
      (runs : Bool) (s : Shared W)
      → s.running ≡ runs
      → s.lock ≡ none
      → s.worker_at ≡ asking
      → CanReach p (IsThere runs) s
  asking_comes runs s running free at =
      first_step (IsThere runs) (worker_lock s free at) (_, here, (running, inl refl))

  free_comes :
      (runs : Bool) (s : Shared W) (place : WorkerAt)
      → s.running ≡ runs
      → s.lock ≡ none
      → s.worker_at ≡ place
      → CanReach p (IsThere runs) s
  free_comes runs s asking running free at = asking_comes runs s running free at
  free_comes runs s at_loop running free at = (s, here, (running, inl at))
  free_comes runs s returned running free at = (s, here, (running, inr at))
  free_comes runs s waiting running free at =
      first_step (IsThere runs) (worker_wake s at) (asking_comes runs _ running free refl)

  worker_comes : (s : Shared W) → LockKept s → CanReach p (IsThere s.running) s
  worker_comes s kept =
      and_then (IsOpen s.running) (IsThere s.running) (lock_opens s s.lock kept refl)
        (λ s' reach opened. elim opened.1 [
          | inl free ↦ free_comes s.running s' s'.worker_at opened.0 free refl
          | inr looping ↦ (s', here, (opened.0, inl looping))
        ])

  -- From every reachable state of the daemon's threads in which `running` is 0 some steps lead to
  -- one in which the worker has returned, so that the join in `cleanup` can end whoever holds the
  -- lock.
  pub worker_can_return :
      (c : DisplayController W) (w : W) (s : Shared W)
      → Reach p (started c w) s
      → s.running ≡ false
      → CanReach p (λ s'. s'.worker_at ≡ returned) s
  worker_can_return c w s reach stopped =
      and_then (IsThere s.running) (λ s'. s'.worker_at ≡ returned)
        (worker_comes s (Reach-LockKept c w reach))
        (λ s' onward there. elim there.1 [
          | inr over ↦ (s', here, over)
          | inl looping ↦ (_, next here (worker_return s' (there.0 ∙ stopped) looping), refl)
        ])

  -- The worker waits, the lock is free, and nothing is due.
  abbrev pub IsSettled : Shared W → Type 0
  IsSettled s = (s.worker_at ≡ waiting) × (s.lock ≡ none) × All NotDue s.ctrl.displays

  idle_settles :
      (s : Shared W)
      → All DisplayReady s.ctrl.displays
      → s.running ≡ true
      → s.worker_at ≡ at_loop
      → (controller_service s.ctrl s.world).0.1 ≡ 0
      → CanReach p IsSettled s
  idle_settles s ready runs at idle = (
    _,
    next here (worker_wait s runs at idle),
    (refl, refl, (controller_service-drains s.ctrl s.world ready).1),
  )

  loop_settles :
      (s : Shared W)
      → All DisplayReady s.ctrl.displays
      → s.running ≡ true
      → s.worker_at ≡ at_loop
      → CanReach p IsSettled s
  loop_settles s ready runs at = elim (zero-cases (controller_service s.ctrl s.world).0.1) [
    | inl idle ↦ idle_settles s ready runs at idle
    | inr busy ↦ first_step IsSettled (worker_pass s runs at busy) (
        idle_settles _ (controller_service-drains s.ctrl s.world ready).0 runs at
          (ap (λ r. r.0.1) (controller_service_twice s.ctrl s.world ready)))
  ]

  -- While the daemon runs, from every reachable state of its threads some steps lead to one in
  -- which the worker waits, the lock is free and no display is due, where displays answer with
  -- bytes and the controller at the start satisfies its invariant.
  pub worker_can_settle :
      (answers : Answers p) (c : DisplayController W) (w : W) (s : Shared W)
      → IsSound p c
      → Reach p (started c w) s
      → s.running ≡ true
      → CanReach p IsSettled s
  worker_can_settle answers c w s sound reach runs =
      and_then (IsThere s.running) IsSettled (worker_comes s (Reach-LockKept c w reach))
        (λ s' onward there. elim there.1 [
          | inr over ↦
              absurd
                (both (there.0 ∙ runs) ((Reach-LockKept c w (Reach-append reach onward)).told over))
          | inl looping ↦
              loop_settles s'
                (reached-IsSound p answers c w s' sound (Reach-append reach onward)).ready
                (there.0 ∙ runs) looping
        ])
    where
      both : {b : Bool} → b ≡ true → b ≡ false → ⊥
      both e e' = cc
