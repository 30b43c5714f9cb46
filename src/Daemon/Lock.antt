-- ===== src/Daemon/Lock.antt =====
-- Where the thread is that the lock of src/dimmitd.c names.
use dimmit.Base.{◌≡◌, inl, inr, refl, ap, ◌∙◌, true, false, some}
use dimmit.Ddc.{Platform}
use dimmit.Controller.{DisplayController}
use dimmit.Daemon.Threads.{
  Client, main_thread, worker, client, WorkerAt, asking, at_loop, waiting, returned, ClientAt,
  adjusted, leaving, Shared, move, signalled, Step, adjust, signal, unlock, reconcile, stop,
  worker_lock, worker_pass, worker_wait, worker_wake, worker_return, started, Reach, here, next,
}
use dimmit.Daemon.Ownership.{inside, move-cases, client-injective}

-- Who is named by the lock is where it is held; the worker returns only where it was told to.
pub record LockKept {W : Type 0} (s : Shared W) : Type 0 where
  pub by_worker : s.lock ≡ some worker → s.worker_at ≡ at_loop
  pub by_client : (c : Client) → s.lock ≡ some (client c) → inside (s.client_at c) ≡ true
  pub told : s.worker_at ≡ returned → s.running ≡ false

moved-inside :
    (c c' : Client) (to : ClientAt) (places : Client → ClientAt)
    → inside to ≡ true
    → c ≡ c'
    → inside (move c to places c') ≡ true
moved-inside c c' to places h e = elim (move-cases c to places c') [
  | inl (same, moved) ↦ ap inside moved ∙ h
  | inr (other, stays) ↦ absurd (other e)
]

signalled_at_loop : (place : WorkerAt) → place ≡ at_loop → signalled place ≡ at_loop
unfolding signalled
signalled_at_loop place e = rw e refl

returned-signalled : (place : WorkerAt) → signalled place ≡ returned → place ≡ returned
unfolding signalled
returned-signalled asking e = cc
returned-signalled at_loop e = cc
returned-signalled waiting e = cc
returned-signalled returned e = refl

started-LockKept : {W : Type 0} (c : DisplayController W) (w : W) → LockKept (started c w)
unfolding started
started-LockKept c w = record { by_worker = λ h. cc; by_client = λ c' h. cc; told = λ e. cc }

module _ {W : Type 0} {p : Platform W} where
  Step-LockKept : {s s' : Shared W} → Step p s s' → LockKept s → LockKept s'
  Step-LockKept (adjust s c f press free place) o = record {
    by_worker = λ h. cc;
    by_client = λ c' h. moved-inside c c' adjusted s.client_at refl (client-injective h);
    told = o.told;
  }
  Step-LockKept (signal s c place) o = record {
    by_worker = λ h. signalled_at_loop s.worker_at (o.by_worker h);
    by_client = λ c' h. elim (move-cases c leaving s.client_at c') [
      | inl (same, moved) ↦ ap inside moved
      | inr (other, stays) ↦ ap inside stays ∙ o.by_client c' h
    ];
    told = λ e. o.told (returned-signalled s.worker_at e);
  }
  Step-LockKept (unlock s c place) o = record {
    by_worker = λ h. cc;
    by_client = λ c' h. cc;
    told = o.told;
  }
  Step-LockKept (reconcile s free place) o = record {
    by_worker = λ h. cc;
    by_client = λ c' h. moved-inside main_thread c' leaving s.client_at refl (client-injective h);
    told = o.told;
  }
  Step-LockKept (stop s) o = record {
    by_worker = o.by_worker;
    by_client = o.by_client;
    told = λ e. refl;
  }
  Step-LockKept (worker_lock s free place) o = record {
    by_worker = λ h. refl;
    by_client = λ c h. cc;
    told = λ e. cc;
  }
  Step-LockKept (worker_pass s runs place due) o = record {
    by_worker = o.by_worker;
    by_client = o.by_client;
    told = o.told;
  }
  Step-LockKept (worker_wait s runs place idle) o = record {
    by_worker = λ h. cc;
    by_client = λ c h. cc;
    told = λ e. cc;
  }
  Step-LockKept (worker_wake s place) o = record {
    by_worker = λ h. cc (place, o.by_worker h);
    by_client = o.by_client;
    told = λ e. cc;
  }
  Step-LockKept (worker_return s stopped place) o = record {
    by_worker = λ h. cc;
    by_client = λ c h. cc;
    told = λ e. stopped;
  }

  pub Reach-LockKept :
      (c : DisplayController W) (w : W) {s : Shared W} → Reach p (started c w) s → LockKept s
  Reach-LockKept c w here = started-LockKept c w
  Reach-LockKept c w (next reach step) = Step-LockKept step (Reach-LockKept c w reach)
