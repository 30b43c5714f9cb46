-- ===== src/Daemon/Ownership.antt =====
-- Who holds the lock of src/dimmitd.c.
use dimmit.Base.{◌≡◌, ◌≢◌, ◌⊎◌, inl, inr, refl, sym, ap, ◌∙◌, Bool, true, false, some}
use dimmit.Ddc.{Platform}
use dimmit.Controller.{DisplayController}
use dimmit.Daemon.Threads.{
  Client, main_thread, input_thread, worker, client, WorkerAt, asking, at_loop, waiting, returned,
  ClientAt, outside, adjusted, leaving, Shared, same_client, move, signalled, Step, adjust, signal,
  unlock, reconcile, stop, worker_lock, worker_pass, worker_wait, worker_wake, started, Reach, here,
  next, worker_return,
}

abbrev pub inside : ClientAt → Bool
inside outside = false
inside _ = true

abbrev pub is_adjusted : ClientAt → Bool
is_adjusted adjusted = true
is_adjusted _ = false

pub move-cases :
    (c : Client) (to : ClientAt) (places : Client → ClientAt) (other : Client)
    → ((c ≡ other) × (move c to places other ≡ to))
      ⊎ ((c ≢ other) × (move c to places other ≡ places other))
unfolding move same_client
move-cases main_thread to places main_thread = inl (refl, refl)
move-cases input_thread to places input_thread = inl (refl, refl)
move-cases main_thread to places input_thread = inr (λ e. cc, refl)
move-cases input_thread to places main_thread = inr (λ e. cc, refl)

pub record Owned {W : Type 0} (s : Shared W) : Type 0 where
  pub by_worker : s.worker_at ≡ at_loop → s.lock ≡ some worker
  pub by_client : (c : Client) → inside (s.client_at c) ≡ true → s.lock ≡ some (client c)

pub client-injective : {c c' : Client} → some (client c) ≡ some (client c') → c ≡ c'
client-injective e = cc

signalled-at_loop : (place : WorkerAt) → signalled place ≡ at_loop → place ≡ at_loop
unfolding signalled
signalled-at_loop asking e = e
signalled-at_loop at_loop e = e
signalled-at_loop waiting e = cc
signalled-at_loop returned e = e

started-Owned : {W : Type 0} (c : DisplayController W) (w : W) → Owned (started c w)
unfolding started
started-Owned c w = record { by_worker = λ e. cc; by_client = λ c' e. cc }

module _ {W : Type 0} {p : Platform W} where
  -- Each step of a thread keeps it.
  pub Step-Owned : {s s' : Shared W} → Step p s s' → Owned s → Owned s'
  Step-Owned (adjust s c f press free place) o = record {
    by_worker = λ h. cc (free, o.by_worker h);
    by_client = λ c' h. elim (move-cases c adjusted s.client_at c') [
      | inl (same, moved) ↦ ap (λ x. some (client x)) same
      | inr (other, stays) ↦ cc (free, o.by_client c' (sym (ap inside stays) ∙ h))
    ];
  }
  Step-Owned (signal s c place) o = record {
    by_worker = λ h. o.by_worker (signalled-at_loop s.worker_at h);
    by_client = λ c' h. elim (move-cases c leaving s.client_at c') [
      | inl (same, moved) ↦ o.by_client c (ap inside place) ∙ ap (λ x. some (client x)) same
      | inr (other, stays) ↦ o.by_client c' (sym (ap inside stays) ∙ h)
    ];
  }
  Step-Owned (unlock s c place) o = record {
    by_worker = λ h. cc (o.by_worker h, o.by_client c (ap inside place));
    by_client = λ c' h. elim (move-cases c outside s.client_at c') [
      | inl (same, moved) ↦ cc (sym (ap inside moved) ∙ h)
      | inr (other, stays) ↦ absurd (
          other (
            client-injective
              (sym (o.by_client c (ap inside place)) ∙ o.by_client c' (sym (ap inside stays) ∙ h))))
    ];
  }
  Step-Owned (reconcile s free place) o = record {
    by_worker = λ h. cc (free, o.by_worker h);
    by_client = λ c' h. elim (move-cases main_thread leaving s.client_at c') [
      | inl (same, moved) ↦ ap (λ x. some (client x)) same
      | inr (other, stays) ↦ cc (free, o.by_client c' (sym (ap inside stays) ∙ h))
    ];
  }
  Step-Owned (stop s) o = record { by_worker = o.by_worker; by_client = o.by_client }
  Step-Owned (worker_lock s free place) o = record {
    by_worker = λ h. refl;
    by_client = λ c' h. cc (free, o.by_client c' h);
  }
  Step-Owned (worker_pass s running place due) o = record {
    by_worker = o.by_worker;
    by_client = o.by_client;
  }
  Step-Owned (worker_wait s running place idle) o = record {
    by_worker = λ h. cc;
    by_client = λ c' h. cc (o.by_worker place, o.by_client c' h);
  }
  Step-Owned (worker_wake s place) o = record { by_worker = λ h. cc; by_client = o.by_client }
  Step-Owned (worker_return s stopped place) o = record {
    by_worker = λ h. cc;
    by_client = λ c' h. cc (o.by_worker place, o.by_client c' h);
  }

  Reach-Owned : {start s : Shared W} → Owned start → Reach p start s → Owned s
  Reach-Owned o here = o
  Reach-Owned o (next r step) = Step-Owned step (Reach-Owned o r)

pub to-false : (b : Bool) → (b ≡ true → ⊥) → b ≡ false
to-false true h = absurd (h refl)
to-false false h = refl

-- In every reachable state of the daemon's threads, while one client is in its critical section
-- the worker is not at its loop with the lock and the other client is not in its section.
pub one_inside :
    {W : Type 0} (p : Platform W) (c : DisplayController W) (w : W) (s : Shared W) (t t' : Client)
    → Reach p (started c w) s
    → inside (s.client_at t) ≡ true
    → t' ≢ t
    → (s.worker_at ≢ at_loop) × (inside (s.client_at t') ≡ false)
one_inside p c w s t t' reach within other = (
  λ looping. cc (o.by_worker looping, o.by_client t within),
  to-false _ (λ also. other (client-injective (sym (o.by_client t' also) ∙ o.by_client t within))),
)
  where
    o : Owned s
    o = Reach-Owned (started-Owned c w) reach
