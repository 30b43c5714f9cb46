-- ===== src/Daemon/Sections.antt =====
-- The critical sections of src/dimmitd.c in small steps: a thread enters one with the lock, reads the
-- controller, and writes it back later, whatever the other threads do meanwhile.
pub mod Order
pub mod Serial
use dimmit.Base.{ℕ, ◌≡◌, ◌≢◌, Bool, true, false, Option, none, some, List, [], ◌∷◌, ◌++◌}
use dimmit.Dimmer.{Fraction}
use dimmit.Ddc.{Platform}
use dimmit.Controller.{
  DisplayController, controller_adjust, controller_service, controller_reconcile,
}
use dimmit.Daemon.Threads.{Client, main_thread, input_thread, Thread, worker, client, Press}

-- What a client enters for: `adjust_fraction`, or the idle tick.
pub data Job : Client → Type 0 where
  press : {c : Client} (f : Fraction) → Press c f → Job c
  reconcile : Job main_thread

-- Where a client is: outside; with the lock; with what it read of the controller; past its write, as
-- in Threads.
pub data ClientPlace (W : Type 0) (c : Client) : Type 0 where
  outside : ClientPlace W c
  entered : Job c → ClientPlace W c
  copied : Job c → DisplayController W → ClientPlace W c
  adjusted : ClientPlace W c
  leaving : ClientPlace W c

pub data WorkerPlace (W : Type 0) : Type 0 where
  asking : WorkerPlace W
  at_loop : WorkerPlace W
  serving : DisplayController W → WorkerPlace W
  waiting : WorkerPlace W
  returned : WorkerPlace W

pub record Sections (W : Type 0) : Type 0 where
  pub ctrl : DisplayController W
  pub world : W
  pub running : Bool
  pub lock : Option Thread
  pub worker_at : WorkerPlace W
  pub client_at : (c : Client) → ClientPlace W c

module _ {W : Type 0} where
  unfoldable pub put :
      (c : Client)
      → ClientPlace W c
      → ((d : Client) → ClientPlace W d)
      → (d : Client) → ClientPlace W d
  put main_thread place places main_thread = place
  put main_thread place places input_thread = places input_thread
  put input_thread place places main_thread = places main_thread
  put input_thread place places input_thread = place

  -- `pthread_cond_signal`
  unfoldable pub woken : WorkerPlace W → WorkerPlace W
  woken waiting = asking
  woken place = place

  -- The write of a client: its operation on what it read, and on the world as it is now.
  unfoldable pub written :
      Platform W → {c : Client} → Job c → DisplayController W → Sections W → Sections W
  written p {c} (press f from) copy s = record s {
    ctrl = controller_adjust copy f;
    client_at = put c adjusted s.client_at;
  }
  written p reconcile copy s = record s {
    ctrl = (controller_reconcile p copy s.world).0;
    world = (controller_reconcile p copy s.world).1;
    client_at = put main_thread leaving s.client_at;
  }

  -- The write of the worker.
  unfoldable pub served : DisplayController W → Sections W → Sections W
  served copy s = record s {
    ctrl = (controller_service copy s.world).0.0;
    world = (controller_service copy s.world).1;
  }

pub data Move {W : Type 0} (p : Platform W) : Sections W → Sections W → Type 0 where
  enter :
      (s : Sections W) (c : Client) (job : Job c)
      → s.lock ≡ none
      → s.client_at c ≡ outside
      → Move p s (record s { lock = some (client c); client_at = put c (entered job) s.client_at })
  read :
      (s : Sections W) (c : Client) (job : Job c)
      → s.client_at c ≡ entered job
      → Move p s (record s { client_at = put c (copied job s.ctrl) s.client_at })
  write :
      (s : Sections W) (c : Client) (job : Job c) (copy : DisplayController W)
      → s.client_at c ≡ copied job copy
      → Move p s (written p job copy s)
  signal :
      (s : Sections W) (c : Client)
      → s.client_at c ≡ adjusted
      → Move p s (record s { worker_at = woken s.worker_at; client_at = put c leaving s.client_at })
  unlock :
      (s : Sections W) (c : Client)
      → s.client_at c ≡ leaving
      → Move p s (record s { lock = none; client_at = put c outside s.client_at })
  stop : (s : Sections W) → Move p s (record s { running = false })
  worker_lock :
      (s : Sections W)
      → s.lock ≡ none
      → s.worker_at ≡ asking
      → Move p s (record s { lock = some worker; worker_at = at_loop })
  worker_read :
      (s : Sections W)
      → s.running ≡ true
      → s.worker_at ≡ at_loop
      → Move p s (record s { worker_at = serving s.ctrl })
  -- A pass that applied something: `continue`.
  worker_pass :
      (s : Sections W) (copy : DisplayController W)
      → s.worker_at ≡ serving copy
      → (controller_service copy s.world).0.1 ≢ 0
      → Move p s (record (served copy s) { worker_at = at_loop })
  -- A pass that applied nothing: the wait releases the lock.
  worker_wait :
      (s : Sections W) (copy : DisplayController W)
      → s.worker_at ≡ serving copy
      → (controller_service copy s.world).0.1 ≡ 0
      → Move p s (record (served copy s) { lock = none; worker_at = waiting })
  worker_wake :
      (s : Sections W) → s.worker_at ≡ waiting → Move p s (record s { worker_at = asking })
  worker_return :
      (s : Sections W)
      → s.running ≡ false
      → s.worker_at ≡ at_loop
      → Move p s (record s { lock = none; worker_at = returned })

-- After `pthread_create`.
unfoldable pub begun : {W : Type 0} → DisplayController W → W → Sections W
begun c w = record {
  ctrl = c;
  world = w;
  running = true;
  lock = none;
  worker_at = asking;
  client_at = λ _. outside;
}

pub data Moves {W : Type 0} (p : Platform W) (start : Sections W) : Sections W → Type 0 where
  here : Moves p start start
  next : {s s' : Sections W} → Moves p start s → Move p s s' → Moves p start s'
