-- ===== src/Daemon/Threads.antt =====
-- The threads of src/dimmitd.c as steps on the state that they share: the worker, the main thread,
-- and the thread that delivers the brightness keys. A step is what a thread does while it holds the
-- lock, cut where another thread can act or where the code signals. Signals in excess and timeouts
-- are steps of the wait. Sections has the same threads in smaller steps, which read the controller and
-- write it back apart.
use dimmit.Base.{ℕ, ◌≡◌, ◌≢◌, Bool, true, false, Option, none, some, List, if◌then◌else◌}
use dimmit.Base.Int.{ℤ}
use dimmit.Dimmer.{Fraction}
use dimmit.Ddc.{Platform}
use dimmit.Controller.{
  DisplayController, controller_adjust, controller_service, controller_reconcile,
}
use dimmit.Input.{value_cb}
use dimmit.Input.Windows.{usage_step}
use dimmit.Daemon.{serve}

-- The threads that change the controller besides the worker.
pub data Client : Type 0 where
  main_thread : Client
  input_thread : Client

pub data Thread : Type 0 where
  worker : Thread
  client : Client → Thread

-- Where the worker is: it asks for the lock, at the start or after a wake-up; it holds the lock at
-- the head of its loop; it waits on the condition; it has returned.
pub data WorkerAt : Type 0 where
  asking : WorkerAt
  at_loop : WorkerAt
  waiting : WorkerAt
  returned : WorkerAt

-- Where a client is: outside; in `adjust_fraction`, before the signal; past the signal, or past a
-- reconcile, with the lock still held.
pub data ClientAt : Type 0 where
  outside : ClientAt
  adjusted : ClientAt
  leaving : ClientAt

pub record Shared (W : Type 0) : Type 0 where
  pub ctrl : DisplayController W
  pub world : W
  pub running : Bool
  pub lock : Option Thread
  pub worker_at : WorkerAt
  pub client_at : Client → ClientAt

unfoldable pub same_client : Client → Client → Bool
same_client main_thread main_thread = true
same_client input_thread input_thread = true
same_client _ _ = false

unfoldable pub move : Client → ClientAt → (Client → ClientAt) → Client → ClientAt
move c to places other = if same_client c other then to else places other

-- `pthread_cond_signal` wakes the worker if it waits.
unfoldable pub signalled : WorkerAt → WorkerAt
signalled waiting = asking
signalled place = place

-- Where a press comes from: a request on the socket, or a key, of macOS or of Windows.
pub data Press : Client → Fraction → Type 0 where
  request :
      (authorized : Bool) (arrived : Option (List ℕ)) (f : Fraction)
      → serve authorized arrived ≡ some f
      → Press main_thread f
  key :
      (registered : Bool) (value : ℤ) (usage_page usage : ℕ) (f : Fraction)
      → value_cb registered value usage_page usage ≡ some f
      → Press input_thread f
  usage_key : (usage : ℕ) (f : Fraction) → usage_step usage ≡ some f → Press input_thread f

-- `sighandler`, and `console_ctrl_handler` of Windows, which also returns TRUE.
abbrev pub sighandler : {W : Type 0} → Shared W → Shared W
sighandler s = record s { running = false }

pub data Step {W : Type 0} (p : Platform W) : Shared W → Shared W → Type 0 where
  -- `adjust_fraction`: take the lock and adjust.
  adjust :
      (s : Shared W) (c : Client) (f : Fraction)
      → Press c f
      → s.lock ≡ none
      → s.client_at c ≡ outside
      → Step p s (record s {
        ctrl = controller_adjust s.ctrl f;
        lock = some (client c);
        client_at = move c adjusted s.client_at;
      })
  signal :
      (s : Shared W) (c : Client)
      → s.client_at c ≡ adjusted
      → Step p s
          (record s { worker_at = signalled s.worker_at; client_at = move c leaving s.client_at })
  unlock :
      (s : Shared W) (c : Client)
      → s.client_at c ≡ leaving
      → Step p s (record s { lock = none; client_at = move c outside s.client_at })
  -- The idle tick of the main thread.
  reconcile :
      (s : Shared W)
      → s.lock ≡ none
      → s.client_at main_thread ≡ outside
      → Step p s (record s {
        ctrl = (controller_reconcile p s.ctrl s.world).0;
        world = (controller_reconcile p s.ctrl s.world).1;
        lock = some (client main_thread);
        client_at = move main_thread leaving s.client_at;
      })
  -- A signal handler, or `cleanup:`.
  stop : (s : Shared W) → Step p s (sighandler s)
  worker_lock :
      (s : Shared W)
      → s.lock ≡ none
      → s.worker_at ≡ asking
      → Step p s (record s { lock = some worker; worker_at = at_loop })
  -- A pass that applied something: `continue`.
  worker_pass :
      (s : Shared W)
      → s.running ≡ true
      → s.worker_at ≡ at_loop
      → (controller_service s.ctrl s.world).0.1 ≢ 0
      → Step p s (record s {
        ctrl = (controller_service s.ctrl s.world).0.0;
        world = (controller_service s.ctrl s.world).1;
      })
  -- A pass that applied nothing: the wait releases the lock.
  worker_wait :
      (s : Shared W)
      → s.running ≡ true
      → s.worker_at ≡ at_loop
      → (controller_service s.ctrl s.world).0.1 ≡ 0
      → Step p s (record s {
        ctrl = (controller_service s.ctrl s.world).0.0;
        world = (controller_service s.ctrl s.world).1;
        lock = none;
        worker_at = waiting;
      })
  -- The deadline, or a wake-up without a signal.
  worker_wake : (s : Shared W) → s.worker_at ≡ waiting → Step p s (record s { worker_at = asking })
  worker_return :
      (s : Shared W)
      → s.running ≡ false
      → s.worker_at ≡ at_loop
      → Step p s (record s { lock = none; worker_at = returned })

-- What `main` has after `pthread_create`, with a controller from `controller_open`.
unfoldable pub started : {W : Type 0} → DisplayController W → W → Shared W
started c w = record {
  ctrl = c;
  world = w;
  running = true;
  lock = none;
  worker_at = asking;
  client_at = λ _. outside;
}

-- The states that the daemon can come to from a start.
pub data Reach {W : Type 0} (p : Platform W) (start : Shared W) : Shared W → Type 0 where
  here : Reach p start start
  next : {s s' : Shared W} → Reach p start s → Step p s s' → Reach p start s'
