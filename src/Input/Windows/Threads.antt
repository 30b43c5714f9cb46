-- ===== src/Input/Windows/Threads.antt =====
-- `input_start`, `input_stop` and `input_thread` of src/platform/input/windows.c as steps on the
-- statics of the file: of the thread that starts and stops the capture, and of the captured one.
pub mod Order
pub mod Progress
use dimmit.Base.{ℕ, ◌+◌, ◌≡◌, ◌≢◌, Bool, true, false, Option, none, some}

-- Where the starting thread is: before `input_start`; with the event created; in the wait; past the
-- wait; joining after a failed start; past `input_start`, with whether it gave 0; joining in
-- `input_stop`; past it.
pub data StarterAt : Type 0 where
  before : StarterAt
  with_event : StarterAt
  awaiting : StarterAt
  answered : StarterAt
  joining_failed : StarterAt
  start_returned : Bool → StarterAt
  joining : StarterAt
  stopped : StarterAt

-- Where the capturing thread is: not there; just created; with its id set; with its window; with
-- `g_start_ok` set, before `SetEvent`; in the loop over the messages; past its function.
pub data ThreadAt : Type 0 where
  absent : ThreadAt
  created : ThreadAt
  identified : ThreadAt
  windowed : ThreadAt
  announcing : Bool → ThreadAt
  pumping : ThreadAt
  exited : ThreadAt

-- The statics: whether `g_on_adjust`, `g_hwnd` and `g_thread_id` are set, `g_thread_started`,
-- `g_start_ok`, and `g_ready`, with whether the event is signalled. `posted` says that the thread has
-- a message in its queue that ends its loop.
pub record Capture : Type 0 where
  pub on_adjust : Bool
  pub thread_started : Bool
  pub hwnd : Bool
  pub thread_id : Bool
  pub ready : Option Bool
  pub start_ok : Bool
  pub posted : Bool
  pub starter_at : StarterAt
  pub thread_at : ThreadAt

abbrev pub capture_off : Capture
capture_off = record {
  on_adjust = false;
  thread_started = false;
  hwnd = false;
  thread_id = false;
  ready = none;
  start_ok = false;
  posted = false;
  starter_at = before;
  thread_at = absent;
}

-- After `SetEvent`.
unfoldable pub announced : Bool → ThreadAt
announced true = pumping
announced false = exited

-- `SetEvent`, which does nothing to a closed handle.
unfoldable pub set_event : Option Bool → Option Bool
set_event none = none
set_event (some signalled) = some true

pub data Step : Capture → Capture → Type 0 where
  -- `input_start`: the event cannot be created, or it can.
  no_event :
      (s : Capture)
      → s.starter_at ≡ before
      → Step s (record s { on_adjust = true; start_ok = false; starter_at = start_returned false })
  create_event :
      (s : Capture)
      → s.starter_at ≡ before
      → Step s (record s {
        on_adjust = true;
        start_ok = false;
        ready = some false;
        starter_at = with_event;
      })
  no_thread :
      (s : Capture)
      → s.starter_at ≡ with_event
      → Step s (record s { ready = none; starter_at = start_returned false })
  create_thread :
      (s : Capture)
      → s.starter_at ≡ with_event
      → Step s (record s { thread_started = true; starter_at = awaiting; thread_at = created })
  -- The wait ends, and the event is closed.
  seen :
      (s : Capture)
      → s.starter_at ≡ awaiting
      → s.ready ≡ some true
      → Step s (record s { ready = none; starter_at = answered })
  start_fails :
      (s : Capture)
      → s.starter_at ≡ answered
      → s.start_ok ≡ false
      → Step s (record s { starter_at = joining_failed })
  join_failed :
      (s : Capture)
      → s.starter_at ≡ joining_failed
      → s.thread_at ≡ exited
      → Step s (record s {
        thread_started = false;
        thread_id = false;
        starter_at = start_returned false;
        thread_at = absent;
      })
  start_succeeds :
      (s : Capture)
      → s.starter_at ≡ answered
      → s.start_ok ≡ true
      → Step s (record s { starter_at = start_returned true })
  -- `input_thread`.
  identify :
      (s : Capture)
      → s.thread_at ≡ created
      → Step s (record s { thread_id = true; thread_at = identified })
  no_window :
      (s : Capture)
      → s.thread_at ≡ identified
      → Step s (record s { hwnd = false; start_ok = false; thread_at = announcing false })
  create_window :
      (s : Capture)
      → s.thread_at ≡ identified
      → Step s (record s { hwnd = true; thread_at = windowed })
  not_registered :
      (s : Capture)
      → s.thread_at ≡ windowed
      → Step s (record s { hwnd = false; start_ok = false; thread_at = announcing false })
  register :
      (s : Capture)
      → s.thread_at ≡ windowed
      → Step s (record s { start_ok = true; thread_at = announcing true })
  announce :
      (s : Capture) (ok : Bool)
      → s.thread_at ≡ announcing ok
      → Step s (record s { ready = set_event s.ready; thread_at = announced ok })
  -- The loop ends at a message that was posted: with these arguments `GetMessage` does not fail.
  quit :
      (s : Capture)
      → s.thread_at ≡ pumping
      → s.posted ≡ true
      → Step s (record s { hwnd = false; thread_at = exited })
  -- `input_stop`: without a thread; with WM_QUIT posted to the thread; with WM_CLOSE posted to the
  -- window, where WM_QUIT could not be; with neither.
  nothing_to_stop :
      (s : Capture) (ok : Bool)
      → s.starter_at ≡ start_returned ok
      → s.thread_started ≡ false
      → Step s (record s { starter_at = stopped })
  post_quit :
      (s : Capture) (ok : Bool)
      → s.starter_at ≡ start_returned ok
      → s.thread_started ≡ true
      → s.thread_id ≡ true
      → Step s (record s { posted = true; starter_at = joining })
  post_close :
      (s : Capture) (ok : Bool)
      → s.starter_at ≡ start_returned ok
      → s.thread_started ≡ true
      → s.hwnd ≡ true
      → Step s (record s { posted = true; starter_at = joining })
  not_posted :
      (s : Capture) (ok : Bool)
      → s.starter_at ≡ start_returned ok
      → s.thread_started ≡ true
      → Step s (record s { starter_at = joining })
  join :
      (s : Capture)
      → s.starter_at ≡ joining
      → s.thread_at ≡ exited
      → Step s (record s {
        on_adjust = false;
        thread_started = false;
        thread_id = false;
        starter_at = stopped;
        thread_at = absent;
      })

-- The states after a number of steps from the statics' initial values.
pub data Run : ℕ → Capture → Type 0 where
  here : Run 0 capture_off
  next : {n : ℕ} {s s' : Capture} → Run n s → Step s s' → Run (n + 1) s'
