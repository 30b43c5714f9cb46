-- ===== src/Input/Darwin.antt =====
-- `input_start`, `input_stop` and `hid_thread` of src/platform/input/darwin.c as steps on the statics
-- of the file: of the thread that starts and stops the capture, and of the one that runs the loop.
pub mod Order
pub mod Stop
use dimmit.Base.{ℕ, ◌+◌, ◌≡◌, ◌≢◌, Bool, true, false}

-- Where the starting thread is: before `input_start`; with the manager; with the manager opened; past
-- `input_start`, with whether it gave 0; in `input_stop` past `CFRunLoopStop`; past the join; past
-- `input_stop`.
pub data StarterAt : Type 0 where
  before : StarterAt
  managed : StarterAt
  opened : StarterAt
  start_returned : Bool → StarterAt
  joining : StarterAt
  releasing : StarterAt
  stopped : StarterAt

-- Where `hid_thread` is: not there; just created; with `g_loop` set; with the manager scheduled; in
-- `CFRunLoopRun`; past its function.
pub data ThreadAt : Type 0 where
  absent : ThreadAt
  created : ThreadAt
  looped : ThreadAt
  scheduled : ThreadAt
  running : ThreadAt
  exited : ThreadAt

-- The statics: whether `g_on_adjust`, `g_mgr` and `g_loop` are set, and `g_thread_started`. `mgr_open`
-- says that the manager is open, `stop_requested` that the run of the loop is told to stop.
pub record Keys : Type 0 where
  pub on_adjust : Bool
  pub mgr : Bool
  pub mgr_open : Bool
  pub loop : Bool
  pub thread_started : Bool
  pub stop_requested : Bool
  pub starter_at : StarterAt
  pub thread_at : ThreadAt

abbrev pub keys_off : Keys
keys_off = record {
  on_adjust = false;
  mgr = false;
  mgr_open = false;
  loop = false;
  thread_started = false;
  stop_requested = false;
  starter_at = before;
  thread_at = absent;
}

-- The loop, with the manager's sources in it, runs until it is stopped. A `CFRunLoopStop` before
-- the loop runs may be kept for the run or lost.
pub data Step : Keys → Keys → Type 0 where
  -- `input_start`.
  no_manager :
      (s : Keys)
      → s.starter_at ≡ before
      → Step s (record s { on_adjust = true; starter_at = start_returned false })
  create_manager :
      (s : Keys)
      → s.starter_at ≡ before
      → Step s (record s { on_adjust = true; mgr = true; starter_at = managed })
  open_fails :
      (s : Keys)
      → s.starter_at ≡ managed
      → Step s (record s { mgr = false; starter_at = start_returned false })
  open_manager :
      (s : Keys)
      → s.starter_at ≡ managed
      → Step s (record s { mgr_open = true; starter_at = opened })
  no_thread :
      (s : Keys)
      → s.starter_at ≡ opened
      → Step s (record s { mgr_open = false; mgr = false; starter_at = start_returned false })
  create_thread :
      (s : Keys)
      → s.starter_at ≡ opened
      → Step s (record s {
        thread_started = true;
        starter_at = start_returned true;
        thread_at = created;
      })
  -- `hid_thread`.
  get_loop :
      (s : Keys) → s.thread_at ≡ created → Step s (record s { loop = true; thread_at = looped })
  schedule : (s : Keys) → s.thread_at ≡ looped → Step s (record s { thread_at = scheduled })
  run_loop : (s : Keys) → s.thread_at ≡ scheduled → Step s (record s { thread_at = running })
  loop_returns :
      (s : Keys)
      → s.thread_at ≡ running
      → s.stop_requested ≡ true
      → Step s (record s { thread_at = exited })
  -- `input_stop`: the loop is stopped while it runs, before it runs, or there is none.
  stop_loop :
      (s : Keys) (ok : Bool)
      → s.starter_at ≡ start_returned ok
      → s.loop ≡ true
      → s.thread_at ≡ running
      → Step s (record s { stop_requested = true; starter_at = joining })
  stop_early :
      (s : Keys) (ok kept : Bool)
      → s.starter_at ≡ start_returned ok
      → s.loop ≡ true
      → s.thread_at ≢ running
      → Step s (record s { stop_requested = kept; starter_at = joining })
  no_loop :
      (s : Keys) (ok : Bool)
      → s.starter_at ≡ start_returned ok
      → s.loop ≡ false
      → Step s (record s { starter_at = joining })
  join :
      (s : Keys)
      → s.starter_at ≡ joining
      → s.thread_started ≡ true
      → s.thread_at ≡ exited
      → Step s (record s { thread_started = false; starter_at = releasing; thread_at = absent })
  no_join :
      (s : Keys)
      → s.starter_at ≡ joining
      → s.thread_started ≡ false
      → Step s (record s { starter_at = releasing })
  release :
      (s : Keys)
      → s.starter_at ≡ releasing
      → s.mgr ≡ true
      → Step s (record s { mgr_open = false; mgr = false; starter_at = stopped })
  no_release :
      (s : Keys)
      → s.starter_at ≡ releasing
      → s.mgr ≡ false
      → Step s (record s { starter_at = stopped })

-- The states after a number of steps from a state.
pub data Run (start : Keys) : ℕ → Keys → Type 0 where
  here : Run start 0 start
  next : {n : ℕ} {s s' : Keys} → Run start n s → Step s s' → Run start (n + 1) s'
