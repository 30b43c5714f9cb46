-- ===== src/Tests/Captures.antt =====
-- Runs of the threads that capture the brightness keys (src/platform/input/windows.c and darwin.c),
-- and inputs for the theorems.
use dimmit.Base.{◌≡◌, refl, inl, true, false, none, some}
use dimmit.Input.Windows.Threads
use dimmit.Input.Windows.Threads.Order.{announcing_open}
use dimmit.Input.Windows.Threads.Progress.{capture_progress, GoesOn}
use dimmit.Input.Darwin
use dimmit.Input.Darwin.Order.{over-HoldsNothing, HoldsNothing}
use dimmit.Input.Darwin.Stop.{stop_without_loop, keys_progress, IsStuck}

-- The window is there and registered, the event not yet signalled.
abbrev registered : Threads.Capture
registered = record {
  on_adjust = true;
  thread_started = true;
  hwnd = true;
  thread_id = true;
  ready = some false;
  start_ok = true;
  posted = false;
  starter_at = Threads.awaiting;
  thread_at = Threads.announcing true;
}

registered-Run : Threads.Run 5 registered
registered-Run =
    Threads.next
      (Threads.next
        (Threads.next
          (Threads.next (Threads.next Threads.here (Threads.create_event _ refl))
            (Threads.create_thread _ refl))
          (Threads.identify _ refl))
        (Threads.create_window _ refl))
      (Threads.register _ refl)

announcing_open_example :
    (registered.starter_at ≡ Threads.awaiting)
    × (registered.ready ≡ some false)
    × (registered.start_ok ≡ true)
    × (registered.hwnd ≡ true)
announcing_open_example = announcing_open 5 registered true registered-Run refl

-- `input_start` gave 0.
abbrev capturing : Threads.Capture
capturing = record registered {
  ready = none;
  starter_at = Threads.start_returned true;
  thread_at = Threads.pumping;
}

capturing-Run : Threads.Run 8 capturing
unfolding Threads.set_event Threads.announced
capturing-Run =
    Threads.next
      (Threads.next (Threads.next registered-Run (Threads.announce _ true refl))
        (Threads.seen _ refl refl))
      (Threads.start_succeeds _ refl refl)

capture_progress_example : GoesOn capturing
capture_progress_example = capture_progress 8 capturing capturing-Run

-- `input_start` of macOS gave 0, and the thread has not run yet.
abbrev just_started : Darwin.Keys
just_started = record {
  on_adjust = true;
  mgr = true;
  mgr_open = true;
  loop = false;
  thread_started = true;
  stop_requested = false;
  starter_at = Darwin.start_returned true;
  thread_at = Darwin.created;
}

just_started-Run : Darwin.Run Darwin.keys_off 3 just_started
just_started-Run =
    Darwin.next
      (Darwin.next (Darwin.next Darwin.here (Darwin.create_manager _ refl))
        (Darwin.open_manager _ refl))
      (Darwin.create_thread _ refl)

keys_progress_example : Darwin.Stop.GoesOn just_started
keys_progress_example = keys_progress 3 just_started just_started-Run

-- `input_stop` finds no loop; then the thread runs its loop.
abbrev wedged : Darwin.Keys
wedged = record just_started {
  loop = true;
  starter_at = Darwin.joining;
  thread_at = Darwin.running;
}

wedged-Run : Darwin.Run (record just_started { starter_at = Darwin.joining }) 3 wedged
wedged-Run =
    Darwin.next
      (Darwin.next (Darwin.next Darwin.here (Darwin.get_loop _ refl)) (Darwin.schedule _ refl))
      (Darwin.run_loop _ refl)

stop_without_loop_example : IsStuck wedged
stop_without_loop_example =
    stop_without_loop 3 3 just_started wedged just_started-Run refl refl wedged-Run

-- The manager could not be opened.
abbrev refused : Darwin.Keys
refused = record Darwin.keys_off { on_adjust = true; starter_at = Darwin.start_returned false }

refused-Run : Darwin.Run Darwin.keys_off 2 refused
refused-Run =
    Darwin.next (Darwin.next Darwin.here (Darwin.create_manager _ refl)) (Darwin.open_fails _ refl)

over-HoldsNothing_example : HoldsNothing refused
over-HoldsNothing_example = over-HoldsNothing 2 refused refused-Run (inl refl)
