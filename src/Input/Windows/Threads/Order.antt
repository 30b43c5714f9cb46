-- ===== src/Input/Windows/Threads/Order.antt =====
-- What every state of the key capture of src/platform/input/windows.c satisfies.
use dimmit.Base.{ℕ, ◌≡◌, Bool, true, false, not, Option, none, some, arith}
use dimmit.Input.Windows.Threads.{
  StarterAt, before, with_event, awaiting, answered, joining_failed, start_returned, joining,
  stopped, ThreadAt, absent, created, identified, windowed, announcing, pumping, exited, Capture,
  announced, set_event, Step, no_event, create_event, no_thread, create_thread, seen, start_fails,
  join_failed, start_succeeds, identify, no_window, create_window, not_registered, register,
  announce, quit, nothing_to_stop, post_quit, post_close, not_posted, join, Run, here, next,
}

-- Before `SetEvent`.
abbrev pub starting : ThreadAt → Bool
starting created = true
starting identified = true
starting windowed = true
starting (announcing ok) = true
starting _ = false

abbrev pub is_absent : ThreadAt → Bool
is_absent absent = true
is_absent _ = false

abbrev pub is_exited : ThreadAt → Bool
is_exited exited = true
is_exited _ = false

-- While the starting thread has a thread to join.
abbrev pub has_thread : StarterAt → Bool
has_thread awaiting = true
has_thread answered = true
has_thread joining_failed = true
has_thread (start_returned ok) = ok
has_thread joining = true
has_thread _ = false

-- Which places go together.
abbrev pub go_together : StarterAt → ThreadAt → Bool
go_together awaiting thread = not (is_absent thread)
go_together answered pumping = true
go_together answered exited = true
go_together joining_failed exited = true
go_together (start_returned true) pumping = true
go_together (start_returned true) exited = true
go_together joining pumping = true
go_together joining exited = true
go_together before absent = true
go_together with_event absent = true
go_together (start_returned false) absent = true
go_together stopped absent = true
go_together _ _ = false

-- The event at these places.
abbrev pub event_at : StarterAt → ThreadAt → Option Bool
event_at with_event thread = some false
event_at awaiting thread = some (not (starting thread))
event_at _ thread = none

-- `g_start_ok`, where the place of the thread says what it is.
abbrev settled_ok : ThreadAt → Bool → Bool
settled_ok (announcing ok) _ = ok
settled_ok pumping _ = true
settled_ok _ ok = ok

abbrev pub is_identified : ThreadAt → Bool
is_identified absent = false
is_identified created = false
is_identified _ = true

abbrev pub has_window : ThreadAt → Bool
has_window windowed = true
has_window (announcing ok) = ok
has_window pumping = true
has_window _ = false

-- The places go together, and each static is what they say.
abbrev pub IsOrderly : Capture → Type 0
IsOrderly s =
    (go_together s.starter_at s.thread_at ≡ true)
    × (s.ready ≡ event_at s.starter_at s.thread_at)
    × (s.start_ok ≡ settled_ok s.thread_at s.start_ok)
    × (s.thread_id ≡ is_identified s.thread_at)
    × (s.hwnd ≡ has_window s.thread_at)
    × (s.thread_started ≡ has_thread s.starter_at)

Step-IsOrderly : {s s' : Capture} → Step s s' → IsOrderly s → IsOrderly s'
unfolding announced set_event
Step-IsOrderly (no_event s at) o = ground arith
Step-IsOrderly (create_event s at) o = ground arith
Step-IsOrderly (no_thread s at) o = ground arith
Step-IsOrderly (create_thread s at) o = ground arith
Step-IsOrderly (seen s at ready) o = ground arith
Step-IsOrderly (start_fails s at failed) o = ground arith
Step-IsOrderly (join_failed s at ended) o = ground arith
Step-IsOrderly (start_succeeds s at ok) o = ground arith
Step-IsOrderly (identify s at) o = ground arith
Step-IsOrderly (no_window s at) o = ground arith
Step-IsOrderly (create_window s at) o = ground arith
Step-IsOrderly (not_registered s at) o = ground arith
Step-IsOrderly (register s at) o = ground arith
Step-IsOrderly (announce s true at) o = ground arith
Step-IsOrderly (announce s false at) o = ground arith
Step-IsOrderly (quit s at posted) o = ground arith
Step-IsOrderly (nothing_to_stop s ok at none_there) o = ground arith
Step-IsOrderly (post_quit s ok at there id) o = ground arith
Step-IsOrderly (post_close s ok at there window) o = ground arith
Step-IsOrderly (not_posted s ok at there) o = ground arith
Step-IsOrderly (join s at ended) o = ground arith

pub Run-IsOrderly : {n : ℕ} {s : Capture} → Run n s → IsOrderly s
Run-IsOrderly here = ground arith
Run-IsOrderly (next run step) = Step-IsOrderly step (Run-IsOrderly run)

-- In every reachable state of the capture of Windows, where its thread is about to signal the
-- event, the starting thread is in its wait, the event is open and not signalled, and `g_start_ok`
-- and the window say whether the start succeeded.
pub announcing_open :
    (n : ℕ) (s : Capture) (ok : Bool)
    → Run n s
    → s.thread_at ≡ announcing ok
    → (s.starter_at ≡ awaiting) × (s.ready ≡ some false) × (s.start_ok ≡ ok) × (s.hwnd ≡ ok)
announcing_open n s ok run at = ground (arith, Run-IsOrderly run)

-- Where `input_start` of Windows has returned, a thread, its mark and its id are there exactly if
-- it returned 0, the event is closed, and a window is there exactly if the thread is at its
-- messages.
start_returned_lem :
    (n : ℕ) (s : Capture) (ok : Bool)
    → Run n s
    → s.starter_at ≡ start_returned ok
    → (is_absent s.thread_at ≡ not ok)
      × (s.thread_started ≡ ok)
      × (s.thread_id ≡ ok)
      × (s.ready ≡ none)
      × (s.hwnd ≡ has_window s.thread_at)
start_returned_lem n s false run at = ground (arith, Run-IsOrderly run)
start_returned_lem n s true run at = ground (arith, Run-IsOrderly run)
