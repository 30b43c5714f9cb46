-- ===== src/Input/Darwin/Order.antt =====
-- What every state of the key capture of src/platform/input/darwin.c satisfies.
use dimmit.Base.{ℕ, ◌≡◌, ◌⊎◌, inl, inr, Bool, true, false, not, arith, ◌&&◌}
use dimmit.Input.Darwin.{
  StarterAt, before, managed, opened, start_returned, joining, releasing, stopped, ThreadAt, absent,
  created, exited, Keys, keys_off, Step, no_manager, create_manager, open_fails, open_manager,
  no_thread, create_thread, get_loop, schedule, run_loop, loop_returns, stop_loop, stop_early,
  no_loop, join, no_join, release, no_release, Run, here, next,
}

abbrev pub is_absent : ThreadAt → Bool
is_absent absent = true
is_absent _ = false

abbrev is_exited : ThreadAt → Bool
is_exited exited = true
is_exited _ = false

-- The manager, where the place of the starting thread says whether there is one.
abbrev manager_at : StarterAt → Bool → Bool → Bool
manager_at before started mgr = false
manager_at managed started mgr = true
manager_at opened started mgr = true
manager_at (start_returned ok) started mgr = ok
manager_at joining started mgr = started
manager_at releasing started mgr = mgr
manager_at stopped started mgr = false

-- Whether it is open.
abbrev open_at : StarterAt → Bool → Bool
open_at managed mgr = false
open_at _ mgr = mgr

-- Whether there is a thread to join.
abbrev started_at : StarterAt → Bool → Bool
started_at (start_returned ok) started = ok
started_at joining started = started
started_at _ started = false

-- Whether `g_loop` is set, where the place of the thread says so.
abbrev loop_at : ThreadAt → Bool → Bool
loop_at absent loop = loop
loop_at created loop = false
loop_at _ loop = true

-- Whether a stop can have been requested.
abbrev requested_at : StarterAt → Bool → Bool
requested_at joining requested = requested
requested_at releasing requested = requested
requested_at stopped requested = requested
requested_at _ requested = false

-- Without a thread there is no loop, but past the join.
abbrev loopless : StarterAt → Bool → Bool → Bool
loopless releasing started loop = loop
loopless stopped started loop = loop
loopless _ started loop = started && loop

-- The statics are what the places say.
abbrev pub IsOrderly : Keys → Type 0
IsOrderly s =
    (s.mgr ≡ manager_at s.starter_at s.thread_started s.mgr)
    × (s.mgr_open ≡ open_at s.starter_at s.mgr)
    × (s.thread_started ≡ started_at s.starter_at s.thread_started)
    × (is_absent s.thread_at ≡ not s.thread_started)
    × (s.loop ≡ loop_at s.thread_at s.loop)
    × (s.loop ≡ loopless s.starter_at s.thread_started s.loop)
    × (s.stop_requested ≡ requested_at s.starter_at s.stop_requested)
    × ((is_exited s.thread_at && not s.stop_requested) ≡ false)

pub Step-IsOrderly : {s s' : Keys} → Step s s' → IsOrderly s → IsOrderly s'
Step-IsOrderly (no_manager s at) o = ground arith
Step-IsOrderly (create_manager s at) o = ground arith
Step-IsOrderly (open_fails s at) o = ground arith
Step-IsOrderly (open_manager s at) o = ground arith
Step-IsOrderly (no_thread s at) o = ground arith
Step-IsOrderly (create_thread s at) o = ground arith
Step-IsOrderly (get_loop s at) o = ground arith
Step-IsOrderly (schedule s at) o = ground arith
Step-IsOrderly (run_loop s at) o = ground arith
Step-IsOrderly (loop_returns s at requested) o = ground arith
Step-IsOrderly (stop_loop s ok at looping runs) o = ground arith
Step-IsOrderly (stop_early s ok kept at looping early) o = ground arith
Step-IsOrderly (no_loop s ok at loopless) o = ground arith
Step-IsOrderly (join s at started ended) o = ground arith
Step-IsOrderly (no_join s at none_started) o = ground arith
Step-IsOrderly (release s at there) o = ground arith
Step-IsOrderly (no_release s at gone) o = ground arith

pub Run-IsOrderly : {n : ℕ} {s : Keys} → Run keys_off n s → IsOrderly s
Run-IsOrderly here = ground arith
Run-IsOrderly (next run step) = Step-IsOrderly step (Run-IsOrderly run)

pub manager_outlives :
    (n : ℕ) (s : Keys)
    → Run keys_off n s
    → is_absent s.thread_at ≡ false
    → (s.mgr ≡ true) × (s.mgr_open ≡ true) × (s.thread_started ≡ true)
manager_outlives n s run there = ground (arith, Run-IsOrderly run)

-- No manager and no thread.
abbrev pub HoldsNothing : Keys → Type 0
HoldsNothing s =
    (s.mgr ≡ false) × (s.mgr_open ≡ false) × (s.thread_started ≡ false) × (s.thread_at ≡ absent)

-- After a failed `input_start` of macOS, and after `input_stop`, there is no manager, open or not,
-- and no thread.
pub over-HoldsNothing :
    (n : ℕ) (s : Keys)
    → Run keys_off n s
    → (s.starter_at ≡ start_returned false) ⊎ (s.starter_at ≡ stopped)
    → HoldsNothing s
over-HoldsNothing n s run (inl failed) = ground (arith, Run-IsOrderly run)
over-HoldsNothing n s run (inr over) = ground (arith, Run-IsOrderly run)
