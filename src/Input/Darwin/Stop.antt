-- ===== src/Input/Darwin/Stop.antt =====
-- How `input_stop` of src/platform/input/darwin.c ends.
use dimmit.Base.{ℕ, ◌+◌, ◌≤◌, ◌<◌, ◌≡◌, ◌⊎◌, inl, inr, refl, Bool, true, false, arith, Bool-cases}
use dimmit.Input.Darwin.{
  StarterAt, before, managed, opened, start_returned, joining, releasing, stopped, ThreadAt, absent,
  created, looped, scheduled, running, exited, Keys, keys_off, Step, no_manager, create_manager,
  open_fails, open_manager, no_thread, create_thread, get_loop, schedule, run_loop, loop_returns,
  stop_loop, stop_early, no_loop, join, no_join, release, no_release, Run, here, next,
}
use dimmit.Input.Darwin.Order.{IsOrderly, Step-IsOrderly, Run-IsOrderly}

-- It joins a loop that no one has told to stop.
abbrev pub IsStuck : Keys → Type 0
IsStuck s = (s.starter_at ≡ joining) × (s.thread_started ≡ true) × (s.stop_requested ≡ false)

Step-IsStuck : {s s' : Keys} → Step s s' → IsOrderly s → IsStuck s → IsStuck s'
Step-IsStuck (no_manager s at) o h = ground arith
Step-IsStuck (create_manager s at) o h = ground arith
Step-IsStuck (open_fails s at) o h = ground arith
Step-IsStuck (open_manager s at) o h = ground arith
Step-IsStuck (no_thread s at) o h = ground arith
Step-IsStuck (create_thread s at) o h = ground arith
Step-IsStuck (get_loop s at) o h = ground arith
Step-IsStuck (schedule s at) o h = ground arith
Step-IsStuck (run_loop s at) o h = ground arith
Step-IsStuck (loop_returns s at requested) o h = ground arith
Step-IsStuck (stop_loop s ok at looping runs) o h = ground arith
Step-IsStuck (stop_early s ok kept at looping early) o h = ground arith
Step-IsStuck (no_loop s ok at loopless) o h = ground arith
Step-IsStuck (join s at started ended) o h = ground arith
Step-IsStuck (no_join s at none_started) o h = ground arith
Step-IsStuck (release s at there) o h = ground arith
Step-IsStuck (no_release s at gone) o h = ground arith

Run-IsStuck :
    {start s : Keys} {n : ℕ}
    → Run start n s
    → IsOrderly start
    → IsStuck start
    → IsOrderly s × IsStuck s
Run-IsStuck here o h = (o, h)
Run-IsStuck (next run step) o h =
    let (orderly, stuck) = Run-IsStuck run o h in
    (Step-IsOrderly step orderly, Step-IsStuck step orderly stuck)

-- Where `input_stop` of macOS runs after a successful start but before the new thread has set
-- `g_loop`, then, whatever the threads do, it stays in its join: nothing stops the loop.
pub stop_without_loop :
    (n m : ℕ) (s s' : Keys)
    → Run keys_off n s
    → s.starter_at ≡ start_returned true
    → s.loop ≡ false
    → Run (record s { starter_at = joining }) m s'
    → IsStuck s'
stop_without_loop n m s s' run at loopless after =
    (Run-IsStuck after (ground (arith, Run-IsOrderly run)) (ground (arith, Run-IsOrderly run))).1

-- How many steps are left at most.
abbrev starter_steps : StarterAt → ℕ
starter_steps before = 10
starter_steps managed = 9
starter_steps opened = 8
starter_steps (start_returned ok) = 3
starter_steps joining = 2
starter_steps releasing = 1
starter_steps stopped = 0

abbrev thread_steps : ThreadAt → ℕ
thread_steps created = 4
thread_steps looped = 3
thread_steps scheduled = 2
thread_steps running = 1
thread_steps _ = 0

abbrev steps_left : Keys → ℕ
steps_left s = starter_steps s.starter_at + thread_steps s.thread_at

Step-steps_left : {s s' : Keys} → Step s s' → IsOrderly s → steps_left s' < steps_left s
Step-steps_left (no_manager s at) o = ground arith
Step-steps_left (create_manager s at) o = ground arith
Step-steps_left (open_fails s at) o = ground arith
Step-steps_left (open_manager s at) o = ground arith
Step-steps_left (no_thread s at) o = ground arith
Step-steps_left (create_thread s at) o = ground arith
Step-steps_left (get_loop s at) o = ground arith
Step-steps_left (schedule s at) o = ground arith
Step-steps_left (run_loop s at) o = ground arith
Step-steps_left (loop_returns s at requested) o = ground arith
Step-steps_left (stop_loop s ok at looping runs) o = ground arith
Step-steps_left (stop_early s ok kept at looping early) o = ground arith
Step-steps_left (no_loop s ok at loopless) o = ground arith
Step-steps_left (join s at started ended) o = ground arith
Step-steps_left (no_join s at none_started) o = ground arith
Step-steps_left (release s at there) o = ground arith
Step-steps_left (no_release s at gone) o = ground arith

Run-steps_left : {n : ℕ} {s : Keys} → Run keys_off n s → n + steps_left s ≤ 10
Run-steps_left here = omega arith
Run-steps_left (next run step) =
    omega (arith, Run-steps_left run, Step-steps_left step (Run-IsOrderly run))

pub keys_step_bound : (n : ℕ) (s : Keys) → Run keys_off n s → n ≤ 10
keys_step_bound n s run = omega (arith, Run-steps_left run)

-- A step of the loop's thread, where it can make one; or it is not there, runs a loop that no one has
-- told to stop, or has ended.
thread_step :
    (s : Keys) (th : ThreadAt)
    → s.thread_at ≡ th
    → ((s' : Keys) × Step s s')
      ⊎ (th ≡ absent)
      ⊎ ((th ≡ running) × (s.stop_requested ≡ false))
      ⊎ (th ≡ exited)
thread_step s absent at = inr (inl refl)
thread_step s created at = inl (_, get_loop s at)
thread_step s looped at = inl (_, schedule s at)
thread_step s scheduled at = inl (_, run_loop s at)
thread_step s exited at = inr (inr (inr refl))
thread_step s running at = elim (Bool-cases s.stop_requested) [
  | inl requested ↦ inl (_, loop_returns s at requested)
  | inr unasked ↦ inr (inr (inl (refl, unasked)))
]

-- It is over, or joins a loop that no one has told to stop, or a step is possible.
abbrev pub GoesOn : Keys → Type 0
GoesOn s = (s.starter_at ≡ stopped) ⊎ IsStuck s ⊎ ((s' : Keys) × Step s s')

-- `input_stop` past its test of `g_thread_started`.
joining_GoesOn :
    (s : Keys) → IsOrderly s → s.starter_at ≡ joining → s.thread_started ≡ true → GoesOn s
joining_GoesOn s o at started = elim (thread_step s s.thread_at refl) [
  | inl step ↦ inr (inr step)
  | inr (inl gone) ↦ ground arith
  | inr (inr (inl runs)) ↦ inr (inl (at, started, runs.1))
  | inr (inr (inr ended)) ↦ inr (inr (_, join s at started ended))
]

-- The first step of `input_stop`.
stop_GoesOn :
    (s : Keys) (ok : Bool) (th : ThreadAt)
    → s.starter_at ≡ start_returned ok
    → s.thread_at ≡ th
    → IsOrderly s
    → GoesOn s
stop_GoesOn s ok th at there o = elim (Bool-cases s.loop) [
  | inr loopless ↦ inr (inr (_, no_loop s ok at loopless))
  | inl looping ↦
      elim th as (λ x. s.thread_at ≡ x → GoesOn s) [
        | running ↦ λ runs. inr (inr (_, stop_loop s ok at looping runs))
        | _ ↦ λ other. inr (inr (_, stop_early s ok false at looping (ground arith)))
      ]
        there
]

-- In every reachable state of the capture of macOS `input_stop` is over, or a step is possible, or
-- it joins a thread whose loop no one has told to stop.
pub keys_progress : (n : ℕ) (s : Keys) → Run keys_off n s → GoesOn s
keys_progress n s run = go s.starter_at refl
  where
    go : (st : StarterAt) → s.starter_at ≡ st → GoesOn s
    go before at = inr (inr (_, create_manager s at))
    go managed at = inr (inr (_, open_manager s at))
    go opened at = inr (inr (_, create_thread s at))
    go (start_returned ok) at = stop_GoesOn s ok s.thread_at at refl (Run-IsOrderly run)
    go joining at = elim (Bool-cases s.thread_started) [
      | inl started ↦ joining_GoesOn s (Run-IsOrderly run) at started
      | inr none_started ↦ inr (inr (_, no_join s at none_started))
    ]
    go releasing at = elim (Bool-cases s.mgr) [
      | inl there ↦ inr (inr (_, release s at there))
      | inr gone ↦ inr (inr (_, no_release s at gone))
    ]
    go stopped at = inl at
