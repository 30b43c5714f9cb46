-- ===== src/Input/Windows/Threads/Progress.antt =====
-- That the key capture of src/platform/input/windows.c starts and stops.
use dimmit.Base.{ℕ, ◌+◌, ◌≤◌, ◌<◌, ◌≡◌, ◌⊎◌, inl, inr, refl, true, false, arith, Bool-cases}
use dimmit.Input.Windows.Threads.{
  StarterAt, before, with_event, awaiting, answered, joining_failed, start_returned, joining,
  stopped, ThreadAt, absent, created, identified, windowed, announcing, pumping, exited, Capture,
  announced, Step, no_event, create_event, no_thread, create_thread, seen, start_fails, join_failed,
  start_succeeds, identify, no_window, create_window, not_registered, register, announce, quit,
  nothing_to_stop, post_quit, post_close, not_posted, join, Run, here, next,
}
use dimmit.Input.Windows.Threads.Order.{IsOrderly, Run-IsOrderly}

-- How many steps are left at most.
abbrev starter_steps : StarterAt → ℕ
starter_steps before = 11
starter_steps with_event = 10
starter_steps awaiting = 4
starter_steps answered = 3
starter_steps joining_failed = 2
starter_steps (start_returned true) = 2
starter_steps (start_returned false) = 1
starter_steps joining = 1
starter_steps stopped = 0

abbrev thread_steps : ThreadAt → ℕ
thread_steps created = 5
thread_steps identified = 4
thread_steps windowed = 3
thread_steps (announcing ok) = 2
thread_steps pumping = 1
thread_steps _ = 0

abbrev steps_left : Capture → ℕ
steps_left s = starter_steps s.starter_at + thread_steps s.thread_at

Step-steps_left : {s s' : Capture} → Step s s' → IsOrderly s → steps_left s' < steps_left s
unfolding announced
Step-steps_left (no_event s at) o = ground arith
Step-steps_left (create_event s at) o = ground arith
Step-steps_left (no_thread s at) o = ground arith
Step-steps_left (create_thread s at) o = ground arith
Step-steps_left (seen s at ready) o = ground arith
Step-steps_left (start_fails s at failed) o = ground arith
Step-steps_left (join_failed s at ended) o = ground arith
Step-steps_left (start_succeeds s at ok) o = ground arith
Step-steps_left (identify s at) o = ground arith
Step-steps_left (no_window s at) o = ground arith
Step-steps_left (create_window s at) o = ground arith
Step-steps_left (not_registered s at) o = ground arith
Step-steps_left (register s at) o = ground arith
Step-steps_left (announce s true at) o = ground arith
Step-steps_left (announce s false at) o = ground arith
Step-steps_left (quit s at posted) o = ground arith
Step-steps_left (nothing_to_stop s true at none_there) o = ground arith
Step-steps_left (nothing_to_stop s false at none_there) o = ground arith
Step-steps_left (post_quit s true at there id) o = ground arith
Step-steps_left (post_quit s false at there id) o = ground arith
Step-steps_left (post_close s true at there window) o = ground arith
Step-steps_left (post_close s false at there window) o = ground arith
Step-steps_left (not_posted s true at there) o = ground arith
Step-steps_left (not_posted s false at there) o = ground arith
Step-steps_left (join s at ended) o = ground arith

Run-steps_left : {n : ℕ} {s : Capture} → Run n s → n + steps_left s ≤ 11
Run-steps_left here = omega arith
Run-steps_left (next run step) =
    omega (arith, Run-steps_left run, Step-steps_left step (Run-IsOrderly run))

pub capture_step_bound : (n : ℕ) (s : Capture) → Run n s → n ≤ 11
capture_step_bound n s run = omega (arith, Run-steps_left run)

-- A step of the capturing thread, where it can make one; or it is not there, waits for a message, or
-- has ended.
thread_step :
    (s : Capture) (th : ThreadAt)
    → s.thread_at ≡ th
    → ((s' : Capture) × Step s s')
      ⊎ (th ≡ absent)
      ⊎ ((th ≡ pumping) × (s.posted ≡ false))
      ⊎ (th ≡ exited)
thread_step s absent at = inr (inl refl)
thread_step s created at = inl (_, identify s at)
thread_step s identified at = inl (_, create_window s at)
thread_step s windowed at = inl (_, register s at)
thread_step s (announcing ok) at = inl (_, announce s ok at)
thread_step s exited at = inr (inr (inr refl))
thread_step s pumping at = elim (Bool-cases s.posted) [
  | inl posted ↦ inl (_, quit s at posted)
  | inr none_posted ↦ inr (inr (inl (refl, none_posted)))
]

-- It is over, or waits for a thread to which no message could be posted, or a step is possible.
abbrev pub GoesOn : Capture → Type 0
GoesOn s =
    (s.starter_at ≡ stopped)
    ⊎ ((s.starter_at ≡ joining) × (s.thread_at ≡ pumping) × (s.posted ≡ false))
    ⊎ ((s' : Capture) × Step s s')

-- In every reachable state of the capture of Windows `input_stop` is over, or a step is possible,
-- or it joins a thread to which neither message could be posted.
pub capture_progress : (n : ℕ) (s : Capture) → Run n s → GoesOn s
capture_progress n s run = go s.starter_at refl
  where
    go : (st : StarterAt) → s.starter_at ≡ st → GoesOn s
    go before at = inr (inr (_, create_event s at))
    go with_event at = inr (inr (_, create_thread s at))
    go awaiting at = elim (thread_step s s.thread_at refl) [
      | inl step ↦ inr (inr step)
      | inr (inl gone) ↦ ground (arith, Run-IsOrderly run)
      | inr (inr (inl pumps)) ↦ inr (inr (_, seen s at (ground (arith, Run-IsOrderly run))))
      | inr (inr (inr ended)) ↦ inr (inr (_, seen s at (ground (arith, Run-IsOrderly run))))
    ]
    go answered at = elim (Bool-cases s.start_ok) [
      | inl ok ↦ inr (inr (_, start_succeeds s at ok))
      | inr failed ↦ inr (inr (_, start_fails s at failed))
    ]
    go joining_failed at = inr (inr (_, join_failed s at (ground (arith, Run-IsOrderly run))))
    go (start_returned ok) at = elim (Bool-cases s.thread_started) [
      | inl there ↦ inr (inr (_, not_posted s ok at there))
      | inr gone ↦ inr (inr (_, nothing_to_stop s ok at gone))
    ]
    go joining at = elim (thread_step s s.thread_at refl) [
      | inl step ↦ inr (inr step)
      | inr (inl gone) ↦ ground (arith, Run-IsOrderly run)
      | inr (inr (inl pumps)) ↦ inr (inl (at, pumps.0, pumps.1))
      | inr (inr (inr ended)) ↦ inr (inr (_, join s at ended))
    ]
    go stopped at = inl at
