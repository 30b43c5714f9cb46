-- ===== src/Daemon/Deadline.antt =====
-- The absolute time until which the worker of src/dimmitd.c waits.
use dimmit.Base.{ℕ, ◌+◌, ◌-◌, ◌*◌, ◌<◌, ◌≡◌, leb, if◌then◌else◌, arith}

-- `struct timespec`
pub record Timespec : Type 0 where
  pub tv_sec : ℕ
  pub tv_nsec : ℕ

-- `WORKER_POLL_MS`
abbrev pub worker_poll_ms : ℕ
worker_poll_ms = 250

abbrev pub nsec_per_sec : ℕ
nsec_per_sec = 1_000_000_000

unfoldable pub deadline : Timespec → Timespec
deadline now =
    let nsec = now.tv_nsec + worker_poll_ms * 1_000_000 in
    if leb nsec_per_sec nsec
    then record { tv_sec = now.tv_sec + 1; tv_nsec = nsec - nsec_per_sec }
    else record { tv_sec = now.tv_sec; tv_nsec = nsec }

-- A time in nanoseconds.
abbrev pub nanoseconds : Timespec → ℕ
nanoseconds t = t.tv_sec * nsec_per_sec + t.tv_nsec

-- For a valid time, the worker's deadline is a valid time a quarter of a second later.
pub deadline_lem :
    (now : Timespec)
    → now.tv_nsec < nsec_per_sec
    → ((deadline now).tv_nsec < nsec_per_sec)
      × (nanoseconds (deadline now) ≡ nanoseconds now + 250_000_000)
unfolding deadline
deadline_lem now h = ground arith
