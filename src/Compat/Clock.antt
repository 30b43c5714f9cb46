-- ===== src/Compat/Clock.antt =====
-- The worker's deadline (src/dimmitd.c) from the clock of src/platform/compat/clock_gettime.c.
use dimmit.Base.{◌+◌, ◌*◌, ◌<◌, ◌≡◌, refl, some, arith}
use dimmit.Daemon.Deadline.{Timespec, deadline, nanoseconds, nsec_per_sec, deadline_lem}
use dimmit.Compat.{Timeval, clock_time, to_timespec, dimmit_clock_gettime, clock_realtime}

-- For a valid answer of `gettimeofday`, `dimmit_clock_gettime` gives a valid time for
-- CLOCK_REALTIME, and the deadline that the worker makes of it is a valid time a quarter of a
-- second after that answer.
pub clock_deadline :
    (tv : Timeval)
    → tv.tv_usec < 1_000_000
    → (now : Timespec) × (dimmit_clock_gettime clock_realtime (some tv) ≡ clock_time now)
      × (now.tv_nsec < nsec_per_sec)
      × ((deadline now).tv_nsec < nsec_per_sec)
      × (nanoseconds (deadline now) ≡ tv.tv_sec * nsec_per_sec + tv.tv_usec * 1000 + 250_000_000)
unfolding dimmit_clock_gettime to_timespec
clock_deadline tv valid =
    (now, refl, omega arith, (deadline_lem now (omega arith)).0, (deadline_lem now (omega arith)).1)
  where
    now : Timespec
    now = record { tv_sec = tv.tv_sec; tv_nsec = tv.tv_usec * 1000 }
