-- ===== src/Tests/Systems.antt =====
-- Runs of the log and the clock (src/platform/logging/darwin.c, src/platform/compat/) and of the
-- checksum of src/platform/ddc/darwin.c, and inputs for the theorems.
use dimmit.Base.{
  ◌+◌, ◌*◌, ◌<◌, ◌≡◌, ◌≢◌, refl, true, false, none, some, [], ◌∷◌, codes, arith, str_eq,
}
use dimmit.Base.Int.{pos}
use dimmit.Compat.{Timeval, dimmit_clock_gettime, clock_time, clock_realtime}
use dimmit.Compat.Clock.{clock_deadline}
use dimmit.Daemon.Deadline.{Timespec, deadline, nanoseconds, nsec_per_sec}
use dimmit.Ddc.Darwin.Framebuffer.{resolve_framebuffer}
use dimmit.Logging.Darwin.{
  Environment, Opens, appending, closed, at_startup, logging_init, redirect, redirect_stdout,
  redirect_stderr, nonempty, or_else, resolve_home, log_to, log_at_home, printed,
}
use dimmit.Logging.Darwin.Streams.{logging_init-stderr}
use dimmit.Logging.Darwin.Outcome.{IsDecided, logging_init-IsDecided}

-- Under launchd, with a home directory.
abbrev launched : Environment
launched = record {
  is_tty = false;
  dimmit_log = none;
  home = some (codes "/Users/ann");
  pw_dir = none;
}

abbrev overridden : Environment
overridden = record launched { dimmit_log = some (codes "/no/log") }

-- Only the null device can be opened.
abbrev only_null : Opens
only_null = record { for_stdout = λ path. false; for_stderr = str_eq (codes "/dev/null") }

abbrev all_open : Opens
all_open = record { for_stdout = λ path. true; for_stderr = λ path. true }

at_home : logging_init launched all_open at_startup ≡ (
  pos 0,
  record {
    stdout = appending (codes "/Users/ann/Library/Logs/dimmitd.log");
    stderr = appending (codes "/Users/ann/Library/Logs/dimmitd.log");
    warnings = [];
    directories = codes "/Users/ann/Library/Logs" ∷ [];
  },
)
unfolding logging_init log_to log_at_home resolve_home nonempty or_else redirect redirect_stdout
    redirect_stderr printed
at_home = refl

null_opens : only_null.for_stderr (codes "/dev/null") ≡ true
unfolding str_eq
null_opens = refl

logging_init-stderr_example : (logging_init launched only_null at_startup).1.stderr ≢ closed
logging_init-stderr_example = logging_init-stderr launched only_null at_startup null_opens (λ e. cc)

logging_init-IsDecided_example :
    IsDecided overridden only_null (logging_init overridden only_null at_startup)
logging_init-IsDecided_example = logging_init-IsDecided overridden only_null at_startup (λ e. cc)

abbrev half_past : Timeval
half_past = record { tv_sec = 7; tv_usec = 900_000 }

clock_deadline_example :
    (now : Timespec) × (dimmit_clock_gettime clock_realtime (some half_past) ≡ clock_time now)
    × (now.tv_nsec < nsec_per_sec)
    × ((deadline now).tv_nsec < nsec_per_sec)
    × (nanoseconds (deadline now) ≡ 7 * nsec_per_sec + 900_000 * 1000 + 250_000_000)
clock_deadline_example = clock_deadline half_past (omega arith)

-- A change of the port is logged once.
changed_port :
    resolve_framebuffer (resolve_framebuffer (record { display_id = 3; last_seen = 8 }) 9).1 9
    ≡ (false, record { display_id = 3; last_seen = 9 })
unfolding resolve_framebuffer
changed_port = refl
