-- ===== src/Compat.antt =====
-- src/platform/compat/ and src/platform/ddc/darwin/compat_ioregistry.c: stand-ins for calls that a
-- system lacks.
pub mod Clock
use dimmit.Base.{ℕ, ◌*◌, Option, none, some, List, ◌==◌, if◌then◌else◌}
use dimmit.Base.Int.{ℤ, pos, negsuc, eqb_ℤ}
use dimmit.Base.World.{Action, pure, ◌>>=◌}
use dimmit.Daemon.Deadline.{Timespec}

-- CLOCK_REALTIME
abbrev pub clock_realtime : ℕ
clock_realtime = 0

-- `struct timeval`
pub record Timeval : Type 0 where
  pub tv_sec : ℕ
  pub tv_usec : ℕ

-- The time; or -1, with EINVAL or with the `errno` of `gettimeofday`.
pub data ClockAnswer : Type 0 where
  clock_time : Timespec → ClockAnswer
  clock_invalid : ClockAnswer
  clock_failed : ClockAnswer

unfoldable pub to_timespec : Option Timeval → ClockAnswer
to_timespec none = clock_failed
to_timespec (some tv) = clock_time (record { tv_sec = tv.tv_sec; tv_nsec = tv.tv_usec * 1000 })

-- With the answer of `gettimeofday`.
unfoldable pub dimmit_clock_gettime : ℕ → Option Timeval → ClockAnswer
dimmit_clock_gettime clk_id tv = if clk_id == clock_realtime then to_timespec tv else clock_invalid

-- The calls of Winsock, with their results.
pub record Winsock (W : Type 0) : Type 0 where
  pub wsa_startup : Action W ℤ
  pub wsa_cleanup : Action W ℤ
  pub closesocket : ℕ → Action W ℤ

module _ {W : Type 0} where
  unfoldable pub windows_net_startup : Winsock W → Action W ℤ
  windows_net_startup ws =
      ws.wsa_startup >>= λ r. pure (if eqb_ℤ r (pos 0) then pos 0 else negsuc 0)

  unfoldable pub windows_net_cleanup : Winsock W → Action W (Unit {0})
  windows_net_cleanup ws = ws.wsa_cleanup >>= λ r. pure tt

  unfoldable pub windows_net_close : Winsock W → ℕ → Action W ℤ
  windows_net_close ws s = ws.closesocket s

  -- On the other systems; `close` is the system's.
  unfoldable pub posix_net_startup : Action W ℤ
  posix_net_startup = pure (pos 0)

  unfoldable pub posix_net_cleanup : Action W (Unit {0})
  posix_net_cleanup = pure tt

  unfoldable pub posix_net_close : (ℕ → Action W ℤ) → ℕ → Action W ℤ
  posix_net_close close s = close s

-- `dimmit_IORegistryEntryCopyPath`, with the path that `IORegistryEntryGetPath` gives, where it does,
-- and with `CFStringCreateWithCString`.
unfoldable pub registry_entry_copy_path :
    {Text : Type 0} → Option (List ℕ) → (List ℕ → Option Text) → Option Text
registry_entry_copy_path none create_string = none
registry_entry_copy_path (some path) create_string = create_string path
