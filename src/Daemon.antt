-- ===== src/Daemon.antt =====
-- src/dimmitd.c: the daemon. Here are the pieces that its threads run: a client's request, and the
-- worker's deadline.
pub mod Deadline
pub mod Main
pub mod Protocol
pub mod Address
pub mod Threads
pub mod Ownership
pub mod Presses
pub mod Wakeup
pub mod Serial
pub mod Sections
pub mod Replay
pub mod Offset
pub mod Lock
pub mod Settle
pub mod Request
use dimmit.Base.{ℕ, Bool, true, false, Option, none, some, List, [], if◌then◌else◌}
use dimmit.Base.Int.{ℤ, pos, eqb_ℤ}
use dimmit.Dimmer.{Fraction}
use dimmit.Command.{read_command}

-- `dir * DIMMIT_SOCKET_FRACTION`, where the fraction is 1.0/16.0
unfoldable pub socket_fraction : ℤ → Fraction
socket_fraction dir = record { num = dir; exp = 4 }

-- One accepted connection: what is passed to `adjust_fraction`, if anything is. `authorized` is the
-- answer of the access control, `arrived` what the socket delivers.
unfoldable pub serve : Bool → Option (List ℕ) → Option Fraction
unfolding socket_fraction
serve false arrived = none
serve true arrived =
    let dir = read_command arrived in if eqb_ℤ dir (pos 0) then none else some (socket_fraction dir)
