-- ===== src/Tests/Daemons.antt =====
-- Runs of the daemon (src/dimmitd.c), and inputs for the theorems.
use dimmit.Base.{
  ◌&&◌, ℕ, ◌≡◌, ◌≢◌, ◌↔◌, refl, sym, ◌∙◌, ap, true, false, Option, none, some, List, [], ◌∷◌, ◌++◌,
  arith, codes, All,
}
use dimmit.Base.Int.{pos, int32, ◌+ℤ◌}
use dimmit.Dimmer.{dimmer_due, clamp_brightness}
use dimmit.Ddc.Sources.{ddc_src_set}
use dimmit.Ddc.Mock.{mock_set_vcp, mock_reset, display_count, copy_first}
use dimmit.Command.{read_command, newline}
use dimmit.Controller.{
  controller_service, controller_adjust, service_displays, service_display, write_due, finish_write,
}
use dimmit.Controller.{controller_open}
use dimmit.Controller.Spec.{DoesAll}
use dimmit.Controller.Refinement.{view, run}
use dimmit.Daemon.Sections
use dimmit.Daemon.Sections.{Job, Sections, Moves, begun, put, woken, written}
use dimmit.Daemon.Sections.Serial.{writes, BySixteenth, sections-DoesAll}
use dimmit.Tests.Fixtures.{desk}
use dimmit.Controller.Drain.{controller_service_twice}
use dimmit.Controller.Service.{NotDue}
use dimmit.Daemon.{serve, socket_fraction}
use dimmit.Daemon.Main.{Startup, Turn, quiet, connection, address_of, daemon_main}
use dimmit.Tests.Controllers.{controlled}
use dimmit.Daemon.Address.{at_address, binds, too_long, daemon_main-LeavesFile}
use dimmit.Daemon.Protocol.{nothing, follow, left_over, daemon_main-follow, daemon_main-status}
use dimmit.Daemon.Threads.{
  input_thread, main_thread, Shared, at_loop, waiting, started, Reach, here, next, Press, request,
  adjust, worker_lock, worker_pass, worker_wait, move, same_client, client, adjusted, outside, stop,
  returned,
}
use dimmit.Daemon.Ownership.{inside, one_inside}
use dimmit.Daemon.Wakeup.{waiting-NotDue}
use dimmit.Daemon.Settle.{CanReach, IsSettled, worker_can_settle, worker_can_return}
use dimmit.Tests.Fixtures.{
  Desk, counting, counting-Answers, lit_desk, two_displays, two_displays-IsSound,
}

-- The path of the socket.
abbrev socket_path : List ℕ
socket_path = codes "/tmp/dimmit.sock"

abbrev no_address : Startup
no_address = record {
  logging_ok = true;
  has_net = true;
  net_ok = true;
  before_bind_ok = true;
  monitor_ok = true;
  thread_ok = true;
  socket_ok = true;
  bind_ok = false;
  listen_ok = true;
  after_bind_ok = true;
}

abbrev healthy : Startup
healthy = record no_address { bind_ok = true }

abbrev up_line : Option (List ℕ)
up_line = some (codes "up" ++ newline ∷ [])

abbrev some_turns : List Turn
some_turns = quiet ∷ connection true up_line ∷ connection false up_line ∷ []

-- A start on Windows without displays.
abbrev no_displays : Startup
no_displays = record healthy { monitor_ok = false }

daemon_main-follow_example :
    follow nothing (daemon_main socket_path no_displays some_turns).1
    ≡ some (record nothing { net = left_over no_displays })
daemon_main-follow_example = daemon_main-follow socket_path no_displays some_turns

-- A path of 115 bytes.
abbrev long_path : List ℕ
long_path =
    codes
      "/home/someone/.local/share/a-directory-with-a-name/another-one-below-it/and-one-more-below-that/"
    ++ codes "run/the-socket.sock"

daemon_main-LeavesFile_example :
    at_address (address_of long_path) false (daemon_main long_path healthy some_turns).1
    ≡ binds (daemon_main long_path healthy some_turns).1 && too_long long_path
daemon_main-LeavesFile_example = daemon_main-LeavesFile long_path healthy some_turns

daemon_main-status_example : ((daemon_main socket_path no_address []).0 ≡ 0) ↔ (
    (no_address.net_ok ≡ true)
    × (no_address.before_bind_ok ≡ true)
    × (no_address.monitor_ok ≡ true))
daemon_main-status_example = daemon_main-status socket_path no_address []

pub up_request : Press main_thread (socket_fraction (pos 1))
unfolding serve socket_fraction read_command
up_request = request true up_line (socket_fraction (pos 1)) up_served
  where
    up_served : serve true up_line ≡ some (socket_fraction (pos 1))
    up_served = refl

abbrev at_start : Shared Desk
at_start = started two_displays lit_desk

-- A client has the lock.
abbrev pressed : Shared Desk
pressed = record at_start {
  ctrl = controller_adjust two_displays (socket_fraction (pos 1));
  lock = some (client main_thread);
  client_at = move main_thread adjusted (λ _. outside);
}

pressed-Reach : Reach counting at_start pressed
unfolding started
pressed-Reach =
    next here (adjust at_start main_thread (socket_fraction (pos 1)) up_request refl refl)

within : inside (pressed.client_at main_thread) ≡ true
unfolding move same_client
within = refl

one_inside_example :
    (pressed.worker_at ≢ at_loop) × (inside (pressed.client_at input_thread) ≡ false)
one_inside_example =
    one_inside counting two_displays lit_desk pressed main_thread input_thread pressed-Reach within
      (λ e. cc)

-- The worker wrote the pending press, found nothing more due, and waits.
first_pass : (controller_service two_displays lit_desk).0.1 ≡ 1
unfolding controller_service service_displays service_display write_due finish_write dimmer_due
    clamp_brightness int32 ◌+ℤ◌ ddc_src_set mock_set_vcp mock_reset display_count copy_first
first_pass = refl

abbrev asleep : Shared Desk
asleep = record at_start {
  ctrl =
      (controller_service (controller_service two_displays lit_desk).0.0
        (controller_service two_displays lit_desk).1).0.0;
  world =
      (controller_service (controller_service two_displays lit_desk).0.0
        (controller_service two_displays lit_desk).1).1;
  lock = none;
  worker_at = waiting;
}

asleep-Reach : Reach counting at_start asleep
unfolding started
asleep-Reach =
    next
      (next (next here (worker_lock at_start refl refl))
        (worker_pass _ refl refl (λ e. omega (arith, sym first_pass ∙ e))))
      (worker_wait _ refl refl (
        ap (λ r. r.0.1)
          (controller_service_twice two_displays lit_desk two_displays-IsSound.ready)))

waiting-NotDue_example : All NotDue asleep.ctrl.displays
waiting-NotDue_example =
    waiting-NotDue counting counting-Answers two_displays lit_desk asleep two_displays-IsSound
      asleep-Reach refl refl

worker_can_settle_example : CanReach counting (IsSettled counting) pressed
unfolding started
worker_can_settle_example =
    worker_can_settle counting counting-Answers two_displays lit_desk pressed two_displays-IsSound
      pressed-Reach refl

-- The daemon is told to stop while a client has the lock.
worker_can_return_example :
    CanReach counting (λ s. s.worker_at ≡ returned) (record pressed { running = false })
worker_can_return_example =
    worker_can_return counting two_displays lit_desk (record pressed { running = false })
      (next pressed-Reach (stop pressed)) refl

abbrev up_job : Job main_thread
up_job = Sections.press (socket_fraction (pos 1)) up_request

-- A request is served; between the read and the write of its critical section the daemon is told to
-- stop.
abbrev opened : Sections Desk
opened = begun controlled.0 (controller_open counting desk).1

abbrev served : Sections Desk
served = record opened {
  ctrl = controller_adjust controlled.0 (socket_fraction (pos 1));
  running = false;
  worker_at = Sections.asking;
  client_at = put main_thread Sections.outside (
      put main_thread Sections.leaving (
        put main_thread Sections.adjusted (
          put main_thread (Sections.copied up_job controlled.0)
            (put main_thread (Sections.entered up_job) (λ _. Sections.outside)))));
}

served-Moves : Moves counting opened served
unfolding begun put woken written
served-Moves =
    Sections.next
      (Sections.next
        (Sections.next
          (Sections.next
            (Sections.next
              (Sections.next Sections.here (Sections.enter opened main_thread up_job refl refl))
              (Sections.read _ main_thread up_job refl))
            (Sections.stop _))
          (Sections.write _ main_thread up_job controlled.0 refl))
        (Sections.signal _ main_thread refl))
      (Sections.unlock _ main_thread refl)

sections-DoesAll_example :
    (run counting (writes served-Moves) controlled.0 (controller_open counting desk).1
      ≡ (served.ctrl, served.world))
    × All BySixteenth (writes served-Moves)
    × DoesAll (writes served-Moves) (view controlled.0) (view served.ctrl)
sections-DoesAll_example =
    sections-DoesAll counting counting-Answers desk controlled.0 served controlled.1 served-Moves
