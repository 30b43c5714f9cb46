-- ===== src/Tests/Wires.antt =====
-- Runs of the clients and of the command line between them and the daemon (src/dimmit.c and
-- src/command.c), and inputs for the theorems.
use dimmit.Base.{
  inl, map, arith, ℕ, ◌≡◌, refl, true, false, some, List, [], ◌∷◌, ◌++◌, ◌⊎◌, codes, take,
}
use dimmit.Base.Int.{ℤ, pos, negsuc, int_laws}
use dimmit.Source.{BrightnessOps}
use dimmit.Dimmer.Bounds.{IsReady}
use dimmit.Controller.{ManagedDisplay, DisplayController, controller_adjust, controller_service}
use dimmit.Controller.Lockstep.{knobs, press}
use dimmit.Controller.Press.{at_goal}
use dimmit.Daemon.{serve, socket_fraction}
use dimmit.Daemon.Request.{Directs, request_shows}
use dimmit.Command.{read_command, newline, line_limit}
use dimmit.Client.{
  is_separator, strip_exe, run_message, Network, session, client_main, message, program_name,
}
use dimmit.Command.Chunks.{Carries, read_command-cases}
use dimmit.Client.Session.{closes, cleanups, sent, session_releases}

-- Two commands that arrive in one chunk.
abbrev two_lines : List ℕ
two_lines = codes "up" ++ newline ∷ codes "down" ++ newline ∷ []

-- They are not understood.
two_at_once : read_command (some two_lines) ≡ pos 0
unfolding read_command
two_at_once = refl

abbrev online : Network
online = record {
  startup_ok = true;
  socket_ok = true;
  connect_ok = true;
  send_ok = true;
  send_newline_ok = true;
}

abbrev refused : Network
refused = record online { connect_ok = false }

abbrev socket_path : List ℕ
socket_path = codes "/tmp/dimmit.sock"

session_releases_example :
    (closes (session (codes "up") socket_path refused).1 ≡ 1)
    × (cleanups (session (codes "up") socket_path refused).1 ≡ 1)
    × ((session (codes "up") socket_path refused).0 ≡ 1)
session_releases_example = session_releases (codes "up") socket_path refused

sent_up : (client_main 1 (codes "/bin/dimmit-up") socket_path online).0 ≡ 0
unfolding client_main run_message message session strip_exe is_separator program_name
sent_up = refl

read_command-cases_example :
    ((read_command (some two_lines) ≡ pos 1) × Carries (codes "up") (take line_limit two_lines))
    ⊎ ((read_command (some two_lines) ≡ negsuc 0)
        × Carries (codes "down") (take line_limit two_lines))
    ⊎ ((read_command (some two_lines) ≡ pos 0)
        × ¬ Carries (codes "up") (take line_limit two_lines)
        × ¬ Carries (codes "down") (take line_limit two_lines))
read_command-cases_example = read_command-cases two_lines

-- A display whose every write goes through, and is recorded.
abbrev recorded : BrightnessOps (List ℤ)
recorded = record {
  get = λ ctx w. (some (pos 50, pos 100), w);
  set = λ ctx level w. (true, level ∷ w);
  close = λ ctx w. (tt, w);
}

abbrev half_lit : ManagedDisplay (List ℤ)
half_lit = record {
  src = record { ops = recorded; ctx = 0; id = codes "ddc:1:2:0"; label = codes "left" };
  dim = record { current = pos 50; max = pos 100; pending_delta = pos 0 };
}

half_lit-IsReady : IsReady half_lit.dim
half_lit-IsReady = record {
  current_level = omega arith;
  max_level = omega arith;
  goal_level = omega int_laws;
  reachable = inl (omega int_laws);
}

abbrev desk_lamp : DisplayController (List ℤ)
desk_lamp = record { sources = half_lit.src ∷ []; displays = half_lit ∷ [] }

request_shows_example :
    (dir : ℤ) × Directs (program_name (codes "/bin/dimmit-up")) dir
    × (serve true (some (sent (client_main 1 (codes "/bin/dimmit-up") socket_path online).1))
        ≡ some (socket_fraction dir))
    × (knobs
          (controller_service (controller_adjust desk_lamp (socket_fraction dir)) []).0.0.displays
        ≡ map at_goal (press (socket_fraction dir) (knobs desk_lamp.displays)))
request_shows_example =
    request_shows 1 (codes "/bin/dimmit-up") socket_path online desk_lamp [] sent_up
      (half_lit-IsReady, tt) ((λ target w. refl), tt)
