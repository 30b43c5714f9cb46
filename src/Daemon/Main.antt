-- ===== src/Daemon/Main.antt =====
-- `main` of src/dimmitd.c as the calls that it makes, from the answers that it gets.
use dimmit.Base.{ℕ, Bool, true, false, Option, none, some, List, [], ◌∷◌, ◌++◌, take, if◌then◌else◌}
use dimmit.Dimmer.{Fraction}
use dimmit.Client.{sun_path_limit}
use dimmit.Daemon.{serve}

-- What the calls of the startup answer: whether each succeeds. `has_net` says whether the system has
-- a network layer to start, which is so on Windows; `net_ok` is true where it has none.
pub record Startup : Type 0 where
  pub logging_ok : Bool
  pub has_net : Bool
  pub net_ok : Bool
  pub before_bind_ok : Bool
  pub monitor_ok : Bool
  pub thread_ok : Bool
  pub socket_ok : Bool
  pub bind_ok : Bool
  pub listen_ok : Bool
  pub after_bind_ok : Bool

-- What one round of the loop meets: a timeout or an error of `select`, an `accept` cut short by a signal, one
-- that failed, or a connection, with the answer of the access control and what it sends.
pub data Turn : Type 0 where
  quiet : Turn
  interrupted : Turn
  broken : Turn
  connection : Bool → Option (List ℕ) → Turn

pub data Event : Type 0 where
  logging_init : Event
  warn : Event
  net_startup : Bool → Event
  catch_signals : Event
  access_control_before_bind : Event
  controller_open : Bool → Event
  pthread_create : Bool → Event
  input_start : Event
  unlink_stale : List ℕ → Event
  socket : Bool → Event
  bind : List ℕ → Bool → Event
  listen : Bool → Event
  access_control_after_bind : List ℕ → Event
  reconcile : Event
  accept : Bool → Event
  adjust_fraction : Fraction → Event
  close_client : Event
  input_stop : Event
  signal_worker : Event
  join_worker : Event
  close_socket : Event
  unlink_bound : List ℕ → Event
  controller_close : Event
  net_cleanup : Event

-- A client that was accepted: refused, or read.
unfoldable pub answer : Option Fraction → List Event
answer none = warn ∷ []
answer (some f) = adjust_fraction f ∷ []

-- The loop. It ends where `accept` fails, or where `running` is found 0, which is the end of the
-- list.
unfoldable pub event_loop : List Turn → List Event
event_loop [] = []
event_loop (quiet ∷ turns) = reconcile ∷ event_loop turns
event_loop (interrupted ∷ turns) = accept false ∷ event_loop turns
event_loop (broken ∷ turns) = accept false ∷ warn ∷ []
event_loop (connection authorized arrived ∷ turns) =
    accept true ∷ answer (serve authorized arrived) ++ close_client ∷ event_loop turns

-- What `strncpy` leaves of the path in the zeroed address.
unfoldable pub address_of : List ℕ → List ℕ
address_of sock_path = take sun_path_limit sock_path

-- From `cleanup:` on, with `worker_started`, whether `sock` is open, and `bound`. The controller is
-- never NULL there.
unfoldable pub cleanup : List ℕ → Bool → Bool → Bool → List Event
cleanup sock_path worker_started sock_open bound =
    input_stop ∷ (if worker_started then signal_worker ∷ join_worker ∷ [] else [])
    ++ (if sock_open then close_socket ∷ [] else [])
    ++ (if bound then unlink_bound sock_path ∷ [] else [])
    ++ controller_close ∷ net_cleanup ∷ []

-- After `listen`.
unfoldable pub serve_clients : List ℕ → Startup → List Turn → List Event
serve_clients sock_path start turns =
    access_control_after_bind sock_path ∷ (if start.after_bind_ok then [] else warn ∷ [])
    ++ event_loop turns
    ++ cleanup sock_path true true true

-- From the worker's creation on.
unfoldable pub listen_on : List ℕ → Startup → List Turn → List Event
listen_on sock_path start turns =
    input_start
    ∷ unlink_stale sock_path
    ∷ socket start.socket_ok
    ∷ (if start.socket_ok
        then bind (address_of sock_path) start.bind_ok
          ∷ (if start.bind_ok
              then listen start.listen_ok
                ∷ (if start.listen_ok
                    then serve_clients sock_path start turns
                    else warn ∷ cleanup sock_path true true true)
              else warn ∷ cleanup sock_path true true false)
        else warn ∷ cleanup sock_path true false false)

-- `init_monitor` and what follows, with the exit status.
unfoldable pub control_displays : List ℕ → Startup → List Turn → ℕ × List Event
control_displays sock_path start turns =
    if start.monitor_ok
    then (
      0,
      controller_open true
          ∷ pthread_create start.thread_ok
          ∷ (if start.thread_ok
              then listen_on sock_path start turns
              else warn ∷ cleanup sock_path false false false),
    )
    else (1, controller_open false ∷ warn ∷ [])

-- `net_startup`, which `main` calls on Windows only.
unfoldable pub starts_net : Startup → List Event
starts_net start = if start.has_net then net_startup start.net_ok ∷ [] else []

-- After the logging.
unfoldable pub open_network : List ℕ → Startup → List Turn → ℕ × List Event
unfolding starts_net
open_network sock_path start turns =
    let rest = control_displays sock_path start turns in
    if start.net_ok
    then (if start.before_bind_ok
        then (rest.0, starts_net start ++ catch_signals ∷ access_control_before_bind ∷ rest.1)
        else (1, starts_net start ++ catch_signals ∷ access_control_before_bind ∷ []))
    else (1, starts_net start ++ warn ∷ [])

unfoldable pub daemon_main : List ℕ → Startup → List Turn → ℕ × List Event
daemon_main sock_path start turns =
    let rest = open_network sock_path start turns in
    (rest.0, logging_init ∷ (if start.logging_ok then [] else warn ∷ []) ++ rest.1)
