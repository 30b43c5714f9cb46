-- ===== src/Daemon/Protocol.antt =====
-- The order of the calls of `main` (src/dimmitd.c).
use dimmit.Base.{
  ℕ, ◌↔◌, arith, ◌≡◌, inl, inr, refl, ◌∙◌, Bool, true, false, not, ◌&&◌, ◌||◌, Option, none, some,
  List, [], ◌∷◌, ◌++◌, Bool-cases, if◌then◌else◌,
}
use dimmit.Dimmer.{Fraction}
use dimmit.Daemon.{serve}
use dimmit.Daemon.Main.{
  Startup, Turn, quiet, interrupted, broken, connection, Event, net_startup, net_cleanup,
  controller_open, pthread_create, input_start, socket, bind, listen, reconcile, accept,
  adjust_fraction, close_client, input_stop, join_worker, close_socket, unlink_bound,
  controller_close, answer, event_loop, cleanup, serve_clients, listen_on, control_displays,
  starts_net, open_network, daemon_main,
}

-- What the process holds.
pub record Held : Type 0 where
  pub controller : Bool
  pub worker : Bool
  pub input : Bool
  pub sock : Bool
  pub bound : Bool
  pub client : Bool
  pub net : Bool

abbrev pub nothing : Held
nothing = record {
  controller = false;
  worker = false;
  input = false;
  sock = false;
  bound = false;
  client = false;
  net = false;
}

-- While clients are served, with or without a network layer.
abbrev pub listening : Bool → Held
listening net = record {
  controller = true;
  worker = true;
  input = true;
  sock = true;
  bound = true;
  client = false;
  net = net;
}

-- Whether a call is in order: nothing is taken twice or used or given back without being held, and
-- the controller is freed when no thread and no callback can reach it.
unfoldable pub in_order : Held → Event → Bool
in_order h (net_startup _) = not h.net
in_order h (controller_open _) = not h.controller
in_order h (pthread_create _) = h.controller && not h.worker
in_order h input_start = h.controller && not h.input
in_order h (socket _) = not h.sock
in_order h (bind _ _) = h.sock && not h.bound
in_order h (listen _) = h.bound
in_order h reconcile = h.controller
in_order h (accept _) = h.sock && not h.client
in_order h (adjust_fraction _) = h.controller && h.client
in_order h close_client = h.client
in_order h join_worker = h.worker
in_order h close_socket = h.sock && not h.client
in_order h (unlink_bound _) = h.bound
in_order h controller_close = h.controller && not (h.worker || h.input || h.client)
in_order h _ = true

unfoldable pub afterwards : Held → Event → Held
afterwards h (net_startup ok) = record h { net = ok }
afterwards h net_cleanup = record h { net = false }
afterwards h (controller_open ok) = record h { controller = ok }
afterwards h (pthread_create ok) = record h { worker = ok }
afterwards h input_start = record h { input = true }
afterwards h (socket ok) = record h { sock = ok }
afterwards h (bind _ ok) = record h { bound = ok }
afterwards h (accept ok) = record h { client = ok }
afterwards h close_client = record h { client = false }
afterwards h input_stop = record h { input = false }
afterwards h join_worker = record h { worker = false }
afterwards h close_socket = record h { sock = false }
afterwards h (unlink_bound _) = record h { bound = false }
afterwards h controller_close = record h { controller = false }
afterwards h _ = h

-- What is held after a run of calls; `none` where one was out of order.
unfoldable pub follow : Held → List Event → Option Held
follow h [] = some h
follow h (e ∷ events) = if in_order h e then follow (afterwards h e) events else none

and_true : (b : Bool) → (b && true) ≡ b
and_true true = refl
and_true false = refl

and_false : (b : Bool) → (b && false) ≡ false
and_false true = refl
and_false false = refl

follow-answer :
    (net : Bool) (dir : Option Fraction) (turns : List Turn) (rest : List Event)
    → follow
        (record (listening net) { client = true })
        ((answer dir ++ close_client ∷ event_loop turns) ++ rest)
      ≡ follow (listening net) (event_loop turns ++ rest)
unfolding follow in_order afterwards answer
follow-answer net none turns rest = refl
follow-answer net (some f) turns rest = refl

follow-loop :
    (net : Bool) (turns : List Turn) (rest : List Event)
    → follow (listening net) (event_loop turns ++ rest) ≡ follow (listening net) rest
unfolding follow in_order afterwards event_loop answer
follow-loop net [] rest = refl
follow-loop net (quiet ∷ turns) rest = follow-loop net turns rest
follow-loop net (interrupted ∷ turns) rest = follow-loop net turns rest
follow-loop net (broken ∷ turns) rest = refl
follow-loop net (connection authorized arrived ∷ turns) rest =
    follow-answer net (serve authorized arrived) turns rest ∙ follow-loop net turns rest

serve_clients-follow :
    (net : Bool) (path : List ℕ) (start : Startup) (turns : List Turn)
    → follow (listening net) (serve_clients path start turns) ≡ some nothing
unfolding serve_clients cleanup follow in_order afterwards
serve_clients-follow net path start turns = elim (Bool-cases start.after_bind_ok) [
  | inl ok ↦ simp ok (follow-loop net turns (cleanup path true true true))
  | inr failed ↦ simp failed (follow-loop net turns (cleanup path true true true))
]

listen_on-follow :
    (net : Bool) (path : List ℕ) (start : Startup) (turns : List Turn)
    → follow
        (record nothing { controller = true; worker = true; net = net })
        (listen_on path start turns)
      ≡ some nothing
unfolding listen_on cleanup follow in_order afterwards
listen_on-follow net path start turns = elim (Bool-cases start.socket_ok) [
  | inr no_socket ↦ simp no_socket refl
  | inl opened ↦ simp opened (elim (Bool-cases start.bind_ok) [
    | inr unbound ↦ simp unbound refl
    | inl bound ↦ simp bound (elim (Bool-cases start.listen_ok) [
      | inr deaf ↦ simp deaf refl
      | inl heard ↦ simp heard (serve_clients-follow net path start turns)
    ])
  ])
]

control_displays-follow :
    (net : Bool) (path : List ℕ) (start : Startup) (turns : List Turn)
    → follow (record nothing { net = net }) (control_displays path start turns).1
      ≡ some (record nothing { net = net && not start.monitor_ok })
unfolding control_displays cleanup follow in_order afterwards
control_displays-follow net path start turns = elim (Bool-cases start.monitor_ok) [
  | inr no_displays ↦ simp (no_displays, and_true net) refl
  | inl opened ↦
      simp (opened, and_false net)
        (elim (Bool-cases start.thread_ok) [
          | inr no_worker ↦ simp no_worker refl
          | inl started ↦ simp started (listen_on-follow net path start turns)
        ])
]

-- Where the network layer is started and an early return follows, it is left up.
abbrev pub left_over : Startup → Bool
left_over start = start.has_net && (start.net_ok && not (start.before_bind_ok && start.monitor_ok))

open_network-follow :
    (path : List ℕ) (start : Startup) (turns : List Turn)
    → follow nothing (open_network path start turns).1
      ≡ some (record nothing { net = left_over start })
unfolding open_network starts_net follow in_order afterwards
open_network-follow path start turns = elim (Bool-cases start.net_ok) [
  | inr offline ↦ simp offline (elim (Bool-cases start.has_net) [
    | inr bare ↦ simp bare refl
    | inl layered ↦ simp layered refl
  ])
  | inl online ↦ simp online (elim (Bool-cases start.before_bind_ok) [
    | inr denied ↦ simp denied (elim (Bool-cases start.has_net) [
      | inr bare ↦ simp bare refl
      | inl layered ↦ simp layered refl
    ])
    | inl allowed ↦ simp allowed (elim (Bool-cases start.has_net) [
      | inr bare ↦ simp bare (control_displays-follow false path start turns)
      | inl layered ↦ simp layered (control_displays-follow true path start turns)
    ])
  ])
]

-- On every path of `main` what is used is held: the controller is used and closed while it is open
-- and closed only after the worker and the key capture have ended, sockets and connections are
-- closed once and the bound path is unlinked. At the end nothing is held, but for the network
-- layer of a system that has one, which is left up exactly where it was started and the access
-- control before the bind or the displays then fail.
pub daemon_main-follow :
    (path : List ℕ) (start : Startup) (turns : List Turn)
    → follow nothing (daemon_main path start turns).1
      ≡ some (record nothing { net = left_over start })
unfolding daemon_main follow in_order afterwards
daemon_main-follow path start turns = elim (Bool-cases start.logging_ok) [
  | inl logs ↦ simp logs (open_network-follow path start turns)
  | inr silent ↦ simp silent (open_network-follow path start turns)
]

-- `main` returns 0 exactly where the network layer, the access control before the bind and the
-- displays were set up, also where the worker, the socket, its address or the listening then
-- fails.
pub daemon_main-status :
    (path : List ℕ) (start : Startup) (turns : List Turn)
    → ((daemon_main path start turns).0 ≡ 0)
      ↔ ((start.net_ok ≡ true) × (start.before_bind_ok ≡ true) × (start.monitor_ok ≡ true))
unfolding daemon_main open_network control_displays
daemon_main-status path start turns = ground arith
