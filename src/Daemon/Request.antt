-- ===== src/Daemon/Request.antt =====
-- From a client (src/dimmit.c) to the displays, through src/dimmitd.c.
use dimmit.Base.{ℕ, ◌≡◌, ◌⊎◌, inl, inr, refl, false, true, some, List, All, map, codes}
use dimmit.Base.Int.{ℤ, pos, negsuc, eqb_ℤ}
use dimmit.Command.{read_command}
use dimmit.Client.{client_main, program_name, Network}
use dimmit.Client.Session.{sent, client_main-understood}
use dimmit.Controller.{DisplayController, controller_adjust, controller_service}
use dimmit.Controller.Service.{DisplayReady}
use dimmit.Controller.Lockstep.{knobs, press}
use dimmit.Controller.Press.{Writes, at_goal, press_shows}
use dimmit.Daemon.{serve, socket_fraction}
use dimmit.Daemon.Threads.{request}
use dimmit.Daemon.Presses.{Press-IsFraction}

-- The direction of a client's name.
abbrev pub Directs : List ℕ → ℤ → Type 0
Directs name dir =
    ((name ≡ codes "dimmit-up") × (dir ≡ pos 1)) ⊎ ((name ≡ codes "dimmit-down") × (dir ≡ negsuc 0))

serve-read_command :
    (bytes : List ℕ) (dir : ℤ)
    → read_command (some bytes) ≡ dir
    → eqb_ℤ dir (pos 0) ≡ false
    → serve true (some bytes) ≡ some (socket_fraction dir)
unfolding serve
serve-read_command bytes dir e nonzero = simp (e, nonzero) refl

understood :
    (argc : ℕ) (argv0 sock_path : List ℕ) (net : Network)
    → (client_main argc argv0 sock_path net).0 ≡ 0
    → (dir : ℤ) × Directs (program_name argv0) dir
      × (serve true (some (sent (client_main argc argv0 sock_path net).1))
          ≡ some (socket_fraction dir))
understood argc argv0 sock_path net done =
    elim (client_main-understood argc argv0 sock_path net done) [
      | inl up ↦ (pos 1, inl (up.0, refl), serve-read_command _ (pos 1) up.1 refl)
      | inr down ↦ (negsuc 0, inr (down.0, refl), serve-read_command _ (negsuc 0) down.1 refl)
    ]

-- A client that exits with 0 was invoked as `dimmit-up` or `dimmit-down`, the daemon turns what it
-- sends, arriving whole from an admitted client, into a sixteenth in that direction, and after
-- that press and one pass each display shows its turned goal, from dimmers in bounds and where the
-- writes go through.
pub request_shows :
    {W : Type 0} (argc : ℕ) (argv0 sock_path : List ℕ) (net : Network) (c : DisplayController W)
    (w : W)
    → (client_main argc argv0 sock_path net).0 ≡ 0
    → All DisplayReady c.displays
    → All Writes c.displays
    → (dir : ℤ) × Directs (program_name argv0) dir
      × (serve true (some (sent (client_main argc argv0 sock_path net).1))
          ≡ some (socket_fraction dir))
      × (knobs (controller_service (controller_adjust c (socket_fraction dir)) w).0.0.displays
          ≡ map at_goal (press (socket_fraction dir) (knobs c.displays)))
request_shows argc argv0 sock_path net c w done ready writes =
    let (dir, directs, served) = understood argc argv0 sock_path net done in
    (
      dir,
      directs,
      served,
      press_shows c (socket_fraction dir) w (Press-IsFraction (request true _ _ served)) ready
          writes,
    )
