-- ===== src/Daemon/Address.antt =====
-- The socket's file over a run of `main` (src/dimmitd.c), and the client's address (src/dimmit.c).
use dimmit.Base.{
  ℕ, zero, suc, ◌≡◌, inl, inr, refl, ap, Bool, true, false, not, ◌&&◌, ◌||◌, List, [], ◌∷◌, ◌++◌,
  take, leb, length, arith, str_eq, str_eq_refl, Bool-cases, Option-cases, ◌∙◌, if◌then◌else◌,
}
use dimmit.Client.{sun_path_limit}
use dimmit.Daemon.{serve}
use dimmit.Daemon.Main.{
  Startup, Turn, quiet, interrupted, broken, connection, Event, warn, unlink_stale, bind,
  unlink_bound, address_of, answer, event_loop, cleanup, serve_clients, listen_on, control_displays,
  starts_net, open_network, daemon_main,
}

-- Whether there is a file at the address after a run of calls, with whether there was one before.
unfoldable pub at_address : List ℕ → Bool → List Event → Bool
at_address a there [] = there
at_address a there (bind b ok ∷ events) = at_address a (there || (ok && str_eq b a)) events
at_address a there (unlink_stale p ∷ events) = at_address a (there && not (str_eq p a)) events
at_address a there (unlink_bound p ∷ events) = at_address a (there && not (str_eq p a)) events
at_address a there (_ ∷ events) = at_address a there events

-- Whether a run binds an address.
unfoldable pub binds : List Event → Bool
binds [] = false
binds (bind b true ∷ events) = true
binds (_ ∷ events) = binds events

-- The path does not fit the address.
unfoldable pub too_long : List ℕ → Bool
too_long path = not (leb (length path) sun_path_limit)

str_eq-take : (n : ℕ) (xs : List ℕ) → str_eq xs (take n xs) ≡ leb (length xs) n
unfolding str_eq
str_eq-take zero [] = ground arith
str_eq-take (suc n) [] = ground arith
str_eq-take zero (x ∷ xs) = ground arith
str_eq-take (suc n) (x ∷ xs) = ground (arith, str_eq-take n xs)

at_address-loop :
    (a : List ℕ) (there : Bool) (turns : List Turn) (rest : List Event)
    → at_address a there (event_loop turns ++ rest) ≡ at_address a there rest
unfolding at_address event_loop answer
at_address-loop a there [] rest = refl
at_address-loop a there (quiet ∷ turns) rest = at_address-loop a there turns rest
at_address-loop a there (interrupted ∷ turns) rest = at_address-loop a there turns rest
at_address-loop a there (broken ∷ turns) rest = refl
at_address-loop a there (connection authorized arrived ∷ turns) rest =
    elim (Option-cases (serve authorized arrived)) [
      | inl refused ↦ rw refused (at_address-loop a there turns rest)
      | inr (f, read) ↦ rw read (at_address-loop a there turns rest)
    ]

module _ (path : List ℕ) where
  abbrev LeavesFile : List Event → Type 0
  LeavesFile events = at_address (address_of path) false events ≡ binds events && too_long path

  -- What follows a bind that succeeds.
  abbrev IsRemoved : List Event → Type 0
  IsRemoved events = at_address (address_of path) true events ≡ too_long path

  at_address-bind :
      (events : List Event)
      → at_address (address_of path) false (bind (address_of path) true ∷ events)
        ≡ at_address (address_of path) true events
  unfolding at_address
  at_address-bind events =
      ap (λ there. at_address (address_of path) there events) (str_eq_refl (address_of path))

  cleanup-IsRemoved : IsRemoved (cleanup path true true true)
  unfolding cleanup at_address too_long address_of
  cleanup-IsRemoved = rw (str_eq-take sun_path_limit path) refl

  serve_clients-IsRemoved :
      (start : Startup) (turns : List Turn) → IsRemoved (serve_clients path start turns)
  unfolding serve_clients at_address
  serve_clients-IsRemoved start turns = elim (Bool-cases start.after_bind_ok) [
    | inl ok ↦ simp ok (at_address-loop _ _ turns _ ∙ cleanup-IsRemoved)
    | inr failed ↦ simp failed (at_address-loop _ _ turns _ ∙ cleanup-IsRemoved)
  ]

  -- What follows `listen`.
  abbrev listened : Startup → List Turn → List Event
  listened start turns =
      if start.listen_ok then serve_clients path start turns else warn ∷ cleanup path true true true

  listened-IsRemoved : (start : Startup) (turns : List Turn) → IsRemoved (listened start turns)
  unfolding at_address
  listened-IsRemoved start turns = elim (Bool-cases start.listen_ok) [
    | inr deaf ↦ simp deaf cleanup-IsRemoved
    | inl heard ↦ simp heard (serve_clients-IsRemoved start turns)
  ]

  listen_on-LeavesFile :
      (start : Startup) (turns : List Turn) → LeavesFile (listen_on path start turns)
  unfolding listen_on cleanup at_address binds
  listen_on-LeavesFile start turns = elim (Bool-cases start.socket_ok) [
    | inr no_socket ↦ simp no_socket refl
    | inl opened ↦ simp opened (elim (Bool-cases start.bind_ok) [
      | inr unbound ↦ simp unbound refl
      | inl bound ↦
          simp bound (at_address-bind (listened start turns) ∙ listened-IsRemoved start turns)
    ])
  ]

  control_displays-LeavesFile :
      (start : Startup) (turns : List Turn) → LeavesFile (control_displays path start turns).1
  unfolding control_displays cleanup at_address binds
  control_displays-LeavesFile start turns = elim (Bool-cases start.monitor_ok) [
    | inr no_displays ↦ simp no_displays refl
    | inl opened ↦ simp opened (elim (Bool-cases start.thread_ok) [
      | inr no_worker ↦ simp no_worker refl
      | inl started ↦ simp started (listen_on-LeavesFile start turns)
    ])
  ]

  open_network-LeavesFile :
      (start : Startup) (turns : List Turn) → LeavesFile (open_network path start turns).1
  unfolding open_network starts_net at_address binds
  open_network-LeavesFile start turns = elim (Bool-cases start.net_ok) [
    | inr offline ↦ simp offline (elim (Bool-cases start.has_net) [
      | inr bare ↦ simp bare refl
      | inl layered ↦ simp layered refl
    ])
    | inl online ↦ simp online (elim (Bool-cases start.before_bind_ok) [
      | inr denied ↦ simp denied (elim (Bool-cases start.has_net) [
        | inr bare ↦ simp bare refl
        | inl layered ↦ simp layered refl
      ])
      | inl allowed ↦ simp allowed (elim (Bool-cases start.has_net) [
        | inr bare ↦ simp bare (control_displays-LeavesFile start turns)
        | inl layered ↦ simp layered (control_displays-LeavesFile start turns)
      ])
    ])
  ]

  -- From no file at the address, a run of `main` leaves one there exactly where it binds the
  -- address and the path is longer than the 107 bytes of it that fit: then the file that it
  -- removes at the end is another.
  pub daemon_main-LeavesFile :
      (start : Startup) (turns : List Turn)
      → at_address (address_of path) false (daemon_main path start turns).1
        ≡ binds (daemon_main path start turns).1 && too_long path
  unfolding daemon_main at_address binds
  daemon_main-LeavesFile start turns = elim (Bool-cases start.logging_ok) [
    | inl logs ↦ simp logs (open_network-LeavesFile start turns)
    | inr silent ↦ simp silent (open_network-LeavesFile start turns)
  ]
