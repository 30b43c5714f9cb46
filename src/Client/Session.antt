-- ===== src/Client/Session.antt =====
-- The calls of the client on the network (src/dimmit.c): what it opens and closes, and what it sends.
use dimmit.Base.{
  ℕ, ◌+◌, ◌≡◌, ◌⊎◌, inl, inr, refl, ap, ◌∙◌, true, ◌&&◌, Option, none, some, List, [], ◌∷◌, ◌++◌,
  arith, codes, ◌==◌, Bool-cases, if◌then◌else◌,
}
use dimmit.Base.Int.{ℤ, pos, negsuc}
use dimmit.Command.{parse_command, newline, read_command}
use dimmit.Client.{
  Call, net_close, net_cleanup, send, Network, session, client_main, program_name, message, sends,
  run_message, lacks_newline,
}
use dimmit.Client.Name.{message-some}

unfoldable pub closes : List Call → ℕ
closes [] = 0
closes (net_close ∷ calls) = closes calls + 1
closes (_ ∷ calls) = closes calls

unfoldable pub cleanups : List Call → ℕ
cleanups [] = 0
cleanups (net_cleanup ∷ calls) = cleanups calls + 1
cleanups (_ ∷ calls) = cleanups calls

-- The bytes that go out, where every send succeeds.
unfoldable pub sent : List Call → List ℕ
sent [] = []
sent (send bytes ∷ calls) = bytes ++ sent calls
sent (_ ∷ calls) = sent calls

-- A session closes an opened socket once, cleans a started network layer up once, and exits with 0
-- exactly where it connected.
pub session_releases :
    (msg sock_path : List ℕ) (net : Network)
    → (closes (session msg sock_path net).1 ≡ (if net.startup_ok && net.socket_ok then 1 else 0))
      × (cleanups (session msg sock_path net).1 ≡ (if net.startup_ok then 1 else 0))
      × ((session msg sock_path net).0
          ≡ (if net.startup_ok && net.socket_ok && net.connect_ok then 0 else 1))
unfolding session closes cleanups
session_releases msg sock_path net = ground arith

-- What a session that connects sends is the word and a newline.
sent-session :
    (msg sock_path : List ℕ) (net : Network)
    → lacks_newline msg ≡ true
    → (session msg sock_path net).0 ≡ 0
    → sent (session msg sock_path net).1 ≡ msg ++ newline ∷ []
unfolding session sends sent
sent-session msg sock_path net bare done = ground arith

up_word :
    (read_command (some (codes "up" ++ newline ∷ [])) ≡ pos 1)
    × (parse_command (codes "up") ≡ pos 1)
unfolding read_command
up_word = (refl, refl)

down_word :
    (read_command (some (codes "down" ++ newline ∷ [])) ≡ negsuc 0)
    × (parse_command (codes "down") ≡ negsuc 0)
unfolding read_command
down_word = (refl, refl)

word_read :
    (msg sock_path : List ℕ) (net : Network) (word : List ℕ) (dir : ℤ)
    → lacks_newline word ≡ true
    → read_command (some (word ++ newline ∷ [])) ≡ dir
    → msg ≡ word
    → (session msg sock_path net).0 ≡ 0
    → read_command (some (sent (session msg sock_path net).1)) ≡ dir
word_read msg sock_path net word dir bare read e done =
    ap (λ bytes. read_command (some bytes)) (sent-session msg sock_path net (rw e bare) done)
    ∙ ap (λ w. read_command (some (w ++ newline ∷ []))) e
    ∙ read

run_understood :
    (prog sock_path : List ℕ) (net : Network) (chosen : Option (List ℕ))
    → message prog ≡ chosen
    → (run_message chosen sock_path net).0 ≡ 0
    → ((prog ≡ codes "dimmit-up")
        × (read_command (some (sent (run_message chosen sock_path net).1)) ≡ pos 1))
      ⊎ ((prog ≡ codes "dimmit-down")
          × (read_command (some (sent (run_message chosen sock_path net).1)) ≡ negsuc 0))
unfolding run_message lacks_newline
run_understood prog sock_path net none e done = absurd (omega arith)
run_understood prog sock_path net (some msg) e done = elim (message-some prog msg e) [
  | inl (name, word) ↦
      inl (name, word_read msg sock_path net (codes "up") (pos 1) refl up_word.0 word done)
  | inr (name, word) ↦
      inr (name, word_read msg sock_path net (codes "down") (negsuc 0) refl down_word.0 word done)
]

-- A client that exits with 0 was invoked as one of the two names, and what it sends, arriving
-- whole, the daemon reads as +1 for `dimmit-up` and -1 for `dimmit-down`.
pub client_main-understood :
    (argc : ℕ) (argv0 sock_path : List ℕ) (net : Network)
    → (client_main argc argv0 sock_path net).0 ≡ 0
    → ((program_name argv0 ≡ codes "dimmit-up")
        × (read_command (some (sent (client_main argc argv0 sock_path net).1)) ≡ pos 1))
      ⊎ ((program_name argv0 ≡ codes "dimmit-down")
          × (read_command (some (sent (client_main argc argv0 sock_path net).1)) ≡ negsuc 0))
unfolding client_main
client_main-understood argc argv0 sock_path net done = elim (Bool-cases (argc == 1)) [
  | inl alone ↦
      rw alone (run_understood (program_name argv0) sock_path net _ refl (rw alone at done))
  | inr more ↦ absurd (omega (arith, rw more at done))
]
