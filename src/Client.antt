-- ===== src/Client.antt =====
-- src/dimmit.c: the client, which is installed as `dimmit-up` and `dimmit-down` and sends one word.
-- The results of the socket calls come from outside; the calls made are listed in order.
pub mod Name
pub mod Session
use dimmit.Base.{
  ℕ, ◌+◌, ◌-◌, Bool, true, false, not, ◌&&◌, ◌||◌, Option, none, some, List, [], ◌∷◌, ◌++◌, leb,
  ◌==◌, if◌then◌else◌, codes, str_eq, take, drop, length,
}
use dimmit.Command.{newline}

-- The default that the build writes into config.h is a parameter.
pub get_sock_path : List ℕ → Option (List ℕ) → List ℕ
get_sock_path sock_default none = sock_default
get_sock_path sock_default (some path) = path

unfoldable pub is_separator : ℕ → Bool
is_separator c = c == b'/' || c == b'\\'

-- The loop that finds the last path separator of `argv[0]`.
unfoldable pub base_from : List ℕ → List ℕ → List ℕ
base_from base [] = base
base_from base (c ∷ rest) = base_from (if is_separator c then rest else base) rest

-- `sizeof(prog) - 1`
abbrev pub prog_limit : ℕ
prog_limit = 63

unfoldable pub strip_exe : List ℕ → List ℕ
unfolding str_eq
strip_exe prog =
    let plen = length prog in
    if leb 4 plen && str_eq (drop (plen - 4) prog) (codes ".exe")
    then take (plen - 4) prog
    else prog

unfoldable pub program_name : List ℕ → List ℕ
unfolding base_from is_separator strip_exe
program_name argv0 = strip_exe (take prog_limit (base_from argv0 argv0))

unfoldable pub message : List ℕ → Option (List ℕ)
unfolding str_eq
message prog =
    if str_eq prog (codes "dimmit-up")
    then some (codes "up")
    else if str_eq prog (codes "dimmit-down")
    then some (codes "down")
    else none

-- A call that the client makes; `report` stands for its messages on stderr.
pub data Call : Type 0 where
  net_startup socket net_close net_cleanup report : Call
  connect send : List ℕ → Call

-- Which of the calls succeed.
pub record Network : Type 0 where
  pub startup_ok : Bool
  pub socket_ok : Bool
  pub connect_ok : Bool
  pub send_ok : Bool
  pub send_newline_ok : Bool

-- `len == 0 || msg[len-1] != '\n'`
unfoldable pub lacks_newline : List ℕ → Bool
lacks_newline [] = true
lacks_newline (c ∷ []) = not (c == newline)
lacks_newline (c ∷ d ∷ cs) = lacks_newline (d ∷ cs)

unfoldable pub sends : List ℕ → Network → List Call
unfolding lacks_newline
sends msg net =
    (send msg ∷ (if net.send_ok then [] else report ∷ []))
    ++ (if lacks_newline msg
        then send (newline ∷ []) ∷ (if net.send_newline_ok then [] else report ∷ [])
        else [])

-- `sizeof(addr.sun_path) - 1`
abbrev pub sun_path_limit : ℕ
sun_path_limit = 107

-- From `net_startup` on: the exit status and the calls.
unfoldable pub session : List ℕ → List ℕ → Network → ℕ × List Call
unfolding sends
session msg sock_path net =
    if not net.startup_ok
    then (1, net_startup ∷ report ∷ [])
    else if not net.socket_ok
    then (1, net_startup ∷ socket ∷ report ∷ net_cleanup ∷ [])
    else (let opened = net_startup ∷ socket ∷ connect (take sun_path_limit sock_path) ∷ [] in
        if not net.connect_ok
        then (1, opened ++ report ∷ net_close ∷ net_cleanup ∷ [])
        else (0, opened ++ (sends msg net ++ net_close ∷ net_cleanup ∷ [])))

unfoldable pub run_message : Option (List ℕ) → List ℕ → Network → ℕ × List Call
run_message none sock_path net = (1, report ∷ [])
run_message (some msg) sock_path net = session msg sock_path net

-- `main`
unfoldable pub client_main : ℕ → List ℕ → List ℕ → Network → ℕ × List Call
client_main argc argv0 sock_path net =
    if not (argc == 1)
    then (1, report ∷ [])
    else run_message (message (program_name argv0)) sock_path net
