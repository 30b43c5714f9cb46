-- ===== src/Command.antt =====
-- src/command.{h,c}: how a client's textual request becomes a direction. A C string is the list of
-- its bytes; +1 is up, -1 is down, 0 is neither.
pub mod Wire
pub mod Chunks
use dimmit.Base.{
  ℕ, ◌≡◌, Bool, Option, none, some, List, [], ◌∷◌, ◌==◌, if◌then◌else◌, codes, str_eq, take,
}
use dimmit.Base.Int.{ℤ, pos, negsuc}

unfoldable pub parse_command : List ℕ → ℤ
unfolding str_eq
parse_command cmd =
    if str_eq cmd (codes "up") then pos 1 else if str_eq cmd (codes "down") then negsuc 0 else pos 0

-- The C string that a buffer holds: the bytes before its first zero.
unfoldable pub c_string : List ℕ → List ℕ
c_string [] = []
c_string (c ∷ cs) = if c == 0 then [] else c ∷ c_string cs

-- `recv(fd, buf, size, 0)` on a socket: `none` is an error, `some` the bytes that have arrived.
abbrev pub recv : ℕ → Option (List ℕ) → Option (List ℕ)
recv size none = none
recv size (some arrived) = some (take size arrived)

abbrev pub newline : ℕ
newline = 10

-- `if (buf[n-1] == '\n') buf[n-1] = '\0'`
unfoldable pub cut_newline : List ℕ → List ℕ
cut_newline [] = []
cut_newline (c ∷ []) = (if c == newline then 0 else c) ∷ []
cut_newline (c ∷ d ∷ cs) = c ∷ cut_newline (d ∷ cs)

-- `sizeof(buf) - 1`
abbrev pub line_limit : ℕ
line_limit = 15

unfoldable pub parse_received : Option (List ℕ) → ℤ
unfolding parse_command c_string cut_newline
parse_received none = pos 0
parse_received (some []) = pos 0
parse_received (some (c ∷ cs)) = parse_command (c_string (cut_newline (c ∷ cs)))

unfoldable pub read_command : Option (List ℕ) → ℤ
unfolding parse_received
read_command arrived = parse_received (recv line_limit arrived)
