-- ===== src/Logging/Darwin.antt =====
-- src/platform/logging/darwin.c: where the daemon's stdout and stderr go on macOS.
pub mod Streams
pub mod Outcome
use dimmit.Base.{
  ℕ, ◌-◌, Bool, true, false, Option, none, some, List, [], ◌∷◌, ◌++◌, take, codes, if◌then◌else◌,
}
use dimmit.Base.Int.{ℤ, pos, negsuc}

-- What the process finds: whether stdout is a terminal, DIMMIT_LOG, HOME, and the home directory that
-- `getpwuid` gives, where it gives one.
pub record Environment : Type 0 where
  pub is_tty : Bool
  pub dimmit_log : Option (List ℕ)
  pub home : Option (List ℕ)
  pub pw_dir : Option (List ℕ)

-- Which paths can be opened for appending, at the `freopen` of stdout and at those of stderr.
pub record Opens : Type 0 where
  pub for_stdout : List ℕ → Bool
  pub for_stderr : List ℕ → Bool

-- Where a stream goes: where it went before the start, to a file, or nowhere.
pub data Stream : Type 0 where
  inherited : Stream
  appending : List ℕ → Stream
  closed : Stream

-- The streams, and what was written to them and made on the way: a warning with the stream that it
-- was written to.
pub record Stdio : Type 0 where
  pub stdout : Stream
  pub stderr : Stream
  pub warnings : List Stream
  pub directories : List (List ℕ)

abbrev pub at_startup : Stdio
at_startup = record { stdout = inherited; stderr = inherited; warnings = []; directories = [] }

-- `freopen`: a failure leaves the stream closed.
unfoldable pub freopen : (List ℕ → Bool) → List ℕ → Stream
freopen opens path = if opens path then appending path else closed

-- `snprintf` to an array of 1024 bytes.
abbrev pub path_limit : ℕ
path_limit = 1024

unfoldable pub printed : List ℕ → List ℕ
printed text = take (path_limit - 1) text

-- A pointer to a string that is not empty.
unfoldable pub nonempty : Option (List ℕ) → Option (List ℕ)
nonempty none = none
nonempty (some []) = none
nonempty (some (c ∷ cs)) = some (c ∷ cs)

unfoldable pub or_else : Option (List ℕ) → Option (List ℕ) → Option (List ℕ)
or_else none other = other
or_else (some path) other = some path

-- `home`, which from `getpwuid` can be empty.
unfoldable pub resolve_home : Environment → Option (List ℕ)
resolve_home env = or_else (nonempty env.home) env.pw_dir

abbrev pub log_file : List ℕ → List ℕ
log_file home = printed (home ++ codes "/Library/Logs/dimmitd.log")

abbrev pub log_dir : List ℕ → List ℕ
log_dir home = printed (home ++ codes "/Library/Logs")

-- The second `freopen` and what follows, with whether it opens.
unfoldable pub redirect_stderr : Opens → List ℕ → Stdio → Bool → ℤ × Stdio
redirect_stderr opens path io true = (pos 0, record io { stderr = appending path })
redirect_stderr opens path io false = (
  negsuc 0,
  record io {
    stderr = freopen opens.for_stderr (codes "/dev/null");
    warnings = io.stdout ∷ io.warnings;
  },
)

-- The first `freopen` and what follows, with whether it opens.
unfoldable pub redirect_stdout : Opens → List ℕ → Stdio → Bool → ℤ × Stdio
redirect_stdout opens path io false =
    (negsuc 0, record io { stdout = closed; warnings = io.stderr ∷ io.warnings })
redirect_stdout opens path io true =
    redirect_stderr opens path (record io { stdout = appending path }) (opens.for_stderr path)

unfoldable pub redirect : Opens → List ℕ → Stdio → ℤ × Stdio
redirect opens path io = redirect_stdout opens path io (opens.for_stdout path)

-- Without DIMMIT_LOG, with the home directory; `mkdir` makes the directory or finds it.
unfoldable pub log_at_home : Opens → Option (List ℕ) → Stdio → ℤ × Stdio
log_at_home opens none io = (negsuc 0, record io { warnings = io.stderr ∷ io.warnings })
log_at_home opens (some home) io =
    redirect opens (log_file home) (record io { directories = log_dir home ∷ io.directories })

-- With DIMMIT_LOG.
unfoldable pub log_to : Environment → Opens → Option (List ℕ) → Stdio → ℤ × Stdio
log_to env opens (some override) io = redirect opens (printed override) io
log_to env opens none io = log_at_home opens (resolve_home env) io

unfoldable pub logging_init : Environment → Opens → Stdio → ℤ × Stdio
logging_init env opens io =
    if env.is_tty then (pos 0, io) else log_to env opens (nonempty env.dimmit_log) io
