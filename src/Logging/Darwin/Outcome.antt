-- ===== src/Logging/Darwin/Outcome.antt =====
-- What decides the outcome of `logging_init` of src/platform/logging/darwin.c.
use mathlib.Core.Option
use dimmit.Base.{
  ℕ, ◌≡◌, ◌≢◌, ◌⊎◌, ◌↔◌, inl, inr, refl, ap, Bool, true, false, Option, none, some, List, ◌∷◌,
  Bool-cases, Option-cases,
}
use dimmit.Base.Int.{ℤ, pos, negsuc}
use dimmit.Logging.Darwin.{
  Environment, Opens, closed, Stdio, printed, nonempty, or_else, resolve_home, log_file, log_dir,
  redirect_stderr, redirect_stdout, redirect, log_at_home, log_to, logging_init,
}

-- The file that is to take the output: DIMMIT_LOG, or the one in the home directory.
unfoldable pub log_path : Environment → Option (List ℕ)
log_path env =
    or_else (Option.map printed (nonempty env.dimmit_log)) (Option.map log_file (resolve_home env))

-- The file can be named and is opened as these two say, for stdout and for stderr.
abbrev pub IsOpened : Environment → Opens → Bool → Bool → Type 0
IsOpened env opens out err =
    (path : List ℕ) × (log_path env ≡ some path)
    × (opens.for_stdout path ≡ out)
    × (opens.for_stderr path ≡ err)

-- The file can be named but not opened for stdout.
abbrev pub IsRefused : Environment → Opens → Type 0
IsRefused env opens = (path : List ℕ) × (log_path env ≡ some path) × (opens.for_stdout path ≡ false)

some-injective : {path path' : List ℕ} → some path ≡ some path' → path ≡ path'
some-injective e = cc

module _ (opens : Opens) (io : Stdio) where
  -- An outcome is that of opening this path.
  abbrev Follows : List ℕ → ℤ × Stdio → Type 0
  Follows path outcome =
      (dirs : List (List ℕ)) × (outcome ≡ redirect opens path (record io { directories = dirs }))

  abbrev no_home : ℤ × Stdio
  no_home = (negsuc 0, record io { warnings = io.stderr ∷ io.warnings })

  log_at_home-Follows :
      (home : Option (List ℕ)) (path : List ℕ)
      → Option.map log_file home ≡ some path
      → Follows path (log_at_home opens home io)
  unfolding log_at_home
  log_at_home-Follows none path named = cc
  log_at_home-Follows (some home) path named = (
    log_dir home ∷ io.directories,
    ap (λ x. redirect opens x (record io { directories = log_dir home ∷ io.directories }))
        (some-injective named),
  )

  log_to-Follows :
      (env : Environment) (override : Option (List ℕ)) (path : List ℕ)
      → or_else (Option.map printed override) (Option.map log_file (resolve_home env)) ≡ some path
      → Follows path (log_to env opens override io)
  unfolding log_to or_else
  log_to-Follows env none path named = log_at_home-Follows (resolve_home env) path named
  log_to-Follows env (some override) path named =
      (io.directories, ap (λ x. redirect opens x io) (some-injective named))

  log_at_home-nowhere :
      (home : Option (List ℕ))
      → Option.map log_file home ≡ none
      → log_at_home opens home io ≡ no_home
  unfolding log_at_home
  log_at_home-nowhere none unnamed = refl
  log_at_home-nowhere (some home) unnamed = cc

  log_to-nowhere :
      (env : Environment) (override : Option (List ℕ))
      → or_else (Option.map printed override) (Option.map log_file (resolve_home env)) ≡ none
      → log_to env opens override io ≡ no_home
  unfolding log_to or_else
  log_to-nowhere env none unnamed = log_at_home-nowhere (resolve_home env) unnamed
  log_to-nowhere env (some override) unnamed = cc

module _ (env : Environment) (opens : Opens) where
  -- Of an outcome: when the result is 0, and when stdout is closed.
  abbrev pub IsDecided : ℤ × Stdio → Type 0
  IsDecided outcome =
      ((outcome.0 ≡ pos 0) ↔ ((env.is_tty ≡ true) ⊎ IsOpened env opens true true))
      × ((outcome.1.stdout ≡ closed) ↔ ((env.is_tty ≡ false) × IsRefused env opens))

  redirect-IsDecided :
      (path : List ℕ) (io : Stdio)
      → env.is_tty ≡ false
      → log_path env ≡ some path
      → IsDecided (redirect opens path io)
  unfolding redirect redirect_stdout redirect_stderr
  redirect-IsDecided path io detached named = elim (Bool-cases (opens.for_stdout path)) [
    | inr refused ↦ rw refused (
      (λ e. cc, λ a. elim a [ inl t ↦ cc | inr (other, named', out', err') ↦ cc ]),
      (λ e. (detached, (path, named, refused)), λ a. refl),
    )
    | inl out ↦ rw out (elim (Bool-cases (opens.for_stderr path)) [
      | inl err ↦ rw err (
        (λ e. inr (path, named, out, err), λ a. refl),
        (λ e. cc, λ (off, (other, named', out')). cc),
      )
      | inr refused ↦ rw refused (
        (λ e. cc, λ a. elim a [ inl t ↦ cc | inr (other, named', out', err') ↦ cc ]),
        (λ e. cc, λ (off, (other, named', out')). cc),
      )
    ])
  ]

  on_terminal : (io : Stdio) → env.is_tty ≡ true → logging_init env opens io ≡ (pos 0, io)
  unfolding logging_init
  on_terminal io terminal = simp terminal refl

  off_terminal :
      (io : Stdio)
      → env.is_tty ≡ false
      → logging_init env opens io ≡ log_to env opens (nonempty env.dimmit_log) io
  unfolding logging_init
  off_terminal io detached = simp detached refl

  -- From an open stdout, `logging_init` of macOS gives 0 exactly on a terminal or where the log
  -- can be named and opened for both streams, and leaves stdout closed exactly where, off a
  -- terminal, the log can be named but not opened for stdout.
  pub logging_init-IsDecided :
      (io : Stdio) → io.stdout ≢ closed → IsDecided (logging_init env opens io)
  unfolding log_path
  logging_init-IsDecided io there = elim (Bool-cases env.is_tty) [
    | inl terminal ↦
        rw (on_terminal io terminal)
          ((λ e. inl terminal, λ a. refl), (λ e. absurd (there e), λ (off, refused). cc))
    | inr detached ↦ rw (off_terminal io detached) (elim (Option-cases (log_path env)) [
      | inl unnamed ↦ rw (log_to-nowhere opens io env (nonempty env.dimmit_log) unnamed) (
        (λ e. cc, λ a. elim a [ inl t ↦ cc | inr (other, named', out', err') ↦ cc ]),
        (λ e. absurd (there e), λ (off, (other, named', out')). cc),
      )
      | inr (path, named) ↦
          let (dirs, follows) = log_to-Follows opens io env (nonempty env.dimmit_log) path named in
          rw follows (redirect-IsDecided path (record io { directories = dirs }) detached named)
    ])
  ]
