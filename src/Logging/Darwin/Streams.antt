-- ===== src/Logging/Darwin/Streams.antt =====
-- The state of stdout and stderr after `logging_init` of src/platform/logging/darwin.c.
use dimmit.Base.{
  ℕ, ◌≡◌, ◌≢◌, inl, inr, refl, true, false, List, ◌∷◌, codes, Bool-cases, Option-cases,
}
use dimmit.Base.Int.{ℤ, pos, negsuc}
use dimmit.Logging.Darwin.{
  Environment, Opens, appending, closed, Stdio, freopen, printed, nonempty, resolve_home, log_file,
  redirect_stderr, redirect_stdout, redirect, log_at_home, log_to, logging_init,
}

appending-open : {path : List ℕ} → appending path ≢ closed
appending-open e = cc

module _ (env : Environment) (opens : Opens) where
  redirect-stderr :
      (path : List ℕ) (io : Stdio)
      → opens.for_stderr (codes "/dev/null") ≡ true
      → io.stderr ≢ closed
      → (redirect opens path io).1.stderr ≢ closed
  unfolding redirect redirect_stdout redirect_stderr freopen
  redirect-stderr path io null there = elim (Bool-cases (opens.for_stdout path)) [
    | inr refused ↦ rw refused there
    | inl out ↦ rw out (elim (Bool-cases (opens.for_stderr path)) [
      | inl err ↦ rw err appending-open
      | inr refused ↦ rw refused (rw null appending-open)
    ])
  ]

  -- What holds of the outcomes holds of `logging_init`.
  logging_init-cases :
      (P : ℤ × Stdio → Type 0) (io : Stdio)
      → (env.is_tty ≡ true → P (pos 0, io))
      → P (negsuc 0, record io { warnings = io.stderr ∷ io.warnings })
      → ((path : List ℕ) (dirs : List (List ℕ))
          → P (redirect opens path (record io { directories = dirs })))
      → P (logging_init env opens io)
  unfolding logging_init log_to log_at_home resolve_home
  logging_init-cases P io on_terminal homeless redirected = elim (Bool-cases env.is_tty) [
    | inl terminal ↦ simp terminal (on_terminal terminal)
    | inr detached ↦ simp detached (elim (Option-cases (nonempty env.dimmit_log)) [
      | inr (path, set) ↦ simp set (redirected (printed path) io.directories)
      | inl unset ↦ simp unset (elim (Option-cases (resolve_home env)) [
        | inl nowhere ↦ simp nowhere homeless
        | inr (home, found) ↦ simp found (redirected (log_file home) _)
      ])
    ])
  ]

  -- From an open stderr `logging_init` of macOS leaves stderr open on every path, where the null
  -- device can be opened.
  pub logging_init-stderr :
      (io : Stdio)
      → opens.for_stderr (codes "/dev/null") ≡ true
      → io.stderr ≢ closed
      → (logging_init env opens io).1.stderr ≢ closed
  logging_init-stderr io null there =
      logging_init-cases (λ r. r.1.stderr ≢ closed) io (λ terminal. there) there
        (λ path dirs. redirect-stderr path (record io { directories = dirs }) null there)

  -- Both streams go to one file, which was opened for each.
  abbrev pub IsRedirected : Stdio → Type 0
  IsRedirected io =
      (path : List ℕ) × (io.stdout ≡ appending path)
      × (io.stderr ≡ appending path)
      × (opens.for_stdout path ≡ true)
      × (opens.for_stderr path ≡ true)

  redirect-IsRedirected :
      (path : List ℕ) (io : Stdio)
      → (redirect opens path io).0 ≡ pos 0
      → IsRedirected (redirect opens path io).1
  unfolding redirect redirect_stdout redirect_stderr
  redirect-IsRedirected path io done = elim (Bool-cases (opens.for_stdout path)) [
    | inr refused ↦ absurd (no_status (rw refused at done))
    | inl out ↦ elim (Bool-cases (opens.for_stderr path)) [
      | inl err ↦ rw (out, err) (path, refl, refl, out, err)
      | inr refused ↦ absurd (no_status (rw (out, refused) at done))
    ]
  ]
    where
      no_status : negsuc 0 ≢ pos 0
      no_status e = cc

  pub logging_init-IsRedirected :
      (io : Stdio)
      → env.is_tty ≡ false
      → (logging_init env opens io).0 ≡ pos 0
      → IsRedirected (logging_init env opens io).1
  logging_init-IsRedirected io detached =
      logging_init-cases (λ r. r.0 ≡ pos 0 → IsRedirected r.1) io (λ terminal. cc) (λ e. cc)
        (λ path dirs. redirect-IsRedirected path (record io { directories = dirs }))
