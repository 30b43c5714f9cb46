-- ===== src/Client/Name.antt =====
-- Which word the client sends, by the name that it was invoked by (src/dimmit.c).
use dimmit.Base.{
  ℕ, ◌≡◌, ◌⊎◌, inl, inr, refl, ap, true, false, some, List, [], ◌∷◌, ◌++◌, arith, codes, str_eq,
  take, All, if◌then◌else◌, Bool-cases, str_eq→eq,
}
use dimmit.Client.{is_separator, base_from, strip_exe, program_name, message, prog_limit}

abbrev pub IsName : List ℕ → Type 0
IsName name = All (λ c. is_separator c ≡ false) name

base_from-name : (base name : List ℕ) → IsName name → base_from base name ≡ base
unfolding base_from
base_from-name base [] plain = refl
base_from-name base (c ∷ name) plain = rw plain.0 (base_from-name base name plain.1)

-- The last path separator decides, whatever stands before it.
base_from-path :
    (base dir : List ℕ) (sep : ℕ) (name : List ℕ)
    → is_separator sep ≡ true
    → IsName name
    → base_from base (dir ++ sep ∷ name) ≡ name
unfolding base_from
base_from-path base [] sep name s plain = rw (s, base_from) (base_from-name name name plain)
base_from-path base (c ∷ dir) sep name s plain =
    base_from-path (if is_separator c then dir ++ sep ∷ name else base) dir sep name s plain

program_name-path :
    (dir : List ℕ) (sep : ℕ) (name : List ℕ)
    → is_separator sep ≡ true
    → IsName name
    → program_name (dir ++ sep ∷ name) ≡ strip_exe (take prog_limit name)
unfolding program_name
program_name-path dir sep name s plain =
    ap (λ b. strip_exe (take prog_limit b))
      (base_from-path (dir ++ sep ∷ name) dir sep name s plain)

-- Invoked by a path with either separator, with or without `.exe`, each of the two installed names
-- gives its word.
invoked_words :
    (dir : List ℕ) (sep : ℕ)
    → is_separator sep ≡ true
    → (message (program_name (dir ++ sep ∷ codes "dimmit-up")) ≡ some (codes "up"))
      × (message (program_name (dir ++ sep ∷ codes "dimmit-up.exe")) ≡ some (codes "up"))
      × (message (program_name (dir ++ sep ∷ codes "dimmit-down")) ≡ some (codes "down"))
      × (message (program_name (dir ++ sep ∷ codes "dimmit-down.exe")) ≡ some (codes "down"))
unfolding message is_separator strip_exe
invoked_words dir sep s = (
  ap message (program_name-path dir sep (codes "dimmit-up") s (ground arith)),
  ap message (program_name-path dir sep (codes "dimmit-up.exe") s (ground arith)),
  ap message (program_name-path dir sep (codes "dimmit-down") s (ground arith)),
  ap message (program_name-path dir sep (codes "dimmit-down.exe") s (ground arith)),
)

-- A word is sent for these names alone.
pub message-some :
    (prog msg : List ℕ)
    → message prog ≡ some msg
    → ((prog ≡ codes "dimmit-up") × (msg ≡ codes "up"))
      ⊎ ((prog ≡ codes "dimmit-down") × (msg ≡ codes "down"))
unfolding message
message-some prog msg h = elim (Bool-cases (str_eq prog (codes "dimmit-up"))) [
  | inl up ↦ inl (str_eq→eq prog (codes "dimmit-up") up, ground arith)
  | inr not_up ↦ elim (Bool-cases (str_eq prog (codes "dimmit-down"))) [
    | inl down ↦ inr (str_eq→eq prog (codes "dimmit-down") down, ground arith)
    | inr not_down ↦ ground arith
  ]
]
