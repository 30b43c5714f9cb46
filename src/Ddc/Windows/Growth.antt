-- ===== src/Ddc/Windows/Growth.antt =====
-- How the array of handles of src/platform/ddc/windows.c grows.
use dimmit.Base.{
  ℕ, suc, ◌+◌, ◌≤◌, ◌≡◌, ◌⊎◌, inl, inr, refl, ap, false, Option, none, some, List, [], ◌∷◌, arith,
  length, length-append, ◌==◌, Bool-cases,
}
use dimmit.Ddc.Windows.{Dxva, Accum, append, make_room, grow_and, push_monitors}

-- Memory runs out somewhere.
pub data RunsShort {W : Type 0} (d : Dxva W) : Type 0 where
  refused_at : (w : W) → (d.allocate w).0 ≡ false → RunsShort d

module _ {W : Type 0} (d : Dxva W) where
  -- Making room changes no handle.
  abbrev KeepsHandles : Accum → Option Accum → Type 0
  KeepsHandles acc none = Unit
  KeepsHandles acc (some roomy) = roomy.handles ≡ acc.handles

  make_room-KeepsHandles : (acc : Accum) (w : W) → KeepsHandles acc (make_room d acc w).0
  unfolding make_room
  make_room-KeepsHandles acc w = elim (Bool-cases (length acc.handles == acc.capacity)) [
    | inr room ↦ simp room refl
    | inl full ↦
        simp full (elim (Bool-cases (d.allocate w).0) [
          | inl ok ↦ simp ok refl
          | inr failed ↦ simp failed tt
        ])
  ]

  grow_and-length :
      (h n : ℕ) (acc : Accum) (room : Option Accum) (push : Accum → W → Accum × W) (w : W)
      → KeepsHandles acc room
      → ((more : Accum) (w' : W) → length (push more w').0.handles ≤ length more.handles + n)
      → length (grow_and d room acc (λ roomy. push (append h roomy)) w).0.handles
        ≤ length acc.handles + suc n
  unfolding grow_and
  grow_and-length h n acc none push w kept grows = omega arith
  grow_and-length h n acc (some roomy) push w kept grows = omega (
    arith,
    grows (append h roomy) w,
    length-append roomy.handles (h ∷ []),
    ap (λ (hs : List ℕ). length hs) kept,
  )

  make_room-none : (acc : Accum) (w : W) → (make_room d acc w).0 ≡ none → RunsShort d
  unfolding make_room
  make_room-none acc w = elim (Bool-cases (length acc.handles == acc.capacity)) [
    | inr room ↦ simp room (λ e. cc)
    | inl full ↦ simp full (elim (Bool-cases (d.allocate w).0) [
      | inl ok ↦ simp ok (λ e. cc)
      | inr failed ↦ λ e. refused_at w failed
    ])
  ]

  grow_and-full :
      (h n : ℕ) (acc : Accum) (room : Option Accum) (push : Accum → W → Accum × W) (w : W)
      → KeepsHandles acc room
      → (room ≡ none → RunsShort d)
      → ((more : Accum) (w' : W)
          → (length (push more w').0.handles ≡ length more.handles + n) ⊎ RunsShort d)
      → (length (grow_and d room acc (λ roomy. push (append h roomy)) w).0.handles
          ≡ length acc.handles + suc n)
        ⊎ RunsShort d
  unfolding grow_and
  grow_and-full h n acc none push w kept short grows = inr (short refl)
  grow_and-full h n acc (some roomy) push w kept short grows = elim (grows (append h roomy) w) [
    | inr fails ↦ inr fails
    | inl all ↦ inl (
        omega
          (arith, all, length-append roomy.handles (h ∷ []), ap (λ (hs : List ℕ). length hs) kept))
  ]

  pub push_monitors-full :
      (monitors : List ℕ) (acc : Accum) (w : W)
      → (length (push_monitors d monitors acc w).0.handles ≡ length acc.handles + length monitors)
        ⊎ RunsShort d
  unfolding push_monitors
  push_monitors-full [] acc w = inl (omega arith)
  push_monitors-full (h ∷ monitors) acc w =
      grow_and-full h (length monitors) acc (make_room d acc w).0 (push_monitors d monitors)
        (make_room d acc w).1 (make_room-KeepsHandles acc w) (make_room-none acc w)
        (λ more w'. push_monitors-full monitors more w')

  pub push_monitors-length :
      (monitors : List ℕ) (acc : Accum) (w : W)
      → length (push_monitors d monitors acc w).0.handles ≤ length acc.handles + length monitors
  unfolding push_monitors
  push_monitors-length [] acc w = omega arith
  push_monitors-length (h ∷ monitors) acc w =
      grow_and-length h (length monitors) acc (make_room d acc w).0 (push_monitors d monitors)
        (make_room d acc w).1 (make_room-KeepsHandles acc w)
        (λ more w'. push_monitors-length monitors more w')
