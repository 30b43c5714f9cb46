-- ===== src/Ddc/Windows/Collect.antt =====
-- The growing array of physical monitors (src/platform/ddc/windows.c).
use mathlib.Core.List.{append-nil, append_assoc}
use dimmit.Base.{
  sym, ℕ, zero, suc, ◌<◌, ◌≤◌, ◌≡◌, ◌⊎◌, inl, inr, refl, ap, ◌∙◌, Option, none, some, List, [], ◌∷◌,
  ◌++◌, arith, length, length-append, ◌==◌, Bool-cases, Option-cases,
}
use dimmit.Ddc.Windows.{Dxva, Accum, grown, append, make_room, grow_and, push_monitors}

-- The handles fit the array.
abbrev pub Fits : Accum → Type 0
Fits acc = length acc.handles ≤ acc.capacity

grown-lt : (n : ℕ) → n < grown n
unfolding grown
grown-lt zero = omega arith
grown-lt (suc n) = omega arith

module _ {W : Type 0} (d : Dxva W) where
  -- With room there are the same handles and a free place; without, the array is full.
  abbrev Roomy : Accum → Option Accum → Type 0
  Roomy acc none = length acc.handles ≡ acc.capacity
  Roomy acc (some roomy) = (roomy.handles ≡ acc.handles) × (length roomy.handles < roomy.capacity)

  make_room-Roomy : (acc : Accum) (w : W) → Fits acc → Roomy acc (make_room d acc w).0
  unfolding make_room
  make_room-Roomy acc w h = elim (Bool-cases (length acc.handles == acc.capacity)) [
    | inl full ↦ elim (Bool-cases (d.allocate w).0) [
      | inl ok ↦ simp (full, ok) (refl, omega (arith, grown-lt acc.capacity, h))
      | inr failed ↦ simp (full, failed) (ground arith)
    ]
    | inr free ↦ simp free (refl, ground arith)
  ]

  append-Fits : (h : ℕ) (acc : Accum) → length acc.handles < acc.capacity → Fits (append h acc)
  append-Fits h acc room = omega (arith, length-append acc.handles (h ∷ []))

  -- The result of the loop: it fits, and holds the old handles and then the first monitors, all of
  -- them unless the array is full.
  abbrev pub Extends : Accum → List ℕ → Accum → Type 0
  Extends acc monitors after =
      Fits after
      × ((kept : List ℕ) × (rest : List ℕ) × (monitors ≡ kept ++ rest)
          × (after.handles ≡ acc.handles ++ kept)
          × ((rest ≡ []) ⊎ (length after.handles ≡ after.capacity)))

  Extends-first :
      (m : ℕ) (monitors : List ℕ) (acc roomy after : Accum)
      → roomy.handles ≡ acc.handles
      → Extends (append m roomy) monitors after
      → Extends acc (m ∷ monitors) after
  Extends-first m monitors acc roomy after same (fits, (kept, rest, e, handles, complete)) = (
    fits,
    (
      m ∷ kept,
      rest,
      ap (◌∷◌ m) e,
      handles ∙ append_assoc roomy.handles (m ∷ []) kept ∙ ap (λ hs. hs ++ m ∷ kept) same,
      complete,
    ),
  )

  -- From handles that fit the array, the loop over the physical monitors gives handles that fit:
  -- the old ones and then the first monitors in order, all of them unless the array is full.
  push_monitors-Extends :
      (monitors : List ℕ) (acc : Accum) (w : W)
      → Fits acc
      → Extends acc monitors (push_monitors d monitors acc w).0
  unfolding push_monitors grow_and
  push_monitors-Extends [] acc w h = (h, ([], [], refl, sym (append-nil acc.handles), inl refl))
  push_monitors-Extends (m ∷ monitors) acc w h = elim (Option-cases (make_room d acc w).0) [
    | inl no_room ↦ simp no_room (
      h,
      (
        [],
        m ∷ monitors,
        refl,
        sym (append-nil acc.handles),
        inr (rw no_room at (make_room-Roomy acc w h)),
      ),
    )
    | inr (roomy, grew) ↦
        let room = rw grew at (make_room-Roomy acc w h) in
        simp grew (
          Extends-first m monitors acc roomy _ room.0
            (push_monitors-Extends monitors (append m roomy) _ (append-Fits m roomy room.1)))
  ]
