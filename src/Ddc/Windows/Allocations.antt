-- ===== src/Ddc/Windows/Allocations.antt =====
-- What the allocations of src/platform/ddc/windows.c leave as it is.
use dimmit.Base.{
  ℕ, ◌≡◌, inl, inr, refl, ◌∙◌, Bool, true, false, Option, none, some, List, [], ◌∷◌, length, ◌==◌,
  Bool-cases,
}
use dimmit.Ddc.Windows.{
  Dxva, Accum, append, make_room, grow_and, push_monitors, push_found, windows_infos,
  entries_allocated, list_allocated, list_collected,
}

-- A number that an allocation does not change.
module _ {W : Type 0} (d : Dxva W) (count : W → ℕ)
    (allocate_keeps : (w : W) → count (d.allocate w).1 ≡ count w) where
  make_room-keeps : (acc : Accum) (w : W) → count (make_room d acc w).1 ≡ count w
  unfolding make_room
  make_room-keeps acc w = elim (Bool-cases (length acc.handles == acc.capacity)) [
    | inl full ↦ simp full (allocate_keeps w)
    | inr room ↦ simp room refl
  ]

  grow_and-keeps :
      (room : Option Accum) (acc : Accum) (next : Accum → W → Accum × W) (w : W)
      → ((roomy : Accum) (w' : W) → count (next roomy w').1 ≡ count w')
      → count (grow_and d room acc next w).1 ≡ count w
  unfolding grow_and
  grow_and-keeps none acc next w h = refl
  grow_and-keeps (some roomy) acc next w h = h roomy w

  pub push_monitors-keeps :
      (monitors : List ℕ) (acc : Accum) (w : W) → count (push_monitors d monitors acc w).1 ≡ count w
  unfolding push_monitors
  push_monitors-keeps [] acc w = refl
  push_monitors-keeps (h ∷ monitors) acc w =
      grow_and-keeps (make_room d acc w).0 acc (λ roomy. push_monitors d monitors (append h roomy))
        (make_room d acc w).1 (λ roomy w'. push_monitors-keeps monitors (append h roomy) w')
      ∙ make_room-keeps acc w

  pub push_found-keeps :
      (acc : Accum) (found : Option (List ℕ)) (w : W) → count (push_found d acc found w).1 ≡ count w
  unfolding push_found
  push_found-keeps acc none w = refl
  push_found-keeps acc (some monitors) w = push_monitors-keeps monitors acc w

  windows_infos-keeps : (handles : List ℕ) (w : W) → count (windows_infos d handles w).1 ≡ count w
  unfolding windows_infos
  windows_infos-keeps [] w = refl
  windows_infos-keeps (h ∷ handles) w = elim (Bool-cases (d.allocate w).0) [
    | inl ok ↦ simp ok (windows_infos-keeps handles (d.allocate w).1 ∙ allocate_keeps w)
    | inr failed ↦ simp failed (allocate_keeps w)
  ]

  entries-keeps :
      (handles : List ℕ) (ok : Bool) (w : W) → count (entries_allocated d handles ok w).1 ≡ count w
  unfolding entries_allocated
  entries-keeps handles false w = refl
  entries-keeps handles true w = windows_infos-keeps handles w

  list_allocated-keeps :
      (handles : List ℕ) (ok : Bool) (w : W) → count (list_allocated d handles ok w).1 ≡ count w
  unfolding list_allocated
  list_allocated-keeps handles false w = refl
  list_allocated-keeps handles true w = entries-keeps handles _ _ ∙ allocate_keeps w

  pub list_collected-keeps :
      (handles : List ℕ) (w : W) → count (list_collected d handles w).1 ≡ count w
  unfolding list_collected
  list_collected-keeps [] w = refl
  list_collected-keeps (h ∷ handles) w = list_allocated-keeps (h ∷ handles) _ _ ∙ allocate_keeps w
