-- ===== src/Controller/Leak.antt =====
-- The display handles across `controller_reconcile` (src/display_controller.c).
use dimmit.Base.{
  ℕ, ◌+◌, ◌≤◌, ◌≡◌, refl, ap, ◌∙◌, true, Option, none, some, List, [], ◌∷◌, arith, length, All,
  Bool-cases, if◌then◌else◌, inl, inr,
}
use dimmit.Source.{BrightnessSource}
use dimmit.Dimmer.{Dimmer}
use dimmit.Ddc.{Platform}
use dimmit.Ddc.Handles.{Tracks}
use dimmit.Ddc.Origin.{IsDdc}
use dimmit.Brightness.{brightness_enumerate}
use dimmit.Controller.{
  DisplayController, keep_or_open, next_displays, survives, close_vanished, replace_displays,
  reconcile_allocated, reconcile_with, controller_reconcile,
}
use dimmit.Controller.Handles.{
  close-opened, open_display-opened, enumerated-opened, enumerated-AllDdc,
}

-- How many of the old sources have an id in the new set.
unfoldable pub survivors : {W : Type 0} → List (BrightnessSource W) → List (BrightnessSource W) → ℕ
survivors fresh [] = 0
survivors fresh (s ∷ sources) = (if survives fresh s then 1 else 0) + survivors fresh sources

survivors-le :
    {W : Type 0} (fresh sources : List (BrightnessSource W))
    → survivors fresh sources ≤ length sources
unfolding survivors
survivors-le fresh [] = omega arith
survivors-le fresh (s ∷ sources) = ground (arith, survivors-le fresh sources)

-- Reconciles one after another, each with an enumeration and an allocation that succeed, and how often
-- the id of an old source is found again.
pub data Reconciles {W : Type 0} (p : Platform W)
    : ℕ → DisplayController W → W → DisplayController W → W → Type 0 where
  none_left : {c : DisplayController W} {w : W} → Reconciles p 0 c w c w
  reconcile :
      {kept : ℕ} {c c' : DisplayController W} {w w' : W} (fresh : List (BrightnessSource W))
      → (brightness_enumerate p w).0 ≡ some fresh
      → (p.calloc (brightness_enumerate p w).1).0 ≡ true
      → Reconciles p kept (controller_reconcile p c w).0 (controller_reconcile p c w).1 c' w'
      → Reconciles p (survivors fresh c.sources + kept) c w c' w'

module _ {W : Type 0} (p : Platform W) (t : Tracks p) where
  open t use {opened, calloc_keeps}

  keep_or_open-opened :
      (f : BrightnessSource W) (kept : Option Dimmer) (w : W)
      → IsDdc p f
      → opened (keep_or_open f kept w).1 ≡ opened w
  unfolding keep_or_open
  keep_or_open-opened f none w h = open_display-opened p t f w h
  keep_or_open-opened f (some dim) w h = refl

  next_displays-opened :
      (c : DisplayController W) (fresh : List (BrightnessSource W)) (w : W)
      → All (IsDdc p) fresh
      → opened (next_displays c fresh w).1 ≡ opened w
  unfolding next_displays
  next_displays-opened c [] w h = refl
  next_displays-opened c (f ∷ fresh) w h =
      next_displays-opened c fresh _ h.1 ∙ keep_or_open-opened f _ w h.0

  close_vanished-opened :
      (fresh sources : List (BrightnessSource W)) (w : W)
      → All (IsDdc p) sources
      → length sources ≤ opened w + survivors fresh sources
      → opened (close_vanished fresh sources w).1 + length sources
        ≡ opened w + survivors fresh sources
  unfolding close_vanished survivors
  close_vanished-opened fresh [] w h room = omega arith
  close_vanished-opened fresh (s ∷ sources) w h room = elim (Bool-cases (survives fresh s)) [
    | inl alive ↦
        let room' = simp alive at room in
        simp alive (omega (arith, close_vanished-opened fresh sources w h.1 (omega arith)))
    | inr gone ↦
        let room' = simp gone at room in
        let closed = close-opened p t s w h.0 in
        let few = survivors-le fresh sources in
        simp gone (
          omega
            (arith, close_vanished-opened fresh sources (s.ops.close s.ctx w).1 h.1 (omega arith)))
  ]

  -- With `n` handles open before the fresh ones were opened.
  abbrev LeavesOpen :
      DisplayController W → List (BrightnessSource W) → ℕ → DisplayController W × W → Type 0
  LeavesOpen c fresh n (c', w') =
      (c'.sources ≡ fresh)
      × (opened w' + length c.sources ≡ n + length fresh + survivors fresh c.sources)

  replace_displays-opened :
      (c : DisplayController W) (fresh : List (BrightnessSource W)) (w : W) (n : ℕ)
      → All (IsDdc p) c.sources
      → All (IsDdc p) fresh
      → length c.sources ≤ n
      → opened w ≡ n + length fresh
      → LeavesOpen c fresh n (replace_displays c fresh w)
  unfolding replace_displays
  replace_displays-opened c fresh w n old new room e =
      let same = next_displays-opened c fresh w new in
      (
        refl,
        omega (
          arith,
          close_vanished-opened fresh c.sources (next_displays c fresh w).1 old (omega arith),
        ),
      )

  reconcile_with-opened :
      (c : DisplayController W) (fresh : List (BrightnessSource W)) (w : W) (n : ℕ)
      → All (IsDdc p) c.sources
      → All (IsDdc p) fresh
      → length c.sources ≤ n
      → opened w ≡ n + length fresh
      → (p.calloc w).0 ≡ true
      → LeavesOpen c fresh n (reconcile_with p c (some fresh) w)
  unfolding reconcile_with reconcile_allocated
  reconcile_with-opened c [] w n old new room e ok = replace_displays-opened c [] w n old new room e
  reconcile_with-opened c (f ∷ fresh) w n old new room e ok =
      rw ok
        (replace_displays-opened c (f ∷ fresh) (p.calloc w).1 n old new room (calloc_keeps w ∙ e))

  controller_reconcile-leaks :
      (c : DisplayController W) (fresh : List (BrightnessSource W)) (w : W)
      → All (IsDdc p) c.sources
      → length c.sources ≤ opened w
      → (brightness_enumerate p w).0 ≡ some fresh
      → (p.calloc (brightness_enumerate p w).1).0 ≡ true
      → LeavesOpen c fresh (opened w) (controller_reconcile p c w)
        × All (IsDdc p) (controller_reconcile p c w).0.sources
  unfolding controller_reconcile
  controller_reconcile-leaks c fresh w old room found ok = rw found (leaves, rw (leaves.0) new)
    where
      new : All (IsDdc p) fresh
      new = rw found at (enumerated-AllDdc p t w)

      start : opened (brightness_enumerate p w).1 ≡ opened w + length fresh
      start = rw found at (enumerated-opened p t w)

      leaves :
          LeavesOpen c fresh
            (opened w)
            (reconcile_with p c (some fresh) (brightness_enumerate p w).1)
      leaves =
          reconcile_with-opened c fresh (brightness_enumerate p w).1 (opened w) old new room start
            ok

  -- Over any number of reconciles whose enumeration and allocation succeed, from sources on
  -- DDC_OPS with their handles open, the handles that are open beyond one for each source grow
  -- every time by one for each old source whose id is found again, for a backend that counts its
  -- handles.
  pub Reconciles-opened :
      {kept : ℕ} {c c' : DisplayController W} {w w' : W}
      → All (IsDdc p) c.sources
      → length c.sources ≤ opened w
      → Reconciles p kept c w c' w'
      → opened w' + length c.sources ≡ opened w + length c'.sources + kept
  Reconciles-opened old room none_left = omega arith
  Reconciles-opened old room (reconcile {c = c} {w = w} fresh found ok later) =
      let (leaves, new) = controller_reconcile-leaks c fresh w old room found ok in
      let same = ap length leaves.0 in
      omega (arith, leaves.1, Reconciles-opened new (omega (arith, leaves.1)) later)
