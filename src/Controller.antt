-- ===== src/Controller.antt =====
-- src/display_controller.{h,c}: the set of controllable displays, one dimmer for each. A NULL
-- controller is `none`. `W` is the world outside.
pub mod Handles
pub mod Leak
pub mod Service
pub mod Drain
pub mod Bounds
pub mod Lockstep
pub mod Invariant
pub mod Press
pub mod Spec
pub mod Refinement
pub mod Replay
pub mod Sync
pub mod Identity
pub mod Dropped
pub mod Lifetime
pub mod Reconcile
use dimmit.Base.{
  ℕ, ◌+◌, Bool, true, false, not, Option, none, some, List, [], ◌∷◌, if◌then◌else◌, str_eq,
  get_elem?, length, map,
}
use dimmit.Base.Int.{ℤ, pos, negsuc}
use dimmit.Base.World.{Action, pure, ◌>>=◌, ◌>>◌}
use dimmit.Dimmer.{
  Dimmer, Fraction, dimmer_init, dimmer_adjust, dimmer_due, dimmer_commit, dimmer_settled,
  dimmer_max, dimmer_delta_for_fraction,
}
use dimmit.Source.{BrightnessSource}
use dimmit.Ddc.{Platform}
use dimmit.Brightness.{brightness_enumerate, brightness_free}

-- `managed_display`
pub record ManagedDisplay (W : Type 0) : Type 0 where
  pub src : BrightnessSource W
  pub dim : Dimmer

-- `struct display_controller`; `count` is the length of `sources`, and `displays` runs parallel to it.
pub record DisplayController (W : Type 0) : Type 0 where
  pub sources : List (BrightnessSource W)
  pub displays : List (ManagedDisplay W)

-- The dimmer for a reading; a display that does not answer starts at 0 of 100.
unfoldable pub dimmer_of : Option (ℤ × ℤ) → Dimmer
dimmer_of none = dimmer_init (pos 0) (pos 100)
dimmer_of (some (cur, max)) = dimmer_init cur max

module _ {W : Type 0} where
  -- A new display: its level is read from the source.
  unfoldable pub open_display : BrightnessSource W → Action W (ManagedDisplay W)
  open_display s = do reading ← s.ops.get s.ctx; pure (record { src = s; dim = dimmer_of reading })

  unfoldable pub open_displays : List (BrightnessSource W) → Action W (List (ManagedDisplay W))
  open_displays [] = pure []
  open_displays (s ∷ sources) = do d ← open_display s; ds ← open_displays sources; pure (d ∷ ds)

  -- After the second `calloc`, whose answer is the first argument.
  unfoldable pub fill_controller :
      Bool → List (BrightnessSource W) → Action W (Option (DisplayController W))
  fill_controller false sources = do brightness_free sources; pure none
  fill_controller true sources = do
    displays ← open_displays sources
    pure (some (record { sources = sources; displays = displays }))

  abbrev pub empty_controller : DisplayController W
  empty_controller = record { sources = []; displays = [] }

  -- `controller_open` from the enumeration on, with its result
  unfoldable pub adopt_sources :
      Platform W → Option (List (BrightnessSource W)) → Action W (Option (DisplayController W))
  adopt_sources p none = pure none
  adopt_sources p (some []) = pure (some empty_controller)
  adopt_sources p (some (s ∷ sources)) = do
    allocated ← p.calloc
    fill_controller allocated (s ∷ sources)

  -- `none` is NULL: the first `calloc` failed, or the enumeration, or the second `calloc`.
  unfoldable pub controller_open : Platform W → Action W (Option (DisplayController W))
  controller_open p = do
    allocated ← p.calloc
    if allocated then (brightness_enumerate p >>= adopt_sources p) else pure none

  unfoldable pub controller_count : Option (DisplayController W) → ℕ
  controller_count none = 0
  controller_count (some c) = length c.sources

  unfoldable pub adjust_display : Fraction → ManagedDisplay W → ManagedDisplay W
  adjust_display fraction d = record d {
    dim = dimmer_adjust d.dim (dimmer_delta_for_fraction (dimmer_max d.dim) fraction);
  }

  unfoldable pub controller_adjust : DisplayController W → Fraction → DisplayController W
  controller_adjust c fraction = record c { displays = map (adjust_display fraction) c.displays }

  -- The end of one round of the loop of `controller_service`, with the result of `set`: the display
  -- and what it adds to `applied`.
  unfoldable pub finish_write : ManagedDisplay W → ℤ → Bool → ManagedDisplay W × ℕ
  finish_write d target true = (record d { dim = dimmer_commit d.dim target }, 1)
  finish_write d target false = (record d { dim = dimmer_settled d.dim }, 0)

  unfoldable pub write_due : ManagedDisplay W → Option ℤ → Action W (ManagedDisplay W × ℕ)
  write_due d none = pure (d, 0)
  write_due d (some target) = do
    written ← d.src.ops.set d.src.ctx target
    pure (finish_write d target written)

  unfoldable pub service_display : ManagedDisplay W → Action W (ManagedDisplay W × ℕ)
  service_display d = write_due d (dimmer_due d.dim)

  unfoldable pub service_displays : List (ManagedDisplay W) → Action W (List (ManagedDisplay W) × ℕ)
  service_displays [] = pure ([], 0)
  service_displays (d ∷ ds) = do
    (d', n) ← service_display d
    (ds', m) ← service_displays ds
    pure (d' ∷ ds', n + m)

  unfoldable pub controller_service : DisplayController W → Action W (DisplayController W × ℕ)
  controller_service c = do
    (displays, applied) ← service_displays c.displays
    pure (record c { displays = displays }, applied)

  -- The dimmer of the first old display whose source has this id.
  unfoldable pub matched_dimmer :
      List ℕ → List (BrightnessSource W) → List (ManagedDisplay W) → Option Dimmer
  matched_dimmer id (s ∷ sources) (d ∷ displays) =
      let later = matched_dimmer id sources displays in if str_eq id s.id then some d.dim else later
  matched_dimmer id _ _ = none

  unfoldable pub keep_or_open : BrightnessSource W → Option Dimmer → Action W (ManagedDisplay W)
  keep_or_open f (some dim) = pure (record { src = f; dim = dim })
  keep_or_open f none = open_display f

  -- The first loop of `controller_reconcile`.
  unfoldable pub next_displays :
      DisplayController W → List (BrightnessSource W) → Action W (List (ManagedDisplay W))
  next_displays c [] = pure []
  next_displays c (f ∷ fresh) = do
    d ← keep_or_open f (matched_dimmer f.id c.sources c.displays)
    ds ← next_displays c fresh
    pure (d ∷ ds)

  unfoldable pub survives : List (BrightnessSource W) → BrightnessSource W → Bool
  survives [] s = false
  survives (f ∷ fresh) s = if str_eq f.id s.id then true else survives fresh s

  -- The second loop: close what did not survive.
  unfoldable pub close_vanished :
      List (BrightnessSource W) → List (BrightnessSource W) → Action W (Unit {0})
  close_vanished fresh [] = pure tt
  close_vanished fresh (s ∷ sources) = do
    (if survives fresh s then pure tt else s.ops.close s.ctx)
    close_vanished fresh sources

  unfoldable pub replace_displays :
      DisplayController W → List (BrightnessSource W) → Action W (DisplayController W)
  replace_displays c fresh = do
    displays ← next_displays c fresh
    close_vanished fresh c.sources
    pure (record { sources = fresh; displays = displays })

  -- After the `calloc` of the new displays.
  unfoldable pub reconcile_allocated :
      Bool → DisplayController W → List (BrightnessSource W) → Action W (DisplayController W)
  reconcile_allocated false c fresh = do brightness_free fresh; pure c
  reconcile_allocated true c fresh = replace_displays c fresh

  unfoldable pub reconcile_with :
      Platform W
      → DisplayController W
      → Option (List (BrightnessSource W))
      → Action W (DisplayController W)
  reconcile_with p c none = pure c
  reconcile_with p c (some []) = replace_displays c []
  reconcile_with p c (some (f ∷ fresh)) = do
    allocated ← p.calloc
    reconcile_allocated allocated c (f ∷ fresh)

  unfoldable pub controller_reconcile :
      Platform W → DisplayController W → Action W (DisplayController W)
  controller_reconcile p c = brightness_enumerate p >>= reconcile_with p c

  abbrev level_at : Option (ManagedDisplay W) → ℤ
  level_at none = negsuc 0
  level_at (some d) = d.dim.current

  -- The level of display `i`, or -1.
  unfoldable pub controller_current : Option (DisplayController W) → ℤ → ℤ
  controller_current none i = negsuc 0
  controller_current (some c) (negsuc i) = negsuc 0
  controller_current (some c) (pos i) = level_at (get_elem? c.displays i)

  unfoldable pub controller_close : DisplayController W → Action W (Unit {0})
  controller_close c = brightness_free c.sources
