-- ===== src/Controller/Dropped.antt =====
-- Changes that src/display_controller.c drops.
use dimmit.Base.{
  ℕ, ◌-◌, ◌<◌, ◌≤◌, ◌≡◌, refl, ap, ◌∙◌, none, some, List, [], ◌∷◌, All, length, arith,
}
use dimmit.Base.Int.{pos}
use dimmit.Source.{BrightnessSource}
use dimmit.Dimmer.{dimmer_due, dimmer_settled}
use dimmit.Dimmer.Bounds.{level_limit}
use dimmit.Ddc.{Platform}
use dimmit.Ddc.Sources.{ddc_ops, list_sources, ddc_enumerate_sources}
use dimmit.Ddc.Handles.{Tracks}
use dimmit.Ddc.Origin.{IsDdc}
use dimmit.Ddc.Darwin.{CoreGraphics, Arch, darwin_platform}
use dimmit.Ddc.Darwin.Writes.{set-above_hundred}
use dimmit.Brightness.{brightness_enumerate}
use dimmit.Controller.{
  ManagedDisplay, DisplayController, service_display, write_due, finish_write, survives,
  close_vanished, next_displays, replace_displays, reconcile_with, controller_reconcile,
}
use dimmit.Controller.Handles.{close-opened}

-- On the macOS backend a display that is due at a level above 100, up to 2^16 - 1, is not written:
-- the pass makes no call, gives its pending change up and goes on.
pub service-above_hundred :
    {W : Type 0} (cg : CoreGraphics W) (arch : Arch W) (d : ManagedDisplay W) (n : ℕ) (w : W)
    → d.src.ops ≡ ddc_ops (darwin_platform cg arch)
    → dimmer_due d.dim ≡ some (pos n)
    → 100 < n
    → n ≤ level_limit
    → service_display d w ≡ ((record d { dim = dimmer_settled d.dim }, 0), w)
unfolding service_display write_due finish_write
service-above_hundred cg arch d n w mac due high level =
    simp (due, mac, set-above_hundred cg arch d.src.ctx n w high level) refl

module _ {W : Type 0} (p : Platform W) (t : Tracks p) where
  open t use {opened}

  close_each-opened :
      (sources : List (BrightnessSource W)) (w : W)
      → All (IsDdc p) sources
      → opened (close_vanished [] sources w).1 ≡ opened w - length sources
  unfolding close_vanished survives
  close_each-opened [] w ddc = omega arith
  close_each-opened (s ∷ sources) w ddc =
      omega
        (arith, close-opened p t s w ddc.0, close_each-opened sources (s.ops.close s.ctx w).1 ddc.1)

  -- Where the backend cannot list its displays, a reconcile closes the handle of every display and
  -- leaves a controller without displays, for sources on DDC_OPS and a backend that counts its
  -- handles.
  pub reconcile_unlisted :
      (c : DisplayController W) (w : W)
      → All (IsDdc p) c.sources
      → (p.get_display_info_list w).0 ≡ none
      → ((controller_reconcile p c w).0 ≡ record { sources = []; displays = [] })
        × (opened (controller_reconcile p c w).1 ≡ opened w - length c.sources)
  unfolding controller_reconcile reconcile_with replace_displays next_displays brightness_enumerate
      ddc_enumerate_sources list_sources
  reconcile_unlisted c w ddc unlisted =
      rw unlisted
        (refl, close_each-opened c.sources _ ddc ∙ ap (λ n. n - length c.sources) (t.list_keeps w))
