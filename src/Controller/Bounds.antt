-- ===== src/Controller/Bounds.antt =====
-- The bounds of the dimmers of the controller (src/display_controller.c).
use dimmit.Base.{
  ℕ, ◌≡◌, inl, inr, refl, ap, Option, none, some, List, [], ◌∷◌, arith, map, All, Option-cases,
}
use dimmit.Base.Int.{ℤ, pos}
use dimmit.Source.{BrightnessSource}
use dimmit.Dimmer.{Fraction}
use dimmit.Dimmer.Bounds.{IsLevel, IsReady}
use dimmit.Dimmer.Steps.{IsFraction}
use dimmit.Dimmer.Ready.{dimmer_init-IsReady}
use dimmit.Ddc.{Platform}
use dimmit.Ddc.Sources.{ddc_src_get, vcp_brightness}
use dimmit.Ddc.Answers.{Answers}
use dimmit.Ddc.Origin.{IsDdc, answer-IsLevel}
use dimmit.Controller.{
  ManagedDisplay, DisplayController, dimmer_of, open_display, open_displays, adjust_display,
  controller_adjust,
}
use dimmit.Controller.Service.{DisplayReady}
use dimmit.Controller.Lockstep.{adjust_display-IsReady}
use dimmit.Controller.Reconcile.{sources_of}

module _ {W : Type 0} where
  map-adjust-ready :
      (f : Fraction) (ds : List (ManagedDisplay W))
      → IsFraction f
      → All DisplayReady ds
      → All DisplayReady (map (adjust_display f) ds)
  map-adjust-ready f [] small r = tt
  map-adjust-ready f (d ∷ ds) small r =
      (adjust_display-IsReady f d small r.0, map-adjust-ready f ds small r.1)

  pub controller_adjust-ready :
      (c : DisplayController W) (f : Fraction)
      → IsFraction f
      → All DisplayReady c.displays
      → All DisplayReady (controller_adjust c f).displays
  unfolding controller_adjust
  controller_adjust-ready c f small r = map-adjust-ready f c.displays small r

  -- Opening keeps the sources, in order.
  pub open_displays-sources :
      (sources : List (BrightnessSource W)) (w : W)
      → sources_of (open_displays sources w).0 ≡ sources
  unfolding open_displays open_display
  open_displays-sources [] w = refl
  open_displays-sources (s ∷ sources) w = ap (◌∷◌ s) (open_displays-sources sources _)

module _ {W : Type 0} (p : Platform W) (answers : Answers p) where
  -- The reading of a source is two levels, or there is none.
  abbrev ReadingOk : Option (ℤ × ℤ) → Type 0
  ReadingOk none = Unit
  ReadingOk (some (cur, max)) = IsLevel cur × IsLevel max

  dimmer_of-IsReady : (reading : Option (ℤ × ℤ)) → ReadingOk reading → IsReady (dimmer_of reading)
  unfolding dimmer_of
  dimmer_of-IsReady none h = dimmer_init-IsReady (pos 0) (pos 100) (omega arith) (omega arith)
  dimmer_of-IsReady (some (cur, max)) h = dimmer_init-IsReady cur max h.0 h.1

  ddc_src_get-ReadingOk : (h : ℕ) (w : W) → ReadingOk (ddc_src_get p h w).0
  unfolding ddc_src_get
  ddc_src_get-ReadingOk h w = elim (Option-cases (p.get_non_table_vcp_value h vcp_brightness w).0) [
    | inl silent ↦ rw silent tt
    | inr (v, answer) ↦ rw answer (answer-IsLevel v (answers h vcp_brightness w v answer))
  ]

  source_reading : (s : BrightnessSource W) (w : W) → IsDdc p s → ReadingOk (s.ops.get s.ctx w).0
  source_reading s w e = rw e (ddc_src_get-ReadingOk s.ctx w)

  pub open_display-IsReady :
      (s : BrightnessSource W) (w : W) → IsDdc p s → IsReady (open_display s w).0.dim
  unfolding open_display
  open_display-IsReady s w e = dimmer_of-IsReady _ (source_reading s w e)

  pub open_displays-ready :
      (sources : List (BrightnessSource W)) (w : W)
      → All (IsDdc p) sources
      → All DisplayReady (open_displays sources w).0
  unfolding open_displays
  open_displays-ready [] w h = tt
  open_displays-ready (s ∷ sources) w h =
      (open_display-IsReady s w h.0, open_displays-ready sources (open_display s w).1 h.1)
