-- ===== src/Controller/Sync/Life.antt =====
-- The same from `controller_open` of src/display_controller.c on.
use mathlib.Core.Option
use dimmit.Base.{
  ℕ, ◌≡◌, inl, inr, refl, ◌∙◌, Bool, true, false, Option, none, some, List, [], ◌∷◌, map, All,
  Bool-cases,
}
use dimmit.Source.{BrightnessSource}
use dimmit.Dimmer.{Fraction, dimmer_init, dimmer_adjust}
use dimmit.Ddc.{VcpValue, Platform}
use dimmit.Ddc.Sources.{current_and_max, ddc_src_get}
use dimmit.Ddc.Origin.{IsDdc, AllDdc, ddc_enumerate_sources-AllDdc}
use dimmit.Ddc.Answers.{Answers}
use dimmit.Brightness.{brightness_enumerate}
use dimmit.Controller.Lifetime.{Use, press, pass, use_for}
use dimmit.Controller.{
  ManagedDisplay, DisplayController, dimmer_of, open_display, open_displays, fill_controller,
  adopt_sources, controller_open, adjust_display, controller_adjust, controller_service,
}
use dimmit.Controller.Reconcile.{sources_of}
use dimmit.Controller.Invariant.{
  IsSound, map-adjust-sources, service_displays-sources, controller_open-IsSound,
  controller_adjust-IsSound, controller_service-IsSound,
}
use dimmit.Ddc.Memory.{reading, Says, Remembers}
use dimmit.Controller.Sync.{Apart, InSync, service_displays-InSync}

module _ {W : Type 0} (p : Platform W) (r : Remembers p) where
  adjusted-InSync :
      (f : Fraction) (ds : List (ManagedDisplay W)) (w : W)
      → All (InSync p w) ds
      → All (InSync p w) (map (adjust_display f) ds)
  unfolding adjust_display dimmer_adjust
  adjusted-InSync f [] w sync = tt
  adjusted-InSync f (d ∷ ds) w sync = (sync.0, adjusted-InSync f ds w sync.1)

  open_displays-keeps :
      (sources : List (BrightnessSource W)) (w : W) (h : ℕ)
      → All (IsDdc p) sources
      → reading p h (open_displays sources w).1 ≡ reading p h w
  unfolding open_displays open_display ddc_src_get
  open_displays-keeps [] w h ddc = refl
  open_displays-keeps (s ∷ sources) w h ddc =
      open_displays-keeps sources _ h ddc.1 ∙ rw ddc.0 (r.get_keeps s.ctx h w)

  dimmer_of-Says : (v : Option VcpValue) → Says (dimmer_of (Option.map current_and_max v)).current v
  unfolding dimmer_of dimmer_init
  dimmer_of-Says none = tt
  dimmer_of-Says (some v) = refl

  opened-Says :
      (s : BrightnessSource W) (w : W)
      → IsDdc p s
      → Says (dimmer_of (s.ops.get s.ctx w).0).current (reading p s.ctx (s.ops.get s.ctx w).1)
  unfolding ddc_src_get
  opened-Says s w ddc = rw (ddc, r.get_keeps s.ctx s.ctx w) (dimmer_of-Says (reading p s.ctx w))

  open_displays-InSync :
      (sources : List (BrightnessSource W)) (w : W)
      → All (IsDdc p) sources
      → All (InSync p (open_displays sources w).1) (open_displays sources w).0
  unfolding open_displays open_display ddc_src_get
  open_displays-InSync [] w ddc = tt
  open_displays-InSync (s ∷ sources) w ddc = (
    rw (open_displays-keeps sources _ s.ctx ddc.1) (opened-Says s w ddc.0),
    open_displays-InSync sources _ ddc.1,
  )

  abbrev SyncIfAny : Option (DisplayController W) → W → Type 0
  SyncIfAny none w = Unit
  SyncIfAny (some c) w = All (InSync p w) c.displays

  fill_controller-InSync :
      (allocated : Bool) (sources : List (BrightnessSource W)) (w : W)
      → All (IsDdc p) sources
      → SyncIfAny (fill_controller allocated sources w).0 (fill_controller allocated sources w).1
  unfolding fill_controller
  fill_controller-InSync false sources w ddc = tt
  fill_controller-InSync true sources w ddc = open_displays-InSync sources w ddc

  adopt_sources-InSync :
      (found : Option (List (BrightnessSource W))) (w : W)
      → AllDdc p found
      → SyncIfAny (adopt_sources p found w).0 (adopt_sources p found w).1
  unfolding adopt_sources
  adopt_sources-InSync none w ddc = tt
  adopt_sources-InSync (some []) w ddc = tt
  adopt_sources-InSync (some (s ∷ sources)) w ddc = fill_controller-InSync _ (s ∷ sources) _ ddc

  controller_open-InSync : (w : W) → SyncIfAny (controller_open p w).0 (controller_open p w).1
  unfolding controller_open brightness_enumerate
  controller_open-InSync w = elim (Bool-cases (p.calloc w).0) [
    | inl allocated ↦
        rw allocated (adopt_sources-InSync _ _ (ddc_enumerate_sources-AllDdc p (p.calloc w).1))
    | inr failed ↦ rw failed tt
  ]

  used-InSync :
      (uses : List Use) (c : DisplayController W) (w : W)
      → IsSound p c
      → Apart (sources_of c.displays)
      → All (InSync p w) c.displays
      → All (InSync p (use_for uses c w).1) (use_for uses c w).0.displays
  unfolding use_for
  used-InSync [] c w sound apart sync = sync
  used-InSync (press f small ∷ uses) c w sound apart sync =
      used-InSync uses (controller_adjust c f) w (controller_adjust-IsSound p c f small sound)
        (unfold controller_adjust in rw (map-adjust-sources f c.displays) apart)
        (unfold controller_adjust in adjusted-InSync f c.displays w sync)
  used-InSync (pass ∷ uses) c w sound apart sync =
      used-InSync uses _ _ (controller_service-IsSound p c w sound)
        (unfold controller_service in rw (service_displays-sources c.displays w) apart)
        (unfold controller_service in
          service_displays-InSync p r c.displays w (rw (← sound.parallel) at sound.ddc) sound.ready
            apart sync)

  -- From `controller_open`, after any presses and passes, whatever the results of the writes, each
  -- display, if it answers, says the level that the controller takes it to show, where the sources
  -- have handles of their own, displays answer with bytes, and a display keeps its level but for a
  -- write to it that goes through, after which it says the level written.
  pub lifetime-InSync :
      (answers : Answers p) (uses : List Use) (c : DisplayController W) (w : W)
      → (controller_open p w).0 ≡ some c
      → Apart c.sources
      → All
          (InSync p (use_for uses c (controller_open p w).1).1)
          (use_for uses c (controller_open p w).1).0.displays
  lifetime-InSync answers uses c w found apart =
      used-InSync uses c (controller_open p w).1 sound (rw sound.parallel apart)
        (rw found at (controller_open-InSync w))
    where
      sound : IsSound p c
      sound = rw found at (controller_open-IsSound p answers w)
