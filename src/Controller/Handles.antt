-- ===== src/Controller/Handles.antt =====
-- Who closes the display handles of the controller (src/display_controller.c).
use dimmit.Base.{
  ℕ, ◌+◌, ◌-◌, ◌≡◌, inl, inr, refl, ap, ◌∙◌, Bool, true, false, Option, none, some, List, [], ◌∷◌,
  arith, length, All, Bool-cases,
}
use dimmit.Source.{BrightnessSource}
use dimmit.Ddc.{Platform}
use dimmit.Ddc.Sources.{ddc_src_get, ddc_src_close, vcp_brightness}
use dimmit.Ddc.Handles.{Tracks, returned, ddc_enumerate_sources-opened}
use dimmit.Ddc.Origin.{IsDdc, AllDdc, ddc_enumerate_sources-AllDdc}
use dimmit.Brightness.{brightness_enumerate, brightness_free}
use dimmit.Controller.{
  open_display, open_displays, fill_controller, adopt_sources, controller_open, controller_count,
}

module _ {W : Type 0} (p : Platform W) (t : Tracks p) where
  open t use {opened, close_one, get_keeps, calloc_keeps}

  pub close-opened :
      (s : BrightnessSource W) (w : W) → IsDdc p s → opened (s.ops.close s.ctx w).1 ≡ opened w - 1
  unfolding ddc_src_close
  close-opened s w e = ap (λ ops. opened (ops.close s.ctx w).1) e ∙ close_one s.ctx w

  get-opened :
      (s : BrightnessSource W) (w : W) → IsDdc p s → opened (s.ops.get s.ctx w).1 ≡ opened w
  unfolding ddc_src_get
  get-opened s w e = ap (λ ops. opened (ops.get s.ctx w).1) e ∙ get_keeps s.ctx vcp_brightness w

  -- `brightness_free` gives every source's handle back.
  pub brightness_free-opened :
      (sources : List (BrightnessSource W)) (w : W)
      → All (IsDdc p) sources
      → opened (brightness_free sources w).1 ≡ opened w - length sources
  unfolding brightness_free
  brightness_free-opened [] w h = omega arith
  brightness_free-opened (s ∷ sources) w h =
      omega
        (arith, close-opened s w h.0, brightness_free-opened sources (s.ops.close s.ctx w).1 h.1)

  pub open_display-opened :
      (s : BrightnessSource W) (w : W) → IsDdc p s → opened (open_display s w).1 ≡ opened w
  unfolding open_display
  open_display-opened s w h = get-opened s w h

  open_displays-opened :
      (sources : List (BrightnessSource W)) (w : W)
      → All (IsDdc p) sources
      → opened (open_displays sources w).1 ≡ opened w
  unfolding open_displays
  open_displays-opened [] w h = refl
  open_displays-opened (s ∷ sources) w h =
      open_displays-opened sources (open_display s w).1 h.1 ∙ open_display-opened s w h.0

  fill_controller-opened :
      (allocated : Bool) (sources : List (BrightnessSource W)) (w : W) (n : ℕ)
      → All (IsDdc p) sources
      → opened w ≡ n + length sources
      → opened (fill_controller allocated sources w).1
        ≡ n + controller_count (fill_controller allocated sources w).0
  unfolding fill_controller controller_count
  fill_controller-opened false sources w n h e = omega (arith, brightness_free-opened sources w h)
  fill_controller-opened true sources w n h e = open_displays-opened sources w h ∙ e

  adopt_sources-opened :
      (found : Option (List (BrightnessSource W))) (w : W) (n : ℕ)
      → AllDdc p found
      → opened w ≡ n + returned found
      → opened (adopt_sources p found w).1 ≡ n + controller_count (adopt_sources p found w).0
  unfolding adopt_sources
  adopt_sources-opened none w n h e = unfold controller_count in e
  adopt_sources-opened (some []) w n h e = unfold controller_count in e
  adopt_sources-opened (some (s ∷ sources)) w n h e =
      fill_controller-opened (p.calloc w).0 (s ∷ sources) (p.calloc w).1 n h (calloc_keeps w ∙ e)

  pub enumerated-opened :
      (w : W)
      → opened (brightness_enumerate p w).1 ≡ opened w + returned (brightness_enumerate p w).0
  unfolding brightness_enumerate
  enumerated-opened w = ddc_enumerate_sources-opened p t w

  pub enumerated-AllDdc : (w : W) → AllDdc p (brightness_enumerate p w).0
  unfolding brightness_enumerate
  enumerated-AllDdc w = ddc_enumerate_sources-AllDdc p w

  -- `controller_open` leaves open one more handle for each display of its result and none where it
  -- returns NULL, for a backend that counts its handles.
  pub controller_open-opened :
      (w : W) → opened (controller_open p w).1 ≡ opened w + controller_count (controller_open p w).0
  unfolding controller_open
  controller_open-opened w = elim (Bool-cases (p.calloc w).0) [
    | inl allocated ↦
        rw allocated (adopt_sources-opened _ _ (opened w) (enumerated-AllDdc _) from_start)
    | inr failed ↦ rw failed (unfold controller_count in omega (arith, calloc_keeps w))
  ]
    where
      from_start :
          opened (brightness_enumerate p (p.calloc w).1).1
          ≡ opened w + returned (brightness_enumerate p (p.calloc w).1).0
      from_start = omega (arith, enumerated-opened (p.calloc w).1, calloc_keeps w)
