-- ===== src/Controller/Invariant.antt =====
-- The invariant of the controller (src/display_controller.c).
use dimmit.Base.{
  ℕ, ◌≡◌, inl, inr, refl, ap, ap₂, ◌∙◌, Bool, true, false, Option, none, some, List, [], ◌∷◌, map,
  All, Bool-cases, str_eq,
}
use dimmit.Base.Int.{ℤ}
use dimmit.Source.{BrightnessSource}
use dimmit.Dimmer.{Dimmer, Fraction}
use dimmit.Dimmer.Bounds.{IsReady}
use dimmit.Dimmer.Steps.{IsFraction}
use dimmit.Ddc.{Platform}
use dimmit.Ddc.Origin.{IsDdc, AllDdc, ddc_enumerate_sources-AllDdc}
use dimmit.Brightness.{brightness_enumerate}
use dimmit.Controller.{
  ManagedDisplay, DisplayController, fill_controller, adopt_sources, controller_open, keep_or_open,
  matched_dimmer, next_displays, replace_displays, reconcile_allocated, reconcile_with,
  controller_reconcile, adjust_display, controller_adjust, service_displays, controller_service,
  finish_write, write_due, service_display,
}
use dimmit.Controller.Service.{DisplayReady}
use dimmit.Controller.Drain.{controller_service-drains}
use dimmit.Ddc.Answers.{Answers}
use dimmit.Controller.Bounds.{
  controller_adjust-ready, open_displays-ready, open_display-IsReady, open_displays-sources,
}
use dimmit.Controller.Reconcile.{IsParallel, sources_of, controller_reconcile-IsParallel}

-- The arrays run parallel, every source runs on DDC_OPS, and every dimmer is in bounds.
pub record IsSound {W : Type 0} (p : Platform W) (c : DisplayController W) : Type 0 where
  pub parallel : IsParallel c
  pub ddc : All (IsDdc p) c.sources
  pub ready : All DisplayReady c.displays

module _ {W : Type 0} where
  pub map-adjust-sources :
      (f : Fraction) (ds : List (ManagedDisplay W))
      → sources_of (map (adjust_display f) ds) ≡ sources_of ds
  unfolding adjust_display
  map-adjust-sources f [] = refl
  map-adjust-sources f (d ∷ ds) = ap (◌∷◌ d.src) (map-adjust-sources f ds)

  finish_write-src :
      (d : ManagedDisplay W) (target : ℤ) (ok : Bool) → (finish_write d target ok).0.src ≡ d.src
  unfolding finish_write
  finish_write-src d target true = refl
  finish_write-src d target false = refl

  write_due-src :
      (d : ManagedDisplay W) (due : Option ℤ) (w : W) → (write_due d due w).0.0.src ≡ d.src
  unfolding write_due
  write_due-src d none w = refl
  write_due-src d (some target) w = finish_write-src d target _

  pub service_displays-sources :
      (ds : List (ManagedDisplay W)) (w : W)
      → sources_of (service_displays ds w).0.0 ≡ sources_of ds
  unfolding service_displays service_display
  service_displays-sources [] w = refl
  service_displays-sources (d ∷ ds) w =
      ap₂ ◌∷◌ (write_due-src d _ w) (service_displays-sources ds _)

module _ {W : Type 0} (p : Platform W) where
  -- `controller_adjust` by a fraction of at most 2^14 either way keeps that invariant.
  pub controller_adjust-IsSound :
      (c : DisplayController W) (f : Fraction)
      → IsFraction f
      → IsSound p c
      → IsSound p (controller_adjust c f)
  unfolding controller_adjust
  controller_adjust-IsSound c f small s = record {
    parallel = map-adjust-sources f c.displays ∙ s.parallel;
    ddc = s.ddc;
    ready = controller_adjust-ready c f small s.ready;
  }

  -- `controller_service` keeps that invariant, whatever the results of the writes.
  pub controller_service-IsSound :
      (c : DisplayController W) (w : W) → IsSound p c → IsSound p (controller_service c w).0.0
  unfolding controller_service
  controller_service-IsSound c w s = record {
    parallel = service_displays-sources c.displays w ∙ s.parallel;
    ddc = s.ddc;
    ready = (controller_service-drains c w s.ready).0;
  }

-- What holds of a controller, where there is one.
abbrev pub SoundIfAny : {W : Type 0} → Platform W → Option (DisplayController W) → Type 0
SoundIfAny p none = Unit
SoundIfAny p (some c) = IsSound p c

module _ {W : Type 0} (p : Platform W) (answers : Answers p) where
  fill_controller-IsSound :
      (allocated : Bool) (sources : List (BrightnessSource W)) (w : W)
      → All (IsDdc p) sources
      → SoundIfAny p (fill_controller allocated sources w).0
  unfolding fill_controller
  fill_controller-IsSound false sources w h = tt
  fill_controller-IsSound true sources w h = record {
    parallel = open_displays-sources sources w;
    ddc = h;
    ready = open_displays-ready p answers sources w h;
  }

  adopt_sources-IsSound :
      (found : Option (List (BrightnessSource W))) (w : W)
      → AllDdc p found
      → SoundIfAny p (adopt_sources p found w).0
  unfolding adopt_sources
  adopt_sources-IsSound none w h = tt
  adopt_sources-IsSound (some []) w h = record { parallel = refl; ddc = tt; ready = tt }
  adopt_sources-IsSound (some (s ∷ sources)) w h = fill_controller-IsSound _ (s ∷ sources) _ h

  found-AllDdc : (w : W) → AllDdc p (brightness_enumerate p w).0
  unfolding brightness_enumerate
  found-AllDdc w = ddc_enumerate_sources-AllDdc p w

  -- A controller that `controller_open` returns has parallel arrays, sources on DDC_OPS and every
  -- dimmer in bounds, where displays answer with bytes.
  pub controller_open-IsSound : (w : W) → SoundIfAny p (controller_open p w).0
  unfolding controller_open
  controller_open-IsSound w = elim (Bool-cases (p.calloc w).0) [
    | inl allocated ↦ rw allocated (adopt_sources-IsSound _ _ (found-AllDdc _))
    | inr failed ↦ rw failed tt
  ]

  abbrev ReadyIfAny : Option Dimmer → Type 0
  ReadyIfAny none = Unit
  ReadyIfAny (some dim) = IsReady dim

  matched-ready :
      (id : List ℕ) (sources : List (BrightnessSource W)) (ds : List (ManagedDisplay W))
      → All DisplayReady ds
      → ReadyIfAny (matched_dimmer id sources ds)
  unfolding matched_dimmer
  matched-ready id [] ds r = tt
  matched-ready id (s ∷ sources) [] r = tt
  matched-ready id (s ∷ sources) (d ∷ ds) r = elim (Bool-cases (str_eq id s.id)) [
    | inl same ↦ simp same r.0
    | inr other ↦ simp other (matched-ready id sources ds r.1)
  ]

  keep_or_open-IsReady :
      (f : BrightnessSource W) (found : Option Dimmer) (w : W)
      → IsDdc p f
      → ReadyIfAny found
      → IsReady (keep_or_open f found w).0.dim
  unfolding keep_or_open
  keep_or_open-IsReady f none w h r = open_display-IsReady p answers f w h
  keep_or_open-IsReady f (some dim) w h r = r

  next_displays-ready :
      (c : DisplayController W) (fresh : List (BrightnessSource W)) (w : W)
      → All DisplayReady c.displays
      → All (IsDdc p) fresh
      → All DisplayReady (next_displays c fresh w).0
  unfolding next_displays
  next_displays-ready c [] w r h = tt
  next_displays-ready c (f ∷ fresh) w r h = (
    keep_or_open-IsReady f _ w h.0 (matched-ready f.id c.sources c.displays r),
    next_displays-ready c fresh _ r h.1,
  )

  -- What a reconcile has to keep besides `parallel`.
  abbrev Rest : DisplayController W → Type 0
  Rest c = All (IsDdc p) c.sources × All DisplayReady c.displays

  reconcile_with-Rest :
      (c : DisplayController W) (found : Option (List (BrightnessSource W))) (w : W)
      → Rest c
      → AllDdc p found
      → Rest (reconcile_with p c found w).0
  unfolding reconcile_with replace_displays reconcile_allocated
  reconcile_with-Rest c none w s h = s
  reconcile_with-Rest c (some []) w s h = (tt, next_displays-ready c [] w s.1 tt)
  reconcile_with-Rest c (some (f ∷ fresh)) w s h = elim (Bool-cases (p.calloc w).0) [
    | inl allocated ↦ rw allocated (h, next_displays-ready c (f ∷ fresh) _ s.1 h)
    | inr failed ↦ rw failed s
  ]

  -- `controller_reconcile` keeps that invariant on every path, where displays answer with bytes.
  pub controller_reconcile-IsSound :
      (c : DisplayController W) (w : W) → IsSound p c → IsSound p (controller_reconcile p c w).0
  controller_reconcile-IsSound c w s = record {
    parallel = controller_reconcile-IsParallel p c w s.parallel;
    ddc = rest.0;
    ready = rest.1;
  }
    where
      rest : Rest (controller_reconcile p c w).0
      rest =
          unfold controller_reconcile in reconcile_with-Rest c _ _ (s.ddc, s.ready) (found-AllDdc w)
