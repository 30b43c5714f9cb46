-- ===== src/Controller/Identity.antt =====
-- What src/display_controller.c knows its displays by.
use dimmit.Base.{
  ℕ, ◌≡◌, inl, inr, refl, sym, ◌∙◌, Bool, true, false, Option, none, some, List, [], ◌∷◌,
  Bool-cases, str_eq_refl,
}
use dimmit.Source.{BrightnessSource}
use dimmit.Ddc.{DisplayInfo, Platform}
use dimmit.Ddc.Sources.{source, source_id}
use dimmit.Ddc.Identity.{Distinct, DistinctIfAny, ids, CountsInt, ddc_enumerate_sources-Distinct}
use dimmit.Brightness.{brightness_enumerate}
use dimmit.Controller.{
  ManagedDisplay, DisplayController, fill_controller, adopt_sources, controller_open,
  controller_adjust, controller_service, matched_dimmer, keep_or_open, next_displays,
  replace_displays, reconcile_allocated, reconcile_with, controller_reconcile,
}
use dimmit.Controller.Reconcile.{IsParallel}
use dimmit.Controller.Spec.{Call, press, pass, reconcile}
use dimmit.Controller.Refinement.{run}

module _ {W : Type 0} (p : Platform W) where
  abbrev Named : Option (DisplayController W) → Type 0
  Named none = Unit
  Named (some c) = Distinct (ids c.sources)

  found-Distinct : CountsInt p → (w : W) → DistinctIfAny (brightness_enumerate p w).0
  unfolding brightness_enumerate
  found-Distinct counts w = ddc_enumerate_sources-Distinct p counts w

  fill_controller-Named :
      (allocated : Bool) (sources : List (BrightnessSource W)) (w : W)
      → Distinct (ids sources)
      → Named (fill_controller allocated sources w).0
  unfolding fill_controller
  fill_controller-Named false sources w h = tt
  fill_controller-Named true sources w h = h

  adopt_sources-Named :
      (found : Option (List (BrightnessSource W))) (w : W)
      → DistinctIfAny found
      → Named (adopt_sources p found w).0
  unfolding adopt_sources
  adopt_sources-Named none w h = tt
  adopt_sources-Named (some []) w h = tt
  adopt_sources-Named (some (s ∷ sources)) w h = fill_controller-Named _ (s ∷ sources) _ h

  controller_open-Named : CountsInt p → (w : W) → Named (controller_open p w).0
  unfolding controller_open
  controller_open-Named counts w = elim (Bool-cases (p.calloc w).0) [
    | inl allocated ↦ rw allocated (adopt_sources-Named _ _ (found-Distinct counts _))
    | inr failed ↦ rw failed tt
  ]

  reconcile_with-Distinct :
      (c : DisplayController W) (found : Option (List (BrightnessSource W))) (w : W)
      → Distinct (ids c.sources)
      → DistinctIfAny found
      → Distinct (ids (reconcile_with p c found w).0.sources)
  unfolding reconcile_with reconcile_allocated replace_displays
  reconcile_with-Distinct c none w old h = old
  reconcile_with-Distinct c (some []) w old h = tt
  reconcile_with-Distinct c (some (s ∷ sources)) w old h = elim (Bool-cases (p.calloc w).0) [
    | inl allocated ↦ rw allocated h
    | inr failed ↦ rw failed old
  ]

  run-Distinct :
      (counts : CountsInt p) (calls : List Call) (c : DisplayController W) (w : W)
      → Distinct (ids c.sources)
      → Distinct (ids (run p calls c w).0.sources)
  unfolding run controller_adjust controller_service controller_reconcile
  run-Distinct counts [] c w h = h
  run-Distinct counts (press f small ∷ calls) c w h =
      run-Distinct counts calls (controller_adjust c f) w h
  run-Distinct counts (pass ∷ calls) c w h =
      run-Distinct counts calls (controller_service c w).0.0 (controller_service c w).1 h
  run-Distinct counts (reconcile ∷ calls) c w h =
      run-Distinct counts calls (controller_reconcile p c w).0 (controller_reconcile p c w).1
        (reconcile_with-Distinct c _ _ h (found-Distinct counts w))

  -- From `controller_open`, through any presses, passes and reconciles, no two sources of the
  -- controller have one id, so that a reconcile finds at most one display for each source, where
  -- the number of displays that the backend lists is an `int`.
  pub controller_open-Distinct :
      (calls : List Call) (c : DisplayController W) (w : W)
      → CountsInt p
      → (controller_open p w).0 ≡ some c
      → Distinct (ids (run p calls c (controller_open p w).1).0.sources)
  controller_open-Distinct calls c w counts found =
      run-Distinct counts calls c (controller_open p w).1
        (rw found at (controller_open-Named counts w))

  same_id :
      (i : ℕ) (gone moved : DisplayInfo)
      → moved.vendor_id ≡ gone.vendor_id
      → moved.product_id ≡ gone.product_id
      → source_id i moved ≡ source_id i gone
  unfolding source_id
  same_id i gone moved vendor product = rw (vendor, product) refl

  matched-first :
      (id : List ℕ) (d : ManagedDisplay W) (ds : List (ManagedDisplay W)) (c : DisplayController W)
      → c.displays ≡ d ∷ ds
      → IsParallel c
      → id ≡ d.src.id
      → matched_dimmer id c.sources c.displays ≡ some d.dim
  unfolding matched_dimmer
  matched-first id d ds c first parallel same =
      simp (sym parallel, first, same, str_eq_refl d.src.id) refl

  -- Where the first display of the controller is gone and another one of its vendor and product is
  -- now at its place in the list, as the only one, a reconcile takes it for the one that is gone:
  -- it gives it the dimmer of that one, with its level and its pending change.
  pub same_model_inherits :
      (i : ℕ) (d : ManagedDisplay W) (ds : List (ManagedDisplay W)) (c : DisplayController W)
      (gone moved : DisplayInfo) (h : ℕ) (w : W)
      → c.displays ≡ d ∷ ds
      → IsParallel c
      → d.src.id ≡ source_id i gone
      → moved.vendor_id ≡ gone.vendor_id
      → moved.product_id ≡ gone.product_id
      → (brightness_enumerate p w).0 ≡ some (source p i moved h ∷ [])
      → (p.calloc (brightness_enumerate p w).1).0 ≡ true
      → (controller_reconcile p c w).0.displays
        ≡ record { src = source p i moved h; dim = d.dim } ∷ []
  unfolding controller_reconcile reconcile_with reconcile_allocated replace_displays next_displays
      keep_or_open
  same_model_inherits i d ds c gone moved h w first parallel named vendor product found allocated =
      simp (found, allocated, matched) refl
    where
      matched : matched_dimmer (source_id i moved) c.sources c.displays ≡ some d.dim
      matched =
          matched-first (source_id i moved) d ds c first parallel
            (same_id i gone moved vendor product ∙ sym named)
