-- ===== src/Controller/Sync.antt =====
-- What the controller of src/display_controller.c takes a display to show, and what the display says:
-- a pass.
pub mod Life
use mathlib.Core.Option
use dimmit.Base.{
  ℕ, ◌≡◌, ◌≢◌, inl, inr, refl, sym, ap, ◌∙◌, Bool, true, false, Option, none, some, List, [], ◌∷◌,
  map, All, Bool-cases, Option-cases, arith,
}
use dimmit.Base.Int.{ℤ, pos}
use dimmit.Source.{BrightnessSource}
use dimmit.Dimmer.{Fraction, dimmer_init, dimmer_adjust, dimmer_due, dimmer_commit, dimmer_settled}
use dimmit.Dimmer.Bounds.{IsLevel, IsReady}
use dimmit.Dimmer.Ready.{dimmer_due-target}
use dimmit.Dimmer.Steps.{IsFraction}
use dimmit.Ddc.{VcpValue, Platform}
use dimmit.Ddc.Sources.{
  vcp_brightness, word16, current_and_max, high_byte, low_byte, ddc_src_get, ddc_src_set, ddc_ops,
}
use dimmit.Ddc.Origin.{IsDdc, AllDdc, level_round_trip, ddc_enumerate_sources-AllDdc}
use dimmit.Ddc.Answers.{Answers}
use dimmit.Brightness.{brightness_enumerate}
use dimmit.Controller.Lifetime.{Use, press, pass, use_for}
use dimmit.Controller.{
  ManagedDisplay, DisplayController, dimmer_of, open_display, open_displays, fill_controller,
  adopt_sources, controller_open, adjust_display, controller_adjust, finish_write, write_due,
  service_display, service_displays, controller_service,
}
use dimmit.Controller.Service.{DisplayReady}
use dimmit.Controller.Reconcile.{sources_of}
use dimmit.Controller.Invariant.{
  IsSound, map-adjust-sources, service_displays-sources, controller_open-IsSound,
  controller_adjust-IsSound, controller_service-IsSound,
}
use dimmit.Ddc.Memory.{reading, Says, Remembers}

-- No two of the sources have one handle.
abbrev pub Apart : {W : Type 0} → List (BrightnessSource W) → Type 0
Apart [] = Unit
Apart (s ∷ sources) = All (λ t. s.ctx ≢ t.ctx) sources × Apart sources

module _ {W : Type 0} (p : Platform W) where
  -- The display, if it answers, shows the level that the controller takes it to show.
  abbrev pub InSync : W → ManagedDisplay W → Type 0
  InSync w d = Says d.dim.current (reading p d.src.ctx w)

  module _ (r : Remembers p) where
    finish_write-InSync :
        (d : ManagedDisplay W) (target : ℤ) (w : W) (ok : Bool)
        → IsLevel target
        → InSync w d
        → (ddc_src_set p d.src.ctx target w).0 ≡ ok
        → InSync (ddc_src_set p d.src.ctx target w).1 (finish_write d target ok).0
    unfolding ddc_src_set finish_write dimmer_commit dimmer_settled
    finish_write-InSync d target w true level sync e =
        rw (level_round_trip target level) at
          (r.written d.src.ctx (high_byte target) (low_byte target) w (omega arith) (omega arith) e)
    finish_write-InSync d target w false level sync e =
        rw (r.refused d.src.ctx (high_byte target) (low_byte target) w e) sync

    write_due-InSync :
        (d : ManagedDisplay W) (target : ℤ) (w : W)
        → IsDdc p d.src
        → IsLevel target
        → InSync w d
        → InSync (write_due d (some target) w).1 (write_due d (some target) w).0.0
    unfolding write_due
    write_due-InSync d target w ddc level sync = rw ddc (
        finish_write-InSync (record d { src = record d.src { ops = ddc_ops p } }) target w _ level
          sync refl)

    write_due-others :
        (d : ManagedDisplay W) (due : Option ℤ) (w : W) (h : ℕ)
        → IsDdc p d.src
        → d.src.ctx ≢ h
        → reading p h (write_due d due w).1 ≡ reading p h w
    unfolding write_due ddc_src_set
    write_due-others d none w h ddc ne = refl
    write_due-others d (some target) w h ddc ne =
        rw ddc (r.others d.src.ctx h (high_byte target) (low_byte target) w ne)

    service_display-InSync :
        (d : ManagedDisplay W) (w : W)
        → IsDdc p d.src
        → IsReady d.dim
        → InSync w d
        → InSync (service_display d w).1 (service_display d w).0.0
    unfolding service_display
    service_display-InSync d w ddc ready sync = elim (Option-cases (dimmer_due d.dim)) [
      | inl idle ↦ rw idle (unfold write_due in sync)
      | inr (target, due) ↦
          rw due (write_due-InSync d target w ddc (dimmer_due-target d.dim target ready due).1 sync)
    ]

    service_displays-others :
        (ds : List (ManagedDisplay W)) (w : W) (h : ℕ)
        → All (IsDdc p) (sources_of ds)
        → All (λ (t : BrightnessSource W). h ≢ t.ctx) (sources_of ds)
        → reading p h (service_displays ds w).1 ≡ reading p h w
    unfolding service_displays service_display
    service_displays-others [] w h ddc ne = refl
    service_displays-others (d ∷ ds) w h ddc ne =
        service_displays-others ds _ h ddc.1 ne.1
        ∙ write_due-others d (dimmer_due d.dim) w h ddc.0 (λ e. ne.0 (sym e))

    -- A write to a display leaves those of other handles in step.
    others-InSync :
        (d : ManagedDisplay W) (due : Option ℤ) (w : W) (ds : List (ManagedDisplay W))
        → IsDdc p d.src
        → All (λ (t : BrightnessSource W). d.src.ctx ≢ t.ctx) (sources_of ds)
        → All (InSync w) ds
        → All (InSync (write_due d due w).1) ds
    others-InSync d due w [] ddc ne sync = tt
    others-InSync d due w (e ∷ ds) ddc ne sync = (
      rw (write_due-others d due w e.src.ctx ddc ne.0) sync.0,
      others-InSync d due w ds ddc ne.1 sync.1,
    )

    service_display-ctx :
        (d : ManagedDisplay W) (due : Option ℤ) (w : W)
        → (write_due d due w).0.0.src.ctx ≡ d.src.ctx
    unfolding write_due finish_write
    service_display-ctx d none w = refl
    service_display-ctx d (some target) w = elim (Bool-cases (d.src.ops.set d.src.ctx target w).0) [
      | inl ok ↦ rw ok refl
      | inr failed ↦ rw failed refl
    ]

    pub service_displays-InSync :
        (ds : List (ManagedDisplay W)) (w : W)
        → All (IsDdc p) (sources_of ds)
        → All DisplayReady ds
        → Apart (sources_of ds)
        → All (InSync w) ds
        → All (InSync (service_displays ds w).1) (service_displays ds w).0.0
    unfolding service_displays service_display
    service_displays-InSync [] w ddc ready apart sync = tt
    service_displays-InSync (d ∷ ds) w ddc ready apart sync = (
      rw
          (service_displays-others ds _ (write_due d (dimmer_due d.dim) w).0.0.src.ctx ddc.1
            (rw (service_display-ctx d (dimmer_due d.dim) w) apart.0))
          (service_display-InSync d w ddc.0 ready.0 sync.0),
      service_displays-InSync ds _ ddc.1 ready.1 apart.1
          (others-InSync d (dimmer_due d.dim) w ds ddc.0 apart.0 sync.1),
    )
