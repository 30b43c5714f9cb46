-- ===== src/Controller/Lifetime.antt =====
-- The display handles over a life of the controller (src/display_controller.c) without a reconcile.
use dimmit.Base.{ℕ, ◌+◌, ◌≡◌, refl, ap, ◌∙◌, Option, none, some, List, [], ◌∷◌, All, length, arith}
use dimmit.Base.Int.{ℤ}
use dimmit.Base.World.{Action, pure}
use dimmit.Dimmer.{Fraction, dimmer_due}
use dimmit.Dimmer.Steps.{IsFraction}
use dimmit.Ddc.{Platform}
use dimmit.Ddc.Sources.{ddc_src_set}
use dimmit.Ddc.Handles.{Tracks}
use dimmit.Ddc.Origin.{IsDdc}
use dimmit.Controller.{
  ManagedDisplay, DisplayController, controller_open, controller_count, controller_adjust,
  controller_service, controller_close, service_displays, service_display, write_due,
}
use dimmit.Ddc.Answers.{Answers}
use dimmit.Controller.Handles.{brightness_free-opened, controller_open-opened}
use dimmit.Controller.Invariant.{
  IsSound, SoundIfAny, controller_open-IsSound, controller_adjust-IsSound,
  controller_service-IsSound,
}
use dimmit.Controller.Reconcile.{sources_of}

-- What is done with a controller: a press, or a pass of the worker.
pub data Use : Type 0 where
  press : (f : Fraction) → IsFraction f → Use
  pass : Use

unfoldable pub use_for :
    {W : Type 0} → List Use → DisplayController W → Action W (DisplayController W)
use_for [] c = pure c
use_for (press f small ∷ uses) c = use_for uses (controller_adjust c f)
use_for (pass ∷ uses) c = λ w. use_for uses (controller_service c w).0.0 (controller_service c w).1

-- `controller_close`, where there is a controller.
unfoldable pub use_and_close : {W : Type 0} → List Use → Option (DisplayController W) → W → W
use_and_close uses none w = w
use_and_close uses (some c) w = let (c', w') = use_for uses c w in (controller_close c' w').1

module _ {W : Type 0} (p : Platform W) (t : Tracks p) where
  open t use {opened, set_keeps}

  write_due-opened :
      (d : ManagedDisplay W) (due : Option ℤ) (w : W)
      → IsDdc p d.src
      → opened (write_due d due w).1 ≡ opened w
  unfolding write_due ddc_src_set
  write_due-opened d none w ddc = refl
  write_due-opened d (some target) w ddc =
      ap (λ ops. opened (ops.set d.src.ctx target w).1) ddc ∙ set_keeps _ _ _ _ w

  service_displays-opened :
      (ds : List (ManagedDisplay W)) (w : W)
      → All (IsDdc p) (sources_of ds)
      → opened (service_displays ds w).1 ≡ opened w
  unfolding service_displays service_display
  service_displays-opened [] w ddc = refl
  service_displays-opened (d ∷ ds) w ddc =
      service_displays-opened ds _ ddc.1 ∙ write_due-opened d (dimmer_due d.dim) w ddc.0

  controller_service-opened :
      (c : DisplayController W) (w : W) → IsSound p c → opened (controller_service c w).1 ≡ opened w
  unfolding controller_service
  controller_service-opened c w sound =
      service_displays-opened c.displays w (simp sound.parallel sound.ddc)

  closes_after_use :
      (uses : List Use) (c : DisplayController W) (w : W) (n : ℕ)
      → IsSound p c
      → opened w ≡ n + length c.sources
      → opened (use_and_close uses (some c) w) ≡ n
  unfolding use_and_close use_for controller_close controller_adjust controller_service
  closes_after_use [] c w n sound e =
      omega (arith, brightness_free-opened p t c.sources w sound.ddc)
  closes_after_use (press f small ∷ uses) c w n sound e =
      closes_after_use uses (controller_adjust c f) w n
        (controller_adjust-IsSound p c f small sound) e
  closes_after_use (pass ∷ uses) c w n sound e =
      closes_after_use uses (controller_service c w).0.0 (controller_service c w).1 n
        (controller_service-IsSound p c w sound) (controller_service-opened c w sound ∙ e)

  use_and_close-opened :
      (uses : List Use) (found : Option (DisplayController W)) (w : W) (n : ℕ)
      → SoundIfAny p found
      → opened w ≡ n + controller_count found
      → opened (use_and_close uses found w) ≡ n
  unfolding use_and_close controller_count
  use_and_close-opened uses none w n sound e = omega arith
  use_and_close-opened uses (some c) w n sound e = closes_after_use uses c w n sound e

  -- A controller that is opened, used in any order for presses and passes, and closed leaves as
  -- many handles open as there were, also where the open fails, for a backend that counts its
  -- handles and whose displays answer with bytes.
  pub lifetime-opened :
      (answers : Answers p) (uses : List Use) (w : W)
      → opened (use_and_close uses (controller_open p w).0 (controller_open p w).1) ≡ opened w
  lifetime-opened answers uses w =
      use_and_close-opened uses (controller_open p w).0 (controller_open p w).1 (opened w)
        (controller_open-IsSound p answers w) (controller_open-opened p t w)
