-- ===== src/Tests/Controllers.antt =====
-- Runs of the controller (src/display_controller.c) on a desk of two simulated displays, and inputs
-- for the theorems about it and about its displays (src/platform/ddc/).
use dimmit.Base.{
  false, none, ◌-◌, ◌+◌, ◌≡◌, refl, true, some, List, [], ◌∷◌, arith, All, length, str_eq,
}
use dimmit.Source.{BrightnessSource}
use dimmit.Dimmer.{dimmer_due}
use dimmit.Ddc.Sources.{
  list_sources, fill_sources, open_sources, open_source, probe, keep_answering,
  ddc_enumerate_sources, source_id, ddc_src_close, ddc_src_get,
}
use dimmit.Ddc.Mock.{
  mock_reset, display_count, copy_first, mock_get_display_info_list, list_displays, mock_infos,
  ensure_default, mock_get_vcp, allocate, next_answer, later_answers,
}
use dimmit.Brightness.{brightness_enumerate}
use dimmit.Controller.{
  DisplayController, controller_open, controller_service, controller_reconcile, reconcile_with,
  reconcile_allocated, replace_displays, adopt_sources, fill_controller, open_displays, dimmer_of,
  next_displays, keep_or_open, open_display, matched_dimmer, close_vanished, survives,
}
use dimmit.Controller.Service.{AllServiced, NotDue, controller_service-AllServiced}
use dimmit.Controller.Leak.{survivors, reconcile, none_left, Reconciles-opened}
use dimmit.Controller.Spec.{Call, Resting, DoesAll}
use dimmit.Controller.Spec
use dimmit.Controller.Refinement.{view, run, controller_open-DoesAll}
use dimmit.Controller.Dropped.{reconcile_unlisted}
use dimmit.Controller.Lifetime.{press as use_press, pass, use_and_close, lifetime-opened}
use dimmit.Tests.Fixtures.{
  Desk, counting, counting_tracks, counting-Answers, desk, lit_desk, right_source, right,
  two_displays, two_displays-IsSound, sixteenth,
}

controller_service-AllServiced_example :
    AllServiced two_displays.displays
      (controller_service two_displays lit_desk).0.0.displays
      (controller_service two_displays lit_desk).0.1
controller_service-AllServiced_example =
    controller_service-AllServiced two_displays lit_desk two_displays-IsSound.ready

-- The set once the press is written.
abbrev quiet_displays : DisplayController Desk
quiet_displays = record two_displays { displays = right ∷ []; sources = right_source ∷ [] }

quiet : All NotDue quiet_displays.displays
unfolding dimmer_due
quiet = (refl, tt)

-- What an enumeration finds, and that there is memory for the displays.
abbrev Finds : Desk → Type 0
Finds w =
    (sources : List (BrightnessSource Desk)) × ((brightness_enumerate counting w).0 ≡ some sources)
    × ((counting.calloc (brightness_enumerate counting w).1).0 ≡ true)

found : Finds lit_desk
unfolding brightness_enumerate ddc_enumerate_sources list_sources mock_get_display_info_list
    list_displays mock_infos ensure_default mock_reset display_count copy_first fill_sources
    open_sources open_source probe keep_answering mock_get_vcp allocate next_answer later_answers
found = (_, refl, refl)

-- After one reconcile.
abbrev reconciled : DisplayController Desk × Desk
reconciled = controller_reconcile counting two_displays lit_desk

found_again : Finds reconciled.1
unfolding brightness_enumerate ddc_enumerate_sources list_sources mock_get_display_info_list
    list_displays mock_infos ensure_default mock_reset display_count copy_first fill_sources
    open_sources open_source probe keep_answering mock_get_vcp allocate next_answer later_answers
    controller_reconcile reconcile_with reconcile_allocated replace_displays next_displays
    keep_or_open open_display matched_dimmer close_vanished survives ddc_src_close ddc_src_get
    str_eq source_id
found_again = (_, refl, refl)

Reconciles-opened_example :
    (controller_reconcile counting reconciled.0 reconciled.1).1.0 + 2
    ≡ 2
      + length (controller_reconcile counting reconciled.0 reconciled.1).0.sources
      + (survivors found.0 two_displays.sources
          + (survivors found_again.0 reconciled.0.sources + 0))
Reconciles-opened_example =
    Reconciles-opened counting counting_tracks two_displays-IsSound.ddc (omega arith) (
      reconcile found.0 found.1 found.2
        (reconcile found_again.0 found_again.1 found_again.2 none_left))

lifetime-opened_example :
    counting_tracks.opened (
      use_and_close
        (use_press sixteenth (omega arith) ∷ pass ∷ [])
        (controller_open counting desk).0
        (controller_open counting desk).1)
    ≡ counting_tracks.opened desk
lifetime-opened_example =
    lifetime-opened counting counting_tracks counting-Answers
      (use_press sixteenth (omega arith) ∷ pass ∷ []) desk

-- The allocation of the display list fails.
abbrev full_desk : Desk
full_desk = (2, record lit_desk.1 { memory = false ∷ [] })

unlisted : (counting.get_display_info_list full_desk).0 ≡ none
unfolding mock_get_display_info_list list_displays ensure_default mock_reset display_count allocate
    next_answer copy_first
unlisted = refl

reconcile_unlisted_example :
    ((controller_reconcile counting two_displays full_desk).0
      ≡ record { sources = []; displays = [] })
    × (counting_tracks.opened (controller_reconcile counting two_displays full_desk).1 ≡ 2 - 2)
reconcile_unlisted_example =
    reconcile_unlisted counting counting_tracks two_displays full_desk two_displays-IsSound.ddc
      unlisted

-- What `controller_open` gives at the start.
pub controlled : (c : DisplayController Desk) × ((controller_open counting desk).0 ≡ some c)
unfolding controller_open adopt_sources fill_controller open_displays open_display dimmer_of
    brightness_enumerate ddc_enumerate_sources list_sources mock_get_display_info_list list_displays
    mock_infos ensure_default mock_reset display_count copy_first fill_sources open_sources
    open_source probe keep_answering mock_get_vcp allocate next_answer later_answers
controlled = (_, refl)

-- A press up, its write, a look for other displays, and another press.
abbrev some_calls : List Call
some_calls =
    Spec.press sixteenth (omega arith)
    ∷ Spec.pass
    ∷ Spec.reconcile
    ∷ Spec.press sixteenth (omega arith)
    ∷ []

controller_open-DoesAll_example :
    All Resting (view controlled.0)
    × DoesAll some_calls
        (view controlled.0)
        (view (run counting some_calls controlled.0 (controller_open counting desk).1).0)
controller_open-DoesAll_example =
    controller_open-DoesAll counting counting-Answers some_calls controlled.0 desk controlled.1
