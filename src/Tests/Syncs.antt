-- ===== src/Tests/Syncs.antt =====
-- The simulated displays (src/platform/ddc/in_memory_mock.c) under the controller
-- (src/display_controller.c), the second of which refuses its writes.
use dimmit.Base.{◌≡◌, refl, true, some, List, [], ◌∷◌, arith, All}
use dimmit.Base.Int.{pos}
use dimmit.Ddc.Sources.{
  list_sources, fill_sources, open_sources, open_source, probe, keep_answering,
  ddc_enumerate_sources,
}
use dimmit.Ddc.Answers.{Answers, VcpIfAny-some, mock-VcpIfAny}
use dimmit.Ddc.Mock.{
  Mock, mock_platform, mock_reset, mock_set_fail, display_count, copy_first,
  mock_get_display_info_list, list_displays, mock_infos, ensure_default, mock_get_vcp, allocate,
  next_answer, later_answers, mock_open_display, mock_free_display_info_list,
}
use dimmit.Ddc.Mock.Memory.{mock_platform-Remembers}
use dimmit.Brightness.{brightness_enumerate}
use dimmit.Controller.{
  DisplayController, controller_open, adopt_sources, fill_controller, open_displays, open_display,
  dimmer_of,
}
use dimmit.Controller.Lifetime.{Use, press, pass, use_for}
use dimmit.Controller.Sync.{Apart, InSync}
use dimmit.Controller.Sync.Life.{lifetime-InSync}
use dimmit.Tests.Fixtures.{desk, sixteenth}

mock-Answers : Answers mock_platform
mock-Answers h feature w v e = VcpIfAny-some _ v (mock-VcpIfAny h feature w) e

abbrev faulty : Mock
faulty = mock_set_fail (pos 1) true desk.1

opened :
    (c : DisplayController Mock) × ((controller_open mock_platform faulty).0 ≡ some c)
    × Apart c.sources
unfolding controller_open adopt_sources fill_controller open_displays open_display dimmer_of
    brightness_enumerate ddc_enumerate_sources list_sources mock_get_display_info_list list_displays
    mock_infos ensure_default mock_reset mock_set_fail display_count copy_first fill_sources
    open_sources open_source probe keep_answering mock_get_vcp allocate next_answer later_answers
    mock_open_display mock_free_display_info_list
opened = (_, refl, (((λ e. omega arith), tt), (tt, tt)))

abbrev some_uses : List Use
some_uses =
    press sixteenth (omega arith)
    ∷ press sixteenth (omega arith)
    ∷ pass
    ∷ press sixteenth (omega arith)
    ∷ []

lifetime-InSync_example :
    All
      (InSync mock_platform (use_for some_uses opened.0 (controller_open mock_platform faulty).1).1)
      (use_for some_uses opened.0 (controller_open mock_platform faulty).1).0.displays
lifetime-InSync_example =
    lifetime-InSync mock_platform mock_platform-Remembers mock-Answers some_uses opened.0 faulty
      opened.1 opened.2
