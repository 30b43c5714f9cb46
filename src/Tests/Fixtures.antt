-- ===== src/Tests/Fixtures.antt =====
-- A desk of two simulated displays, whose open handles are counted.
use dimmit.Base.{
  ℕ, ◌+◌, ◌-◌, ◌≡◌, inl, refl, none, some, [], ◌∷◌, arith, codes, ◌==◌, if◌then◌else◌,
}
use dimmit.Base.Int.{ℤ, pos, int_laws, int32, ◌*ℤ◌}
use dimmit.Base.World.{Action}
use dimmit.Source.{BrightnessSource}
use dimmit.Dimmer.{Dimmer, Fraction, dimmer_delta_for_fraction}
use dimmit.Dimmer.Bounds.{IsReady}
use dimmit.Ddc.{Platform}
use dimmit.Ddc.Sources.{ddc_ops}
use dimmit.Ddc.Handles.{Tracks}
use dimmit.Ddc.Mock.{
  Mock, mock_start, mock_reset, mock_get_display_info_list, mock_get_vcp, mock_set_vcp, allocate,
}
use dimmit.Controller.{ManagedDisplay, DisplayController}
use dimmit.Ddc.Answers.{Answers, VcpIfAny-some, mock-VcpIfAny}
use dimmit.Controller.Invariant.{IsSound}

-- The number of open handles and the displays.
abbrev pub Desk : Type 0
Desk = ℕ × Mock

abbrev pub lift {ℓ} : {A : Type ℓ} → Action Mock A → Action Desk A
lift a w = ((a w.1).0, (w.0, (a w.1).1))

abbrev pub counting : Platform Desk
counting = record {
  get_display_info_list = lift mock_get_display_info_list;
  free_display_info_list = λ infos w. (tt, w);
  open_display = λ dref w. (some dref, (w.0 + 1, w.1));
  close_display = λ h w. (tt, (w.0 - 1, w.1));
  get_non_table_vcp_value = λ h feature. lift (mock_get_vcp h feature);
  set_non_table_vcp_value = λ h feature hi lo. lift (mock_set_vcp h feature hi lo);
  calloc = lift allocate;
}

pub never_refused : (dref : ℕ) (w : Desk) → (counting.open_display dref w).0 ≡ none → w.0 + 1 ≡ w.0
never_refused dref w e = cc

abbrev pub counting_tracks : Tracks counting
counting_tracks = record {
  opened = λ w. w.0;
  list_keeps = λ w. refl;
  free_keeps = λ infos w. refl;
  open_some = λ dref h w e. refl;
  open_none = never_refused;
  close_one = λ h w. refl;
  get_keeps = λ h feature w. refl;
  set_keeps = λ h feature hi lo w. refl;
  calloc_keeps = λ w. refl;
}

pub counting-Answers : Answers counting
counting-Answers h feature w v e = VcpIfAny-some _ v (mock-VcpIfAny h feature w.1) e

-- Two displays, at 50 of 100 and 20 of 80.
abbrev pub two_currents : ℕ → ℤ
two_currents i = if i == 0 then pos 50 else pos 20

abbrev pub two_maxes : ℕ → ℤ
two_maxes i = if i == 0 then pos 100 else pos 80

abbrev pub desk : Desk
desk = (0, mock_reset (pos 2) two_currents two_maxes mock_start)

-- The same with the two handles of `two_displays` open.
abbrev pub lit_desk : Desk
lit_desk = (2, desk.1)

abbrev pub left_source : BrightnessSource Desk
left_source = record {
  ops = ddc_ops counting;
  ctx = 0;
  id = codes "ddc:1234:5678:0";
  label = codes "left";
}

abbrev pub right_source : BrightnessSource Desk
right_source = record {
  ops = ddc_ops counting;
  ctx = 1;
  id = codes "ddc:1234:5679:1";
  label = codes "right";
}

-- After a press up that is not yet written.
abbrev pub left_dimmer : Dimmer
left_dimmer = record { current = pos 50; max = pos 100; pending_delta = pos 6 }

abbrev pub right_dimmer : Dimmer
right_dimmer = record { current = pos 20; max = pos 80; pending_delta = pos 0 }

pub left_dimmer-IsReady : IsReady left_dimmer
left_dimmer-IsReady = record {
  current_level = omega arith;
  max_level = omega arith;
  goal_level = omega int_laws;
  reachable = inl (omega int_laws);
}

pub right_dimmer-IsReady : IsReady right_dimmer
right_dimmer-IsReady = record {
  current_level = omega arith;
  max_level = omega arith;
  goal_level = omega int_laws;
  reachable = inl (omega int_laws);
}

abbrev pub left : ManagedDisplay Desk
left = record { src = left_source; dim = left_dimmer }

abbrev pub right : ManagedDisplay Desk
right = record { src = right_source; dim = right_dimmer }

abbrev pub two_displays : DisplayController Desk
two_displays = record { sources = left_source ∷ right_source ∷ []; displays = left ∷ right ∷ [] }

pub two_displays-IsSound : IsSound counting two_displays
two_displays-IsSound = record {
  parallel = refl;
  ddc = (refl, (refl, tt));
  ready = (left_dimmer-IsReady, (right_dimmer-IsReady, tt));
}

abbrev pub sixteenth : Fraction
sixteenth = record { num = pos 1; exp = 4 }

pub sixteenth_of_100 : dimmer_delta_for_fraction (pos 100) sixteenth ≡ pos 6
unfolding dimmer_delta_for_fraction int32 ◌*ℤ◌
sixteenth_of_100 = refl
