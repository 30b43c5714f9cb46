-- ===== src/Tests/Lamps.antt =====
-- A run of the threads of src/dimmitd.c on two lamps, which take every write.
use dimmit.Base.{
  ℕ, ◌%◌, ◌≤◌, ◌≡◌, ◌==◌, if◌then◌else◌, inl, refl, true, false, some, [], ◌∷◌, arith,
}
use dimmit.Base.Int.{pos, int_laws, int32, ◌+ℤ◌, ◌*ℤ◌, ◌-ℤ◌}
use dimmit.Dimmer.{
  dimmer_max, dimmer_adjust, dimmer_due, clamp_brightness, dimmer_delta_for_fraction, dimmer_commit,
  Fraction,
}
use dimmit.Ddc.{DisplayInfo, Platform}
use dimmit.Ddc.Sources.{source, ddc_src_set}
use dimmit.Ddc.Answers.{Answers, VcpIfAny-some}
use dimmit.Controller.{
  ManagedDisplay, DisplayController, controller_adjust, adjust_display, service_displays,
  service_display, write_due, finish_write, controller_service,
}
use dimmit.Controller.Invariant.{IsSound, controller_adjust-IsSound}
use dimmit.Daemon.Presses.{Press-IsFraction}
use dimmit.Controller.Replay.{GoesThrough}
use dimmit.Daemon.{socket_fraction}
use dimmit.Daemon.Threads.{Shared, started}
use dimmit.Tests.Daemons.{up_request}
use dimmit.Dimmer.Bounds.{IsReady}

-- The world is the levels of the lamps.
abbrev pub Levels : Type 0
Levels = ℕ × ℕ

abbrev pub lamp_info : ℕ → DisplayInfo
lamp_info i = record { dref = i; vendor_id = 4660; product_id = 22136; is_builtin = false }

abbrev pub lamps : Platform Levels
lamps = record {
  get_display_info_list = λ w. (some (lamp_info 0 ∷ lamp_info 1 ∷ []), w);
  free_display_info_list = λ infos w. (tt, w);
  open_display = λ dref w. (some dref, w);
  close_display = λ h w. (tt, w);
  get_non_table_vcp_value = λ h feature w.
      (some (record { mh = 0; ml = 100; sh = 0; sl = (if h == 0 then w.0 else w.1) % 256 }), w);
  set_non_table_vcp_value = λ h feature hi lo w. (true, if h == 0 then (lo, w.1) else (w.0, lo));
  calloc = λ w. (true, w);
}

pub lamps-Answers : Answers lamps
lamps-Answers h feature w v e =
    VcpIfAny-some (some _) v
      (record {
        mh_byte = omega arith;
        ml_byte = omega arith;
        sh_byte = omega arith;
        sl_byte = omega arith;
      })
      e

pub lamps-GoesThrough : GoesThrough lamps
lamps-GoesThrough h feature hi lo w = refl

abbrev pub lit : ℕ → ℕ → ManagedDisplay Levels
lit i level = record {
  src = source lamps i (lamp_info i) i;
  dim = record { current = pos level; max = pos 100; pending_delta = pos 0 };
}

abbrev pub two_lamps : DisplayController Levels
two_lamps = record {
  sources = (lit 0 50).src ∷ (lit 1 20).src ∷ [];
  displays = lit 0 50 ∷ lit 1 20 ∷ [];
}

lit-IsReady : (i level : ℕ) → level ≤ 100 → IsReady (lit i level).dim
lit-IsReady i level h = record {
  current_level = omega arith;
  max_level = omega arith;
  goal_level = omega (arith, int_laws);
  reachable = inl (omega (arith, int_laws));
}

pub two_lamps-IsSound : IsSound lamps two_lamps
two_lamps-IsSound = record {
  parallel = refl;
  ddc = (refl, (refl, tt));
  ready = (lit-IsReady 0 50 (omega arith), (lit-IsReady 1 20 (omega arith), tt));
}

abbrev pub begun : Shared Levels
begun = started two_lamps (50, 20)

abbrev pub up : Fraction
up = socket_fraction (pos 1)

-- After a press.
abbrev pub raised : DisplayController Levels
raised = controller_adjust two_lamps up

pub raised-IsSound : IsSound lamps raised
raised-IsSound =
    controller_adjust-IsSound lamps two_lamps up (Press-IsFraction up_request) two_lamps-IsSound

pub two_writes : (controller_service raised (50, 20)).0.1 ≡ 2
unfolding controller_adjust adjust_display controller_service service_displays service_display
    write_due finish_write dimmer_due clamp_brightness dimmer_adjust dimmer_commit int32 ◌+ℤ◌ ◌*ℤ◌
    ddc_src_set socket_fraction dimmer_delta_for_fraction ◌-ℤ◌ dimmer_max
two_writes = refl
