-- ===== src/Tests/Replays.antt =====
-- What two lamps show after a run of the threads of src/dimmitd.c.
use dimmit.Base.{
  ℕ, ◌≤◌, ◌≡◌, ◌≢◌, str_eq, refl, false, Option, none, some, List, arith, sym, ◌∙◌, ap,
}
use dimmit.Base.Int.{pos, int_laws, ◌-ℤ◌}
use dimmit.Dimmer.{Dimmer, dimmer_delta_for_fraction}
use dimmit.Dimmer.Knob.{Knob, knob}
use dimmit.Ddc.Sources.{
  source_id, source, list_sources, fill_sources, open_sources, open_source, probe, keep_answering,
  ddc_enumerate_sources,
}
use dimmit.Brightness.{brightness_enumerate}
use dimmit.Controller.{
  DisplayController, controller_adjust, adjust_display, keep_or_open, open_display, reconcile_with,
  reconcile_allocated, replace_displays, next_displays, controller_service, controller_reconcile,
}
use dimmit.Controller.Invariant.{controller_service-IsSound}
use dimmit.Controller.Drain.{controller_service_twice}
use dimmit.Controller.Press.{at_goal}
use dimmit.Controller.Spec
use dimmit.Controller.Spec.{First}
use dimmit.Controller.Refinement.{named, view}
use dimmit.Controller.Replay.{replay, First-pass}
use dimmit.Daemon.{socket_fraction}
use dimmit.Daemon.Threads.{
  main_thread, Shared, started, Reach, here, next, adjust, signal, unlock, reconcile, worker_lock,
  worker_pass, worker_wait, move, same_client, signalled,
}
use dimmit.Tests.Fixtures.{sixteenth_of_100}
use dimmit.Tests.Daemons.{up_request}
use dimmit.Daemon.Serial.{history, made}
use dimmit.Daemon.Replay.{presses, Stays, waiting-replay}
use dimmit.Daemon.Offset.{HasRoom, waiting-offset}
use dimmit.Controller.Reconcile.{str_ne}
use dimmit.Source.{BrightnessSource}
use dimmit.Tests.Lamps.{
  Levels, lamp_info, lamps, lamps-Answers, lamps-GoesThrough, lit, two_lamps, two_lamps-IsSound,
  begun, up, raised, raised-IsSound, two_writes,
}

-- A request is served, the worker writes it and waits, and the main thread looks for other displays.
walked : (s : Shared Levels) × Reach lamps begun s
unfolding started move same_client signalled
walked = (
  _,
  next
      (next
        (next
          (next
            (next
              (next
                (next (next here (adjust begun main_thread up up_request refl refl))
                  (signal _ main_thread refl))
                (unlock _ main_thread refl))
              (worker_lock _ refl refl))
            (worker_pass _ refl refl (λ e. omega (arith, sym two_writes ∙ e))))
          (worker_wait _ refl refl
            (ap (λ r. r.0.1) (controller_service_twice raised (50, 20) raised-IsSound.ready))))
        (reconcile _ refl refl))
      (unlock _ main_thread refl),
)

-- Some knob of the name.
abbrev Listed : List ℕ → DisplayController Levels → Type 0
Listed name c = (k : Knob) × First name (view c) k

abbrev name_of : ℕ → List ℕ
name_of i = (source lamps i (lamp_info i) i).id

other_name : name_of 1 ≢ name_of 0
unfolding source_id str_eq
other_name = str_ne (name_of 1) (name_of 0) differs
  where
    differs : str_eq (name_of 1) (name_of 0) ≡ false
    differs = refl

kept-src :
    (s : BrightnessSource Levels) (found : Option Dimmer) (w : Levels)
    → (named (keep_or_open s found w).0).name ≡ s.id
unfolding keep_or_open open_display named
kept-src s none w = refl
kept-src s (some dim) w = refl

-- A reconcile finds both lamps.
abbrev Again : List ℕ → Type 0
Again name =
    (c : DisplayController Levels) (w : Levels) → Listed name (controller_reconcile lamps c w).0

first_found : Again (name_of 0)
unfolding controller_reconcile reconcile_with reconcile_allocated replace_displays next_displays
    brightness_enumerate ddc_enumerate_sources list_sources fill_sources open_sources open_source
    probe keep_answering
first_found c w = (_, Spec.here (sym (kept-src _ _ w)))

second_found : Again (name_of 1)
unfolding controller_reconcile reconcile_with reconcile_allocated replace_displays next_displays
    brightness_enumerate ddc_enumerate_sources list_sources fill_sources open_sources open_source
    probe keep_answering
second_found c w =
    (_, Spec.there (λ e. other_name (e ∙ kept-src _ _ w)) (Spec.here (sym (kept-src _ _ _))))

stays : (name : List ℕ) → Listed name raised → Again name → Stays name walked.1
unfolding walked started
stays name listed again =
    (((((((((tt, listed), listed), listed), listed), once), twice), again _ _), again _ _))
  where
    once : Listed name (controller_service raised (50, 20)).0.0
    once = (_, First-pass lamps lamps-GoesThrough raised (50, 20) raised-IsSound listed.1)

    twice :
        Listed name
          (controller_service
            (controller_service raised (50, 20)).0.0
            (controller_service raised (50, 20)).1).0.0
    twice = (
      _,
      First-pass lamps lamps-GoesThrough _ _
          (controller_service-IsSound lamps raised (50, 20) raised-IsSound) once.1,
    )

-- The knobs of the lamps before the press.
first_lit : First (name_of 0) (view two_lamps) (knob (lit 0 50).dim)
unfolding named
first_lit = Spec.here refl

second_lit : First (name_of 1) (view two_lamps) (knob (lit 1 20).dim)
unfolding named
second_lit = Spec.there other_name (Spec.here refl)

first_raised : Listed (name_of 0) raised
unfolding controller_adjust adjust_display named
first_raised = (_, Spec.here refl)

second_raised : Listed (name_of 1) raised
unfolding controller_adjust adjust_display named
second_raised = (_, Spec.there other_name (Spec.here refl))

first_at_the_end : Listed (name_of 0) walked.0.ctrl
unfolding walked
first_at_the_end = first_found _ _

second_at_the_end : Listed (name_of 1) walked.0.ctrl
unfolding walked
second_at_the_end = second_found _ _

waiting-replay_example :
    second_at_the_end.0 ≡ at_goal (replay (presses (history walked.1)) (knob (lit 1 20).dim))
unfolding walked started
waiting-replay_example =
    waiting-replay lamps lamps-GoesThrough lamps-Answers two_lamps (50, 20) begun walked.0
      (name_of 1) (knob (lit 1 20).dim) second_at_the_end.0 two_lamps-IsSound here walked.1
      (stays (name_of 1) second_raised second_found) second_lit second_at_the_end.1 refl refl

up_of_100 : dimmer_delta_for_fraction (pos 100) up ≡ pos 6
unfolding socket_fraction
up_of_100 = sixteenth_of_100

room : (i level : ℕ) → level ≤ 80 → HasRoom (presses (history walked.1)) (knob (lit i level).dim)
unfolding walked history presses made knob
room i level h = rw up_of_100 (omega (arith, int_laws), omega (arith, int_laws), tt)

waiting-offset_example :
    first_at_the_end.0.level -ℤ second_at_the_end.0.level
    ≡ (knob (lit 0 50).dim).goal -ℤ (knob (lit 1 20).dim).goal
unfolding walked started knob
waiting-offset_example =
    waiting-offset lamps lamps-GoesThrough lamps-Answers two_lamps (50, 20) begun walked.0
      (name_of 0) (name_of 1) (knob (lit 0 50).dim) (knob (lit 1 20).dim) first_at_the_end.0
      second_at_the_end.0 two_lamps-IsSound here walked.1
      (stays (name_of 0) first_raised first_found, stays (name_of 1) second_raised second_found)
      (first_lit, second_lit) (first_at_the_end.1, second_at_the_end.1) refl
      (room 0 50 (omega arith), room 1 20 (omega arith)) refl refl
