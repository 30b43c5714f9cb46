-- ===== src/Tests/Identities.antt =====
-- Two displays of one model, of which the first is unplugged: inputs for the theorems about the ids of
-- displays (src/platform/ddc/abstraction.c, src/display_controller.c).
use dimmit.Base.{
  ℕ, ◌≤◌, ◌≡◌, refl, Bool, true, false, Option, some, List, [], ◌∷◌, length, arith, ◌==◌,
  if◌then◌else◌,
}
use dimmit.Base.Int.{pos}
use dimmit.Ddc.{DisplayInfo, Platform}
use dimmit.Ddc.Sources.{
  source, list_sources, fill_sources, open_sources, open_source, probe, keep_answering,
  ddc_enumerate_sources,
}
use dimmit.Ddc.Identity.{Distinct, ids, CountsInt, int_limit}
use dimmit.Brightness.{brightness_enumerate}
use dimmit.Controller.{
  ManagedDisplay, DisplayController, controller_open, adopt_sources, fill_controller, open_displays,
  open_display, controller_reconcile,
}
use dimmit.Controller.Spec
use dimmit.Controller.Spec.{Call}
use dimmit.Controller.Refinement.{run}
use dimmit.Controller.Identity.{controller_open-Distinct, same_model_inherits}

abbrev twin : ℕ → DisplayInfo
twin i = record { dref = i; vendor_id = 4660; product_id = 22136; is_builtin = false }

abbrev plugged : Bool → Option (List DisplayInfo)
plugged both = if both then some (twin 0 ∷ twin 1 ∷ []) else some (twin 1 ∷ [])

-- The first shows 80 of 100 and the second 20. The state is 0 while both are there.
abbrev twins : Platform ℕ
twins = record {
  get_display_info_list = λ w. (plugged (w == 0), w);
  free_display_info_list = λ infos w. (tt, w);
  open_display = λ dref w. (some dref, w);
  close_display = λ h w. (tt, w);
  get_non_table_vcp_value = λ h feature w.
      (some (record { mh = 0; ml = 100; sh = 0; sl = if h == 0 then 80 else 20 }), w);
  set_non_table_vcp_value = λ h feature hi lo w. (true, w);
  calloc = λ w. (true, w);
}

few :
    (both : Bool) (infos : List DisplayInfo) → plugged both ≡ some infos → length infos ≤ int_limit
few true infos e = ground arith
few false infos e = ground arith

twins-CountsInt : CountsInt twins
twins-CountsInt w infos listed = few (w == 0) infos listed

opened : (c : DisplayController ℕ) × ((controller_open twins 0).0 ≡ some c)
unfolding controller_open adopt_sources fill_controller open_displays open_display
    brightness_enumerate ddc_enumerate_sources list_sources fill_sources open_sources open_source
    probe keep_answering
opened = (_, refl)

abbrev some_calls : List Call
some_calls = Spec.reconcile ∷ Spec.pass ∷ []

controller_open-Distinct_example :
    Distinct (ids (run twins some_calls opened.0 (controller_open twins 0).1).0.sources)
controller_open-Distinct_example =
    controller_open-Distinct twins some_calls opened.0 0 twins-CountsInt opened.1

abbrev first : ManagedDisplay ℕ
first = record {
  src = source twins 0 (twin 0) 0;
  dim = record { current = pos 80; max = pos 100; pending_delta = pos 0 };
}

abbrev second : ManagedDisplay ℕ
second = record {
  src = source twins 1 (twin 1) 1;
  dim = record { current = pos 20; max = pos 100; pending_delta = pos 0 };
}

abbrev both_displays : DisplayController ℕ
both_displays = record { sources = first.src ∷ second.src ∷ []; displays = first ∷ second ∷ [] }

only_second : (brightness_enumerate twins 1).0 ≡ some (source twins 0 (twin 1) 1 ∷ [])
unfolding brightness_enumerate ddc_enumerate_sources list_sources fill_sources open_sources
    open_source probe keep_answering
only_second = refl

memory_left : (twins.calloc (brightness_enumerate twins 1).1).0 ≡ true
memory_left = refl

-- The display that shows 20 is taken to show 80.
same_model_inherits_example :
    (controller_reconcile twins both_displays 1).0.displays
    ≡ record { src = source twins 0 (twin 1) 1; dim = first.dim } ∷ []
same_model_inherits_example =
    same_model_inherits twins 0 first (second ∷ []) both_displays (twin 0) (twin 1) 1 1 refl refl
      refl refl refl only_second memory_left
