-- ===== src/Daemon/Serial.antt =====
-- The calls on the controller of src/display_controller.c that the steps of the threads of
-- src/dimmitd.c make.
use dimmit.Base.{List, [], ◌∷◌, ◌++◌}
use dimmit.Ddc.{Platform}
use dimmit.Controller.Spec
use dimmit.Controller.Spec.{Call, DoesAll}
use dimmit.Daemon.Threads.{
  Shared, Step, adjust, signal, unlock, reconcile, stop, worker_lock, worker_pass, worker_wait,
  worker_wake, worker_return, Reach, here, next,
}
use dimmit.Daemon.Presses.{Press-IsFraction}

-- The call on the controller that a step makes, if any.
unfoldable pub made : {W : Type 0} {p : Platform W} {s s' : Shared W} → Step p s s' → List Call
made (adjust s c f press free place) = Spec.press f (Press-IsFraction press) ∷ []
made (signal s c place) = []
made (unlock s c place) = []
made (reconcile s free place) = Spec.reconcile ∷ []
made (stop s) = []
made (worker_lock s free place) = []
made (worker_pass s runs place due) = Spec.pass ∷ []
made (worker_wait s runs place idle) = Spec.pass ∷ []
made (worker_wake s place) = []
made (worker_return s stopped place) = []

-- The calls on the way to a state, in order.
unfoldable pub history :
    {W : Type 0} {p : Platform W} {start s : Shared W} → Reach p start s → List Call
history here = []
history (next r step) = history r ++ made step
