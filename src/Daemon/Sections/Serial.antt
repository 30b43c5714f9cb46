-- ===== src/Daemon/Sections/Serial.antt =====
-- The critical sections of src/dimmitd.c come to the same as calls of src/display_controller.c one
-- after another.
use dimmit.Base.{◌≡◌, refl, sym, ap, ◌∙◌, some, List, [], ◌∷◌, ◌++◌, All}
use dimmit.Ddc.{Platform}
use dimmit.Ddc.Answers.{Answers}
use dimmit.Controller.{
  DisplayController, controller_open, controller_adjust, controller_service, controller_reconcile,
}
use dimmit.Controller.Spec
use dimmit.Controller.Spec.{Call, DoesAll}
use dimmit.Controller.Refinement.{view, run, run-then, controller_open-DoesAll}
use dimmit.Daemon.Threads.{Client}
use dimmit.Daemon.Presses.{IsSixteenth, Press-IsSixteenth, Press-IsFraction}
use dimmit.Daemon.Sections
use dimmit.Daemon.Sections.{
  Job, ClientPlace, copied, serving, Sections, written, served, Move, begun, Moves, here, next,
}
use dimmit.Daemon.Sections.Order.{Orderly, Moves-Orderly}

-- The call that a client enters for.
unfoldable call : {c : Client} → Job c → Call
call (Sections.press f from) = Spec.press f (Press-IsFraction from)
call Sections.reconcile = Spec.reconcile

-- A press is by one sixteenth.
abbrev pub BySixteenth : Call → Type 0
BySixteenth (Spec.press f small) = IsSixteenth f
BySixteenth Spec.pass = Unit
BySixteenth Spec.reconcile = Unit

All-append : (a b : List Call) → All BySixteenth a → All BySixteenth b → All BySixteenth (a ++ b)
All-append [] b h k = k
All-append (x ∷ a) b h k = (h.0, All-append a b h.1 k)

call-BySixteenth : {c : Client} (job : Job c) → BySixteenth (call job)
unfolding call
call-BySixteenth (Sections.press f from) = Press-IsSixteenth from
call-BySixteenth Sections.reconcile = tt

module _ {W : Type 0} (p : Platform W) where
  written-run :
      (s : Sections W) (c : Client) (job : Job c) (copy : DisplayController W)
      → copy ≡ s.ctrl
      → run p (call job ∷ []) s.ctrl s.world
        ≡ ((written p job copy s).ctrl, (written p job copy s).world)
  unfolding call written run
  written-run s c (Sections.press f from) copy e =
      ap (λ x. (controller_adjust x f, s.world)) (sym e)
  written-run s c Sections.reconcile copy e = ap (λ x. controller_reconcile p x s.world) (sym e)

  served-run :
      (s : Sections W) (copy : DisplayController W)
      → copy ≡ s.ctrl
      → run p (Spec.pass ∷ []) s.ctrl s.world ≡ ((served copy s).ctrl, (served copy s).world)
  unfolding served run
  served-run s copy e =
      ap (λ x. ((controller_service x s.world).0.0, (controller_service x s.world).1)) (sym e)

module _ {W : Type 0} {p : Platform W} where
  -- The call that a write ends.
  unfoldable ended : {s s' : Sections W} → Move p s s' → List Call
  ended (Sections.write s c job copy place) = call job ∷ []
  ended (Sections.worker_pass s copy place due) = Spec.pass ∷ []
  ended (Sections.worker_wait s copy place idle) = Spec.pass ∷ []
  ended _ = []

  -- The calls on the way to a state, in the order of their writes.
  pub writes : {start s : Sections W} → Moves p start s → List Call
  writes here = []
  writes (next r move) = writes r ++ ended move

  ended-run :
      {s s' : Sections W} (move : Move p s s')
      → Orderly s
      → run p (ended move) s.ctrl s.world ≡ (s'.ctrl, s'.world)
  unfolding ended run
  ended-run (Sections.enter s c job free place) o = refl
  ended-run (Sections.read s c job place) o = refl
  ended-run (Sections.write s c job copy place) o =
      written-run p s c job copy (rw place at (o.client_current c))
  ended-run (Sections.signal s c place) o = refl
  ended-run (Sections.unlock s c place) o = refl
  ended-run (Sections.stop s) o = refl
  ended-run (Sections.worker_lock s free place) o = refl
  ended-run (Sections.worker_read s runs place) o = refl
  ended-run (Sections.worker_pass s copy place due) o =
      served-run p s copy (rw place at o.worker_current)
  ended-run (Sections.worker_wait s copy place idle) o =
      served-run p s copy (rw place at o.worker_current)
  ended-run (Sections.worker_wake s place) o = refl
  ended-run (Sections.worker_return s stopped place) o = refl

  ended-BySixteenth : {s s' : Sections W} (move : Move p s s') → All BySixteenth (ended move)
  unfolding ended
  ended-BySixteenth (Sections.write s c job copy place) = (call-BySixteenth job, tt)
  ended-BySixteenth (Sections.worker_pass s copy place due) = (tt, tt)
  ended-BySixteenth (Sections.worker_wait s copy place idle) = (tt, tt)
  ended-BySixteenth (Sections.enter s c job free place) = tt
  ended-BySixteenth (Sections.read s c job place) = tt
  ended-BySixteenth (Sections.signal s c place) = tt
  ended-BySixteenth (Sections.unlock s c place) = tt
  ended-BySixteenth (Sections.stop s) = tt
  ended-BySixteenth (Sections.worker_lock s free place) = tt
  ended-BySixteenth (Sections.worker_read s runs place) = tt
  ended-BySixteenth (Sections.worker_wake s place) = tt
  ended-BySixteenth (Sections.worker_return s stopped place) = tt

  writes-BySixteenth : {start s : Sections W} (r : Moves p start s) → All BySixteenth (writes r)
  unfolding writes
  writes-BySixteenth here = tt
  writes-BySixteenth (next r move) =
      All-append (writes r) (ended move) (writes-BySixteenth r) (ended-BySixteenth move)

module _ {W : Type 0} (p : Platform W) where
  writes-run :
      (c : DisplayController W) (w : W) {s : Sections W} (r : Moves p (begun c w) s)
      → run p (writes r) c w ≡ (s.ctrl, s.world)
  unfolding writes run begun
  writes-run c w here = refl
  writes-run c w (next r move) =
      run-then p (writes r) (ended move) _ _ _ _ (writes-run c w r)
      ∙ ended-run move (Moves-Orderly p c w r)

  -- Where a thread reads the controller in one step of its critical section and writes its own
  -- result back in another, and the other threads act in between, the controller and the world
  -- are, in every state, those that the presses, passes and reconciles give that were written
  -- back, in that order, one after another without threads: the lock lets no write be lost. Every
  -- press is by one sixteenth, and, where displays answer with bytes and the controller is from
  -- `controller_open`, the knobs change only as Spec allows these calls to change them.
  pub sections-DoesAll :
      (answers : Answers p) (w : W) (c : DisplayController W) (s : Sections W)
      → (controller_open p w).0 ≡ some c
      → (r : Moves p (begun c (controller_open p w).1) s)
      → (run p (writes r) c (controller_open p w).1 ≡ (s.ctrl, s.world))
        × All BySixteenth (writes r)
        × DoesAll (writes r) (view c) (view s.ctrl)
  sections-DoesAll answers w c s found r = (
    serial,
    writes-BySixteenth r,
    rw serial at (controller_open-DoesAll p answers (writes r) c w found).1,
  )
    where
      serial : run p (writes r) c (controller_open p w).1 ≡ (s.ctrl, s.world)
      serial = writes-run c (controller_open p w).1 r
