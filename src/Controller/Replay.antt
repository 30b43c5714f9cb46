-- ===== src/Controller/Replay.antt =====
-- Presses one after another on the knob of a name (src/display_controller.c): what stays of it
-- whatever passes and reconciles come between them.
use dimmit.Base.{ℕ, ◌≡◌, ◌≢◌, true, inl, inr, refl, sym, ap, ◌∙◌, List, [], ◌∷◌, ◌++◌, map, All}
use dimmit.Dimmer.{Fraction, dimmer_delta_for_fraction}
use dimmit.Dimmer.Knob.{Knob, knob, turn, dimmer_due-eq-wanted}
use dimmit.Ddc.{Platform}
use dimmit.Ddc.Sources.{ddc_src_set}
use dimmit.Ddc.Origin.{IsDdc}
use dimmit.Controller.{ManagedDisplay, DisplayController, controller_service, controller_reconcile}
use dimmit.Controller.Service.{
  AllServiced, nil, cons, DisplayReady, NotDue, controller_service-AllServiced,
}
use dimmit.Controller.Press.{at_goal, Writes, Serviced-at_goal, wanted-none}
use dimmit.Controller.Reconcile.{sources_of}
use dimmit.Controller.Invariant.{IsSound}
use dimmit.Controller.Spec.{
  Named, First, here, there, Renewed, pressed, Does, reconcile, fails, renews,
}
use dimmit.Controller.Refinement.{named, view, Serviced-Settles, reconcile-Does}

-- A press of a knob by a fraction of its range.
unfoldable pub turned : Fraction → Knob → Knob
turned f k = turn (dimmer_delta_for_fraction k.top f) k

-- The presses, the first one first.
unfoldable pub replay : List Fraction → Knob → Knob
replay [] k = k
replay (f ∷ fs) k = replay fs (turned f k)

pub replay-append :
    (fs gs : List Fraction) (k : Knob) → replay (fs ++ gs) k ≡ replay gs (replay fs k)
unfolding replay
replay-append [] gs k = refl
replay-append (f ∷ fs) gs k = replay-append fs gs (turned f k)

-- Where presses lead does not depend on the level.
replay-forgets :
    (fs : List Fraction) (k : Knob) → at_goal (replay fs k) ≡ at_goal (replay fs (at_goal k))
unfolding replay at_goal turned turn
replay-forgets [] k = refl
replay-forgets (f ∷ fs) k =
    replay-forgets fs (turned f k) ∙ sym (replay-forgets fs (turned f (at_goal k)))

pub replay-same :
    (fs : List Fraction) (k m : Knob)
    → at_goal k ≡ at_goal m
    → at_goal (replay fs k) ≡ at_goal (replay fs m)
replay-same fs k m e =
    replay-forgets fs k ∙ ap (λ x. at_goal (replay fs x)) e ∙ sym (replay-forgets fs m)

pub First-unique :
    {name : List ℕ} {ns : List Named} {k m : Knob} → First name ns k → First name ns m → k ≡ m
First-unique (here e) (here e') = refl
First-unique (here e) (there ne f) = absurd (ne e)
First-unique (there ne f) (here e) = absurd (ne e)
First-unique (there ne f) (there ne' f') = First-unique f f'

-- A press keeps the names.
pub First-pressed :
    {name : List ℕ} {ns : List Named} {k : Knob} (f : Fraction)
    → First name ns k
    → First name (map (pressed f) ns) (turned f k)
unfolding pressed turned
First-pressed f (here e) = here e
First-pressed f (there ne rest) = there ne (First-pressed f rest)

-- A listed name is not new.
not-new :
    {name : List ℕ} {ns : List Named} {k : Knob}
    → First name ns k
    → All (λ (m : Named). name ≢ m.name) ns
    → ⊥
not-new (here e) h = h.0 e
not-new (there ne f) h = not-new f h.1

renamed :
    {name name' : List ℕ} {ns : List Named} {k : Knob}
    → name ≡ name'
    → First name ns k
    → First name' ns k
renamed e f = rw e at f

First-Renewed :
    {name : List ℕ} {ns ns' : List Named} {k m : Knob}
    → All (Renewed ns) ns'
    → First name ns k
    → First name ns' m
    → m ≡ k
First-Renewed h f (there ne f') = First-Renewed h.1 f f'
First-Renewed h f (here e) = elim h.0 [
  | inl kept ↦ First-unique kept (renamed e f)
  | inr (new, rests) ↦ absurd (not-new (renamed e f) new)
]

-- A name that is listed on both sides of a reconcile keeps its knob.
First-kept :
    {name : List ℕ} {ns ns' : List Named} {k m : Knob}
    → Does reconcile ns ns'
    → First name ns k
    → First name ns' m
    → m ≡ k
First-kept (fails ns) f f' = First-unique f' f
First-kept (renews h) f f' = First-Renewed h f f'

-- Every write of the backend goes through.
abbrev pub GoesThrough : {W : Type 0} → Platform W → Type 0
GoesThrough {W = W} p =
    (h feature hi lo : ℕ) (w : W) → (p.set_non_table_vcp_value h feature hi lo w).0 ≡ true

found_here :
    {name : List ℕ} {n : Named} {ns : List Named} {k : Knob}
    → name ≡ n.name
    → n.knob ≡ k
    → First name (n ∷ ns) k
found_here e same = rw (← same) (here e)

module _ {W : Type 0} where
  First-AllServiced :
      {name : List ℕ} {ds ds' : List (ManagedDisplay W)} {n : ℕ} {k : Knob}
      → AllServiced ds ds' n
      → All Writes ds
      → First name (map named ds) k
      → First name (map named ds') (at_goal k)
  unfolding named
  First-AllServiced nil writes f = elim f [ ]
  First-AllServiced (cons one rest count) writes (here e) =
      found_here (e ∙ sym (Serviced-Settles one).0) (Serviced-at_goal one writes.0)
  First-AllServiced (cons one rest count) writes (there ne f) =
      there (λ e. ne (e ∙ (Serviced-Settles one).0)) (First-AllServiced rest writes.1 f)

  pub First-NotDue :
      {name : List ℕ} (ds : List (ManagedDisplay W)) {k : Knob}
      → All DisplayReady ds
      → All NotDue ds
      → First name (map named ds) k
      → k ≡ at_goal k
  unfolding named
  First-NotDue [] ready idle f = elim f [ ]
  First-NotDue (d ∷ ds) ready idle (here e) =
      wanted-none (knob d.dim) (sym (dimmer_due-eq-wanted d.dim ready.0) ∙ idle.0)
  First-NotDue (d ∷ ds) ready idle (there ne f) = First-NotDue ds ready.1 idle.1 f

module _ {W : Type 0} (p : Platform W) (writes : GoesThrough p) where
  ddc-Writes : (ds : List (ManagedDisplay W)) → All (IsDdc p) (sources_of ds) → All Writes ds
  unfolding ddc_src_set
  ddc-Writes [] h = tt
  ddc-Writes (d ∷ ds) h = (λ target w. rw h.0 (writes _ _ _ _ w), ddc-Writes ds h.1)

  -- A pass whose writes go through keeps the names and shows the goals.
  pub First-pass :
      {name : List ℕ} {k : Knob} (c : DisplayController W) (w : W)
      → IsSound p c
      → First name (view c) k
      → First name (view (controller_service c w).0.0) (at_goal k)
  First-pass c w sound =
      First-AllServiced (controller_service-AllServiced c w sound.ready)
        (ddc-Writes c.displays (rw (← sound.parallel) at sound.ddc))

  pub First-reconcile :
      {name : List ℕ} {k m : Knob} (c : DisplayController W) (w : W)
      → IsSound p c
      → First name (view c) k
      → First name (view (controller_reconcile p c w).0) m
      → m ≡ k
  First-reconcile c w sound = First-kept (reconcile-Does p c w sound)
