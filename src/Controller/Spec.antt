-- ===== src/Controller/Spec.antt =====
-- What src/display_controller.c promises, whatever is called in whatever order: a list of knobs with
-- names, and how a press, a pass and a reconcile change it.
use dimmit.Base.{ℕ, ◌≡◌, ◌≢◌, ◌⊎◌, List, [], ◌∷◌, map, All}
use dimmit.Dimmer.{Fraction, dimmer_delta_for_fraction}
use dimmit.Dimmer.Steps.{IsFraction}
use dimmit.Dimmer.Knob.{Knob, turn, given_up}
use dimmit.Controller.Press.{at_goal}

-- A display from outside: the id of its source, and its knob.
pub record Named : Type 0 where
  pub name : List ℕ
  pub knob : Knob

-- A press by a fraction turns the knob by that fraction of its own range.
unfoldable pub pressed : Fraction → Named → Named
pressed f n = record n { knob = turn (dimmer_delta_for_fraction n.knob.top f) n.knob }

-- A pass moves the level to the goal, or gives the goal up.
abbrev pub Settles : Named → Named → Type 0
Settles n n' = (n'.name ≡ n.name) × ((n'.knob ≡ at_goal n.knob) ⊎ (n'.knob ≡ given_up n.knob))

pub data EachSettles : List Named → List Named → Type 0 where
  nil : EachSettles [] []
  cons :
      {n n' : Named} {ns ns' : List Named}
      → Settles n n'
      → EachSettles ns ns'
      → EachSettles (n ∷ ns) (n' ∷ ns')

-- The first knob of a name.
pub data First (name : List ℕ) : List Named → Knob → Type 0 where
  here : {n : Named} {ns : List Named} → name ≡ n.name → First name (n ∷ ns) n.knob
  there :
      {n : Named} {ns : List Named} {k : Knob}
      → name ≢ n.name
      → First name ns k
      → First name (n ∷ ns) k

abbrev pub Resting : Named → Type 0
Resting n = n.knob.goal ≡ n.knob.level

-- After a reconcile a knob is the one of its name before it, or its name is new and it rests.
abbrev pub Renewed : List Named → Named → Type 0
Renewed ns n = First n.name ns n.knob ⊎ (All (λ m. n.name ≢ m.name) ns × Resting n)

pub data Call : Type 0 where
  press : (f : Fraction) → IsFraction f → Call
  pass : Call
  reconcile : Call

-- What a call may do.
pub data Does : Call → List Named → List Named → Type 0 where
  turns :
      {f : Fraction} {small : IsFraction f} {ns ns' : List Named}
      → ns' ≡ map (pressed f) ns
      → Does (press f small) ns ns'
  settles : {ns ns' : List Named} → EachSettles ns ns' → Does pass ns ns'
  fails : (ns : List Named) → Does reconcile ns ns
  renews : {ns ns' : List Named} → All (Renewed ns) ns' → Does reconcile ns ns'

pub data DoesAll : List Call → List Named → List Named → Type 0 where
  done : {ns : List Named} → DoesAll [] ns ns
  next :
      {call : Call} {calls : List Call} {ns ns' ns'' : List Named}
      → Does call ns ns'
      → DoesAll calls ns' ns''
      → DoesAll (call ∷ calls) ns ns''
