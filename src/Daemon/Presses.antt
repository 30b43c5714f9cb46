-- ===== src/Daemon/Presses.antt =====
-- The fractions that reach `adjust_fraction` of src/dimmitd.c.
use dimmit.Base.{
  ℕ, ◌≡◌, ◌⊎◌, inl, inr, refl, Bool, true, false, Option, none, some, List, [], ◌∷◌, arith,
  if◌then◌else◌, ◌==◌, not,
}
use dimmit.Base.Int.{ℤ, pos, negsuc, eqb_ℤ}
use dimmit.Dimmer.{Fraction}
use dimmit.Dimmer.Steps.{IsFraction}
use dimmit.Command.{recv, parse_received, read_command, c_string, cut_newline, line_limit}
use dimmit.Command.Wire.{parse_command-cases}
use dimmit.Input.{value_cb, consumer_page, brightness_up_usage, brightness_down_usage}
use dimmit.Input.Windows.{usage_step}
use dimmit.Daemon.{serve, socket_fraction}
use dimmit.Daemon.Threads.{Press, request, key, usage_key, Client}

-- A sixteenth up or down.
abbrev pub IsSixteenth : Fraction → Type 0
IsSixteenth f = ((f.num ≡ pos 1) ⊎ (f.num ≡ negsuc 0)) × (f.exp ≡ 4)

parsed :
    (got : Option (List ℕ))
    → (parse_received got ≡ pos 0) ⊎ (parse_received got ≡ pos 1) ⊎ (parse_received got ≡ negsuc 0)
unfolding parse_received
parsed none = inl refl
parsed (some []) = inl refl
parsed (some (c ∷ cs)) = elim (parse_command-cases (c_string (cut_newline (c ∷ cs)))) [
  | inl up ↦ inr (inl up.0)
  | inr (inl down) ↦ inr (inr down.0)
  | inr (inr neither) ↦ inl neither.0
]

abbrev SixteenthIfAny : Option Fraction → Type 0
SixteenthIfAny none = Unit
SixteenthIfAny (some f) = IsSixteenth f

either :
    (test : Bool) (x y : Option Fraction)
    → SixteenthIfAny x
    → SixteenthIfAny y
    → SixteenthIfAny (if test then x else y)
either true x y h k = h
either false x y h k = k

serve-sixteenth :
    (authorized : Bool) (arrived : Option (List ℕ)) → SixteenthIfAny (serve authorized arrived)
unfolding serve socket_fraction read_command
serve-sixteenth false arrived = tt
serve-sixteenth true arrived = elim (parsed (recv line_limit arrived)) [
  | inl neither ↦ rw neither tt
  | inr (inl up) ↦ rw up (inl refl, refl)
  | inr (inr down) ↦ rw down (inr refl, refl)
]

value_cb-sixteenth :
    (registered : Bool) (value : ℤ) (page usage : ℕ)
    → SixteenthIfAny (value_cb registered value page usage)
unfolding value_cb
value_cb-sixteenth registered value page usage = either (eqb_ℤ value (pos 0)) _ _ tt (
    either (not (page == consumer_page)) _ _ tt (
      either (not registered) _ _ tt (
        either (usage == brightness_up_usage) _ _ (inl refl, refl)
          (either (usage == brightness_down_usage) _ _ (inr refl, refl) tt))))

usage_step-sixteenth : (usage : ℕ) → SixteenthIfAny (usage_step usage)
unfolding usage_step
usage_step-sixteenth usage =
    either (usage == brightness_up_usage) _ _ (inl refl, refl)
      (either (usage == brightness_down_usage) _ _ (inr refl, refl) tt)

-- Every step that a request on the socket or a brightness key causes is by one sixteenth, up or
-- down.
pub Press-IsSixteenth : {c : Client} {f : Fraction} → Press c f → IsSixteenth f
Press-IsSixteenth (request authorized arrived f e) = rw e at (serve-sixteenth authorized arrived)
Press-IsSixteenth (usage_key usage f e) = rw e at (usage_step-sixteenth usage)
Press-IsSixteenth (key registered value page usage f e) =
    rw e at (value_cb-sixteenth registered value page usage)

pub Press-IsFraction : {c : Client} {f : Fraction} → Press c f → IsFraction f
Press-IsFraction {f = f} press = elim (Press-IsSixteenth press).0 [
  | inl up ↦ rw up (omega arith)
  | inr down ↦ rw down (omega arith)
]
