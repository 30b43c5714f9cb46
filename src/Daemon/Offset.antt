-- ===== src/Daemon/Offset.antt =====
-- The distance between two displays of src/dimmitd.c, over any presses.
use dimmit.Base.{ℕ, ◌≡◌, ap, ◌∙◌, none, List, [], ◌∷◌, arith}
use dimmit.Base.Int.{ℤ, pos, ◌+ℤ◌, ◌-ℤ◌, ◌≤ℤ◌, int_laws}
use dimmit.Dimmer.{Fraction, dimmer_delta_for_fraction}
use dimmit.Dimmer.Knob.{Knob, turn}
use dimmit.Ddc.{Platform}
use dimmit.Ddc.Answers.{Answers}
use dimmit.Controller.{DisplayController}
use dimmit.Controller.Invariant.{IsSound}
use dimmit.Controller.Press.{at_goal}
use dimmit.Controller.Spec.{First}
use dimmit.Controller.Refinement.{view}
use dimmit.Controller.Replay.{turned, replay, GoesThrough}
use dimmit.Daemon.Threads.{waiting, Shared, started, Reach}
use dimmit.Daemon.Serial.{history}
use dimmit.Daemon.Replay.{presses, Stays, waiting-replay}

-- None of the presses takes the knob past an end of its range.
abbrev pub HasRoom : List Fraction → Knob → Type 0
HasRoom [] k = Unit
HasRoom (f ∷ fs) k =
    (pos 0 ≤ℤ k.goal +ℤ dimmer_delta_for_fraction k.top f)
    × (k.goal +ℤ dimmer_delta_for_fraction k.top f ≤ℤ k.top)
    × HasRoom fs (turned f k)

-- The sum of the steps, on a range up to `top`.
total : List Fraction → ℤ → ℤ
total [] top = pos 0
total (f ∷ fs) top = dimmer_delta_for_fraction top f +ℤ total fs top

add_zero : (a : ℤ) → a ≡ a +ℤ pos 0
add_zero a = omega int_laws

regroup : (a b c : ℤ) → a +ℤ b +ℤ c ≡ a +ℤ (b +ℤ c)
regroup a b c = omega int_laws

cancel : (a b x : ℤ) → a +ℤ x -ℤ (b +ℤ x) ≡ a -ℤ b
cancel a b x = omega int_laws

goal-turned :
    (f : Fraction) (k : Knob)
    → HasRoom (f ∷ []) k
    → (turned f k).goal ≡ k.goal +ℤ dimmer_delta_for_fraction k.top f
unfolding turned turn
goal-turned f k room = ground arith

goal-replay :
    (fs : List Fraction) (k : Knob) → HasRoom fs k → (replay fs k).goal ≡ k.goal +ℤ total fs k.top
unfolding replay total
goal-replay [] k room = add_zero k.goal
goal-replay (f ∷ fs) k room =
    goal-replay fs (turned f k) room.2
    ∙ rw (goal-turned f k (room.0, room.1, tt)) (unfold turned turn in regroup _ _ _)

replay-offset :
    (fs : List Fraction) (k k' : Knob)
    → k.top ≡ k'.top
    → HasRoom fs k
    → HasRoom fs k'
    → (replay fs k).goal -ℤ (replay fs k').goal ≡ k.goal -ℤ k'.goal
replay-offset fs k k' same room room' =
    rw (goal-replay fs k room, goal-replay fs k' room', same) (cancel k.goal k'.goal _)

module _ {W : Type 0} (p : Platform W) (writes : GoesThrough p) (answers : Answers p) where
  -- From any reachable state of the daemon's threads, whatever they do then: where the worker
  -- waits and the lock is free, the levels of two displays of one maximum, whose names are listed
  -- all the while, differ by as much as their goals did, where each has room for all the presses
  -- since, the writes go through, displays answer with bytes and the controller at the start
  -- satisfies its invariant.
  pub waiting-offset :
      (c : DisplayController W) (w : W) (start s : Shared W) (name name' : List ℕ)
      (k k' m m' : Knob)
      → IsSound p c
      → Reach p (started c w) start
      → (r : Reach p start s) → Stays name r × Stays name' r
      → First name (view start.ctrl) k × First name' (view start.ctrl) k'
      → First name (view s.ctrl) m × First name' (view s.ctrl) m'
      → k.top ≡ k'.top
      → HasRoom (presses (history r)) k × HasRoom (presses (history r)) k'
      → s.worker_at ≡ waiting
      → s.lock ≡ none
      → m.level -ℤ m'.level ≡ k.goal -ℤ k'.goal
  unfolding at_goal
  waiting-offset c w start s name name' k k' m m' sound before r stays first last same room waits
        free =
      rw (shows name k m stays.0 first.0 last.0, shows name' k' m' stays.1 first.1 last.1)
        (replay-offset (presses (history r)) k k' same room.0 room.1)
    where
      shows :
          (n : List ℕ) (a b : Knob)
          → Stays n r
          → First n (view start.ctrl) a
          → First n (view s.ctrl) b
          → b.level ≡ (replay (presses (history r)) a).goal
      shows n a b there from to = ap Knob.level (
          waiting-replay p writes answers c w start s n a b sound before r there from to waits free)
