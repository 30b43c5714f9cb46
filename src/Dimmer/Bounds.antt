-- ===== src/Dimmer/Bounds.antt =====
-- Bounds of the state machine (src/dimmer.c), and its operations without the wrap of `int`.
use dimmit.Base.{ℕ, ◌-◌, ◌^◌, ◌≡◌, ◌⊎◌, none, some, arith, if◌then◌else◌}
use dimmit.Base.Int.{
  ℤ, eqb_ℤ, pos, negsuc, ◌+ℤ◌, ◌-ℤ◌, ◌≤ℤ◌, int_laws, int32, int32_lem, +ℤ_parts, eq_of_parts,
}
use dimmit.Dimmer.{Dimmer, clamp_brightness, dimmer_adjust, dimmer_due, dimmer_commit}

-- What two VCP bytes can say.
abbrev pub level_limit : ℕ
level_limit = 2 ^ 16 - 1

abbrev pub IsLevel : ℤ → Type 0
IsLevel z = (pos 0 ≤ℤ z) × (z ≤ℤ pos level_limit)

-- A step that the daemon may ask for.
abbrev pub IsStep : ℤ → Type 0
IsStep z = (negsuc (2 ^ 30) ≤ℤ z) × (z ≤ℤ pos (2 ^ 30))

-- Where the pending change would take the display.
abbrev pub goal : Dimmer → ℤ
goal d = d.current +ℤ d.pending_delta

-- What holds of every dimmer of the daemon: its values are levels, and the goal is one that the
-- display can show, or nothing is pending (a display may report a current level above its
-- maximum).
pub record IsReady (d : Dimmer) : Type 0 where
  pub current_level : IsLevel d.current
  pub max_level : IsLevel d.max
  pub goal_level : IsLevel (goal d)
  pub reachable : (goal d ≤ℤ d.max) ⊎ (d.pending_delta ≡ pos 0)

pub clamp_bounds :
    (value max : ℤ)
    → pos 0 ≤ℤ max
    → (pos 0 ≤ℤ clamp_brightness value max) × (clamp_brightness value max ≤ℤ max)
unfolding clamp_brightness
clamp_bounds value max h = ground arith

-- A value within the range is left alone.
pub clamp-eq : (value max : ℤ) → pos 0 ≤ℤ value → value ≤ℤ max → clamp_brightness value max ≡ value
unfolding clamp_brightness
clamp-eq value max lo hi = ground arith

pub pending-IsStep : {d : Dimmer} → IsReady d → IsStep d.pending_delta
pending-IsStep {d} s = omega int_laws

-- With values in bounds `dimmer_adjust` computes its exact specification.
pub dimmer_adjust_lem :
    (d : Dimmer) (delta : ℤ)
    → IsReady d
    → IsStep delta
    → dimmer_adjust d delta
      ≡ record d { pending_delta = clamp_brightness (goal d +ℤ delta) d.max -ℤ d.current }
unfolding dimmer_adjust
dimmer_adjust_lem d delta s step = rw (inner, outer, last)
  where
    inner : int32 (d.current +ℤ d.pending_delta) ≡ d.current +ℤ d.pending_delta
    inner = int32_lem (goal d) (omega arith) (omega arith)

    outer : int32 (goal d +ℤ delta) ≡ goal d +ℤ delta
    outer = int32_lem (goal d +ℤ delta) (omega int_laws) (omega int_laws)

    last :
        int32 (clamp_brightness (goal d +ℤ delta) d.max -ℤ d.current)
        ≡ clamp_brightness (goal d +ℤ delta) d.max -ℤ d.current
    last =
        let range = clamp_bounds (goal d +ℤ delta) d.max s.max_level.0 in
        int32_lem _ (omega int_laws) (omega int_laws)

pub dimmer_commit_lem :
    (d : Dimmer) (applied : ℤ)
    → IsReady d
    → IsLevel applied
    → dimmer_commit d applied
      ≡ record d { pending_delta = d.pending_delta -ℤ (applied -ℤ d.current); current = applied }
unfolding dimmer_commit
dimmer_commit_lem d applied s level = rw (inner, outer)
  where
    inner : int32 (applied -ℤ d.current) ≡ applied -ℤ d.current
    inner = int32_lem _ (omega int_laws) (omega int_laws)

    outer :
        int32 (d.pending_delta -ℤ (applied -ℤ d.current))
        ≡ d.pending_delta -ℤ (applied -ℤ d.current)
    outer = int32_lem _ (omega int_laws) (omega int_laws)

-- With values in bounds the test of `dimmer_due` is on the goal.
pub dimmer_due_lem :
    (d : Dimmer)
    → IsReady d
    → dimmer_due d ≡ (if eqb_ℤ (goal d) d.current then none else some (goal d))
unfolding dimmer_due clamp_brightness
dimmer_due_lem d s =
    rw inner (ground (arith, +ℤ_parts d.current d.pending_delta, eq_of_parts (goal d) d.current))
  where
    inner : int32 (d.current +ℤ d.pending_delta) ≡ d.current +ℤ d.pending_delta
    inner = int32_lem (goal d) (omega arith) (omega arith)
