-- ===== src/Source.antt =====
-- src/brightness.h: the types of a brightness source. `W` is the world outside: displays, buses and
-- the allocator.
use dimmit.Base.{ℕ, Bool, Option, List}
use dimmit.Base.Int.{ℤ}
use dimmit.Base.World.{Action}

-- `get` returns the current and the maximal level; `none` and `false` are nonzero results. The only
-- operations that the program builds (DDC_OPS) have all three members, so none is NULL.
pub record BrightnessOps (W : Type 0) : Type 0 where
  pub get : ℕ → Action W (Option (ℤ × ℤ))
  pub set : ℕ → ℤ → Action W Bool
  pub close : ℕ → Action W (Unit {0})

-- `ctx` names the provider's state of one display; `id` is the key for reconcile.
pub record BrightnessSource (W : Type 0) : Type 0 where
  pub ops : BrightnessOps W
  pub ctx : ℕ
  pub id : List ℕ
  pub label : List ℕ
