-- ===== src/Ddc/Memory.antt =====
-- What is relied on of the levels that displays keep behind src/platform/ddc/implementation.h.
use dimmit.Base.{ℕ, ◌<◌, ◌^◌, ◌≡◌, ◌≢◌, true, false, Option, none, some}
use dimmit.Base.Int.{ℤ, pos}
use dimmit.Ddc.{VcpValue, Platform}
use dimmit.Ddc.Sources.{vcp_brightness, word16}

-- What a display answers.
abbrev pub reading : {W : Type 0} → Platform W → ℕ → W → Option VcpValue
reading p h w = (p.get_non_table_vcp_value h vcp_brightness w).0

-- If it answers, then this level.
abbrev pub Says : ℤ → Option VcpValue → Type 0
Says level none = Unit
Says level (some v) = pos (word16 v.sh v.sl) ≡ level

-- A display keeps its level but for a write to it that goes through, and then has the level written.
pub record Remembers {W : Type 0} (p : Platform W) : Type 0 where
  pub get_keeps :
      (h h' : ℕ) (w : W)
      → reading p h' (p.get_non_table_vcp_value h vcp_brightness w).1 ≡ reading p h' w
  pub written :
      (h hi lo : ℕ) (w : W)
      → hi < 2 ^ 8
      → lo < 2 ^ 8
      → (p.set_non_table_vcp_value h vcp_brightness hi lo w).0 ≡ true
      → Says
          (pos (word16 hi lo))
          (reading p h (p.set_non_table_vcp_value h vcp_brightness hi lo w).1)
  pub refused :
      (h hi lo : ℕ) (w : W)
      → (p.set_non_table_vcp_value h vcp_brightness hi lo w).0 ≡ false
      → reading p h (p.set_non_table_vcp_value h vcp_brightness hi lo w).1 ≡ reading p h w
  pub others :
      (h h' hi lo : ℕ) (w : W)
      → h ≢ h'
      → reading p h' (p.set_non_table_vcp_value h vcp_brightness hi lo w).1 ≡ reading p h' w
