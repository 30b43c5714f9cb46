-- ===== src/Ddc/Mock/Laws.antt =====
-- Writes to and reads of the simulated displays (src/platform/ddc/in_memory_mock.c).
use dimmit.Base.{ℕ, zero, suc, ◌≤◌, ◌<◌, ◌≡◌, ◌≢◌, refl, true, false, some, arith, ==_refl}
use dimmit.Base.Int.{ℤ, pos}
use dimmit.Dimmer.Bounds.{IsLevel}
use dimmit.Ddc.Sources.{ddc_src_get, ddc_src_set}
use dimmit.Ddc.Origin.{level_round_trip}
use dimmit.Ddc.Mock.{
  mock_max_displays, Mock, update, copy_first, display_count, mock_reset, mock_set_fail,
  mock_current, mock_get_vcp, mock_set_vcp, mock_platform,
}

pub update_self {ℓ} : {A : Type ℓ} (f : ℕ → A) (i : ℕ) (v : A) → update f i v i ≡ v
update_self f i v = rw (==_refl i)

-- On the simulated display that does not fail, a written level is read back with the display's
-- maximum, for level and maximum of 16 bits.
pub mock_set-get :
    (m : Mock) (i : ℕ) (level : ℤ)
    → IsLevel level
    → IsLevel (m.max i)
    → m.fail i ≡ false
    → ((ddc_src_set mock_platform i level m).0 ≡ true)
      × ((ddc_src_get mock_platform i (ddc_src_set mock_platform i level m).1).0
          ≡ some (level, m.max i))
unfolding ddc_src_set ddc_src_get mock_set_vcp mock_get_vcp
mock_set-get m i level l top ok =
    simp (ok, update_self, level_round_trip level l, level_round_trip (m.max i) top) (refl, refl)

-- A write to one display, accepted or not, leaves every other as it was.
pub mock_set-others :
    (m : Mock) (i j : ℕ) (level : ℤ)
    → i ≢ j
    → mock_current (ddc_src_set mock_platform i level m).1 (pos j) ≡ mock_current m (pos j)
unfolding ddc_src_set mock_set_vcp mock_current
mock_set-others m i j level ne = ground arith

-- A simulated display of an index below 8 that is set to fail refuses every write and keeps its
-- level.
pub mock_set_fail-refuses :
    (m : Mock) (i : ℕ) (level : ℤ)
    → i < mock_max_displays
    → ((ddc_src_set mock_platform i level (mock_set_fail (pos i) true m)).0 ≡ false)
      × (mock_current (ddc_src_set mock_platform i level (mock_set_fail (pos i) true m)).1 (pos i)
          ≡ mock_current m (pos i))
unfolding ddc_src_set mock_set_vcp mock_current mock_set_fail
mock_set_fail-refuses m i level h = ground arith

display_count-lem : (n : ℕ) → n ≤ mock_max_displays → display_count (pos n) ≡ n
unfolding display_count
display_count-lem n h = ground arith

copy_first-lem :
    {A : Type 0} (n : ℕ) (src dst : ℕ → A) (i : ℕ) → i < n → copy_first n src dst i ≡ src i
unfolding copy_first
copy_first-lem zero src dst i h = absurd (omega arith)
copy_first-lem (suc n) src dst i h = ground (arith, copy_first-lem n src dst i)

-- After `mock_reset` the displays have the given levels, as many as asked for up to eight, and none
-- fails.
pub mock_reset-lem :
    (m : Mock) (n : ℕ) (currents maxes : ℕ → ℤ) (i : ℕ)
    → n ≤ mock_max_displays
    → i < n
    → (mock_current (mock_reset (pos n) currents maxes m) (pos i) ≡ currents i)
      × ((mock_reset (pos n) currents maxes m).max i ≡ maxes i)
      × ((mock_reset (pos n) currents maxes m).fail i ≡ false)
unfolding mock_current mock_reset
mock_reset-lem m n currents maxes i few h = rw (display_count-lem n few) (
  ground (arith, copy_first-lem n currents m.current i),
  copy_first-lem n maxes m.max i h,
  copy_first-lem n (λ _. false) m.fail i h,
)
