-- ===== src/Ddc/Mock/Memory.antt =====
-- The simulated displays (src/platform/ddc/in_memory_mock.c) keep their levels.
use dimmit.Base.{ℕ, ◌<◌, ◌^◌, ◌≡◌, ◌≢◌, refl, true, false, Bool-cases, inl, inr, arith}
use dimmit.Base.Int.{pos}
use dimmit.Ddc.Sources.{vcp_brightness, word16}
use dimmit.Ddc.Origin.{level_round_trip}
use dimmit.Ddc.Memory.{reading, Says, Remembers}
use dimmit.Ddc.Mock.Laws.{update_self}
use dimmit.Ddc.Mock.{Mock, mock_get_vcp, mock_set_vcp, mock_platform}

written_lem :
    (h hi lo : ℕ) (m : Mock)
    → hi < 2 ^ 8
    → lo < 2 ^ 8
    → (mock_set_vcp h vcp_brightness hi lo m).0 ≡ true
    → Says (pos (word16 hi lo)) (reading mock_platform h (mock_set_vcp h vcp_brightness hi lo m).1)
unfolding mock_set_vcp mock_get_vcp
written_lem h hi lo m small_hi small_lo ok = elim (Bool-cases (m.fail h)) [
  | inl fails ↦ cc (rw fails at ok)
  | inr takes ↦ rw (takes, update_self) (level_round_trip (pos (word16 hi lo)) (omega arith))
]

refused_lem :
    (h hi lo : ℕ) (m : Mock)
    → (mock_set_vcp h vcp_brightness hi lo m).0 ≡ false
    → reading mock_platform h (mock_set_vcp h vcp_brightness hi lo m).1 ≡ reading mock_platform h m
unfolding mock_set_vcp mock_get_vcp
refused_lem h hi lo m failed = ground arith

others_lem :
    (h h' hi lo : ℕ) (m : Mock)
    → h ≢ h'
    → reading mock_platform h' (mock_set_vcp h vcp_brightness hi lo m).1
      ≡ reading mock_platform h' m
unfolding mock_set_vcp mock_get_vcp
others_lem h h' hi lo m ne = ground arith

get_lem :
    (h h' : ℕ) (m : Mock)
    → reading mock_platform h' (mock_get_vcp h vcp_brightness m).1 ≡ reading mock_platform h' m
unfolding mock_get_vcp
get_lem h h' m = refl

pub mock_platform-Remembers : Remembers mock_platform
mock_platform-Remembers = record {
  get_keeps = get_lem;
  written = written_lem;
  refused = refused_lem;
  others = others_lem;
}
