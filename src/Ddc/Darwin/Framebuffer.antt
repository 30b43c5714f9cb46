-- ===== src/Ddc/Darwin/Framebuffer.antt =====
-- `resolve_framebuffer` of src/platform/ddc/darwin/ddcctl.c, with what it notes and logs, and the
-- checksum of src/platform/ddc/darwin.c.
use Prim.Native.Nat.{bit_xor}
use dimmit.Base.{
  ℕ, zero, suc, ◌+◌, ◌-◌, ◌≤◌, ◌<◌, ◌≡◌, refl, Bool, not, ◌&&◌, Option, none, some, List, [], ◌∷◌,
  get_elem?, take, drop, length, ◌==◌, if◌then◌else◌, arith,
}
use dimmit.Ddc.Netbsd.{ddc_checksum}

-- `struct DDC_Display_Handle_s`
pub record Handle : Type 0 where
  pub display_id : ℕ
  pub last_seen : ℕ

-- With the port that the display has: whether a change is logged, and the handle after it. The
-- result of the function is the port.
unfoldable pub resolve_framebuffer : Handle → ℕ → Bool × Handle
resolve_framebuffer h fb = (
  not (fb == 0) && not (h.last_seen == 0) && not (fb == h.last_seen),
  if fb == 0 then h else record h { last_seen = fb },
)

unfoldable pub at_byte : Option ℕ → (ℕ → Option ℕ) → Option ℕ
at_byte none next = none
at_byte (some byte) next = next byte

-- The loop: from the byte at an index, so many bytes; `none` past the end of the data.
unfoldable pub xor_bytes : ℕ → List ℕ → ℕ → ℕ → Option ℕ
xor_bytes chk bytes i zero = some chk
xor_bytes chk bytes i (suc left) =
    at_byte (get_elem? bytes i) (λ byte. xor_bytes (bit_xor chk byte) bytes (suc i) left)

unfoldable pub ddc_arch_checksum : ℕ → List ℕ → ℕ → ℕ → Option ℕ
ddc_arch_checksum chk bytes start end = xor_bytes chk bytes start (end + 1 - start)

drop-get_elem? :
    (bytes : List ℕ) (i : ℕ)
    → i < length bytes
    → (byte : ℕ) × (get_elem? bytes i ≡ some byte) × (drop i bytes ≡ byte ∷ drop (suc i) bytes)
drop-get_elem? [] i h = absurd (omega arith)
drop-get_elem? (byte ∷ bytes) zero h = (byte, refl, refl)
drop-get_elem? (byte ∷ bytes) (suc i) h = drop-get_elem? bytes i (omega arith)

xor_bytes-ddc_checksum :
    (left chk : ℕ) (bytes : List ℕ) (i : ℕ)
    → i + left ≤ length bytes
    → xor_bytes chk bytes i left ≡ some (ddc_checksum chk (take left (drop i bytes)))
unfolding xor_bytes ddc_checksum at_byte
xor_bytes-ddc_checksum zero chk bytes i h = refl
xor_bytes-ddc_checksum (suc left) chk bytes i h =
    let (byte, found, split) = drop-get_elem? bytes i (omega arith) in
    rw (found, split) (xor_bytes-ddc_checksum left (bit_xor chk byte) bytes (suc i) (omega arith))

pub ddc_arch_checksum-ddc_checksum :
    (chk : ℕ) (bytes : List ℕ) (start end : ℕ)
    → start ≤ end
    → end < length bytes
    → ddc_arch_checksum chk bytes start end
      ≡ some (ddc_checksum chk (take (end + 1 - start) (drop start bytes)))
unfolding ddc_arch_checksum
ddc_arch_checksum-ddc_checksum chk bytes start end h k =
    xor_bytes-ddc_checksum (end + 1 - start) chk bytes start (omega arith)
