-- ===== src/Ddc/Netbsd.antt =====
-- src/platform/ddc/netbsd.c: the backend that speaks DDC/CI over the raw I2C devices. A reference is
-- the index of its device path, and a handle its file descriptor: the brightness values that the
-- source caches in a handle are never read.
pub mod Checksum
pub mod Frames
pub mod Contract
use Prim.Native.Nat.{bit_xor}
use mathlib.Core.Option
use dimmit.Base.{
  ℕ, Bool, true, false, not, ◌&&◌, ◌||◌, Option, none, some, List, [], ◌∷◌, ◌++◌, ◌==◌,
  if◌then◌else◌, codes, get_elem?,
}
use dimmit.Base.World.{Action, pure, ◌>>=◌, ◌>>◌}
use dimmit.Ddc.{DisplayInfo, VcpValue, Platform}
use dimmit.Ddc.Sources.{vcp_brightness}

-- `DDC_ADDR` and `DDC_REPLY_ADDR`
abbrev pub ddc_addr : ℕ
ddc_addr = 0x6E

abbrev pub ddc_reply_addr : ℕ
ddc_reply_addr = 0x6F

unfoldable pub ddc_checksum : ℕ → List ℕ → ℕ
ddc_checksum chk [] = chk
ddc_checksum chk (byte ∷ data_bytes) = ddc_checksum (bit_xor chk byte) data_bytes

-- A message with its checksum in the last place.
unfoldable pub with_checksum : List ℕ → List ℕ
with_checksum bytes = bytes ++ ddc_checksum ddc_addr bytes ∷ []

unfoldable pub read_message : ℕ → List ℕ
read_message feature_code = with_checksum (0x51 ∷ 0x82 ∷ 0x01 ∷ feature_code ∷ 0x00 ∷ [])

unfoldable pub write_message : ℕ → ℕ → ℕ → List ℕ
write_message feature_code hi_byte lo_byte =
    with_checksum (0x51 ∷ 0x84 ∷ 0x03 ∷ feature_code ∷ hi_byte ∷ lo_byte ∷ [])

-- The system: `open` by the index of the path, `close`, the two operations of `I2C_IOCTL_EXEC`, and the
-- allocator. A read fills all of its buffer.
pub record Bus (W : Type 0) : Type 0 where
  pub open_device : ℕ → Action W (Option ℕ)
  pub close_device : ℕ → Action W (Unit {0})
  pub write_bytes : ℕ → List ℕ → Action W Bool
  pub read_bytes : ℕ → ℕ → Action W (Option (List ℕ))
  pub allocate : Action W Bool

-- One round of the scan: nothing there, a display, or the return with DDC_ERROR.
pub data Probed : Type 0 where
  absent : Probed
  present : DisplayInfo → Probed
  no_memory : Probed

abbrev pub device_info : ℕ → DisplayInfo
device_info i = record { dref = i; vendor_id = 0; product_id = 0; is_builtin = false }

-- The list with the rest of the scan.
unfoldable pub join : Probed → Option (List DisplayInfo) → Option (List DisplayInfo)
join absent rest = rest
join (present info) rest = Option.map (λ infos. info ∷ infos) rest
join no_memory rest = none

-- The bytes of a reply, where it is one to a read of this feature.
unfoldable pub parse_reply : ℕ → List ℕ → Option VcpValue
parse_reply feature_code (r0 ∷ r1 ∷ r2 ∷ r3 ∷ r4 ∷ r5 ∷ r6 ∷ r7 ∷ r8 ∷ r9 ∷ rest) =
    if not (r0 == ddc_reply_addr) || not (r2 == 0x02) || not (r4 == feature_code)
    then none
    else some (record { mh = r6; ml = r7; sh = r8; sl = r9 })
parse_reply feature_code _ = none

unfoldable pub read_reply : ℕ → Option (List ℕ) → Option VcpValue
read_reply feature_code none = none
read_reply feature_code (some reply) = parse_reply feature_code reply

module _ {W : Type 0} (b : Bus W) where
  -- With the answer of `malloc`.
  unfoldable pub note_display : ℕ → ℕ → Bool → Action W Probed
  note_display i fd false = do b.close_device fd; pure no_memory
  note_display i fd true = do b.close_device fd; pure (present (device_info i))

  -- With the answer of `realloc`.
  unfoldable pub grow_list : ℕ → ℕ → Bool → Action W Probed
  grow_list i fd false = do b.close_device fd; pure no_memory
  grow_list i fd true = b.allocate >>= note_display i fd

  -- With the result of the test write.
  unfoldable pub tested : ℕ → ℕ → Bool → Action W Probed
  tested i fd false = do b.close_device fd; pure absent
  tested i fd true = b.allocate >>= grow_list i fd

  unfoldable pub probe_device : ℕ → Option ℕ → Action W Probed
  probe_device i none = pure absent
  probe_device i (some fd) = b.write_bytes fd (read_message vcp_brightness) >>= tested i fd

  -- After `no_memory` the scan is over.
  unfoldable pub scan_on :
      Probed → Action W (Option (List DisplayInfo)) → Action W (Option (List DisplayInfo))
  scan_on no_memory rest = pure none
  scan_on found rest = do infos ← rest; pure (join found infos)

  unfoldable pub scan : List ℕ → Action W (Option (List DisplayInfo))
  scan [] = pure (some [])
  scan (i ∷ paths) = do fd ← b.open_device i; found ← probe_device i fd; scan_on found (scan paths)

  unfoldable pub nonempty : Option (List DisplayInfo) → Option (List DisplayInfo)
  nonempty (some []) = none
  nonempty infos = infos

  -- "/dev/iic0" to "/dev/iic3", after the allocation of the list.
  unfoldable pub scan_all : Bool → Action W (Option (List DisplayInfo))
  scan_all false = pure none
  scan_all true = do infos ← scan (0 ∷ 1 ∷ 2 ∷ 3 ∷ []); pure (nonempty infos)

  unfoldable pub netbsd_get_display_info_list : Action W (Option (List DisplayInfo))
  netbsd_get_display_info_list = b.allocate >>= scan_all

  -- With the answer of `malloc`.
  unfoldable pub make_handle : ℕ → Bool → Action W (Option ℕ)
  make_handle fd false = do b.close_device fd; pure none
  make_handle fd true = pure (some fd)

  unfoldable pub opened_device : Option ℕ → Action W (Option ℕ)
  opened_device none = pure none
  opened_device (some fd) = b.allocate >>= make_handle fd

  unfoldable pub netbsd_open_display : ℕ → Action W (Option ℕ)
  netbsd_open_display dref = b.open_device dref >>= opened_device

  -- With the result of the write of the request.
  unfoldable pub await_reply : ℕ → ℕ → Bool → Action W (Option VcpValue)
  await_reply h feature_code false = pure none
  await_reply h feature_code true = do
    reply ← b.read_bytes h 12
    pure (read_reply feature_code reply)

  unfoldable pub netbsd_get_non_table_vcp_value : ℕ → ℕ → Action W (Option VcpValue)
  netbsd_get_non_table_vcp_value h feature_code =
      b.write_bytes h (read_message feature_code) >>= await_reply h feature_code

  unfoldable pub netbsd_set_non_table_vcp_value : ℕ → ℕ → ℕ → ℕ → Action W Bool
  netbsd_set_non_table_vcp_value h feature_code hi_byte lo_byte =
      b.write_bytes h (write_message feature_code hi_byte lo_byte)

  abbrev pub netbsd_platform : Platform W
  netbsd_platform = record {
    get_display_info_list = netbsd_get_display_info_list;
    free_display_info_list = λ infos. pure tt;
    open_display = netbsd_open_display;
    close_display = b.close_device;
    get_non_table_vcp_value = netbsd_get_non_table_vcp_value;
    set_non_table_vcp_value = netbsd_set_non_table_vcp_value;
    calloc = b.allocate;
  }
