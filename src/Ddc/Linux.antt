-- ===== src/Ddc/Linux.antt =====
-- src/platform/ddc/linux.c: the backend over libddcutil, which is a record of calls. A wrapper
-- struct is identified with the reference or handle that it holds.
pub mod Contract
pub mod Eisa
use mathlib.Core.Option
use dimmit.Base.{
  ℕ, ◌+◌, ◌-◌, ◌*◌, ◌^◌, Bool, true, false, ◌&&◌, Option, none, some, List, [], ◌∷◌, leb, ◌==◌,
  if◌then◌else◌,
}
use dimmit.Base.World.{Action, pure, ◌>>=◌, ◌>>◌}
use dimmit.Ddc.{DisplayInfo, VcpValue, Platform}

-- What the program reads of a `DDCA_Display_Info`; `mfg_id` is the bytes before the terminating zero.
pub record DdcaInfo : Type 0 where
  pub dref : ℕ
  pub mfg_id : List ℕ
  pub product_code : ℕ

-- libddcutil and the allocator. Of the list call, the status and the pointer; of the others `none` and
-- `false` are a nonzero status, and for `malloc` a NULL.
pub record Ddcutil (W : Type 0) : Type 0 where
  pub get_display_info_list2 : Action W (Bool × Option (List DdcaInfo))
  pub free_display_info_list : List DdcaInfo → Action W (Unit {0})
  pub open_display2 : ℕ → Action W (Option ℕ)
  pub close_display : ℕ → Action W (Unit {0})
  pub get_non_table_vcp_value : ℕ → ℕ → Action W (Option VcpValue)
  pub set_non_table_vcp_value : ℕ → ℕ → ℕ → ℕ → Action W Bool
  pub malloc : Action W Bool

-- C's `toupper` on a byte.
abbrev pub toupper : ℕ → ℕ
toupper c = if leb b'a' c && leb c b'z' then c - 32 else c

-- `toupper(c) - 'A' + 1`; where that is negative this is 0, which is as well below 1.
unfoldable pub letter_number : ℕ → ℕ
letter_number c = toupper c + 1 - b'A'

unfoldable pub is_letter_number : ℕ → Bool
is_letter_number a = leb 1 a && leb a 26

-- The bits of the three numbers do not overlap, so they add up.
unfoldable pub eisa_id_from_mfg : List ℕ → ℕ
eisa_id_from_mfg (c0 ∷ c1 ∷ c2 ∷ rest) =
    let a = letter_number c0 in
    let b = letter_number c1 in
    let c = letter_number c2 in
    if is_letter_number a && is_letter_number b && is_letter_number c
    then a * 2 ^ 10 + b * 2 ^ 5 + c
    else 0
eisa_id_from_mfg _ = 0

unfoldable pub linux_info : DdcaInfo → DisplayInfo
linux_info info = record {
  dref = info.dref;
  vendor_id = eisa_id_from_mfg info.mfg_id;
  product_id = info.product_code;
  is_builtin = false;
}

module _ {W : Type 0} (u : Ddcutil W) where
  -- The loop over the list; `none` where a wrapper cannot be allocated.
  unfoldable pub wrap_infos : List DdcaInfo → Action W (Option (List DisplayInfo))
  wrap_infos [] = pure (some [])
  wrap_infos (info ∷ infos) = do
    allocated ← u.malloc
    rest ← (if allocated then wrap_infos infos else pure none)
    pure (Option.map (λ more. linux_info info ∷ more) rest)

  -- From the allocation of the entries on, with its answer.
  unfoldable pub copy_entries : List DdcaInfo → Bool → Action W (Option (List DisplayInfo))
  copy_entries dl false = do u.free_display_info_list dl; pure none
  copy_entries dl true = do out ← wrap_infos dl; u.free_display_info_list dl; pure out

  -- From the allocation of the list on, with its answer.
  unfoldable pub copy_list : List DdcaInfo → Bool → Action W (Option (List DisplayInfo))
  copy_list dl false = do u.free_display_info_list dl; pure none
  copy_list dl true = u.malloc >>= copy_entries dl

  unfoldable pub refuse_list : Option (List DdcaInfo) → Action W (Option (List DisplayInfo))
  refuse_list none = pure none
  refuse_list (some dl) = do u.free_display_info_list dl; pure none

  -- With the status and the list of libddcutil.
  unfoldable pub check_list : Bool → Option (List DdcaInfo) → Action W (Option (List DisplayInfo))
  check_list true (some (info ∷ infos)) = u.malloc >>= copy_list (info ∷ infos)
  check_list _ dl = refuse_list dl

  unfoldable pub linux_get_display_info_list : Action W (Option (List DisplayInfo))
  linux_get_display_info_list = do (ok, dl) ← u.get_display_info_list2; check_list ok dl

  unfoldable pub linux_free_display_info_list : List DisplayInfo → Action W (Unit {0})
  linux_free_display_info_list infos = pure tt

  -- After a successful open, with the answer of the allocator.
  unfoldable pub wrap_handle : ℕ → Bool → Action W (Option ℕ)
  wrap_handle dh true = pure (some dh)
  wrap_handle dh false = do u.close_display dh; pure none

  unfoldable pub wrap_opened : Option ℕ → Action W (Option ℕ)
  wrap_opened none = pure none
  wrap_opened (some dh) = u.malloc >>= wrap_handle dh

  unfoldable pub linux_open_display : ℕ → Action W (Option ℕ)
  linux_open_display dref = u.open_display2 dref >>= wrap_opened

  abbrev pub linux_platform : Platform W
  linux_platform = record {
    get_display_info_list = linux_get_display_info_list;
    free_display_info_list = linux_free_display_info_list;
    open_display = linux_open_display;
    close_display = u.close_display;
    get_non_table_vcp_value = u.get_non_table_vcp_value;
    set_non_table_vcp_value = u.set_non_table_vcp_value;
    calloc = u.malloc;
  }
