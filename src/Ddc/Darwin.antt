-- ===== src/Ddc/Darwin.antt =====
-- src/platform/ddc/darwin.c: the backend of macOS, over the calls of CoreGraphics and of the allocator
-- and over the part that depends on the processor (src/platform/ddc/darwin/arch.h), which Intel and
-- Silicon implement.
pub mod Intel
pub mod Silicon
pub mod Writes
pub mod Contract
pub mod Processors
pub mod Framebuffer
use dimmit.Base.{ℕ, Bool, true, false, Option, none, some, List, [], ◌∷◌, ltb, if◌then◌else◌}
use dimmit.Base.World.{Action, pure, ◌>>=◌}
use dimmit.Ddc.{DisplayInfo, VcpValue, Platform}
use dimmit.Ddc.Sources.{word16}

-- What CoreGraphics says of a display; `dref` carries the same.
pub record CgDisplay : Type 0 where
  pub display_id : ℕ
  pub vendor_number : ℕ
  pub model_number : ℕ
  pub builtin : Bool

-- `none` of `online_list` is a failure or a count of 0. `is_builtin` is the field of a reference.
pub record CoreGraphics (W : Type 0) : Type 0 where
  pub online_list : Action W (Option (List CgDisplay))
  pub is_builtin : ℕ → Bool
  pub malloc : Action W Bool

-- The functions of arch.h, on pointers that are not NULL. An open takes the id of the display.
pub record Arch (W : Type 0) : Type 0 where
  pub ddc_arch_open : ℕ → Action W (Option ℕ)
  pub ddc_arch_close : ℕ → Action W (Unit {0})
  pub ddc_arch_get_vcp : ℕ → ℕ → Action W (Option VcpValue)
  pub ddc_arch_set_vcp : ℕ → ℕ → ℕ → ℕ → Action W Bool

unfoldable pub darwin_info : CgDisplay → DisplayInfo
darwin_info d = record {
  dref = d.display_id;
  vendor_id = d.vendor_number;
  product_id = d.model_number;
  is_builtin = d.builtin;
}

module _ {W : Type 0} (cg : CoreGraphics W) where
  -- The loop: a display whose reference cannot be allocated is left out.
  unfoldable pub collect : List CgDisplay → Action W (List DisplayInfo)
  collect [] = pure []
  collect (d ∷ ds) = do
    allocated ← cg.malloc
    infos ← collect ds
    pure (if allocated then darwin_info d ∷ infos else infos)

  -- With the answer of the second allocation.
  unfoldable pub list_entries : List CgDisplay → Bool → Action W (Option (List DisplayInfo))
  list_entries ds false = pure none
  list_entries ds true = do infos ← collect ds; pure (some infos)

  -- With the answer of the first.
  unfoldable pub list_struct : List CgDisplay → Bool → Action W (Option (List DisplayInfo))
  list_struct ds false = pure none
  list_struct ds true = cg.malloc >>= list_entries ds

  unfoldable pub list_online : Option (List CgDisplay) → Action W (Option (List DisplayInfo))
  list_online none = pure none
  list_online (some ds) = cg.malloc >>= list_struct ds

  unfoldable pub darwin_get_display_info_list : Action W (Option (List DisplayInfo))
  darwin_get_display_info_list = cg.online_list >>= list_online

module _ {W : Type 0} (arch : Arch W) where
  unfoldable pub darwin_set_non_table_vcp_value : ℕ → ℕ → ℕ → ℕ → Action W Bool
  darwin_set_non_table_vcp_value h feature_code hi_byte lo_byte =
      if ltb 100 (word16 hi_byte lo_byte)
      then pure false
      else arch.ddc_arch_set_vcp h feature_code hi_byte lo_byte

module _ {W : Type 0} (cg : CoreGraphics W) (arch : Arch W) where
  unfoldable pub darwin_open_display : ℕ → Action W (Option ℕ)
  darwin_open_display display_id =
      if cg.is_builtin display_id then pure none else arch.ddc_arch_open display_id

  abbrev pub darwin_platform : Platform W
  darwin_platform = record {
    get_display_info_list = darwin_get_display_info_list cg;
    free_display_info_list = λ infos. pure tt;
    open_display = darwin_open_display;
    close_display = arch.ddc_arch_close;
    get_non_table_vcp_value = arch.ddc_arch_get_vcp;
    set_non_table_vcp_value = darwin_set_non_table_vcp_value arch;
    calloc = cg.malloc;
  }
