-- ===== src/Ddc.antt =====
-- src/platform/ddc/implementation.h: what a DDC backend offers. The backend is chosen by the build,
-- so the abstraction takes it as a record of calls; with it comes the allocator of C.
pub mod Format
pub mod Sources
pub mod Handles
pub mod Origin
pub mod Answers
pub mod Memory
pub mod Identity
pub mod Linux
pub mod Darwin
pub mod Netbsd
pub mod Windows
pub mod Mock
use dimmit.Base.{ℕ, Bool, Option, List}
use dimmit.Base.World.{Action}

-- `DDC_Display_Info`; a `DDC_Display_Ref` is the number `dref`.
pub record DisplayInfo : Type 0 where
  pub dref : ℕ
  pub vendor_id : ℕ  -- uint32_t
  pub product_id : ℕ  -- uint32_t
  pub is_builtin : Bool

-- `DDC_Non_Table_Vcp_Value`, four uint8_t
pub record VcpValue : Type 0 where
  pub mh : ℕ
  pub ml : ℕ
  pub sh : ℕ
  pub sl : ℕ

-- The six functions `ddc_implementation_…`, and `calloc`. `none` and `false` are DDC_ERROR, and for
-- `calloc` a NULL.
pub record Platform (W : Type 0) : Type 0 where
  pub get_display_info_list : Action W (Option (List DisplayInfo))
  pub free_display_info_list : List DisplayInfo → Action W (Unit {0})
  pub open_display : ℕ → Action W (Option ℕ)
  pub close_display : ℕ → Action W (Unit {0})
  pub get_non_table_vcp_value : ℕ → ℕ → Action W (Option VcpValue)
  pub set_non_table_vcp_value : ℕ → ℕ → ℕ → ℕ → Action W Bool
  pub calloc : Action W Bool
