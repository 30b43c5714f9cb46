-- ===== src/Ddc/Windows.antt =====
-- src/platform/ddc/windows.c: the backend over the Monitor Configuration API, which is a record of
-- calls. A reference and a handle are identified with the physical monitor that they hold.
pub mod Collect
pub mod Levels
pub mod Allocations
pub mod Growth
pub mod Contract
pub mod Monitors
use mathlib.Core.Option
use dimmit.Base.{
  ℕ, zero, suc, ◌+◌, ◌*◌, ◌/◌, ◌%◌, ◌^◌, Bool, true, false, Option, none, some, List, [], ◌∷◌, ◌++◌,
  length, ◌==◌, if◌then◌else◌,
}
use dimmit.Base.World.{Action, pure, ◌>>=◌, ◌>>◌}
use dimmit.Ddc.{DisplayInfo, VcpValue, Platform}
use dimmit.Ddc.Sources.{word16}

-- `display_monitors` are the monitors for which `EnumDisplayMonitors` calls back, in order. `none` and
-- `false` are FALSE, and of the allocator NULL. A reply is the
-- current and the maximal value. The allocations and frees of handles are calls of their own.
pub record Dxva (W : Type 0) : Type 0 where
  pub display_monitors : Action W (List ℕ)
  pub number_of_physical : ℕ → Action W (Option ℕ)
  pub physical_monitors : ℕ → ℕ → Action W (Option (List ℕ))
  pub vcp_reply : ℕ → ℕ → Action W (Option (ℕ × ℕ))
  pub set_vcp_feature : ℕ → ℕ → ℕ → Action W Bool
  pub destroy_physical : ℕ → Action W (Unit {0})
  pub allocate : Action W Bool
  pub malloc_handle : Action W Bool
  pub free_handle : Action W (Unit {0})

-- `mon_accum_t`; `count` is the length of `handles`.
pub record Accum : Type 0 where
  pub handles : List ℕ
  pub capacity : ℕ

-- `acc->capacity ? acc->capacity * 2 : 4`
unfoldable pub grown : ℕ → ℕ
grown zero = 4
grown (suc n) = suc n * 2

abbrev pub append : ℕ → Accum → Accum
append h acc = record acc { handles = acc.handles ++ h ∷ [] }

module _ {W : Type 0} (d : Dxva W) where
  -- The array with room for one more; `none` where it cannot grow.
  unfoldable pub make_room : Accum → Action W (Option Accum)
  make_room acc =
      if length acc.handles == acc.capacity
      then (d.allocate >>= λ ok.
          pure (if ok then some (record acc { capacity = grown acc.capacity }) else none))
      else pure (some acc)

  unfoldable pub grow_and : Option Accum → Accum → (Accum → Action W Accum) → Action W Accum
  grow_and none acc next = pure acc
  grow_and (some roomy) acc next = next roomy

  -- The loop over the physical monitors; without room it breaks off.
  unfoldable pub push_monitors : List ℕ → Accum → Action W Accum
  push_monitors [] acc = pure acc
  push_monitors (h ∷ monitors) acc = do
    room ← make_room acc
    grow_and room acc (λ roomy. push_monitors monitors (append h roomy))

  -- With the answer of `GetPhysicalMonitorsFromHMONITOR`.
  unfoldable pub push_found : Accum → Option (List ℕ) → Action W Accum
  push_found acc none = pure acc
  push_found acc (some monitors) = push_monitors monitors acc

  -- With the answer of `calloc`.
  unfoldable pub get_physical : ℕ → ℕ → Accum → Bool → Action W Accum
  get_physical hmon n acc false = pure acc
  get_physical hmon n acc true = d.physical_monitors hmon n >>= push_found acc

  -- With the number of monitors.
  unfoldable pub numbered : ℕ → Accum → Option ℕ → Action W Accum
  numbered hmon acc none = pure acc
  numbered hmon acc (some zero) = pure acc
  numbered hmon acc (some (suc n)) = d.allocate >>= get_physical hmon (suc n) acc

  unfoldable pub collect_monitors : ℕ → Accum → Action W Accum
  collect_monitors hmon acc = d.number_of_physical hmon >>= numbered hmon acc

  -- `EnumDisplayMonitors`: the callback on each.
  unfoldable pub collect_all : List ℕ → Accum → Action W Accum
  collect_all [] acc = pure acc
  collect_all (hmon ∷ hmons) acc = do acc' ← collect_monitors hmon acc; collect_all hmons acc'

  -- The loop over the handles; `none` where a reference cannot be allocated.
  unfoldable pub windows_infos : List ℕ → Action W (Option (List DisplayInfo))
  windows_infos [] = pure (some [])
  windows_infos (h ∷ handles) = do
    allocated ← d.allocate
    rest ← (if allocated then windows_infos handles else pure none)
    pure (
        Option.map
          (λ infos. record { dref = h; vendor_id = 0; product_id = 0; is_builtin = false } ∷ infos)
          rest)

  -- With the answers of the allocations of the list.
  unfoldable pub entries_allocated : List ℕ → Bool → Action W (Option (List DisplayInfo))
  entries_allocated handles false = pure none
  entries_allocated handles true = windows_infos handles

  unfoldable pub list_allocated : List ℕ → Bool → Action W (Option (List DisplayInfo))
  list_allocated handles false = pure none
  list_allocated handles true = d.allocate >>= entries_allocated handles

  unfoldable pub list_collected : List ℕ → Action W (Option (List DisplayInfo))
  list_collected [] = pure none
  list_collected (h ∷ handles) = d.allocate >>= list_allocated (h ∷ handles)

  unfoldable pub windows_get_display_info_list : Action W (Option (List DisplayInfo))
  windows_get_display_info_list = do
    hmons ← d.display_monitors
    acc ← collect_all hmons (record { handles = []; capacity = 0 })
    list_collected acc.handles

  unfoldable pub windows_open_display : ℕ → Action W (Option ℕ)
  windows_open_display dref = d.malloc_handle >>= λ ok. pure (if ok then some dref else none)

  -- The low 16 bits of the two values.
  abbrev pub reply_bytes : ℕ × ℕ → VcpValue
  reply_bytes v = record {
    mh = v.1 / 2 ^ 8 % 2 ^ 8;
    ml = v.1 % 2 ^ 8;
    sh = v.0 / 2 ^ 8 % 2 ^ 8;
    sl = v.0 % 2 ^ 8;
  }

  unfoldable pub windows_close_display : ℕ → Action W (Unit {0})
  windows_close_display h = d.destroy_physical h >> d.free_handle

  unfoldable pub windows_get_non_table_vcp_value : ℕ → ℕ → Action W (Option VcpValue)
  windows_get_non_table_vcp_value h feature_code =
      d.vcp_reply h feature_code >>= λ reply. pure (Option.map reply_bytes reply)

  unfoldable pub windows_set_non_table_vcp_value : ℕ → ℕ → ℕ → ℕ → Action W Bool
  windows_set_non_table_vcp_value h feature_code hi_byte lo_byte =
      d.set_vcp_feature h feature_code (word16 hi_byte lo_byte)

  abbrev pub windows_platform : Platform W
  windows_platform = record {
    get_display_info_list = windows_get_display_info_list;
    free_display_info_list = λ infos. pure tt;
    open_display = windows_open_display;
    close_display = windows_close_display;
    get_non_table_vcp_value = windows_get_non_table_vcp_value;
    set_non_table_vcp_value = windows_set_non_table_vcp_value;
    calloc = d.allocate;
  }
