-- ===== src/Input/Windows.antt =====
-- src/platform/input/windows.c: the decoding of the brightness keys, over the calls of the system.
pub mod Memory
pub mod Steps
pub mod Threads
use dimmit.Base.{
  ℕ, zero, suc, ◌+◌, ◌*◌, ◌-◌, ◌^◌, Bool, true, false, not, ◌&&◌, Option, none, some, List, [], ◌∷◌,
  take, drop, leb, ◌==◌, if◌then◌else◌,
}
use dimmit.Base.Int.{pos, negsuc}
use dimmit.Base.World.{Action, pure, ◌>>=◌, ◌>>◌}
use dimmit.Dimmer.{Fraction}
use dimmit.Input.{brightness_up_usage, brightness_down_usage}

-- `RAWINPUT`: whether `dwType` is RIM_TYPEHID, the device, and the HID reports, one after another.
pub record RawReport : Type 0 where
  pub is_hid : Bool
  pub device : ℕ
  pub count : ℕ
  pub size_hid : ℕ
  pub raw_data : List ℕ

-- The messages of the window, by the cases of `wnd_proc`.
pub data Message : Type 0 where
  raw_input : ℕ → Message
  destroy : Message
  other_message : ℕ → Message

-- The calls. A query of a size answers with its result and the size; `read_raw_input` with its result,
-- the size after it and the buffer; `read_device_info` with its result and the preparsed data, which
-- are a number here. `list_usages` is `HidP_GetUsages` on a list of at most so many usages, `none`
-- where it does not succeed. `malloc` answers whether it gives a block.
pub record RawInput (W : Type 0) : Type 0 where
  pub raw_input_size : ℕ → Action W (ℕ × ℕ)
  pub read_raw_input : ℕ → ℕ → Action W (ℕ × ℕ × RawReport)
  pub device_info_size : ℕ → Action W (ℕ × ℕ)
  pub read_device_info : ℕ → ℕ → Action W (ℕ × ℕ)
  pub max_usage_list_length : ℕ → Action W ℕ
  pub list_usages : ℕ → ℕ → List ℕ → Action W (Option (List ℕ))
  pub malloc : ℕ → Action W Bool
  pub free : Action W (Unit {0})
  pub on_adjust : Fraction → Action W (Unit {0})
  pub post_quit_message : Action W (Unit {0})
  pub def_window_proc : Message → Action W ℕ

-- The step of a usage of the Consumer page.
unfoldable pub usage_step : ℕ → Option Fraction
usage_step usage =
    if usage == brightness_up_usage
    then some (record { num = pos 1; exp = 4 })
    else if usage == brightness_down_usage
    then some (record { num = negsuc 0; exp = 4 })
    else none

-- `sizeof(stackbuf)`
abbrev pub stackbuf_size : ℕ
stackbuf_size = 256

-- The report at an index.
unfoldable pub report_at : RawReport → ℕ → List ℕ
report_at ri r = take ri.size_hid (drop (r * ri.size_hid) ri.raw_data)

module _ {W : Type 0} (calls : RawInput W) where
  unfoldable pub press : Option Fraction → Action W (Unit {0})
  press none = pure tt
  press (some f) = calls.on_adjust f

  -- The loop over the usages. `registered` says that `g_on_adjust` is set, which does not change
  -- while the thread runs.
  unfoldable pub press_usages : Bool → List ℕ → Action W (Unit {0})
  press_usages false usages = pure tt
  press_usages true [] = pure tt
  press_usages true (usage ∷ usages) = press (usage_step usage) >> press_usages true usages

  -- With the answer of `HidP_GetUsages`.
  unfoldable pub press_report : Bool → Option (List ℕ) → Action W (Unit {0})
  press_report registered none = pure tt
  press_report registered (some usages) = press_usages registered usages

  -- The loop over the reports: how many are left, and the index.
  unfoldable pub read_reports : Bool → ℕ → ℕ → RawReport → ℕ → ℕ → Action W (Unit {0})
  read_reports registered maxus pp ri zero r = pure tt
  read_reports registered maxus pp ri (suc left) r = do
    usages ← calls.list_usages maxus pp (report_at ri r)
    press_report registered usages
    read_reports registered maxus pp ri left (r + 1)

  -- With the answer of the allocation of the usages, of two bytes each.
  unfoldable pub usages_allocated : Bool → ℕ → ℕ → RawReport → Bool → Action W (Unit {0})
  usages_allocated registered maxus pp ri false = pure tt
  usages_allocated registered maxus pp ri true =
      read_reports registered maxus pp ri ri.count 0 >> calls.free

  -- With the answer of `HidP_MaxUsageListLength`.
  unfoldable pub usages_counted : Bool → ℕ → RawReport → ℕ → Action W (Unit {0})
  usages_counted registered pp ri zero = pure tt
  usages_counted registered pp ri (suc n) =
      calls.malloc (suc n * 2) >>= usages_allocated registered (suc n) pp ri

  -- With the preparsed data, unless the result is (UINT)-1.
  unfoldable pub device_read : Bool → RawReport → ℕ × ℕ → Action W (Unit {0})
  device_read registered ri got =
      if got.0 == 2 ^ 32 - 1
      then pure tt
      else (calls.max_usage_list_length got.1 >>= usages_counted registered got.1 ri)

  -- With the answer of the allocation of the preparsed data, up to `out_pp:`.
  unfoldable pub device_allocated : Bool → RawReport → ℕ → Bool → Action W (Unit {0})
  device_allocated registered ri ppsize false = pure tt
  device_allocated registered ri ppsize true =
      calls.read_device_info ri.device ppsize >>= device_read registered ri >> calls.free

  -- With the size of the preparsed data.
  unfoldable pub device_sized : Bool → RawReport → ℕ × ℕ → Action W (Unit {0})
  device_sized registered ri sized =
      if sized.0 == 0 && not (sized.1 == 0)
      then (calls.malloc sized.1 >>= device_allocated registered ri sized.1)
      else pure tt

  -- With the buffer.
  unfoldable pub input_read : Bool → ℕ × ℕ × RawReport → Action W (Unit {0})
  input_read registered got =
      if got.0 == got.1 && got.2.is_hid
      then (calls.device_info_size got.2.device >>= device_sized registered got.2)
      else pure tt

  -- From the buffer on, which is on the stack or on the heap, up to `out_buf:`.
  unfoldable pub buffer_allocated : Bool → ℕ → ℕ → Bool → Action W (Unit {0})
  buffer_allocated registered hri size false = pure tt
  buffer_allocated registered hri size true =
      calls.read_raw_input hri size >>= input_read registered >> calls.free

  unfoldable pub input_sized : Bool → ℕ → ℕ × ℕ → Action W (Unit {0})
  input_sized registered hri sized =
      if not (sized.0 == 0 && not (sized.1 == 0))
      then pure tt
      else if leb sized.1 stackbuf_size
      then (calls.read_raw_input hri sized.1 >>= input_read registered)
      else (calls.malloc sized.1 >>= buffer_allocated registered hri sized.1)

  unfoldable pub handle_raw_input : Bool → ℕ → Action W (Unit {0})
  handle_raw_input registered hri = calls.raw_input_size hri >>= input_sized registered hri

  unfoldable pub wnd_proc : Bool → Message → Action W ℕ
  wnd_proc registered (raw_input hri) = handle_raw_input registered hri >> pure 0
  wnd_proc registered destroy = calls.post_quit_message >> pure 0
  wnd_proc registered (other_message n) = calls.def_window_proc (other_message n)
