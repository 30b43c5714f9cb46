-- ===== src/Input/Windows/Steps.antt =====
-- The steps that `handle_raw_input` of src/platform/input/windows.c passes on.
use dimmit.Base.{
  ℕ, zero, suc, ◌+◌, ◌^◌, ◌-◌, ◌≡◌, ◌≢◌, true, Option, none, some, List, [], ◌∷◌, ◌++◌,
}
use dimmit.Dimmer.{Fraction}
use dimmit.Input.Windows.{RawReport, RawInput, usage_step, report_at, device_read, device_sized}

-- What is passed to `on_adjust`: that call adds its step, and no other call changes the list.
pub record Records {W : Type 0} (calls : RawInput W) : Type 0 where
  pub heard : W → List Fraction
  pub adjust_adds : (f : Fraction) (w : W) → heard (calls.on_adjust f w).1 ≡ heard w ++ f ∷ []
  pub malloc_keeps : (n : ℕ) (w : W) → heard (calls.malloc n w).1 ≡ heard w
  pub free_keeps : (w : W) → heard (calls.free w).1 ≡ heard w
  pub input_size_keeps : (hri : ℕ) (w : W) → heard (calls.raw_input_size hri w).1 ≡ heard w
  pub input_keeps : (hri n : ℕ) (w : W) → heard (calls.read_raw_input hri n w).1 ≡ heard w
  pub device_size_keeps : (dev : ℕ) (w : W) → heard (calls.device_info_size dev w).1 ≡ heard w
  pub device_keeps : (dev n : ℕ) (w : W) → heard (calls.read_device_info dev n w).1 ≡ heard w
  pub max_keeps : (pp : ℕ) (w : W) → heard (calls.max_usage_list_length pp w).1 ≡ heard w
  pub usages_keep :
      (n pp : ℕ) (report : List ℕ) (w : W) → heard (calls.list_usages n pp report w).1 ≡ heard w

-- A message whose every query is answered: its buffer of `size` bytes, the preparsed data of its
-- device, and the usages of each of its reports, where they can be read.
pub record Answered {W : Type 0} (calls : RawInput W) (hri : ℕ) : Type 0 where
  pub size : ℕ
  pub ri : RawReport
  pub pp_size : ℕ
  pub pp : ℕ
  pub max_usages : ℕ
  pub usages : List ℕ → Option (List ℕ)
  pub is_sized : (w : W) → (calls.raw_input_size hri w).0 ≡ (0, suc size)
  pub is_read : (w : W) → (calls.read_raw_input hri (suc size) w).0 ≡ (suc size, suc size, ri)
  pub is_hid : ri.is_hid ≡ true
  pub device_sized : (w : W) → (calls.device_info_size ri.device w).0 ≡ (0, suc pp_size)
  pub device_read :
      (w : W) → (calls.read_device_info ri.device (suc pp_size) w).0 ≡ (suc pp_size, pp)
  pub pp_size_bound : suc pp_size ≢ 2 ^ 32 - 1
  pub is_counted : (w : W) → (calls.max_usage_list_length pp w).0 ≡ suc max_usages
  pub usages_read :
      (report : List ℕ) (w : W) → (calls.list_usages (suc max_usages) pp report w).0 ≡ usages report
  pub allocates : (n : ℕ) (w : W) → (calls.malloc n w).0 ≡ true

-- A report that cannot be read has no usages.
unfoldable pub found_usages : Option (List ℕ) → List ℕ
found_usages none = []
found_usages (some usages) = usages

-- The usages of the reports from an index on, in order.
unfoldable pub all_usages : (List ℕ → Option (List ℕ)) → RawReport → ℕ → ℕ → List ℕ
all_usages usages ri zero r = []
all_usages usages ri (suc left) r =
    found_usages (usages (report_at ri r)) ++ all_usages usages ri left (r + 1)

unfoldable pub add_step : Option Fraction → List Fraction → List Fraction
add_step none steps = steps
add_step (some f) steps = f ∷ steps

-- The steps of the brightness keys among the usages.
unfoldable pub key_steps : List ℕ → List Fraction
key_steps [] = []
key_steps (usage ∷ usages) = add_step (usage_step usage) (key_steps usages)

module _ {W : Type 0} (calls : RawInput W) (t : Records calls) where
  open t use {
    heard, adjust_adds, malloc_keeps, free_keeps, input_size_keeps, input_keeps, device_size_keeps,
    device_keeps, max_keeps, usages_keep,
  }

  module _ {hri : ℕ} (a : Answered calls hri) where
    -- The steps of the message.
    abbrev message_steps : List Fraction
    message_steps = key_steps (all_usages a.usages a.ri a.ri.count 0)
