-- ===== src/Tests/Inputs.antt =====
-- Runs of the decoding of the brightness keys (src/platform/input/windows.c), and inputs for the
-- theorems.
use dimmit.Base.{
  ℕ, zero, suc, ◌+◌, ◌-◌, ◌≡◌, refl, true, false, Option, none, some, List, [], ◌∷◌, ◌++◌, arith,
}
use dimmit.Base.Int.{pos, negsuc}
use dimmit.Dimmer.{Fraction}
use dimmit.Input.Windows.{RawReport, RawInput, handle_raw_input, usage_step, report_at}
use dimmit.Input.Windows.Memory.{CountsBlocks, handle_raw_input-blocks}
use dimmit.Input.Windows.Steps.{Records, Answered, all_usages, found_usages, key_steps, add_step}

-- A device whose reports of one byte name a usage each, `1` the key up, `2` the key down and another.
abbrev usages_of : List ℕ → Option (List ℕ)
usages_of (suc zero ∷ []) = some (0x6F ∷ [])
usages_of (suc (suc zero) ∷ []) = some (0x70 ∷ 0xE9 ∷ [])
usages_of _ = none

abbrev three_reports : RawReport
three_reports = record {
  is_hid = true;
  device = 7;
  count = 3;
  size_hid = 1;
  raw_data = 1 ∷ 0 ∷ 2 ∷ [];
}

-- The blocks that are allocated, and the steps that were passed on.
abbrev Recorder : Type 0
Recorder = ℕ × List Fraction

-- The report takes 300 bytes, more than the buffer on the stack.
abbrev recording : RawInput Recorder
recording = record {
  raw_input_size = λ hri w. ((0, 300), w);
  read_raw_input = λ hri n w. ((n, n, three_reports), w);
  device_info_size = λ dev w. ((0, 40), w);
  read_device_info = λ dev n w. ((n, 9), w);
  max_usage_list_length = λ pp w. (4, w);
  list_usages = λ n pp report w. (usages_of report, w);
  malloc = λ n w. (true, (w.0 + 1, w.1));
  free = λ w. (tt, (w.0 - 1, w.1));
  on_adjust = λ f w. (tt, (w.0, w.1 ++ f ∷ []));
  post_quit_message = λ w. (tt, w);
  def_window_proc = λ m w. (1, w);
}

never_null : (n : ℕ) (w : Recorder) → (recording.malloc n w).0 ≡ false → w.0 + 1 ≡ w.0
never_null n w e = cc

abbrev recording_blocks : CountsBlocks recording
recording_blocks = record {
  blocks = λ w. w.0;
  malloc_true = λ n w e. refl;
  malloc_false = never_null;
  free_one = λ w. refl;
  input_size_keeps = λ hri w. refl;
  input_keeps = λ hri n w. refl;
  device_size_keeps = λ dev w. refl;
  device_keeps = λ dev n w. refl;
  max_keeps = λ pp w. refl;
  usages_keep = λ n pp report w. refl;
  adjust_keeps = λ f w. refl;
}

abbrev recording_steps : Records recording
recording_steps = record {
  heard = λ w. w.1;
  adjust_adds = λ f w. refl;
  malloc_keeps = λ n w. refl;
  free_keeps = λ w. refl;
  input_size_keeps = λ hri w. refl;
  input_keeps = λ hri n w. refl;
  device_size_keeps = λ dev w. refl;
  device_keeps = λ dev n w. refl;
  max_keeps = λ pp w. refl;
  usages_keep = λ n pp report w. refl;
}

abbrev recording_answers : Answered recording 5
recording_answers = record {
  size = 299;
  ri = three_reports;
  pp_size = 39;
  pp = 9;
  max_usages = 3;
  usages = usages_of;
  is_sized = λ w. refl;
  is_read = λ w. refl;
  is_hid = refl;
  device_sized = λ w. refl;
  device_read = λ w. refl;
  pp_size_bound = λ e. omega arith;
  is_counted = λ w. refl;
  usages_read = λ report w. refl;
  allocates = λ n w. refl;
}

handle_raw_input-blocks_example : (handle_raw_input recording true 5 (2, [])).1.0 ≡ 2
handle_raw_input-blocks_example = handle_raw_input-blocks recording recording_blocks true 5 (2, [])

-- The key up, then the key down.
two_steps :
    key_steps (all_usages usages_of three_reports 3 0)
    ≡ record { num = pos 1; exp = 4 } ∷ record { num = negsuc 0; exp = 4 } ∷ []
unfolding key_steps all_usages usage_step report_at found_usages add_step
two_steps = refl
