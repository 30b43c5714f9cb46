-- ===== src/Input/Windows/Memory.antt =====
-- The blocks that `handle_raw_input` of src/platform/input/windows.c allocates and frees.
use dimmit.Base.{
  ℕ, zero, suc, ◌+◌, ◌-◌, ◌*◌, ◌≡◌, inl, inr, refl, ◌∙◌, Bool, true, false, Option, none, some,
  List, [], ◌∷◌, arith, Bool-cases, ◌&&◌, ◌==◌, ◌^◌, not, leb,
}
use dimmit.Base.World.{◌>>=◌}
use dimmit.Dimmer.{Fraction}
use dimmit.Input.Windows.{
  RawReport, RawInput, usage_step, report_at, press, press_usages, press_report, read_reports,
  usages_allocated, usages_counted, device_read, device_allocated, device_sized, input_read,
  buffer_allocated, input_sized, handle_raw_input, stackbuf_size,
}

-- The number of blocks that are allocated: `malloc` adds one where it gives one, `free` gives one back,
-- and no other call changes it.
pub record CountsBlocks {W : Type 0} (calls : RawInput W) : Type 0 where
  pub blocks : W → ℕ
  pub malloc_true :
      (n : ℕ) (w : W) → (calls.malloc n w).0 ≡ true → blocks (calls.malloc n w).1 ≡ blocks w + 1
  pub malloc_false :
      (n : ℕ) (w : W) → (calls.malloc n w).0 ≡ false → blocks (calls.malloc n w).1 ≡ blocks w
  pub free_one : (w : W) → blocks (calls.free w).1 ≡ blocks w - 1
  pub input_size_keeps : (hri : ℕ) (w : W) → blocks (calls.raw_input_size hri w).1 ≡ blocks w
  pub input_keeps : (hri n : ℕ) (w : W) → blocks (calls.read_raw_input hri n w).1 ≡ blocks w
  pub device_size_keeps : (dev : ℕ) (w : W) → blocks (calls.device_info_size dev w).1 ≡ blocks w
  pub device_keeps : (dev n : ℕ) (w : W) → blocks (calls.read_device_info dev n w).1 ≡ blocks w
  pub max_keeps : (pp : ℕ) (w : W) → blocks (calls.max_usage_list_length pp w).1 ≡ blocks w
  pub usages_keep :
      (n pp : ℕ) (report : List ℕ) (w : W) → blocks (calls.list_usages n pp report w).1 ≡ blocks w
  pub adjust_keeps : (f : Fraction) (w : W) → blocks (calls.on_adjust f w).1 ≡ blocks w

module _ {W : Type 0} (calls : RawInput W) (t : CountsBlocks calls) (registered : Bool) where
  open t use {
    blocks, malloc_true, malloc_false, free_one, input_size_keeps, input_keeps, device_size_keeps,
    device_keeps, max_keeps, usages_keep, adjust_keeps,
  }

  press-blocks : (f : Option Fraction) (w : W) → blocks (press calls f w).1 ≡ blocks w
  unfolding press
  press-blocks none w = refl
  press-blocks (some f) w = adjust_keeps f w

  press_usages-blocks :
      (set : Bool) (usages : List ℕ) (w : W) → blocks (press_usages calls set usages w).1 ≡ blocks w
  unfolding press_usages
  press_usages-blocks false usages w = refl
  press_usages-blocks true [] w = refl
  press_usages-blocks true (usage ∷ usages) w =
      press_usages-blocks true usages _ ∙ press-blocks (usage_step usage) w

  press_report-blocks :
      (got : Option (List ℕ)) (w : W) → blocks (press_report calls registered got w).1 ≡ blocks w
  unfolding press_report
  press_report-blocks none w = refl
  press_report-blocks (some usages) w = press_usages-blocks registered usages w

  read_reports-blocks :
      (maxus pp : ℕ) (ri : RawReport) (left r : ℕ) (w : W)
      → blocks (read_reports calls registered maxus pp ri left r w).1 ≡ blocks w
  unfolding read_reports
  read_reports-blocks maxus pp ri zero r w = refl
  read_reports-blocks maxus pp ri (suc left) r w =
      read_reports-blocks maxus pp ri left (r + 1) _
      ∙ press_report-blocks _ _
      ∙ usages_keep maxus pp (report_at ri r) w

  -- What runs after an allocation and gives its block back.
  allocated-blocks :
      (n : ℕ) (next : Bool → W → Unit {0} × W) (w : W)
      → ((w' : W) → blocks (next false w').1 ≡ blocks w')
      → ((w' : W) → blocks (next true w').1 ≡ blocks w' - 1)
      → blocks (next (calls.malloc n w).0 (calls.malloc n w).1).1 ≡ blocks w
  allocated-blocks n next w kept given = elim (Bool-cases (calls.malloc n w).0) [
    | inl ok ↦ rw ok (omega (arith, given (calls.malloc n w).1, malloc_true n w ok))
    | inr failed ↦ rw failed (kept (calls.malloc n w).1 ∙ malloc_false n w failed)
  ]

  freed-blocks : (w w' : W) → blocks w' ≡ blocks w → blocks (calls.free w').1 ≡ blocks w - 1
  freed-blocks w w' e = omega (arith, free_one w')

  usages_counted-blocks :
      (pp : ℕ) (ri : RawReport) (n : ℕ) (w : W)
      → blocks (usages_counted calls registered pp ri n w).1 ≡ blocks w
  unfolding usages_counted usages_allocated
  usages_counted-blocks pp ri zero w = refl
  usages_counted-blocks pp ri (suc n) w =
      allocated-blocks (suc n * 2) (usages_allocated calls registered (suc n) pp ri) w (λ w'. refl)
        (λ w'. freed-blocks w' _ (read_reports-blocks (suc n) pp ri ri.count 0 w'))

  device_read-blocks :
      (ri : RawReport) (got : ℕ × ℕ) (w : W)
      → blocks (device_read calls registered ri got w).1 ≡ blocks w
  unfolding device_read
  device_read-blocks ri got w = elim (Bool-cases (got.0 == 2 ^ 32 - 1)) [
    | inl refused ↦ rw refused refl
    | inr read ↦ rw read (usages_counted-blocks got.1 ri _ _ ∙ max_keeps got.1 w)
  ]

  device_sized-blocks :
      (ri : RawReport) (sized : ℕ × ℕ) (w : W)
      → blocks (device_sized calls registered ri sized w).1 ≡ blocks w
  unfolding device_sized device_allocated
  device_sized-blocks ri sized w = elim (Bool-cases (sized.0 == 0 && not (sized.1 == 0))) [
    | inr unsized ↦ rw unsized refl
    | inl ok ↦ rw ok (
        allocated-blocks sized.1 (device_allocated calls registered ri sized.1) w (λ w'. refl)
          (λ w'. freed-blocks w' _ (device_read-blocks ri _ _ ∙ device_keeps ri.device sized.1 w')))
  ]

  input_read-blocks :
      (got : ℕ × ℕ × RawReport) (w : W) → blocks (input_read calls registered got w).1 ≡ blocks w
  unfolding input_read
  input_read-blocks got w = elim (Bool-cases (got.0 == got.1 && got.2.is_hid)) [
    | inr short ↦ rw short refl
    | inl whole ↦ rw whole (device_sized-blocks got.2 _ _ ∙ device_size_keeps got.2.device w)
  ]

  buffer-blocks :
      (hri n : ℕ) (w : W)
      → blocks ((calls.read_raw_input hri n >>= input_read calls registered) w).1 ≡ blocks w
  buffer-blocks hri n w = input_read-blocks _ _ ∙ input_keeps hri n w

  input_sized-blocks :
      (hri : ℕ) (sized : ℕ × ℕ) (w : W)
      → blocks (input_sized calls registered hri sized w).1 ≡ blocks w
  unfolding input_sized buffer_allocated
  input_sized-blocks hri sized w = elim (Bool-cases (sized.0 == 0 && not (sized.1 == 0))) [
    | inr unsized ↦ rw unsized refl
    | inl ok ↦ rw ok (elim (Bool-cases (leb sized.1 stackbuf_size)) [
      | inl small ↦ rw small (buffer-blocks hri sized.1 w)
      | inr large ↦ rw large (
          allocated-blocks sized.1 (buffer_allocated calls registered hri sized.1) w (λ w'. refl)
            (λ w'. freed-blocks w' _ (buffer-blocks hri sized.1 w')))
    ])
  ]

  -- The decoder of Windows frees every block that it allocates, once, on every path, for an
  -- allocator that counts its blocks.
  pub handle_raw_input-blocks :
      (hri : ℕ) (w : W) → blocks (handle_raw_input calls registered hri w).1 ≡ blocks w
  unfolding handle_raw_input
  handle_raw_input-blocks hri w = input_sized-blocks hri _ _ ∙ input_size_keeps hri w
