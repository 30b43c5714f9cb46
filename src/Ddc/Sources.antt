-- ===== src/Ddc/Sources.antt =====
-- src/platform/ddc/abstraction.{h,c}: the DDC displays as brightness sources.
use mathlib.Core.Option
use dimmit.Base.{
  ℕ, ◌+◌, ◌*◌, ◌/◌, ◌%◌, ◌^◌, Bool, true, false, Option, none, some, List, [], ◌∷◌, ◌++◌,
  if◌then◌else◌, codes, take,
}
use dimmit.Base.Int.{ℤ, pos, pattern32}
use dimmit.Base.World.{Action, pure, ◌>>=◌, ◌>>◌}
use dimmit.Source.{BrightnessOps, BrightnessSource}
use dimmit.Ddc.{DisplayInfo, VcpValue, Platform}
use dimmit.Ddc.Format.{print_dec, print_hex4}

-- `VCP_BRIGHTNESS`
abbrev pub vcp_brightness : ℕ
vcp_brightness = 0x10

-- `(hi << 8) | lo`: the bytes do not overlap, so the bits add up.
abbrev pub word16 : ℕ → ℕ → ℕ
word16 hi lo = hi * 2 ^ 8 + lo

abbrev pub current_and_max : VcpValue → ℤ × ℤ
current_and_max v = (pos (word16 v.sh v.sl), pos (word16 v.mh v.ml))

-- `(uint8_t)((value >> 8) & 0xFF)` and `(uint8_t)(value & 0xFF)` of an `int`
abbrev pub high_byte : ℤ → ℕ
high_byte value = pattern32 value / 2 ^ 8 % 2 ^ 8

abbrev pub low_byte : ℤ → ℕ
low_byte value = pattern32 value % 2 ^ 8

-- `sizeof(arr[n].id) - 1`, and the same for the label
abbrev pub text_limit : ℕ
text_limit = 63

unfoldable pub source_id : ℕ → DisplayInfo → List ℕ
unfolding print_dec print_hex4
source_id i info = take text_limit (
    codes "ddc:"
    ++ (print_hex4 info.vendor_id
        ++ (codes ":" ++ (print_hex4 info.product_id ++ (codes ":" ++ print_dec i)))))

unfoldable pub source_label : ℕ → DisplayInfo → List ℕ
unfolding print_dec print_hex4
source_label i info = take text_limit (
    codes "DDC display "
    ++ (print_dec i
        ++ (codes " ("
            ++ (print_hex4 info.vendor_id
                ++ (codes ":" ++ (print_hex4 info.product_id ++ codes ")"))))))

abbrev pub prepend {ℓ} : {A : Type ℓ} → Option A → List A → List A
prepend none xs = xs
prepend (some x) xs = x ∷ xs

module _ {W : Type 0} (p : Platform W) where
  unfoldable pub ddc_src_get : ℕ → Action W (Option (ℤ × ℤ))
  ddc_src_get h = do
    v ← p.get_non_table_vcp_value h vcp_brightness
    pure (Option.map current_and_max v)

  unfoldable pub ddc_src_set : ℕ → ℤ → Action W Bool
  ddc_src_set h value =
      p.set_non_table_vcp_value h vcp_brightness (high_byte value) (low_byte value)

  unfoldable pub ddc_src_close : ℕ → Action W (Unit {0})
  ddc_src_close h = p.close_display h

  -- `DDC_OPS`
  abbrev pub ddc_ops : BrightnessOps W
  ddc_ops = record { get = ddc_src_get; set = ddc_src_set; close = ddc_src_close }

  abbrev pub source : ℕ → DisplayInfo → ℕ → BrightnessSource W
  source i info h = record {
    ops = ddc_ops;
    ctx = h;
    id = source_id i info;
    label = source_label i info;
  }

  -- Controllability rule: keep only a display that answers an initial read.
  unfoldable pub keep_answering :
      ℕ → DisplayInfo → ℕ → Option VcpValue → Action W (Option (BrightnessSource W))
  keep_answering i info h none = do p.close_display h; pure none
  keep_answering i info h (some v) = pure (some (source i info h))

  -- The loop body from `ddc_implementation_open_display` on, with its result.
  unfoldable pub probe : ℕ → DisplayInfo → Option ℕ → Action W (Option (BrightnessSource W))
  probe i info none = pure none
  probe i info (some h) = p.get_non_table_vcp_value h vcp_brightness >>= keep_answering i info h

  -- One round of the loop over the display list.
  unfoldable pub open_source : ℕ → DisplayInfo → Action W (Option (BrightnessSource W))
  open_source i info =
      if info.is_builtin then pure none else (p.open_display info.dref >>= probe i info)

  unfoldable pub open_sources : ℕ → List DisplayInfo → Action W (List (BrightnessSource W))
  open_sources i [] = pure []
  open_sources i (info ∷ infos) = do
    found ← open_source i info
    more ← open_sources (i + 1) infos
    pure (prepend found more)

  -- After `calloc`, whose answer is the first argument.
  unfoldable pub fill_sources :
      Bool → List DisplayInfo → Action W (Option (List (BrightnessSource W)))
  fill_sources false infos = do p.free_display_info_list infos; pure none
  fill_sources true infos = do
    sources ← open_sources 0 infos
    p.free_display_info_list infos
    pure (some sources)

  unfoldable pub list_sources :
      Option (List DisplayInfo) → Action W (Option (List (BrightnessSource W)))
  list_sources none = pure (some [])
  list_sources (some infos) = do allocated ← p.calloc; fill_sources allocated infos

  -- `none` is the result -1. With no source found the array is freed and the count is 0.
  unfoldable pub ddc_enumerate_sources : Action W (Option (List (BrightnessSource W)))
  ddc_enumerate_sources = p.get_display_info_list >>= list_sources
