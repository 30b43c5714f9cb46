-- ===== src/Ddc/Windows/Levels.antt =====
-- The levels that the Windows backend reads and writes (src/platform/ddc/windows.c).
use dimmit.Base.{ℕ, ◌/◌, ◌%◌, ◌^◌, ◌≤◌, ◌≡◌, refl, ap, some, arith}
use dimmit.Base.Int.{pos}
use dimmit.Dimmer.Bounds.{level_limit}
use dimmit.Ddc.Sources.{ddc_src_get, ddc_src_set, vcp_brightness, word16, high_byte, low_byte}
use dimmit.Ddc.Windows.{
  Dxva, windows_get_non_table_vcp_value, windows_set_non_table_vcp_value, windows_platform,
}

word16-bytes : (n : ℕ) → n ≤ level_limit → word16 (n / 2 ^ 8 % 2 ^ 8) (n % 2 ^ 8) ≡ n
word16-bytes n h = omega arith

word16-level : (n : ℕ) → n ≤ level_limit → word16 (high_byte (pos n)) (low_byte (pos n)) ≡ n
word16-level n h = omega arith

-- On the Windows backend a reply of a current and a maximal value is read as these levels, and a
-- level is passed on as it is, for values of 16 bits.
windows_levels :
    {W : Type 0} (d : Dxva W) (h current maximum level : ℕ) (w : W)
    → (d.vcp_reply h vcp_brightness w).0 ≡ some (current, maximum)
    → current ≤ level_limit
    → maximum ≤ level_limit
    → level ≤ level_limit
    → ((ddc_src_get (windows_platform d) h w).0 ≡ some (pos current, pos maximum))
      × (ddc_src_set (windows_platform d) h (pos level) w
          ≡ d.set_vcp_feature h vcp_brightness level w)
unfolding ddc_src_get ddc_src_set windows_get_non_table_vcp_value windows_set_non_table_vcp_value
windows_levels d h current maximum level w reply lc lm ll = (
  rw (reply, word16-bytes current lc, word16-bytes maximum lm) refl,
  ap (λ v. d.set_vcp_feature h vcp_brightness v w) (word16-level level ll),
)
