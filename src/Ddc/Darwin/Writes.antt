-- ===== src/Ddc/Darwin/Writes.antt =====
-- What the macOS backend writes and reads (src/platform/ddc/darwin.c, ddcctl.c).
use dimmit.Base.{ℕ, ◌<◌, ◌≤◌, ◌≡◌, true, false, arith, ltb, ◌==◌}
use dimmit.Base.Int.{pos}
use dimmit.Dimmer.Bounds.{level_limit}
use dimmit.Ddc.Sources.{ddc_src_set, vcp_brightness, word16, high_byte, low_byte}
use dimmit.Ddc.Darwin.{CoreGraphics, Arch, darwin_set_non_table_vcp_value, darwin_platform}
use dimmit.Ddc.Darwin.Intel.{
  write_to, Framebuffers, is_supported_feature, intel_set_vcp, intel_arch,
}

above : (bound n : ℕ) → bound < n → ltb bound n ≡ true
above bound n h = ground arith

below : (bound n : ℕ) → n ≤ bound → ltb bound n ≡ false
below bound n h = ground arith

nonzero : (n : ℕ) → 0 < n → (n == 0) ≡ false
nonzero n h = ground arith

module _ {W : Type 0} (cg : CoreGraphics W) where
  word16-bytes : (n : ℕ) → n ≤ level_limit → word16 (high_byte (pos n)) (low_byte (pos n)) ≡ n
  word16-bytes n h = omega arith

  -- The macOS backend refuses a level above 100, up to 2^16 - 1, without a call.
  pub set-above_hundred :
      (arch : Arch W) (h n : ℕ) (w : W)
      → 100 < n
      → n ≤ level_limit
      → ddc_src_set (darwin_platform cg arch) h (pos n) w ≡ (false, w)
  unfolding ddc_src_set darwin_set_non_table_vcp_value
  set-above_hundred arch h n w high level = rw (word16-bytes n level, above 100 n high)

  -- On Intel a level of at most 100 is written as it is to the framebuffer that the
  -- display resolves to, where there is one.
  set-up_to_hundred :
      (fb : Framebuffers W) (h n framebuffer : ℕ) (w : W)
      → n ≤ 100
      → (fb.service_port h w).0 ≡ framebuffer
      → 0 < framebuffer
      → ddc_src_set (darwin_platform cg (intel_arch fb)) h (pos n) w
        ≡ fb.ddc_write framebuffer vcp_brightness n (fb.service_port h w).1
  unfolding ddc_src_set darwin_set_non_table_vcp_value intel_set_vcp is_supported_feature write_to
  set-up_to_hundred fb h n framebuffer w low port lit = rw (
    word16-bytes n (omega arith),
    below 100 n low,
    below 255 n (omega arith),
    port,
    nonzero framebuffer lit,
  )
