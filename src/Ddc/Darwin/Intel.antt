-- ===== src/Ddc/Darwin/Intel.antt =====
-- src/platform/ddc/darwin/ddcctl.c: arch.h on Intel. The system's calls and those of the vendored ddcctl
-- are a record. A handle is identified with its display's id; `last_seen`, which only decides what is
-- logged, is in Framebuffer.
pub mod Contract
use mathlib.Core.Option
use dimmit.Base.{
  ℕ, ◌+◌, ◌*◌, ◌^◌, Bool, true, false, not, Option, none, some, ltb, ◌==◌, if◌then◌else◌,
}
use dimmit.Base.World.{Action, pure, ◌>>=◌, ◌>>◌}
use dimmit.Ddc.{VcpValue}
use dimmit.Ddc.Sources.{vcp_brightness, word16}
use dimmit.Ddc.Darwin.{Arch}

-- A service port of 0 is none; `ddc_read` returns the maximal and the current value, or fails. The
-- allocations and frees of handles are calls of their own.
pub record Framebuffers (W : Type 0) : Type 0 where
  pub service_port : ℕ → Action W ℕ
  pub ddc_read : ℕ → ℕ → Action W (Option (ℕ × ℕ))
  pub ddc_write : ℕ → ℕ → ℕ → Action W Bool
  pub calloc_handle : Action W Bool
  pub free_handle : Action W (Unit {0})

unfoldable pub is_supported_feature : ℕ → Bool
is_supported_feature feature_code = feature_code == vcp_brightness

module _ {W : Type 0} (fb : Framebuffers W) where
  -- With the port that the display resolves to.
  unfoldable pub open_resolved : ℕ → ℕ → Action W (Option ℕ)
  open_resolved display_id port =
      if port == 0 then (fb.free_handle >> pure none) else pure (some display_id)

  -- With the answer of the allocator.
  unfoldable pub open_allocated : ℕ → Bool → Action W (Option ℕ)
  open_allocated display_id false = pure none
  open_allocated display_id true = fb.service_port display_id >>= open_resolved display_id

  unfoldable pub intel_open : ℕ → Action W (Option ℕ)
  intel_open display_id = fb.calloc_handle >>= open_allocated display_id

  -- Of a handle that is not NULL.
  unfoldable pub intel_close : ℕ → Action W (Unit {0})
  intel_close h = fb.free_handle

  -- `resolve_framebuffer` and what follows it in a read.
  unfoldable pub read_from : ℕ → ℕ → Action W (Option VcpValue)
  read_from feature_code framebuffer =
      if framebuffer == 0
      then pure none
      else (fb.ddc_read framebuffer feature_code >>= λ answer.
          pure (Option.map (λ v. record { mh = 0; ml = v.0; sh = 0; sl = v.1 }) answer))

  unfoldable pub intel_get_vcp : ℕ → ℕ → Action W (Option VcpValue)
  intel_get_vcp h feature_code =
      if not (is_supported_feature feature_code)
      then pure none
      else (fb.service_port h >>= read_from feature_code)

  -- `resolve_framebuffer` and what follows it in a write.
  unfoldable pub write_to : ℕ → ℕ → ℕ → Action W Bool
  write_to feature_code value8 framebuffer =
      if framebuffer == 0 then pure false else fb.ddc_write framebuffer feature_code value8

  -- The value is capped at one byte.
  unfoldable pub intel_set_vcp : ℕ → ℕ → ℕ → ℕ → Action W Bool
  intel_set_vcp h feature_code hi_byte lo_byte =
      let value16 = word16 hi_byte lo_byte in
      let value8 = if ltb 255 value16 then 255 else value16 in
      if not (is_supported_feature feature_code)
      then pure false
      else (fb.service_port h >>= write_to feature_code value8)

  abbrev pub intel_arch : Arch W
  intel_arch = record {
    ddc_arch_open = intel_open;
    ddc_arch_close = intel_close;
    ddc_arch_get_vcp = intel_get_vcp;
    ddc_arch_set_vcp = intel_set_vcp;
  }
