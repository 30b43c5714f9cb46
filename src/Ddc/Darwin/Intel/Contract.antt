-- ===== src/Ddc/Darwin/Intel/Contract.antt =====
-- The handles of arch.h on Intel (src/platform/ddc/darwin/ddcctl.c).
use dimmit.Base.{ℕ, ◌+◌, ◌-◌, ◌≡◌, inl, inr, refl, ◌∙◌, true, false, not, arith, ◌==◌, Bool-cases}
use dimmit.Ddc.Handles.{Tracks}
use dimmit.Ddc.Darwin.{CoreGraphics, darwin_platform}
use dimmit.Ddc.Darwin.Contract.{Spares, Counted, ArchTracks, darwin_platform-Tracks}
use dimmit.Ddc.Darwin.Intel.{
  Framebuffers, is_supported_feature, open_resolved, open_allocated, intel_open, intel_close,
  read_from, intel_get_vcp, write_to, intel_set_vcp, intel_arch,
}

-- The handles that are allocated: a successful allocation of one adds it, a free gives one back, and
-- no other call changes their number.
pub record FramebuffersTracks {W : Type 0} (fb : Framebuffers W) (opened : W → ℕ) : Type 0 where
  pub calloc_true :
      (w : W) → (fb.calloc_handle w).0 ≡ true → opened (fb.calloc_handle w).1 ≡ opened w + 1
  pub calloc_false :
      (w : W) → (fb.calloc_handle w).0 ≡ false → opened (fb.calloc_handle w).1 ≡ opened w
  pub free_one : (w : W) → opened (fb.free_handle w).1 ≡ opened w - 1
  pub port_keeps : (id : ℕ) (w : W) → opened (fb.service_port id w).1 ≡ opened w
  pub read_keeps : (port feature : ℕ) (w : W) → opened (fb.ddc_read port feature w).1 ≡ opened w
  pub write_keeps :
      (port feature value : ℕ) (w : W) → opened (fb.ddc_write port feature value w).1 ≡ opened w

module _ {W : Type 0} (fb : Framebuffers W) {opened : W → ℕ}
    (t : FramebuffersTracks fb opened) where
  open t use {calloc_true, calloc_false, free_one, port_keeps, read_keeps, write_keeps}

  open_resolved-Counted :
      (id port : ℕ) (w w' : W)
      → opened w' ≡ opened w + 1
      → Counted opened w (open_resolved fb id port w').0 (open_resolved fb id port w').1
  unfolding open_resolved
  open_resolved-Counted id port w w' e = elim (Bool-cases (port == 0)) [
    | inl nowhere ↦ rw nowhere (omega (arith, free_one w'))
    | inr there ↦ rw there e
  ]

  intel_open-Counted :
      (id : ℕ) (w : W) → Counted opened w (intel_open fb id w).0 (intel_open fb id w).1
  unfolding intel_open open_allocated
  intel_open-Counted id w = elim (Bool-cases (fb.calloc_handle w).0) [
    | inl ok ↦ rw ok (open_resolved-Counted id _ w _ (port_keeps id _ ∙ calloc_true w ok))
    | inr failed ↦ rw failed (calloc_false w failed)
  ]

  read_from-opened : (feature port : ℕ) (w : W) → opened (read_from fb feature port w).1 ≡ opened w
  unfolding read_from
  read_from-opened feature port w = elim (Bool-cases (port == 0)) [
    | inl nowhere ↦ rw nowhere refl
    | inr there ↦ rw there (read_keeps port feature w)
  ]

  get-opened : (h feature : ℕ) (w : W) → opened (intel_get_vcp fb h feature w).1 ≡ opened w
  unfolding intel_get_vcp
  get-opened h feature w = elim (Bool-cases (not (is_supported_feature feature))) [
    | inl other ↦ rw other refl
    | inr brightness ↦ rw brightness (read_from-opened feature _ _ ∙ port_keeps h w)
  ]

  write_to-opened :
      (feature value port : ℕ) (w : W) → opened (write_to fb feature value port w).1 ≡ opened w
  unfolding write_to
  write_to-opened feature value port w = elim (Bool-cases (port == 0)) [
    | inl nowhere ↦ rw nowhere refl
    | inr there ↦ rw there (write_keeps port feature value w)
  ]

  set-opened :
      (h feature hi lo : ℕ) (w : W) → opened (intel_set_vcp fb h feature hi lo w).1 ≡ opened w
  unfolding intel_set_vcp
  set-opened h feature hi lo w = elim (Bool-cases (not (is_supported_feature feature))) [
    | inl other ↦ rw other refl
    | inr brightness ↦ rw brightness (write_to-opened feature _ _ _ ∙ port_keeps h w)
  ]

  pub intel_arch-ArchTracks : ArchTracks (intel_arch fb) opened
  intel_arch-ArchTracks = record {
    open_counts = intel_open-Counted;
    close_one = λ h w. unfold intel_close in free_one w;
    get_keeps = get-opened;
    set_keeps = set-opened;
  }

  -- The macOS backend on Intel keeps count of its handles as the abstraction relies on, also where
  -- a display does not resolve or is built in, for an allocator that counts the handles.
  pub intel-Tracks :
      (cg : CoreGraphics W) → Spares cg opened → Tracks (darwin_platform cg (intel_arch fb))
  intel-Tracks cg spares = darwin_platform-Tracks cg spares (intel_arch fb) intel_arch-ArchTracks
