-- ===== src/Tests/Macs.antt =====
-- Runs of the macOS backend (src/platform/ddc/darwin.c, darwin/) on both processors, and inputs for
-- the theorems about it.
use dimmit.Base.{
  ℕ, ◌+◌, ◌-◌, ◌≡◌, refl, true, false, some, [], ◌∷◌, arith, codes, ◌*◌, ◌==◌, if◌then◌else◌,
}
use dimmit.Base.Int.{pos}
use dimmit.Ddc.Handles.{Tracks}
use dimmit.Ddc.Darwin.{CoreGraphics, darwin_platform}
use dimmit.Ddc.Darwin.Intel.{Framebuffers, intel_arch}
use dimmit.Ddc.Darwin.Intel.Contract.{FramebuffersTracks}
use dimmit.Ddc.Darwin.Silicon.{AvServices, silicon_arch}
use dimmit.Ddc.Darwin.Silicon.Contract.{AvTracks, HoldsServices}
use dimmit.Ddc.Darwin.Processors.{processors-Tracks}
use dimmit.Base.Int.{int32, ◌+ℤ◌}
use dimmit.Dimmer.{dimmer_due, dimmer_settled, clamp_brightness}
use dimmit.Controller.{ManagedDisplay, service_display}
use dimmit.Controller.Dropped.{service-above_hundred}
use dimmit.Ddc.Sources.{ddc_ops}
use dimmit.Ddc.Darwin.Contract.{Spares}

-- A Mac with one display, over any state.
abbrev one_mac : {W : Type 0} → CoreGraphics W
one_mac = record {
  online_list = λ w. (
    some (record { display_id = 3; vendor_number = 1; model_number = 2; builtin = false } ∷ []),
    w,
  );
  is_builtin = λ id. false;
  malloc = λ w. (true, w);
}

-- Its processor is one of Intel; the state is the number of handles.
abbrev one_port : Framebuffers ℕ
one_port = record {
  service_port = λ id w. (9, w);
  ddc_read = λ framebuffer feature w. (some (100, 40), w);
  ddc_write = λ framebuffer feature value w. (true, w);
  calloc_handle = λ w. (true, w + 1);
  free_handle = λ w. (tt, w - 1);
}

-- The display of the Mac, at 96 of 120, after a press up that is not yet written.
abbrev bright_mac : ManagedDisplay ℕ
bright_mac = record {
  src = record {
    ops = ddc_ops (darwin_platform one_mac (intel_arch one_port));
    ctx = 3;
    id = codes "ddc:0001:0002:0";
    label = codes "mac";
  };
  dim = record { current = pos 96; max = pos 120; pending_delta = pos 7 };
}

bright_mac-due : dimmer_due bright_mac.dim ≡ some (pos 103)
unfolding dimmer_due clamp_brightness int32 ◌+ℤ◌
bright_mac-due = refl

service-above_hundred_example :
    service_display bright_mac 1
    ≡ ((record bright_mac { dim = dimmer_settled bright_mac.dim }, 0), 1)
service-above_hundred_example =
    service-above_hundred one_mac (intel_arch one_port) bright_mac 103 1 refl bright_mac-due
      (omega arith) (omega arith)

one_mac-Spares : {W : Type 0} (count : W → ℕ) → Spares one_mac count
one_mac-Spares count = record { list_keeps = λ w. refl; malloc_keeps = λ w. refl }

always_given : (w : ℕ) → (one_port.calloc_handle w).0 ≡ false → w + 1 ≡ w
always_given w e = cc

one_port_tracks : FramebuffersTracks one_port (λ w. w)
one_port_tracks = record {
  calloc_true = λ w e. refl;
  calloc_false = always_given;
  free_one = λ w. refl;
  port_keeps = λ id w. refl;
  read_keeps = λ port feature w. refl;
  write_keeps = λ port feature value w. refl;
}

-- Its processor is Apple's, and the service of its display is not found, only the default one. The
-- state is the number of handles and that of services that are held; memory is there for one handle.
abbrev one_av : AvServices (ℕ × ℕ)
one_av = record {
  online_infos = λ w. (record { id = 3; location = 0 } ∷ [], w);
  display_service = λ info w. (0, w);
  default_service = λ w. (7, (w.0, w.1 + 1));
  release = λ svc w. (tt, (w.0, w.1 - 1));
  calloc_handle = λ w. if w.0 == 0 then (true, (w.0 + 1, w.1)) else (false, w);
  free_handle = λ w. (tt, (w.0 - 1, w.1));
  create_packet = λ feature. feature;
  prepare_read = λ packet. packet;
  prepare_write = λ packet value. packet + 256 * value;
  input_addr = λ packet. 81;
  perform_write = λ svc packet w. (true, w);
  perform_read = λ svc from w. (some 40, w);
  convert = λ bytes. (pos bytes, pos 100);
}

one_av_tracks : AvTracks one_av (λ w. w.0) (λ w. w.1)
one_av_tracks = record {
  infos_keep = λ w. omega arith;
  display_grows = λ info w. omega arith;
  default_grows = λ w. omega arith;
  calloc_grows = λ w. ground arith;
  free_one = λ w. (refl, refl);
  release_one = λ svc w. (refl, refl);
  write_keeps = λ svc packet w. omega arith;
  read_keeps = λ svc from w. omega arith;
}

processors-Tracks_example :
    Tracks (darwin_platform one_mac (intel_arch one_port))
    × Tracks (darwin_platform one_mac (silicon_arch one_av))
    × HoldsServices (silicon_arch one_av) (λ w. w.1)
processors-Tracks_example =
    processors-Tracks one_mac one_port one_mac one_av (one_mac-Spares (λ w. w)) one_port_tracks
      (one_mac-Spares (λ w. w.0)) one_av_tracks
