-- ===== src/Ddc/Darwin/Processors.antt =====
-- The macOS backend (src/platform/ddc/darwin.c) with the arch.h of each processor.
use dimmit.Base.{ℕ}
use dimmit.Ddc.Handles.{Tracks}
use dimmit.Ddc.Darwin.{CoreGraphics, darwin_platform}
use dimmit.Ddc.Darwin.Contract.{Spares}
use dimmit.Ddc.Darwin.Intel.{Framebuffers, intel_arch}
use dimmit.Ddc.Darwin.Intel.Contract.{FramebuffersTracks, intel-Tracks}
use dimmit.Ddc.Darwin.Silicon.{AvServices, silicon_arch}
use dimmit.Ddc.Darwin.Silicon.Contract.{AvTracks, HoldsServices, silicon-Tracks}

-- The macOS backend keeps count of its handles as the abstraction relies on, on Intel also where a
-- display does not resolve or is built in; on Apple Silicon it holds one AV service for each
-- handle, which an open that fails, also for want of memory, does not keep and a close gives back;
-- for calls that count what they give and take back.
pub processors-Tracks :
    {V W : Type 0} (cg : CoreGraphics V) (fb : Framebuffers V) {opened : V → ℕ}
    (cg' : CoreGraphics W) (av : AvServices W) {opened' held : W → ℕ}
    → Spares cg opened
    → FramebuffersTracks fb opened
    → Spares cg' opened'
    → AvTracks av opened' held
    → Tracks (darwin_platform cg (intel_arch fb))
      × Tracks (darwin_platform cg' (silicon_arch av))
      × HoldsServices (silicon_arch av) held
processors-Tracks cg fb cg' av spares t spares' t' =
    let (counts, holds) = silicon-Tracks av t' cg' spares' in
    (intel-Tracks fb t cg spares, counts, holds)
