-- ===== src/Ddc/Darwin/Silicon/Contract.antt =====
-- The handles of arch.h on Apple Silicon, and the AV services that they hold
-- (src/platform/ddc/darwin/m1ddc.m).
use dimmit.Base.{
  ℕ, zero, suc, ◌+◌, ◌-◌, ◌<◌, ◌≡◌, inl, inr, Bool, true, false, not, Option, none, some, List, [],
  ◌∷◌, arith, ◌==◌, Bool-cases,
}
use dimmit.Ddc.Handles.{Tracks}
use dimmit.Ddc.Darwin.{CoreGraphics, Arch, darwin_platform}
use dimmit.Ddc.Darwin.Contract.{Spares, Counted, ArchTracks, darwin_platform-Tracks}
use dimmit.Ddc.Darwin.Intel.{is_supported_feature}
use dimmit.Ddc.Darwin.Silicon.{
  OnlineInfo, AvServices, find_service, or_default, hold_service, open_service, silicon_open,
  silicon_close, read_reply, request, silicon_get_vcp, silicon_set_vcp, silicon_arch,
}

-- The two numbers grow by so much.
abbrev pub Grows : {W : Type 0} → (W → ℕ) → (W → ℕ) → W → ℕ → ℕ → W → Type 0
Grows opened held w a b w' = (opened w' ≡ opened w + a) × (held w' ≡ held w + b)

-- Whether there is a service.
abbrev pub given : ℕ → ℕ
given zero = 0
given (suc svc) = 1

abbrev pub taken : Bool → ℕ
taken false = 0
taken true = 1

-- The handles that are allocated and the services that are to be released: what gives one adds it,
-- and a free or a release gives one back.
pub record AvTracks {W : Type 0} (av : AvServices W) (opened held : W → ℕ) : Type 0 where
  pub infos_keep : (w : W) → Grows opened held w 0 0 (av.online_infos w).1
  pub display_grows :
      (info : OnlineInfo) (w : W)
      → Grows opened held w 0 (given (av.display_service info w).0) (av.display_service info w).1
  pub default_grows :
      (w : W) → Grows opened held w 0 (given (av.default_service w).0) (av.default_service w).1
  pub calloc_grows :
      (w : W) → Grows opened held w (taken (av.calloc_handle w).0) 0 (av.calloc_handle w).1
  pub free_one :
      (w : W) → (opened (av.free_handle w).1 ≡ opened w - 1) × (held (av.free_handle w).1 ≡ held w)
  pub release_one :
      (svc : ℕ) (w : W)
      → (opened (av.release svc w).1 ≡ opened w) × (held (av.release svc w).1 ≡ held w - 1)
  pub write_keeps :
      (svc packet : ℕ) (w : W) → Grows opened held w 0 0 (av.perform_write svc packet w).1
  pub read_keeps : (svc from : ℕ) (w : W) → Grows opened held w 0 0 (av.perform_read svc from w).1

-- An open that succeeds gives a handle with a service, which is held until the handle is closed, and
-- one that fails holds none.
pub record HoldsServices {W : Type 0} (arch : Arch W) (held : W → ℕ) : Type 0 where
  pub open_holds :
      (id : ℕ) (w : W) → Counted held w (arch.ddc_arch_open id w).0 (arch.ddc_arch_open id w).1
  pub open_given : (id h : ℕ) (w : W) → (arch.ddc_arch_open id w).0 ≡ some h → 0 < h
  pub close_releases : (h : ℕ) (w : W) → 0 < h → held (arch.ddc_arch_close h w).1 ≡ held w - 1
  pub get_holds : (h feature : ℕ) (w : W) → held (arch.ddc_arch_get_vcp h feature w).1 ≡ held w
  pub set_holds :
      (h feature hi lo : ℕ) (w : W) → held (arch.ddc_arch_set_vcp h feature hi lo w).1 ≡ held w

there : (svc : ℕ) → (suc svc == 0) ≡ false
there svc = ground arith

module _ {W : Type 0} (av : AvServices W) {opened held : W → ℕ} (t : AvTracks av opened held) where
  open t use {
    infos_keep, display_grows, default_grows, calloc_grows, free_one, release_one, write_keeps,
    read_keeps,
  }

  abbrev Keeps : W → W → Type 0
  Keeps w w' = Grows opened held w 0 0 w'

  find_service-Grows :
      (id : ℕ) (infos : List OnlineInfo) (w : W)
      → Grows opened held w 0 (given (find_service av id infos w).0) (find_service av id infos w).1
  unfolding find_service
  find_service-Grows id [] w = omega arith
  find_service-Grows id (info ∷ infos) w = elim (Bool-cases (info.id == id)) [
    | inl same ↦ rw same (display_grows info w)
    | inr other ↦ rw other (find_service-Grows id infos w)
  ]

  -- With a service found, or none, since `w`.
  or_default-Grows :
      (found : ℕ) (w w' : W)
      → Grows opened held w 0 (given found) w'
      → Grows opened held w 0 (given (or_default av found w').0) (or_default av found w').1
  unfolding or_default
  or_default-Grows zero w w' g = omega (arith, default_grows w')
  or_default-Grows (suc svc) w w' g = rw (there svc) g

  abbrev Opened : W → Option ℕ → W → Type 0
  Opened w none w' = Keeps w w'
  Opened w (some h) w' = (0 < h) × Grows opened held w 1 1 w'

  hold_service-Opened :
      (svc : ℕ) (ok : Bool) (w w' : W)
      → Grows opened held w (taken ok) 1 w'
      → Opened w (hold_service av (suc svc) ok w').0 (hold_service av (suc svc) ok w').1
  unfolding hold_service
  hold_service-Opened svc false w w' g = omega (arith, release_one (suc svc) w')
  hold_service-Opened svc true w w' g = (omega arith, g)

  open_service-Opened :
      (svc : ℕ) (w w' : W)
      → Grows opened held w 0 (given svc) w'
      → Opened w (open_service av svc w').0 (open_service av svc w').1
  unfolding open_service
  open_service-Opened zero w w' g = g
  open_service-Opened (suc svc) w w' g =
      rw (there svc)
        (hold_service-Opened svc (av.calloc_handle w').0 w (av.calloc_handle w').1 grown)
    where
      grown : Grows opened held w (taken (av.calloc_handle w').0) 1 (av.calloc_handle w').1
      grown = omega (arith, g, calloc_grows w')

  silicon_open-Opened :
      (id : ℕ) (w : W) → Opened w (silicon_open av id w).0 (silicon_open av id w).1
  unfolding silicon_open
  silicon_open-Opened id w = open_service-Opened _ w _ (or_default-Grows _ w _ found)
    where
      infos : List OnlineInfo
      infos = (av.online_infos w).0

      found :
          Grows opened held w 0
            (given (find_service av id infos (av.online_infos w).1).0)
            (find_service av id infos (av.online_infos w).1).1
      found = omega (arith, infos_keep w, find_service-Grows id infos (av.online_infos w).1)

  silicon_close-closed :
      (h : ℕ) (w : W)
      → (opened (silicon_close av h w).1 ≡ opened w - 1)
        × (held (silicon_close av h w).1 ≡ held w - given h)
  unfolding silicon_close
  silicon_close-closed zero w = omega (arith, free_one w)
  silicon_close-closed (suc svc) w =
      rw (there svc) (omega (arith, release_one (suc svc) w, free_one (av.release (suc svc) w).1))

  request-Keeps : (h packet : ℕ) (w : W) → Keeps w (request av h packet w).1
  unfolding request read_reply
  request-Keeps h packet w = elim (Bool-cases (av.perform_write h packet w).0) [
    | inl sent ↦ rw sent (
        omega (
          arith,
          write_keeps h packet w,
          read_keeps h (av.input_addr packet) (av.perform_write h packet w).1,
        ))
    | inr failed ↦ rw failed (write_keeps h packet w)
  ]

  get-Keeps : (h feature : ℕ) (w : W) → Keeps w (silicon_get_vcp av h feature w).1
  unfolding silicon_get_vcp
  get-Keeps zero feature w = omega arith
  get-Keeps (suc h) feature w = elim (Bool-cases (not (is_supported_feature feature))) [
    | inl other ↦ rw (there h, other) (omega arith)
    | inr brightness ↦ rw (there h, brightness) (request-Keeps (suc h) _ w)
  ]

  set-Keeps : (h feature hi lo : ℕ) (w : W) → Keeps w (silicon_set_vcp av h feature hi lo w).1
  unfolding silicon_set_vcp
  set-Keeps zero feature hi lo w = omega arith
  set-Keeps (suc h) feature hi lo w = elim (Bool-cases (not (is_supported_feature feature))) [
    | inl other ↦ rw (there h, other) (omega arith)
    | inr brightness ↦ rw (there h, brightness) (write_keeps (suc h) _ w)
  ]

  Opened-Counted :
      (w : W) (r : Option ℕ) (w' : W) → Opened w r w' → Counted opened w r w' × Counted held w r w'
  Opened-Counted w none w' o = omega arith
  Opened-Counted w (some h) w' o = omega arith

  Opened-given : (w : W) (r : Option ℕ) (w' : W) (h : ℕ) → Opened w r w' → r ≡ some h → 0 < h
  Opened-given w none w' h o e = cc
  Opened-given w (some h') w' h o e = ground arith

  silicon_arch-ArchTracks : ArchTracks (silicon_arch av) opened
  silicon_arch-ArchTracks = record {
    open_counts = λ id w. (Opened-Counted w _ _ (silicon_open-Opened id w)).0;
    close_one = λ h w. (silicon_close-closed h w).0;
    get_keeps = λ h feature w. omega (arith, get-Keeps h feature w);
    set_keeps = λ h feature hi lo w. omega (arith, set-Keeps h feature hi lo w);
  }

  close-held : (h : ℕ) (w : W) → 0 < h → held (silicon_close av h w).1 ≡ held w - 1
  close-held zero w lit = absurd (omega arith)
  close-held (suc svc) w lit = (silicon_close-closed (suc svc) w).1

  silicon_arch-HoldsServices : HoldsServices (silicon_arch av) held
  silicon_arch-HoldsServices = record {
    open_holds = λ id w. (Opened-Counted w _ _ (silicon_open-Opened id w)).1;
    open_given = λ id h w e. Opened-given w _ _ h (silicon_open-Opened id w) e;
    close_releases = close-held;
    get_holds = λ h feature w. omega (arith, get-Keeps h feature w);
    set_holds = λ h feature hi lo w. omega (arith, set-Keeps h feature hi lo w);
  }

  -- The macOS backend on Apple Silicon keeps count of its handles as the abstraction relies on, and
  -- holds one AV service for each: an open that fails, also for want of memory, holds none, and a
  -- close gives the service back, for calls that count what they give and take back.
  pub silicon-Tracks :
      (cg : CoreGraphics W)
      → Spares cg opened
      → Tracks (darwin_platform cg (silicon_arch av)) × HoldsServices (silicon_arch av) held
  silicon-Tracks cg spares = (
    darwin_platform-Tracks cg spares (silicon_arch av) silicon_arch-ArchTracks,
    silicon_arch-HoldsServices,
  )
