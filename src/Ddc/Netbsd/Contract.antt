-- ===== src/Ddc/Netbsd/Contract.antt =====
-- The descriptors of the backend over the raw I2C devices (src/platform/ddc/netbsd.c).
use dimmit.Base.{
  ℕ, ◌+◌, ◌-◌, ◌≡◌, inl, inr, refl, ap, ◌∙◌, Bool, true, false, Option, none, some, List, [], ◌∷◌,
  arith, Option-cases,
}
use dimmit.Base.World.{Action}
use dimmit.Ddc.{DisplayInfo}
use dimmit.Ddc.Handles.{Tracks}
use dimmit.Ddc.Sources.{vcp_brightness}
use dimmit.Ddc.Netbsd.{
  Bus, Probed, absent, present, no_memory, read_message, write_message, note_display, grow_list,
  tested, probe_device, scan_on, scan, scan_all, netbsd_get_display_info_list, make_handle,
  opened_device, netbsd_open_display, await_reply, netbsd_get_non_table_vcp_value,
  netbsd_set_non_table_vcp_value, netbsd_platform,
}

-- What the system documents of descriptors: a successful open adds one, a close gives one back, and
-- no other call changes their number.
pub record BusTracks {W : Type 0} (b : Bus W) : Type 0 where
  pub opened : W → ℕ
  pub open_some :
      (i fd : ℕ) (w : W)
      → (b.open_device i w).0 ≡ some fd
      → opened (b.open_device i w).1 ≡ opened w + 1
  pub open_none :
      (i : ℕ) (w : W) → (b.open_device i w).0 ≡ none → opened (b.open_device i w).1 ≡ opened w
  pub close_one : (fd : ℕ) (w : W) → opened (b.close_device fd w).1 ≡ opened w - 1
  pub write_keeps :
      (fd : ℕ) (bytes : List ℕ) (w : W) → opened (b.write_bytes fd bytes w).1 ≡ opened w
  pub read_keeps : (fd n : ℕ) (w : W) → opened (b.read_bytes fd n w).1 ≡ opened w
  pub allocate_keeps : (w : W) → opened (b.allocate w).1 ≡ opened w

module _ {W : Type 0} (b : Bus W) (t : BusTracks b) where
  open t use {opened, open_some, open_none, close_one, write_keeps, read_keeps, allocate_keeps}

  -- How an open changes the number of descriptors.
  abbrev Counted : W → Option ℕ → W → Type 0
  Counted w none w' = opened w' ≡ opened w
  Counted w (some h) w' = opened w' ≡ opened w + 1

  open_device-Counted : (i : ℕ) (w : W) → Counted w (b.open_device i w).0 (b.open_device i w).1
  open_device-Counted i w = elim (Option-cases (b.open_device i w).0) [
    | inl refused ↦ simp refused (open_none i w refused)
    | inr (fd, found) ↦ simp found (open_some i fd w found)
  ]

  note_display-opened :
      (i fd : ℕ) (allocated : Bool) (w : W)
      → opened (note_display b i fd allocated w).1 ≡ opened w - 1
  unfolding note_display
  note_display-opened i fd false w = close_one fd w
  note_display-opened i fd true w = close_one fd w

  grow_list-opened :
      (i fd : ℕ) (allocated : Bool) (w : W) → opened (grow_list b i fd allocated w).1 ≡ opened w - 1
  unfolding grow_list
  grow_list-opened i fd false w = close_one fd w
  grow_list-opened i fd true w = note_display-opened i fd _ _ ∙ ap (λ n. n - 1) (allocate_keeps w)

  tested-opened :
      (i fd : ℕ) (answers : Bool) (w : W) → opened (tested b i fd answers w).1 ≡ opened w - 1
  unfolding tested
  tested-opened i fd false w = close_one fd w
  tested-opened i fd true w = grow_list-opened i fd _ _ ∙ ap (λ n. n - 1) (allocate_keeps w)

  probe_device-opened :
      (i : ℕ) (fd : Option ℕ) (w w' : W)
      → Counted w fd w'
      → opened (probe_device b i fd w').1 ≡ opened w
  unfolding probe_device
  probe_device-opened i none w w' e = e
  probe_device-opened i (some fd) w w' e = omega (
    arith,
    e,
    tested-opened i fd (b.write_bytes fd (read_message vcp_brightness) w').0
        (b.write_bytes fd (read_message vcp_brightness) w').1,
    write_keeps fd (read_message vcp_brightness) w',
  )

  scan_on-opened :
      (found : Probed) (rest : Action W (Option (List DisplayInfo))) (w : W)
      → opened (rest w).1 ≡ opened w
      → opened (scan_on b found rest w).1 ≡ opened w
  unfolding scan_on
  scan_on-opened absent rest w e = e
  scan_on-opened (present info) rest w e = e
  scan_on-opened no_memory rest w e = refl

  scan-opened : (paths : List ℕ) (w : W) → opened (scan b paths w).1 ≡ opened w
  unfolding scan
  scan-opened [] w = refl
  scan-opened (i ∷ paths) w =
      scan_on-opened _ (scan b paths) _ (scan-opened paths _)
      ∙ probe_device-opened i _ w _ (open_device-Counted i w)

  scan_all-opened : (allocated : Bool) (w : W) → opened (scan_all b allocated w).1 ≡ opened w
  unfolding scan_all
  scan_all-opened false w = refl
  scan_all-opened true w = scan-opened _ w

  get_list-opened : (w : W) → opened (netbsd_get_display_info_list b w).1 ≡ opened w
  unfolding netbsd_get_display_info_list
  get_list-opened w = scan_all-opened _ _ ∙ allocate_keeps w

  make_handle-Counted :
      (fd : ℕ) (allocated : Bool) (w w' : W)
      → opened w' ≡ opened w + 1
      → Counted w (make_handle b fd allocated w').0 (make_handle b fd allocated w').1
  unfolding make_handle
  make_handle-Counted fd true w w' e = e
  make_handle-Counted fd false w w' e = omega (arith, close_one fd w')

  opened_device-Counted :
      (found : Option ℕ) (w w' : W)
      → Counted w found w'
      → Counted w (opened_device b found w').0 (opened_device b found w').1
  unfolding opened_device
  opened_device-Counted none w w' e = e
  opened_device-Counted (some fd) w w' e = make_handle-Counted fd _ w _ (allocate_keeps w' ∙ e)

  netbsd_open_display-Counted :
      (dref : ℕ) (w : W)
      → Counted w (netbsd_open_display b dref w).0 (netbsd_open_display b dref w).1
  unfolding netbsd_open_display
  netbsd_open_display-Counted dref w = opened_device-Counted _ w _ (open_device-Counted dref w)

  await_reply-opened :
      (h feature_code : ℕ) (sent : Bool) (w : W)
      → opened (await_reply b h feature_code sent w).1 ≡ opened w
  unfolding await_reply
  await_reply-opened h feature_code false w = refl
  await_reply-opened h feature_code true w = read_keeps h 12 w

  get-opened :
      (h feature_code : ℕ) (w : W)
      → opened (netbsd_get_non_table_vcp_value b h feature_code w).1 ≡ opened w
  unfolding netbsd_get_non_table_vcp_value
  get-opened h feature_code w = await_reply-opened h feature_code _ _ ∙ write_keeps h _ w

  -- The NetBSD backend keeps count of its handles as the abstraction relies on, and its scan
  -- closes every descriptor that it opens, on every failure, where the system keeps count of
  -- descriptors.
  pub netbsd_platform-Tracks : Tracks (netbsd_platform b)
  unfolding netbsd_set_non_table_vcp_value
  netbsd_platform-Tracks = record {
    opened = opened;
    list_keeps = get_list-opened;
    free_keeps = λ infos w. refl;
    open_some = λ dref h w e. rw e at (netbsd_open_display-Counted dref w);
    open_none = λ dref w e. rw e at (netbsd_open_display-Counted dref w);
    close_one = close_one;
    get_keeps = get-opened;
    set_keeps = λ h feature hi lo w. write_keeps h (write_message feature hi lo) w;
    calloc_keeps = allocate_keeps;
  }
