-- ===== src/Ddc/Darwin/Contract.antt =====
-- The handles of the macOS backend (src/platform/ddc/darwin.c), over the contracts of CoreGraphics and
-- of arch.h.
use dimmit.Base.{
  ℕ, ◌+◌, ◌-◌, ◌≡◌, inl, inr, refl, ◌∙◌, Bool, true, false, Option, none, some, List, [], ◌∷◌,
  Bool-cases, ltb,
}
use dimmit.Ddc.Sources.{word16}
use dimmit.Ddc.Handles.{Tracks}
use dimmit.Ddc.Darwin.{
  CgDisplay, CoreGraphics, Arch, collect, list_entries, list_struct, list_online,
  darwin_get_display_info_list, darwin_open_display, darwin_set_non_table_vcp_value,
  darwin_platform,
}

-- CoreGraphics and the allocations of the list leave a number of handles alone.
pub record Spares {W : Type 0} (cg : CoreGraphics W) (opened : W → ℕ) : Type 0 where
  pub list_keeps : (w : W) → opened (cg.online_list w).1 ≡ opened w
  pub malloc_keeps : (w : W) → opened (cg.malloc w).1 ≡ opened w

-- How an open changes the number.
abbrev pub Counted : {W : Type 0} → (W → ℕ) → W → Option ℕ → W → Type 0
Counted opened w none w' = opened w' ≡ opened w
Counted opened w (some h) w' = opened w' ≡ opened w + 1

-- The contract of arch.h on handles.
pub record ArchTracks {W : Type 0} (arch : Arch W) (opened : W → ℕ) : Type 0 where
  pub open_counts :
      (id : ℕ) (w : W) → Counted opened w (arch.ddc_arch_open id w).0 (arch.ddc_arch_open id w).1
  pub close_one : (h : ℕ) (w : W) → opened (arch.ddc_arch_close h w).1 ≡ opened w - 1
  pub get_keeps : (h feature : ℕ) (w : W) → opened (arch.ddc_arch_get_vcp h feature w).1 ≡ opened w
  pub set_keeps :
      (h feature hi lo : ℕ) (w : W) → opened (arch.ddc_arch_set_vcp h feature hi lo w).1 ≡ opened w

module _ {W : Type 0} (cg : CoreGraphics W) {opened : W → ℕ} (spares : Spares cg opened) where
  open spares use {list_keeps, malloc_keeps}

  collect-opened : (ds : List CgDisplay) (w : W) → opened (collect cg ds w).1 ≡ opened w
  unfolding collect
  collect-opened [] w = refl
  collect-opened (d ∷ ds) w = collect-opened ds (cg.malloc w).1 ∙ malloc_keeps w

  list_entries-opened :
      (ds : List CgDisplay) (ok : Bool) (w : W) → opened (list_entries cg ds ok w).1 ≡ opened w
  unfolding list_entries
  list_entries-opened ds false w = refl
  list_entries-opened ds true w = collect-opened ds w

  list_struct-opened :
      (ds : List CgDisplay) (ok : Bool) (w : W) → opened (list_struct cg ds ok w).1 ≡ opened w
  unfolding list_struct
  list_struct-opened ds false w = refl
  list_struct-opened ds true w = list_entries-opened ds _ _ ∙ malloc_keeps w

  list_online-opened :
      (found : Option (List CgDisplay)) (w : W) → opened (list_online cg found w).1 ≡ opened w
  unfolding list_online
  list_online-opened none w = refl
  list_online-opened (some ds) w = list_struct-opened ds _ _ ∙ malloc_keeps w

  get_list-opened : (w : W) → opened (darwin_get_display_info_list cg w).1 ≡ opened w
  unfolding darwin_get_display_info_list
  get_list-opened w = list_online-opened _ _ ∙ list_keeps w

  module _ (arch : Arch W) (counts : ArchTracks arch opened) where
    open counts use {open_counts, close_one, get_keeps, set_keeps}

    darwin_open_display-Counted :
        (id : ℕ) (w : W)
        → Counted opened w (darwin_open_display cg arch id w).0 (darwin_open_display cg arch id w).1
    unfolding darwin_open_display
    darwin_open_display-Counted id w = elim (Bool-cases (cg.is_builtin id)) [
      | inl builtin ↦ simp builtin refl
      | inr external ↦ simp external (open_counts id w)
    ]

    set-opened :
        (h feature hi lo : ℕ) (w : W)
        → opened (darwin_set_non_table_vcp_value arch h feature hi lo w).1 ≡ opened w
    unfolding darwin_set_non_table_vcp_value
    set-opened h feature hi lo w = elim (Bool-cases (ltb 100 (word16 hi lo))) [
      | inl high ↦ rw high refl
      | inr low ↦ rw low (set_keeps h feature hi lo w)
    ]

    pub darwin_platform-Tracks : Tracks (darwin_platform cg arch)
    darwin_platform-Tracks = record {
      opened = opened;
      list_keeps = get_list-opened;
      free_keeps = λ infos w. refl;
      open_some = λ dref h w e. rw e at (darwin_open_display-Counted dref w);
      open_none = λ dref w e. rw e at (darwin_open_display-Counted dref w);
      close_one = close_one;
      get_keeps = get_keeps;
      set_keeps = set-opened;
      calloc_keeps = malloc_keeps;
    }
