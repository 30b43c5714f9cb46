-- ===== src/Ddc/Windows/Contract.antt =====
-- The handles of the Windows backend (src/platform/ddc/windows.c).
use dimmit.Base.{
  ℕ, zero, suc, ◌+◌, ◌-◌, ◌≡◌, inl, inr, refl, ◌∙◌, Bool, true, false, Option, none, some, List, [],
  ◌∷◌, arith, Bool-cases,
}
use dimmit.Ddc.Handles.{Tracks}
use dimmit.Ddc.Windows.Allocations.{push_found-keeps, list_collected-keeps}
use dimmit.Ddc.Windows.{
  Dxva, Accum, get_physical, numbered, collect_monitors, collect_all, windows_get_display_info_list,
  windows_open_display, windows_close_display, windows_get_non_table_vcp_value,
  windows_set_non_table_vcp_value, windows_platform,
}

-- The handles that are allocated: a successful allocation of one adds it, a free gives one back, and
-- no other call changes their number.
pub record DxvaTracks {W : Type 0} (d : Dxva W) : Type 0 where
  pub opened : W → ℕ
  pub malloc_true :
      (w : W) → (d.malloc_handle w).0 ≡ true → opened (d.malloc_handle w).1 ≡ opened w + 1
  pub malloc_false :
      (w : W) → (d.malloc_handle w).0 ≡ false → opened (d.malloc_handle w).1 ≡ opened w
  pub free_one : (w : W) → opened (d.free_handle w).1 ≡ opened w - 1
  pub monitors_keep : (w : W) → opened (d.display_monitors w).1 ≡ opened w
  pub number_keeps : (hmon : ℕ) (w : W) → opened (d.number_of_physical hmon w).1 ≡ opened w
  pub physical_keeps : (hmon n : ℕ) (w : W) → opened (d.physical_monitors hmon n w).1 ≡ opened w
  pub reply_keeps : (h feature : ℕ) (w : W) → opened (d.vcp_reply h feature w).1 ≡ opened w
  pub feature_keeps :
      (h feature value : ℕ) (w : W) → opened (d.set_vcp_feature h feature value w).1 ≡ opened w
  pub destroy_keeps : (h : ℕ) (w : W) → opened (d.destroy_physical h w).1 ≡ opened w
  pub allocate_keeps : (w : W) → opened (d.allocate w).1 ≡ opened w

module _ {W : Type 0} (d : Dxva W) (t : DxvaTracks d) where
  open t use {
    opened, malloc_true, malloc_false, free_one, monitors_keep, number_keeps, physical_keeps,
    destroy_keeps, allocate_keeps,
  }

  get_physical-opened :
      (hmon n : ℕ) (acc : Accum) (ok : Bool) (w : W)
      → opened (get_physical d hmon n acc ok w).1 ≡ opened w
  unfolding get_physical
  get_physical-opened hmon n acc false w = refl
  get_physical-opened hmon n acc true w =
      push_found-keeps d opened allocate_keeps acc _ _ ∙ physical_keeps hmon n w

  numbered-opened :
      (hmon : ℕ) (acc : Accum) (n : Option ℕ) (w : W)
      → opened (numbered d hmon acc n w).1 ≡ opened w
  unfolding numbered
  numbered-opened hmon acc none w = refl
  numbered-opened hmon acc (some zero) w = refl
  numbered-opened hmon acc (some (suc n)) w =
      get_physical-opened hmon (suc n) acc _ _ ∙ allocate_keeps w

  collect_all-opened :
      (hmons : List ℕ) (acc : Accum) (w : W) → opened (collect_all d hmons acc w).1 ≡ opened w
  unfolding collect_all collect_monitors
  collect_all-opened [] acc w = refl
  collect_all-opened (hmon ∷ hmons) acc w =
      collect_all-opened hmons _ _ ∙ numbered-opened hmon acc _ _ ∙ number_keeps hmon w

  get_list-opened : (w : W) → opened (windows_get_display_info_list d w).1 ≡ opened w
  unfolding windows_get_display_info_list
  get_list-opened w =
      list_collected-keeps d opened allocate_keeps _ _
      ∙ collect_all-opened (d.display_monitors w).0 _ _
      ∙ monitors_keep w

  -- How an open changes the number of handles.
  abbrev Counted : W → Option ℕ → W → Type 0
  Counted w none w' = opened w' ≡ opened w
  Counted w (some h) w' = opened w' ≡ opened w + 1

  open-Counted :
      (dref : ℕ) (w : W)
      → Counted w (windows_open_display d dref w).0 (windows_open_display d dref w).1
  unfolding windows_open_display
  open-Counted dref w = elim (Bool-cases (d.malloc_handle w).0) [
    | inl ok ↦ rw ok (malloc_true w ok)
    | inr failed ↦ rw failed (malloc_false w failed)
  ]

  close-opened : (h : ℕ) (w : W) → opened (windows_close_display d h w).1 ≡ opened w - 1
  unfolding windows_close_display
  close-opened h w = omega (arith, free_one (d.destroy_physical h w).1, destroy_keeps h w)

  -- The Windows backend keeps count of the handles that it allocates as the abstraction relies on.
  pub windows_platform-Tracks : Tracks (windows_platform d)
  windows_platform-Tracks = record {
    opened = opened;
    list_keeps = get_list-opened;
    free_keeps = λ infos w. refl;
    open_some = λ dref h w e. rw e at (open-Counted dref w);
    open_none = λ dref w e. rw e at (open-Counted dref w);
    close_one = close-opened;
    get_keeps = λ h feature w. unfold windows_get_non_table_vcp_value in t.reply_keeps h feature w;
    set_keeps = λ h feature hi lo w.
        unfold windows_set_non_table_vcp_value in t.feature_keeps h feature _ w;
    calloc_keeps = allocate_keeps;
  }
