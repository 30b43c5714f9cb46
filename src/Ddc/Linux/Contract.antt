-- ===== src/Ddc/Linux/Contract.antt =====
-- The handles of the backend over libddcutil (src/platform/ddc/linux.c).
use dimmit.Base.{
  ℕ, ◌+◌, ◌-◌, ◌≡◌, inl, inr, refl, ◌∙◌, Bool, true, false, Option, none, some, List, [], ◌∷◌,
  arith, Bool-cases, Option-cases,
}
use dimmit.Ddc.Handles.{Tracks}
use dimmit.Ddc.Linux.{
  DdcaInfo, Ddcutil, wrap_infos, copy_entries, copy_list, refuse_list, check_list,
  linux_get_display_info_list, linux_free_display_info_list, wrap_handle, wrap_opened,
  linux_open_display, linux_platform,
}

-- What libddcutil documents of its handles: a successful open adds one, a close gives one back, and
-- no other call changes their number.
pub record DdcutilTracks {W : Type 0} (u : Ddcutil W) : Type 0 where
  pub opened : W → ℕ
  pub list_keeps : (w : W) → opened (u.get_display_info_list2 w).1 ≡ opened w
  pub free_keeps :
      (dl : List DdcaInfo) (w : W) → opened (u.free_display_info_list dl w).1 ≡ opened w
  pub open_some :
      (dref dh : ℕ) (w : W)
      → (u.open_display2 dref w).0 ≡ some dh
      → opened (u.open_display2 dref w).1 ≡ opened w + 1
  pub open_none :
      (dref : ℕ) (w : W)
      → (u.open_display2 dref w).0 ≡ none
      → opened (u.open_display2 dref w).1 ≡ opened w
  pub close_one : (dh : ℕ) (w : W) → opened (u.close_display dh w).1 ≡ opened w - 1
  pub get_keeps :
      (dh feature : ℕ) (w : W) → opened (u.get_non_table_vcp_value dh feature w).1 ≡ opened w
  pub set_keeps :
      (dh feature hi lo : ℕ) (w : W)
      → opened (u.set_non_table_vcp_value dh feature hi lo w).1 ≡ opened w
  pub malloc_keeps : (w : W) → opened (u.malloc w).1 ≡ opened w

module _ {W : Type 0} (u : Ddcutil W) (t : DdcutilTracks u) where
  open t use {opened, list_keeps, free_keeps, open_some, open_none, close_one, malloc_keeps}

  wrap_infos-opened : (dl : List DdcaInfo) (w : W) → opened (wrap_infos u dl w).1 ≡ opened w
  unfolding wrap_infos
  wrap_infos-opened [] w = refl
  wrap_infos-opened (info ∷ infos) w = elim (Bool-cases (u.malloc w).0) [
    | inl allocated ↦ simp allocated (wrap_infos-opened infos (u.malloc w).1 ∙ malloc_keeps w)
    | inr failed ↦ simp failed (malloc_keeps w)
  ]

  copy_entries-opened :
      (dl : List DdcaInfo) (allocated : Bool) (w : W)
      → opened (copy_entries u dl allocated w).1 ≡ opened w
  unfolding copy_entries
  copy_entries-opened dl false w = free_keeps dl w
  copy_entries-opened dl true w = free_keeps dl _ ∙ wrap_infos-opened dl w

  copy_list-opened :
      (dl : List DdcaInfo) (allocated : Bool) (w : W)
      → opened (copy_list u dl allocated w).1 ≡ opened w
  unfolding copy_list
  copy_list-opened dl false w = free_keeps dl w
  copy_list-opened dl true w = copy_entries-opened dl _ _ ∙ malloc_keeps w

  refuse_list-opened :
      (dl : Option (List DdcaInfo)) (w : W) → opened (refuse_list u dl w).1 ≡ opened w
  unfolding refuse_list
  refuse_list-opened none w = refl
  refuse_list-opened (some dl) w = free_keeps dl w

  check_list-opened :
      (ok : Bool) (dl : Option (List DdcaInfo)) (w : W) → opened (check_list u ok dl w).1 ≡ opened w
  unfolding check_list
  check_list-opened false dl w = refuse_list-opened dl w
  check_list-opened true none w = refuse_list-opened none w
  check_list-opened true (some []) w = refuse_list-opened (some []) w
  check_list-opened true (some (info ∷ infos)) w =
      copy_list-opened (info ∷ infos) _ _ ∙ malloc_keeps w

  get_list-opened : (w : W) → opened (linux_get_display_info_list u w).1 ≡ opened w
  unfolding linux_get_display_info_list
  get_list-opened w = check_list-opened _ _ _ ∙ list_keeps w

  -- How an open changes the number of handles.
  abbrev Counted : W → Option ℕ → W → Type 0
  Counted w none w' = opened w' ≡ opened w
  Counted w (some h) w' = opened w' ≡ opened w + 1

  wrap_handle-Counted :
      (dh : ℕ) (allocated : Bool) (w w' : W)
      → opened w' ≡ opened w + 1
      → Counted w (wrap_handle u dh allocated w').0 (wrap_handle u dh allocated w').1
  unfolding wrap_handle
  wrap_handle-Counted dh true w w' e = e
  wrap_handle-Counted dh false w w' e = omega (arith, close_one dh w')

  wrap_opened-Counted :
      (found : Option ℕ) (w w' : W)
      → Counted w found w'
      → Counted w (wrap_opened u found w').0 (wrap_opened u found w').1
  unfolding wrap_opened
  wrap_opened-Counted none w w' e = e
  wrap_opened-Counted (some dh) w w' e = wrap_handle-Counted dh _ w _ (malloc_keeps w' ∙ e)

  linux_open_display-Counted :
      (dref : ℕ) (w : W) → Counted w (linux_open_display u dref w).0 (linux_open_display u dref w).1
  unfolding linux_open_display
  linux_open_display-Counted dref w = elim (Option-cases (u.open_display2 dref w).0) [
    | inl refused ↦ rw refused (wrap_opened-Counted none w _ (open_none dref w refused))
    | inr (dh, found) ↦ rw found (wrap_opened-Counted (some dh) w _ (open_some dref dh w found))
  ]

  -- The Linux backend keeps count of its handles as the abstraction relies on, on every failure of
  -- the allocator, where libddcutil keeps count of its own.
  pub linux_platform-Tracks : Tracks (linux_platform u)
  linux_platform-Tracks = record {
    opened = opened;
    list_keeps = get_list-opened;
    free_keeps = λ infos w. unfold linux_free_display_info_list in refl;
    open_some = λ dref h w e. rw e at (linux_open_display-Counted dref w);
    open_none = λ dref w e. rw e at (linux_open_display-Counted dref w);
    close_one = close_one;
    get_keeps = t.get_keeps;
    set_keeps = t.set_keeps;
    calloc_keeps = malloc_keeps;
  }
