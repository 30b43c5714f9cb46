-- ===== src/Ddc/Windows/Monitors.antt =====
-- The physical monitors that src/platform/ddc/windows.c obtains and destroys.
use mathlib.Core.Option
use dimmit.Base.{
  ℕ, zero, suc, ◌+◌, ◌-◌, ◌≤◌, ◌≡◌, ◌⊎◌, inl, inr, refl, ap, ◌∙◌, Bool, true, false, Option, none,
  some, List, [], ◌∷◌, map, arith, length, Bool-cases, Option-cases,
}
use dimmit.Ddc.{DisplayInfo}
use dimmit.Ddc.Windows.{
  Dxva, Accum, push_found, get_physical, numbered, collect_monitors, collect_all, windows_infos,
  entries_allocated, list_allocated, list_collected, windows_get_display_info_list,
  windows_close_display,
}
use dimmit.Ddc.Windows.Growth.{RunsShort, refused_at, push_monitors-full, push_monitors-length}
use dimmit.Ddc.Windows.Allocations.{push_monitors-keeps, list_collected-keeps}

-- The number of physical monitors that the process holds: `GetPhysicalMonitorsFromHMONITOR` adds those
-- that it returns, `DestroyPhysicalMonitor` gives one back, and the other calls keep them.
pub record HoldsMonitors {W : Type 0} (d : Dxva W) : Type 0 where
  pub held : W → ℕ
  pub obtained :
      (hmon n : ℕ) (w : W) (monitors : List ℕ)
      → (d.physical_monitors hmon n w).0 ≡ some monitors
      → held (d.physical_monitors hmon n w).1 ≡ held w + length monitors
  pub refused :
      (hmon n : ℕ) (w : W)
      → (d.physical_monitors hmon n w).0 ≡ none
      → held (d.physical_monitors hmon n w).1 ≡ held w
  pub destroyed : (h : ℕ) (w : W) → held (d.destroy_physical h w).1 ≡ held w - 1
  pub enumeration_keeps : (w : W) → held (d.display_monitors w).1 ≡ held w
  pub number_keeps : (hmon : ℕ) (w : W) → held (d.number_of_physical hmon w).1 ≡ held w
  pub allocate_keeps : (w : W) → held (d.allocate w).1 ≡ held w
  pub free_keeps : (w : W) → held (d.free_handle w).1 ≡ held w

-- The listed displays are those of the handles, where there is a list.
abbrev pub Lists : List ℕ → Option (List DisplayInfo) → Type 0
Lists handles none = Unit
Lists handles (some infos) = map (λ i. i.dref) infos ≡ handles

abbrev no_handles : Accum
no_handles = record { handles = []; capacity = 0 }

module _ {W : Type 0} (d : Dxva W) where
  -- The handles that the callbacks collect.
  abbrev pub collected : W → List ℕ
  collected w =
      (collect_all d (d.display_monitors w).0 no_handles (d.display_monitors w).1).0.handles

  Lists-cons :
      (h : ℕ) (handles : List ℕ) (rest : Option (List DisplayInfo))
      → Lists handles rest
      → Lists (h ∷ handles) (
          Option.map
            (λ infos.
              record { dref = h; vendor_id = 0; product_id = 0; is_builtin = false } ∷ infos)
            rest)
  Lists-cons h handles none listed = tt
  Lists-cons h handles (some infos) listed = ap (◌∷◌ h) listed

  windows_infos-Lists : (handles : List ℕ) (w : W) → Lists handles (windows_infos d handles w).0
  unfolding windows_infos
  windows_infos-Lists [] w = refl
  windows_infos-Lists (h ∷ handles) w = elim (Bool-cases (d.allocate w).0) [
    | inl ok ↦ rw ok (Lists-cons h handles _ (windows_infos-Lists handles (d.allocate w).1))
    | inr failed ↦ rw failed tt
  ]

  list_collected-Lists : (handles : List ℕ) (w : W) → Lists handles (list_collected d handles w).0
  unfolding list_collected list_allocated entries_allocated
  list_collected-Lists [] w = tt
  list_collected-Lists (h ∷ handles) w = elim (Bool-cases (d.allocate w).0) [
    | inr failed ↦ rw failed tt
    | inl ok ↦ rw ok (elim (Bool-cases (d.allocate (d.allocate w).1).0) [
      | inr failed ↦ rw failed tt
      | inl also ↦ rw also (windows_infos-Lists (h ∷ handles) _)
    ])
  ]

  module _ (t : HoldsMonitors d) where
    open t use {
      held, obtained, refused, destroyed, enumeration_keeps, number_keeps, allocate_keeps,
      free_keeps,
    }

    -- The array grows by no more handles than the process comes to hold, and by as many where memory
    -- suffices.
    abbrev Backed : Accum → W → Accum → W → Type 0
    Backed acc w acc' w' =
        (held w + length acc'.handles ≤ held w' + length acc.handles)
        × ((held w + length acc'.handles ≡ held w' + length acc.handles) ⊎ RunsShort d)

    Backed-held :
        (acc acc' : Accum) (v w w' : W)
        → held v ≡ held w
        → Backed acc v acc' w'
        → Backed acc w acc' w'
    Backed-held acc acc' v w w' same b = rw same at b

    Backed-trans : (a b c : Accum) (u v w : W) → Backed a u b v → Backed b v c w → Backed a u c w
    Backed-trans a b c u v w (few, exact) (few', exact') = (omega arith, both exact exact')
      where
        both :
            (held u + length b.handles ≡ held v + length a.handles) ⊎ RunsShort d
            → (held v + length c.handles ≡ held w + length b.handles) ⊎ RunsShort d
            → (held u + length c.handles ≡ held w + length a.handles) ⊎ RunsShort d
        both (inl e) (inl e') = inl (omega arith)
        both (inl e) (inr fails) = inr fails
        both (inr fails) e' = inr fails

    push_found-Backed :
        (hmon n : ℕ) (acc : Accum) (w : W)
        → Backed acc w
            (push_found d acc (d.physical_monitors hmon n w).0 (d.physical_monitors hmon n w).1).0
            (push_found d acc (d.physical_monitors hmon n w).0 (d.physical_monitors hmon n w).1).1
    unfolding push_found
    push_found-Backed hmon n acc w = elim (Option-cases (d.physical_monitors hmon n w).0) [
      | inl nothing ↦
          rw nothing
            (omega (arith, refused hmon n w nothing), inl (omega (arith, refused hmon n w nothing)))
      | inr (monitors, found) ↦ rw found (
          let pushed = (d.physical_monitors hmon n w).1 in
          let more = obtained hmon n w monitors found in
          let kept = push_monitors-keeps d held allocate_keeps monitors acc pushed in
          (
            omega (arith, more, push_monitors-length d monitors acc pushed, kept),
            elim (push_monitors-full d monitors acc pushed) [
              | inl full ↦ inl (omega (arith, more, full, kept))
              | inr fails ↦ inr fails
            ],
          ))
    ]

    get_physical-Backed :
        (hmon n : ℕ) (acc : Accum) (ok : Bool) (w : W)
        → (ok ≡ false → RunsShort d)
        → Backed acc w (get_physical d hmon n acc ok w).0 (get_physical d hmon n acc ok w).1
    unfolding get_physical
    get_physical-Backed hmon n acc false w short = (omega arith, inl (omega arith))
    get_physical-Backed hmon n acc true w short = push_found-Backed hmon n acc w

    numbered-Backed :
        (hmon : ℕ) (acc : Accum) (n : Option ℕ) (w : W)
        → Backed acc w (numbered d hmon acc n w).0 (numbered d hmon acc n w).1
    unfolding numbered
    numbered-Backed hmon acc none w = (omega arith, inl (omega arith))
    numbered-Backed hmon acc (some zero) w = (omega arith, inl (omega arith))
    numbered-Backed hmon acc (some (suc n)) w =
        let got = get_physical d hmon (suc n) acc (d.allocate w).0 (d.allocate w).1 in
        Backed-held acc got.0 (d.allocate w).1 w got.1 (allocate_keeps w)
          (get_physical-Backed hmon (suc n) acc (d.allocate w).0 (d.allocate w).1 (refused_at w))

    collect_all-Backed :
        (hmons : List ℕ) (acc : Accum) (w : W)
        → Backed acc w (collect_all d hmons acc w).0 (collect_all d hmons acc w).1
    unfolding collect_all collect_monitors
    collect_all-Backed [] acc w = (omega arith, inl (omega arith))
    collect_all-Backed (hmon ∷ hmons) acc w =
        let n = d.number_of_physical hmon w in
        let first = numbered d hmon acc n.0 n.1 in
        let all = collect_all d hmons first.0 first.1 in
        Backed-trans acc first.0 all.0 w first.1 all.1
          (Backed-held acc first.0 n.1 w first.1 (number_keeps hmon w)
            (numbered-Backed hmon acc n.0 n.1))
          (collect_all-Backed hmons first.0 first.1)

    -- Each listed display of the Windows backend is one of the monitors that were collected, in
    -- order; after a listing the process holds at least as many more monitors as were collected,
    -- and exactly as many unless some allocation of memory fails, also where the listing itself
    -- fails and nothing is left to close them; and a close gives one back. This is for calls that
    -- count the monitors that they give and take back.
    pub windows_monitors :
        (w w' : W) (h : ℕ)
        → Lists (collected w) (windows_get_display_info_list d w).0
          × (held w + length (collected w) ≤ held (windows_get_display_info_list d w).1)
          × ((held w + length (collected w) ≡ held (windows_get_display_info_list d w).1)
              ⊎ RunsShort d)
          × (held (windows_close_display d h w').1 ≡ held w' - 1)
    unfolding windows_get_display_info_list windows_close_display
    windows_monitors w w' h = (
      list_collected-Lists (collected w) _,
      omega (arith, enumeration_keeps w, backed.0, kept),
      exactly backed.1,
      free_keeps (d.destroy_physical h w').1 ∙ destroyed h w',
    )
      where
        found : W
        found = (d.display_monitors w).1

        after : W
        after = (collect_all d (d.display_monitors w).0 no_handles found).1

        kept : held (list_collected d (collected w) after).1 ≡ held after
        kept = list_collected-keeps d held allocate_keeps (collected w) after

        backed :
            Backed no_handles found
              (collect_all d (d.display_monitors w).0 no_handles found).0
              after
        backed = collect_all-Backed (d.display_monitors w).0 no_handles found

        exactly :
            (held found + length (collected w) ≡ held after + 0) ⊎ RunsShort d
            → (held w + length (collected w) ≡ held (list_collected d (collected w) after).1)
              ⊎ RunsShort d
        exactly (inl e) = inl (omega (arith, enumeration_keeps w, kept, e))
        exactly (inr fails) = inr fails
