-- ===== src/Ddc/Handles.antt =====
-- The display handles that src/platform/ddc/abstraction.c opens and closes.
use dimmit.Base.{
  ℕ, ◌+◌, ◌-◌, ◌≡◌, inl, inr, ap, ◌∙◌, Bool, true, false, Option, none, some, List, [], ◌∷◌, arith,
  length, Option-cases, Bool-cases,
}
use dimmit.Ddc.{DisplayInfo, VcpValue, Platform}
use dimmit.Ddc.Sources.{
  vcp_brightness, prepend, keep_answering, probe, open_source, open_sources, fill_sources,
  list_sources, ddc_enumerate_sources,
}

-- What the backends' documentation says of handles: a successful open adds one, a close gives one
-- back, and no other call changes their number.
pub record Tracks {W : Type 0} (p : Platform W) : Type 0 where
  pub opened : W → ℕ
  pub list_keeps : (w : W) → opened (p.get_display_info_list w).1 ≡ opened w
  pub free_keeps :
      (infos : List DisplayInfo) (w : W) → opened (p.free_display_info_list infos w).1 ≡ opened w
  pub open_some :
      (dref h : ℕ) (w : W)
      → (p.open_display dref w).0 ≡ some h
      → opened (p.open_display dref w).1 ≡ opened w + 1
  pub open_none :
      (dref : ℕ) (w : W)
      → (p.open_display dref w).0 ≡ none
      → opened (p.open_display dref w).1 ≡ opened w
  pub close_one : (h : ℕ) (w : W) → opened (p.close_display h w).1 ≡ opened w - 1
  pub get_keeps :
      (h feature : ℕ) (w : W) → opened (p.get_non_table_vcp_value h feature w).1 ≡ opened w
  pub set_keeps :
      (h feature hi lo : ℕ) (w : W)
      → opened (p.set_non_table_vcp_value h feature hi lo w).1 ≡ opened w
  pub calloc_keeps : (w : W) → opened (p.calloc w).1 ≡ opened w

-- How many sources an enumeration returns.
abbrev pub returned {ℓ} : {A : Type ℓ} → Option (List A) → ℕ
returned none = 0
returned (some xs) = length xs

abbrev size {ℓ} : {A : Type ℓ} → Option A → ℕ
size none = 0
size (some x) = 1

length-prepend :
    {A : Type 0} (x : Option A) (xs : List A) → length (prepend x xs) ≡ size x + length xs
length-prepend none xs = omega arith
length-prepend (some x) xs = omega arith

module _ {W : Type 0} (p : Platform W) (t : Tracks p) where
  open t use {
    opened, list_keeps, free_keeps, open_some, open_none, close_one, get_keeps, calloc_keeps,
  }

  keep_answering-opened :
      (i : ℕ) (info : DisplayInfo) (h n : ℕ) (answer : Option VcpValue) (w : W)
      → opened w ≡ n + 1
      → opened (keep_answering p i info h answer w).1
        ≡ n + size (keep_answering p i info h answer w).0
  unfolding keep_answering
  keep_answering-opened i info h n none w e = omega (arith, close_one h w)
  keep_answering-opened i info h n (some v) w e = omega arith

  probe-opened :
      (i : ℕ) (info : DisplayInfo) (handle : Option ℕ) (n : ℕ) (w : W)
      → opened w ≡ n + size handle
      → opened (probe p i info handle w).1 ≡ n + size (probe p i info handle w).0
  unfolding probe
  probe-opened i info none n w e = e
  probe-opened i info (some h) n w e =
      keep_answering-opened i info h n _ _ (get_keeps h vcp_brightness w ∙ e)

  open_display-opened :
      (dref : ℕ) (w : W)
      → opened (p.open_display dref w).1 ≡ opened w + size (p.open_display dref w).0
  open_display-opened dref w = elim (Option-cases (p.open_display dref w).0) [
    | inl refused ↦ rw refused (omega (arith, open_none dref w refused))
    | inr (h, given) ↦ rw given (open_some dref h w given)
  ]

  open_source-opened :
      (i : ℕ) (info : DisplayInfo) (w : W)
      → opened (open_source p i info w).1 ≡ opened w + size (open_source p i info w).0
  unfolding open_source
  open_source-opened i info w = elim (Bool-cases info.is_builtin) [
    | inl builtin ↦ rw builtin (omega arith)
    | inr external ↦
        simp external (probe-opened i info _ (opened w) _ (open_display-opened info.dref w))
  ]

  open_sources-opened :
      (i : ℕ) (infos : List DisplayInfo) (w : W)
      → opened (open_sources p i infos w).1 ≡ opened w + length (open_sources p i infos w).0
  unfolding open_sources
  open_sources-opened i [] w = omega arith
  open_sources-opened i (info ∷ infos) w = omega (
    arith,
    length-prepend (open_source p i info w).0 _,
    open_source-opened i info w,
    open_sources-opened (i + 1) infos (open_source p i info w).1,
  )

  fill_sources-opened :
      (allocated : Bool) (infos : List DisplayInfo) (w : W)
      → opened (fill_sources p allocated infos w).1
        ≡ opened w + returned (fill_sources p allocated infos w).0
  unfolding fill_sources
  fill_sources-opened false infos w = omega (arith, free_keeps infos w)
  fill_sources-opened true infos w =
      free_keeps infos (open_sources p 0 infos w).1 ∙ open_sources-opened 0 infos w

  list_sources-opened :
      (infos : Option (List DisplayInfo)) (w : W)
      → opened (list_sources p infos w).1 ≡ opened w + returned (list_sources p infos w).0
  unfolding list_sources
  list_sources-opened none w = omega arith
  list_sources-opened (some infos) w =
      fill_sources-opened (p.calloc w).0 infos (p.calloc w).1
      ∙ ap (λ n. n + returned (fill_sources p (p.calloc w).0 infos (p.calloc w).1).0)
          (calloc_keeps w)

  -- An enumeration leaves open one more handle for each source that it returns and no other, on
  -- every path, for a backend that counts its handles.
  pub ddc_enumerate_sources-opened :
      (w : W)
      → opened (ddc_enumerate_sources p w).1 ≡ opened w + returned (ddc_enumerate_sources p w).0
  unfolding ddc_enumerate_sources
  ddc_enumerate_sources-opened w =
      list_sources-opened (p.get_display_info_list w).0 (p.get_display_info_list w).1
      ∙ ap
          (λ n.
            n
            + returned
                (list_sources p (p.get_display_info_list w).0 (p.get_display_info_list w).1).0)
          (list_keeps w)
