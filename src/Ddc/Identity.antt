-- ===== src/Ddc/Identity.antt =====
-- The ids that src/platform/ddc/abstraction.c gives to its sources: "ddc:vendor:product:index".
use dimmit.Base.{
  ℕ, ◌+◌, ◌^◌, ◌≤◌, ◌<◌, ◌≡◌, ◌≢◌, inl, inr, refl, sym, ap, ◌∙◌, Bool, true, false, Option, none,
  some, List, [], ◌∷◌, ◌++◌, length, length-append, All, map, arith, codes, Bool-cases,
  Option-cases,
}
use dimmit.Source.{BrightnessSource}
use dimmit.Ddc.{DisplayInfo, VcpValue, Platform}
use dimmit.Ddc.Format.{print_dec, print_hex4}
use dimmit.Ddc.Format.Digits.{
  last_number, last_number-append, tens, last_number-print_base, length-print_base,
  length-print_hex4, take-all,
}
use dimmit.Ddc.Sources.{
  text_limit, source_id, prepend, keep_answering, probe, open_source, open_sources, fill_sources,
  list_sources, ddc_enumerate_sources,
}

-- The id before it is cut.
abbrev whole_id : ℕ → DisplayInfo → List ℕ
whole_id i info =
    codes "ddc:"
    ++ (print_hex4 info.vendor_id
        ++ (codes ":" ++ (print_hex4 info.product_id ++ (codes ":" ++ print_dec i))))

length-whole_id : (i : ℕ) (info : DisplayInfo) → length (whole_id i info) ≤ text_limit
unfolding print_dec
length-whole_id i info = omega (
  arith,
  length-append (print_hex4 info.vendor_id)
      (codes ":" ++ (print_hex4 info.product_id ++ (codes ":" ++ print_dec i))),
  length-append (print_hex4 info.product_id) (codes ":" ++ print_dec i),
  length-print_hex4 info.vendor_id,
  length-print_hex4 info.product_id,
  length-print_base 10 10 i [],
)

-- The displays of a list are counted by an `int`.
abbrev pub int_limit : ℕ
int_limit = 2 ^ 31

last_number-whole_id :
    (i : ℕ) (info : DisplayInfo) → i < int_limit → last_number 0 (whole_id i info) ≡ i
unfolding print_dec last_number
last_number-whole_id i info h =
    last_number-append 0 (print_hex4 info.vendor_id) _
    ∙ last_number-append 0 (print_hex4 info.product_id) _
    ∙ last_number-print_base 10 i [] (unfold tens in omega arith)

last_number-source_id :
    (i : ℕ) (info : DisplayInfo) → i < int_limit → last_number 0 (source_id i info) ≡ i
unfolding source_id
last_number-source_id i info h =
    ap (last_number 0) (take-all text_limit (whole_id i info) (length-whole_id i info))
    ∙ last_number-whole_id i info h

source_id-ne : (i j : ℕ) (a b : DisplayInfo) → i < j → j < int_limit → source_id i a ≢ source_id j b
source_id-ne i j a b h k e = absurd (
    omega (
      arith,
      ap (last_number 0) e,
      last_number-source_id i a (omega arith),
      last_number-source_id j b k,
    ))

-- No two of these texts are equal.
abbrev pub Distinct : List (List ℕ) → Type 0
Distinct [] = Unit
Distinct (x ∷ xs) = All (λ y. x ≢ y) xs × Distinct xs

module _ {W : Type 0} where
  abbrev pub ids : List (BrightnessSource W) → List (List ℕ)
  ids sources = map (λ s. s.id) sources

  abbrev pub DistinctIfAny : Option (List (BrightnessSource W)) → Type 0
  DistinctIfAny none = Unit
  DistinctIfAny (some sources) = Distinct (ids sources)

  -- A source of the display at an index of the list, which is at least `i`.
  abbrev IsFrom : ℕ → BrightnessSource W → Type 0
  IsFrom i s =
      (j : ℕ) × (info : DisplayInfo) × (i ≤ j) × (j < int_limit) × (s.id ≡ source_id j info)

  abbrev IsFromIfAny : ℕ → Option (BrightnessSource W) → Type 0
  IsFromIfAny i none = Unit
  IsFromIfAny i (some s) = (info : DisplayInfo) × (s.id ≡ source_id i info)

  later-IsFrom :
      (i : ℕ) (sources : List (BrightnessSource W))
      → All (IsFrom (i + 1)) sources
      → All (IsFrom i) sources
  later-IsFrom i [] h = tt
  later-IsFrom i (s ∷ sources) ((j, info, le, lt, e), h) =
      ((j, info, omega arith, lt, e), later-IsFrom i sources h)

  ne-later :
      (i : ℕ) (s : BrightnessSource W) (info : DisplayInfo) (sources : List (BrightnessSource W))
      → s.id ≡ source_id i info
      → All (IsFrom (i + 1)) sources
      → All (λ y. s.id ≢ y) (ids sources)
  ne-later i s info [] e h = tt
  ne-later i s info (s' ∷ sources) e ((j, info', le, lt, e'), h) = (
    λ same. source_id-ne i j info info' (omega arith) lt (sym e ∙ same ∙ e'),
    ne-later i s info sources e h,
  )

module _ {W : Type 0} (p : Platform W) where
  keep_answering-IsFrom :
      (i : ℕ) (info : DisplayInfo) (h : ℕ) (answer : Option VcpValue) (w : W)
      → IsFromIfAny i (keep_answering p i info h answer w).0
  unfolding keep_answering
  keep_answering-IsFrom i info h none w = tt
  keep_answering-IsFrom i info h (some v) w = (info, refl)

  probe-IsFrom :
      (i : ℕ) (info : DisplayInfo) (handle : Option ℕ) (w : W)
      → IsFromIfAny i (probe p i info handle w).0
  unfolding probe
  probe-IsFrom i info none w = tt
  probe-IsFrom i info (some h) w = keep_answering-IsFrom i info h _ _

  open_source-IsFrom :
      (i : ℕ) (info : DisplayInfo) (w : W) → IsFromIfAny i (open_source p i info w).0
  unfolding open_source
  open_source-IsFrom i info w = elim (Bool-cases info.is_builtin) [
    | inl builtin ↦ rw builtin tt
    | inr external ↦ simp external (probe-IsFrom i info _ _)
  ]

  -- Both of what is to be shown of the sources from an index on.
  abbrev AreFrom : ℕ → List (BrightnessSource W) → Type 0
  AreFrom i sources = All (IsFrom i) sources × Distinct (ids sources)

  prepend-AreFrom :
      (i : ℕ) (found : Option (BrightnessSource W)) (sources : List (BrightnessSource W))
      → i < int_limit
      → IsFromIfAny i found
      → AreFrom (i + 1) sources
      → AreFrom i (prepend found sources)
  prepend-AreFrom i none sources lt one more = (later-IsFrom i sources more.0, more.1)
  prepend-AreFrom i (some s) sources lt (info, e) more = (
    ((i, info, omega arith, lt, e), later-IsFrom i sources more.0),
    (ne-later i s info sources e more.0, more.1),
  )

  open_sources-AreFrom :
      (i : ℕ) (infos : List DisplayInfo) (w : W)
      → i + length infos ≤ int_limit
      → AreFrom i (open_sources p i infos w).0
  unfolding open_sources
  open_sources-AreFrom i [] w lt = (tt, tt)
  open_sources-AreFrom i (info ∷ infos) w lt =
      prepend-AreFrom i (open_source p i info w).0 _ (omega arith) (open_source-IsFrom i info w)
        (open_sources-AreFrom (i + 1) infos (open_source p i info w).1 (omega arith))

  -- The number of displays in a list is an `int`.
  abbrev pub CountsInt : Type 0
  CountsInt =
      (w : W) (infos : List DisplayInfo)
      → (p.get_display_info_list w).0 ≡ some infos
      → length infos ≤ int_limit

  fill_sources-Distinct :
      (allocated : Bool) (infos : List DisplayInfo) (w : W)
      → length infos ≤ int_limit
      → DistinctIfAny (fill_sources p allocated infos w).0
  unfolding fill_sources
  fill_sources-Distinct false infos w lt = tt
  fill_sources-Distinct true infos w lt = (open_sources-AreFrom 0 infos w (omega arith)).1

  pub ddc_enumerate_sources-Distinct :
      CountsInt → (w : W) → DistinctIfAny (ddc_enumerate_sources p w).0
  unfolding ddc_enumerate_sources list_sources
  ddc_enumerate_sources-Distinct counts w = elim (Option-cases (p.get_display_info_list w).0) [
    | inl unlisted ↦ rw unlisted tt
    | inr (infos, listed) ↦ rw listed (fill_sources-Distinct _ infos _ (counts w infos listed))
  ]
