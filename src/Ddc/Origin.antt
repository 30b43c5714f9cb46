-- ===== src/Ddc/Origin.antt =====
-- The operations and the levels of the sources that src/platform/ddc/abstraction.c lists.
use dimmit.Base.{
  ℕ, ◌+◌, ◌<◌, ◌^◌, ◌≡◌, inl, inr, refl, Bool, true, false, Option, none, some, List, [], ◌∷◌,
  arith, All, Bool-cases,
}
use dimmit.Base.Int.{ℤ, pos}
use dimmit.Source.{BrightnessSource}
use dimmit.Ddc.{DisplayInfo, VcpValue, Platform}
use dimmit.Dimmer.Bounds.{IsLevel}
use dimmit.Ddc.Sources.{
  word16, high_byte, low_byte, ddc_ops, prepend, keep_answering, probe, open_source, open_sources,
  fill_sources, list_sources, ddc_enumerate_sources, current_and_max,
}

-- The bytes of a `DDC_Non_Table_Vcp_Value` are of type uint8_t.
pub record IsVcp (v : VcpValue) : Type 0 where
  pub mh_byte : v.mh < 2 ^ 8
  pub ml_byte : v.ml < 2 ^ 8
  pub sh_byte : v.sh < 2 ^ 8
  pub sl_byte : v.sl < 2 ^ 8

-- A level of 16 bits, split into two bytes by `ddc_src_set`, is put together again by
-- `ddc_src_get`.
pub level_round_trip :
    (level : ℤ) → IsLevel level → pos (word16 (high_byte level) (low_byte level)) ≡ level
level_round_trip level h = ground arith

-- What a display can answer is two levels.
pub answer-IsLevel :
    (v : VcpValue) → IsVcp v → IsLevel (current_and_max v).0 × IsLevel (current_and_max v).1
answer-IsLevel v h = omega arith

module _ {W : Type 0} (p : Platform W) where
  abbrev pub IsDdc : BrightnessSource W → Type 0
  IsDdc s = s.ops ≡ ddc_ops p

  -- The same of every source, where there are any.
  abbrev pub AllDdc : Option (List (BrightnessSource W)) → Type 0
  AllDdc none = Unit
  AllDdc (some sources) = All IsDdc sources

  abbrev OneDdc : Option (BrightnessSource W) → Type 0
  OneDdc none = Unit
  OneDdc (some s) = IsDdc s

  All-prepend :
      (x : Option (BrightnessSource W)) (xs : List (BrightnessSource W))
      → OneDdc x
      → All IsDdc xs
      → All IsDdc (prepend x xs)
  All-prepend none xs h hs = hs
  All-prepend (some x) xs h hs = (h, hs)

  keep_answering-OneDdc :
      (i : ℕ) (info : DisplayInfo) (h : ℕ) (answer : Option VcpValue) (w : W)
      → OneDdc (keep_answering p i info h answer w).0
  unfolding keep_answering
  keep_answering-OneDdc i info h none w = tt
  keep_answering-OneDdc i info h (some v) w = refl

  probe-OneDdc :
      (i : ℕ) (info : DisplayInfo) (handle : Option ℕ) (w : W) → OneDdc (probe p i info handle w).0
  unfolding probe
  probe-OneDdc i info none w = tt
  probe-OneDdc i info (some h) w = keep_answering-OneDdc i info h _ _

  open_source-OneDdc : (i : ℕ) (info : DisplayInfo) (w : W) → OneDdc (open_source p i info w).0
  unfolding open_source
  open_source-OneDdc i info w = elim (Bool-cases info.is_builtin) [
    | inl builtin ↦ simp builtin tt
    | inr external ↦ simp external (probe-OneDdc i info _ _)
  ]

  open_sources-AllDdc :
      (i : ℕ) (infos : List DisplayInfo) (w : W) → All IsDdc (open_sources p i infos w).0
  unfolding open_sources
  open_sources-AllDdc i [] w = tt
  open_sources-AllDdc i (info ∷ infos) w =
      All-prepend (open_source p i info w).0 _ (open_source-OneDdc i info w)
        (open_sources-AllDdc (i + 1) infos (open_source p i info w).1)

  fill_sources-AllDdc :
      (allocated : Bool) (infos : List DisplayInfo) (w : W)
      → AllDdc (fill_sources p allocated infos w).0
  unfolding fill_sources
  fill_sources-AllDdc false infos w = tt
  fill_sources-AllDdc true infos w = open_sources-AllDdc 0 infos w

  list_sources-AllDdc :
      (infos : Option (List DisplayInfo)) (w : W) → AllDdc (list_sources p infos w).0
  unfolding list_sources
  list_sources-AllDdc none w = tt
  list_sources-AllDdc (some infos) w = fill_sources-AllDdc _ infos _

  pub ddc_enumerate_sources-AllDdc : (w : W) → AllDdc (ddc_enumerate_sources p w).0
  unfolding ddc_enumerate_sources
  ddc_enumerate_sources-AllDdc w = list_sources-AllDdc _ _
