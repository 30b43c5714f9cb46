-- ===== src/Controller/Reconcile.antt =====
-- What `controller_reconcile` (src/display_controller.c) keeps of the old set and what it makes anew.
use dimmit.Base.{
  ℕ, ◌≡◌, ◌≢◌, ◌⊎◌, inl, inr, refl, ap, ap₂, ◌∙◌, Bool, true, false, Option, none, some, List, [],
  ◌∷◌, map, All, Bool-cases, str_eq, str_eq_refl, str_eq→eq,
}
use dimmit.Base.Int.{ℤ}
use dimmit.Source.{BrightnessSource}
use dimmit.Dimmer.{Dimmer, dimmer_init, dimmer_due}
use dimmit.Ddc.{Platform}
use dimmit.Controller.{
  ManagedDisplay, DisplayController, dimmer_of, open_display, keep_or_open, matched_dimmer,
  next_displays, replace_displays, reconcile_allocated, reconcile_with, controller_reconcile,
}
use dimmit.Controller.Service.{NotDue}

-- The first display whose source has the id gives the dimmer.
pub data Matches {W : Type 0} (id : List ℕ) : List (ManagedDisplay W) → Dimmer → Type 0 where
  here :
      {d : ManagedDisplay W} {ds : List (ManagedDisplay W)}
      → id ≡ d.src.id
      → Matches id (d ∷ ds) d.dim
  there :
      {d : ManagedDisplay W} {ds : List (ManagedDisplay W)} {dim : Dimmer}
      → id ≢ d.src.id
      → Matches id ds dim
      → Matches id (d ∷ ds) dim

pub str_ne : (xs ys : List ℕ) → str_eq xs ys ≡ false → xs ≢ ys
str_ne xs ys no_match e = cc (no_match, ap (str_eq xs) e, str_eq_refl xs)

dimmer_of-idle : (reading : Option (ℤ × ℤ)) → dimmer_due (dimmer_of reading) ≡ none
unfolding dimmer_of dimmer_due dimmer_init
dimmer_of-idle none = refl
dimmer_of-idle (some (cur, max)) = refl

module _ {W : Type 0} where
  abbrev pub Unmatched : List ℕ → List (ManagedDisplay W) → Type 0
  Unmatched id ds = All (λ d. id ≢ d.src.id) ds

  abbrev pub sources_of : List (ManagedDisplay W) → List (BrightnessSource W)
  sources_of ds = map (λ d. d.src) ds

  -- The two arrays of the controller run parallel.
  abbrev pub IsParallel : DisplayController W → Type 0
  IsParallel c = sources_of c.displays ≡ c.sources

  -- A display of the new set has the dimmer of its match in the old set, or, where there is none, the
  -- dimmer of a reading.
  abbrev pub NextOf : List (ManagedDisplay W) → ManagedDisplay W → Type 0
  NextOf old d =
      Matches d.src.id old d.dim
      ⊎ (Unmatched d.src.id old × ((reading : Option (ℤ × ℤ)) × (d.dim ≡ dimmer_of reading)))

  -- What the search among the old displays finds.
  abbrev Found : List ℕ → List (ManagedDisplay W) → Option Dimmer → Type 0
  Found id ds none = Unmatched id ds
  Found id ds (some dim) = Matches id ds dim

  Found-later :
      (id : List ℕ) (d : ManagedDisplay W) (ds : List (ManagedDisplay W)) (found : Option Dimmer)
      → id ≢ d.src.id
      → Found id ds found
      → Found id (d ∷ ds) found
  Found-later id d ds none ne f = (ne, f)
  Found-later id d ds (some dim) ne f = there ne f

  matched_dimmer-Found :
      (id : List ℕ) (ds : List (ManagedDisplay W))
      → Found id ds (matched_dimmer id (sources_of ds) ds)
  unfolding matched_dimmer
  matched_dimmer-Found id [] = tt
  matched_dimmer-Found id (d ∷ ds) = elim (Bool-cases (str_eq id d.src.id)) [
    | inl same ↦ simp same (here (str_eq→eq id d.src.id same))
    | inr other ↦
        simp other (Found-later id d ds _ (str_ne id d.src.id other) (matched_dimmer-Found id ds))
  ]

  keep_or_open-NextOf :
      (old : List (ManagedDisplay W)) (f : BrightnessSource W) (found : Option Dimmer) (w : W)
      → Found f.id old found
      → ((keep_or_open f found w).0.src ≡ f) × NextOf old (keep_or_open f found w).0
  unfolding keep_or_open open_display
  keep_or_open-NextOf old f none w h = (refl, inr (h, (_, refl)))
  keep_or_open-NextOf old f (some dim) w h = (refl, inl h)

  next_displays-NextOf :
      (c : DisplayController W) (fresh : List (BrightnessSource W)) (w : W)
      → IsParallel c
      → (sources_of (next_displays c fresh w).0 ≡ fresh)
        × All (NextOf c.displays) (next_displays c fresh w).0
  unfolding next_displays
  next_displays-NextOf c [] w h = (refl, tt)
  next_displays-NextOf c (f ∷ fresh) w h =
      let first = keep_or_open-NextOf c.displays f _ w found in
      let rest = next_displays-NextOf c fresh _ h in (ap₂ ◌∷◌ first.0 rest.0, (first.1, rest.1))
    where
      found : Found f.id c.displays (matched_dimmer f.id c.sources c.displays)
      found = rw h at (matched_dimmer-Found f.id c.displays)

  -- The new set: parallel arrays, each display the next of the old set.
  abbrev pub IsNext : DisplayController W → DisplayController W → Type 0
  IsNext c c' = IsParallel c' × All (NextOf c.displays) c'.displays

  replace_displays-IsNext :
      (c : DisplayController W) (fresh : List (BrightnessSource W)) (w : W)
      → IsParallel c
      → IsNext c (replace_displays c fresh w).0
  unfolding replace_displays
  replace_displays-IsNext c fresh w h = next_displays-NextOf c fresh w h

  reconcile_allocated-IsNext :
      (allocated : Bool) (c : DisplayController W) (fresh : List (BrightnessSource W)) (w : W)
      → IsParallel c
      → ((reconcile_allocated allocated c fresh w).0 ≡ c)
        ⊎ IsNext c (reconcile_allocated allocated c fresh w).0
  unfolding reconcile_allocated
  reconcile_allocated-IsNext false c fresh w h = inl refl
  reconcile_allocated-IsNext true c fresh w h = inr (replace_displays-IsNext c fresh w h)

  reconcile_with-IsNext :
      (p : Platform W) (c : DisplayController W) (found : Option (List (BrightnessSource W)))
      (w : W)
      → IsParallel c
      → ((reconcile_with p c found w).0 ≡ c) ⊎ IsNext c (reconcile_with p c found w).0
  unfolding reconcile_with
  reconcile_with-IsNext p c none w h = inl refl
  reconcile_with-IsNext p c (some []) w h = inr (replace_displays-IsNext c [] w h)
  reconcile_with-IsNext p c (some (f ∷ fresh)) w h =
      reconcile_allocated-IsNext (p.calloc w).0 c (f ∷ fresh) (p.calloc w).1 h

  -- From parallel arrays, a reconcile leaves the controller as it was, or gives parallel arrays in
  -- which a display with the id of an old one has the dimmer of the first such and any other
  -- starts from a reading.
  pub controller_reconcile-keeps :
      (p : Platform W) (c : DisplayController W) (w : W)
      → IsParallel c
      → ((controller_reconcile p c w).0 ≡ c) ⊎ IsNext c (controller_reconcile p c w).0
  unfolding controller_reconcile
  controller_reconcile-keeps p c w h = reconcile_with-IsNext p c _ _ h

  Matches-NotDue :
      {id : List ℕ} {dim : Dimmer} (ds : List (ManagedDisplay W))
      → All NotDue ds
      → Matches id ds dim
      → dimmer_due dim ≡ none
  Matches-NotDue ds h (here e) = h.0
  Matches-NotDue ds h (there {ds = rest} ne m) = Matches-NotDue rest h.1 m

  NextOf-NotDue :
      (old : List (ManagedDisplay W)) (d : ManagedDisplay W)
      → All NotDue old
      → NextOf old d
      → NotDue d
  NextOf-NotDue old d h (inl m) = Matches-NotDue old h m
  NextOf-NotDue old d h (inr (unmatched, (reading, e))) = ap dimmer_due e ∙ dimmer_of-idle reading

  All-NextOf-NotDue :
      (old ds : List (ManagedDisplay W)) → All NotDue old → All (NextOf old) ds → All NotDue ds
  All-NextOf-NotDue old [] h n = tt
  All-NextOf-NotDue old (d ∷ ds) h n = (NextOf-NotDue old d h n.0, All-NextOf-NotDue old ds h n.1)

  -- From parallel arrays with no display due, a reconcile leaves no display due.
  pub controller_reconcile-NotDue :
      (p : Platform W) (c : DisplayController W) (w : W)
      → IsParallel c
      → All NotDue c.displays
      → All NotDue (controller_reconcile p c w).0.displays
  controller_reconcile-NotDue p c w h quiet = elim (controller_reconcile-keeps p c w h) [
    | inl same ↦ rw same quiet
    | inr (parallel, next) ↦ All-NextOf-NotDue c.displays _ quiet next
  ]

  -- The arrays stay parallel, whatever happens.
  pub controller_reconcile-IsParallel :
      (p : Platform W) (c : DisplayController W) (w : W)
      → IsParallel c
      → IsParallel (controller_reconcile p c w).0
  controller_reconcile-IsParallel p c w h = elim (controller_reconcile-keeps p c w h) [
    | inl same ↦ rw same h
    | inr (parallel, next) ↦ parallel
  ]
