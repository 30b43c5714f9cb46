-- ===== src/Ddc/Mock.antt =====
-- src/platform/ddc/in_memory_mock.{h,c}: a backend of simulated displays. A display's reference and
-- its handle are its index. The allocator's answers are part of the state: a list of what the next
-- calls return, and success once it is used up.
pub mod Laws
pub mod Memory
use dimmit.Base.{
  ℕ, zero, suc, ◌+◌, Bool, true, false, Option, none, some, List, [], ◌∷◌, leb, ltb, ◌==◌,
  if◌then◌else◌, ◌&&◌, ◌||◌,
}
use dimmit.Base.Int.{ℤ, pos, negsuc, ltb_ℤ}
use dimmit.Base.World.{Action, pure, ◌>>=◌, ◌>>◌}
use dimmit.Ddc.{DisplayInfo, VcpValue, Platform}
use dimmit.Ddc.Sources.{vcp_brightness, word16, high_byte, low_byte}

-- `MOCK_MAX_DISPLAYS`
abbrev pub mock_max_displays : ℕ
mock_max_displays = 8

-- The static variables `g_…`.
pub record Mock : Type 0 where
  pub inited : Bool
  pub count : ℕ
  pub current : ℕ → ℤ
  pub max : ℕ → ℤ
  pub fail : ℕ → Bool
  pub memory : List Bool

abbrev pub update {ℓ} : {A : Type ℓ} → (ℕ → A) → ℕ → A → ℕ → A
update f i v j = if i == j then v else f j

-- The static variables at the start of the program.
abbrev pub mock_start : Mock
mock_start = record {
  inited = false;
  count = 1;
  current = λ _. pos 0;
  max = λ _. pos 0;
  fail = λ _. false;
  memory = [];
}

unfoldable pub ensure_default : Mock → Mock
ensure_default m = if m.inited then m else record m {
  inited = true;
  count = 1;
  current = update m.current 0 (pos 50);
  max = update m.max 0 (pos 100);
  fail = update m.fail 0 false;
}

-- The first `n` entries of an array, copied in order.
unfoldable pub copy_first {ℓ} : {A : Type ℓ} → ℕ → (ℕ → A) → (ℕ → A) → ℕ → A
copy_first zero src dst = dst
copy_first (suc n) src dst = update (copy_first n src dst) n (src n)

-- `n` clamped to the number of displays there can be.
unfoldable pub display_count : ℤ → ℕ
display_count (negsuc n) = 0
display_count (pos n) = if ltb mock_max_displays n then mock_max_displays else n

unfoldable pub mock_reset : ℤ → (ℕ → ℤ) → (ℕ → ℤ) → Mock → Mock
mock_reset n currents maxes m =
    let k = display_count n in
    record m {
      inited = true;
      count = k;
      current = copy_first k currents m.current;
      max = copy_first k maxes m.max;
      fail = copy_first k (λ _. false) m.fail;
    }

unfoldable pub mock_set_fail : ℤ → Bool → Mock → Mock
mock_set_fail (negsuc i) f m = m
mock_set_fail (pos i) f m =
    if ltb i mock_max_displays then record m { fail = update m.fail i f } else m

unfoldable pub mock_current : Mock → ℤ → ℤ
mock_current m (negsuc i) = negsuc 0
mock_current m (pos i) = if leb m.count i then negsuc 0 else m.current i

-- `malloc` and `calloc`
unfoldable pub next_answer : List Bool → Bool
next_answer [] = true
next_answer (answer ∷ rest) = answer

unfoldable pub later_answers : List Bool → List Bool
later_answers [] = []
later_answers (answer ∷ rest) = rest

unfoldable pub allocate : Action Mock Bool
unfolding next_answer later_answers
allocate m = (next_answer m.memory, record m { memory = later_answers m.memory })

-- The entries of the display list, from index `i` on.
unfoldable pub mock_infos : ℕ → ℕ → List DisplayInfo
mock_infos zero i = []
mock_infos (suc n) i =
    record { dref = i; vendor_id = 0x1234; product_id = 0x5678 + i; is_builtin = false }
    ∷ mock_infos n (i + 1)

-- After `ensure_default`; the two allocations are of the list and of its entries.
unfoldable pub list_displays : Action Mock (Option (List DisplayInfo))
unfolding allocate mock_infos
list_displays m =
    if m.count == 0
    then (none, m)
    else (let (list_ok, m') = allocate m in
        if list_ok
        then (let (info_ok, m'') = allocate m' in
            if info_ok then (some (mock_infos m.count 0), m'') else (none, m''))
        else (none, m'))

unfoldable pub mock_get_display_info_list : Action Mock (Option (List DisplayInfo))
unfolding list_displays ensure_default
mock_get_display_info_list m = list_displays (ensure_default m)

unfoldable pub mock_get_vcp : ℕ → ℕ → Action Mock (Option VcpValue)
mock_get_vcp i feature_code m = (
  if feature_code == vcp_brightness
      then some (record {
        mh = high_byte (m.max i);
        ml = low_byte (m.max i);
        sh = high_byte (m.current i);
        sl = low_byte (m.current i);
      })
      else none,
  m,
)

unfoldable pub mock_set_vcp : ℕ → ℕ → ℕ → ℕ → Action Mock Bool
mock_set_vcp i feature_code hi_byte lo_byte m =
    if feature_code == vcp_brightness
    then (if m.fail i
        then (false, m)
        else (true, record m { current = update m.current i (pos (word16 hi_byte lo_byte)) }))
    else (false, m)

unfoldable pub mock_open_display : ℕ → Action Mock (Option ℕ)
mock_open_display dref = pure (some dref)

unfoldable pub mock_close_display : ℕ → Action Mock (Unit {0})
mock_close_display h = pure tt

unfoldable pub mock_free_display_info_list : List DisplayInfo → Action Mock (Unit {0})
mock_free_display_info_list infos = pure tt

abbrev pub mock_platform : Platform Mock
mock_platform = record {
  get_display_info_list = mock_get_display_info_list;
  free_display_info_list = mock_free_display_info_list;
  open_display = mock_open_display;
  close_display = mock_close_display;
  get_non_table_vcp_value = mock_get_vcp;
  set_non_table_vcp_value = mock_set_vcp;
  calloc = allocate;
}
