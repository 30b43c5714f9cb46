-- ===== src/Ddc/Answers.antt =====
-- The types of what the backends answer (src/platform/ddc/): DDC_Non_Table_Vcp_Value holds four bytes.
use dimmit.Base.{
  ℕ, zero, suc, ◌<◌, ◌^◌, ◌≡◌, inl, inr, Bool, true, false, not, ◌||◌, Option, none, some, List,
  ◌∷◌, arith, All, ◌==◌, Bool-cases, Option-cases,
}
use dimmit.Base.Int.{ℤ, pos, negsuc}
use dimmit.Ddc.{VcpValue, Platform}
use dimmit.Ddc.Origin.{IsVcp}
use dimmit.Ddc.Sources.{vcp_brightness}
use dimmit.Ddc.Mock.{Mock, mock_get_vcp, mock_platform}
use dimmit.Ddc.Netbsd.{
  Bus, ddc_reply_addr, parse_reply, read_reply, await_reply, netbsd_get_non_table_vcp_value,
  netbsd_platform,
}
use dimmit.Ddc.Windows.{Dxva, windows_get_non_table_vcp_value, windows_platform}
use dimmit.Ddc.Darwin.{CoreGraphics, darwin_platform}
use dimmit.Ddc.Darwin.Intel.{
  Framebuffers, is_supported_feature, read_from, intel_get_vcp, intel_arch,
}
use dimmit.Ddc.Darwin.Silicon
use dimmit.Ddc.Darwin.Silicon.{AvServices, silicon_arch}

-- A display answers with four bytes.
abbrev pub Answers : {W : Type 0} → Platform W → Type 0
Answers {W} p =
    (h feature : ℕ) (w : W) (v : VcpValue)
    → (p.get_non_table_vcp_value h feature w).0 ≡ some v
    → IsVcp v

abbrev pub IsByte : ℕ → Type 0
IsByte n = n < 2 ^ 8

-- The same of an answer, if there is one.
abbrev pub VcpIfAny : Option VcpValue → Type 0
VcpIfAny none = Unit
VcpIfAny (some v) = IsVcp v

pub VcpIfAny-some : (r : Option VcpValue) (v : VcpValue) → VcpIfAny r → r ≡ some v → IsVcp v
VcpIfAny-some r v h e = rw e at h

-- The bytes that a read of the bus fills in are of type uint8_t.
abbrev pub ReadsBytes : {W : Type 0} → Bus W → Type 0
ReadsBytes {W} b =
    (fd n : ℕ) (w : W) (bytes : List ℕ) → (b.read_bytes fd n w).0 ≡ some bytes → All IsByte bytes

-- The values of a reply of the vendored ddcctl are of type UInt8.
abbrev pub RepliesBytes : {W : Type 0} → Framebuffers W → Type 0
RepliesBytes {W} fb =
    (port feature : ℕ) (w : W) (v : ℕ × ℕ)
    → (fb.ddc_read port feature w).0 ≡ some v
    → IsByte v.0 × IsByte v.1

word_bytes : (v : ℤ × ℤ) → IsVcp (Silicon.reply_value v)
unfolding Silicon.reply_value Silicon.max_word Silicon.current_word
word_bytes (pos n, pos zero) = omega arith
word_bytes (pos n, pos (suc m)) = omega arith
word_bytes (pos n, negsuc m) = omega arith
word_bytes (negsuc n, pos zero) = omega arith
word_bytes (negsuc n, pos (suc m)) = omega arith
word_bytes (negsuc n, negsuc m) = omega arith

pub mock-VcpIfAny : (h feature : ℕ) (m : Mock) → VcpIfAny (mock_get_vcp h feature m).0
unfolding mock_get_vcp
mock-VcpIfAny h feature m = elim (Bool-cases (feature == vcp_brightness)) [
  | inl brightness ↦ rw brightness (omega arith)
  | inr other ↦ rw other tt
]

parse_reply-VcpIfAny :
    (feature : ℕ) (bytes : List ℕ) → All IsByte bytes → VcpIfAny (parse_reply feature bytes)
unfolding parse_reply
parse_reply-VcpIfAny feature (r0 ∷ r1 ∷ r2 ∷ r3 ∷ r4 ∷ r5 ∷ r6 ∷ r7 ∷ r8 ∷ r9 ∷ rest) h =
    elim (Bool-cases (not (r0 == ddc_reply_addr) || not (r2 == 0x02) || not (r4 == feature))) [
      | inl other ↦ rw other tt
      | inr reply ↦ rw reply (omega arith)
    ]
parse_reply-VcpIfAny feature _ h = tt

module _ {W : Type 0} where
  await_reply-VcpIfAny :
      (b : Bus W) (h feature : ℕ) (sent : Bool) (w : W)
      → ReadsBytes b
      → VcpIfAny (await_reply b h feature sent w).0
  unfolding await_reply read_reply
  await_reply-VcpIfAny b h feature false w typed = tt
  await_reply-VcpIfAny b h feature true w typed = elim (Option-cases (b.read_bytes h 12 w).0) [
    | inl silent ↦ rw silent tt
    | inr (bytes, got) ↦ rw got (parse_reply-VcpIfAny feature bytes (typed h 12 w bytes got))
  ]

  netbsd-VcpIfAny :
      (b : Bus W) (h feature : ℕ) (w : W)
      → ReadsBytes b
      → VcpIfAny (netbsd_get_non_table_vcp_value b h feature w).0
  unfolding netbsd_get_non_table_vcp_value
  netbsd-VcpIfAny b h feature w typed = await_reply-VcpIfAny b h feature _ _ typed

  read_from-VcpIfAny :
      (fb : Framebuffers W) (feature port : ℕ) (w : W)
      → RepliesBytes fb
      → VcpIfAny (read_from fb feature port w).0
  unfolding read_from
  read_from-VcpIfAny fb feature port w typed = elim (Bool-cases (port == 0)) [
    | inl nowhere ↦ rw nowhere tt
    | inr there ↦ rw there (elim (Option-cases (fb.ddc_read port feature w).0) [
      | inl silent ↦ rw silent tt
      | inr (v, got) ↦ let bytes = typed port feature w v got in rw got (omega arith)
    ])
  ]

  intel-VcpIfAny :
      (fb : Framebuffers W) (h feature : ℕ) (w : W)
      → RepliesBytes fb
      → VcpIfAny (intel_get_vcp fb h feature w).0
  unfolding intel_get_vcp
  intel-VcpIfAny fb h feature w typed = elim (Bool-cases (is_supported_feature feature)) [
    | inl brightness ↦ rw brightness (read_from-VcpIfAny fb feature _ _ typed)
    | inr other ↦ rw other tt
  ]

  silicon_reply-VcpIfAny :
      (av : AvServices W) (h packet : ℕ) (sent : Bool) (w : W)
      → VcpIfAny (Silicon.read_reply av h packet sent w).0
  unfolding Silicon.read_reply
  silicon_reply-VcpIfAny av h packet false w = tt
  silicon_reply-VcpIfAny av h packet true w =
      elim (Option-cases (av.perform_read h (av.input_addr packet) w).0) [
        | inl silent ↦ rw silent tt
        | inr (bytes, got) ↦ rw got (word_bytes (av.convert bytes))
      ]

  silicon-VcpIfAny :
      (av : AvServices W) (h feature : ℕ) (w : W)
      → VcpIfAny (Silicon.silicon_get_vcp av h feature w).0
  unfolding Silicon.silicon_get_vcp Silicon.request
  silicon-VcpIfAny av h feature w = elim (Bool-cases (h == 0)) [
    | inl closed ↦ rw closed tt
    | inr there ↦ rw there (elim (Bool-cases (is_supported_feature feature)) [
      | inl brightness ↦ rw brightness (silicon_reply-VcpIfAny av h _ _ _)
      | inr other ↦ rw other tt
    ])
  ]

  windows-VcpIfAny :
      (d : Dxva W) (h feature : ℕ) (w : W)
      → VcpIfAny (windows_get_non_table_vcp_value d h feature w).0
  unfolding windows_get_non_table_vcp_value
  windows-VcpIfAny d h feature w = elim (Option-cases (d.vcp_reply h feature w).0) [
    | inl silent ↦ rw silent tt
    | inr (v, got) ↦ rw got (omega arith)
  ]

-- The backends of Windows, of macOS on Apple Silicon and of the simulated displays answer with
-- four bytes whatever the system or the test gives; those of NetBSD and of macOS on Intel where
-- what they read is bytes.
pub backends-Answers :
    {A B C D : Type 0} (d : Dxva A) (cg : CoreGraphics B) (av : AvServices B) (b : Bus C)
    (cg' : CoreGraphics D) (fb : Framebuffers D)
    → ReadsBytes b
    → RepliesBytes fb
    → Answers (windows_platform d)
      × Answers (darwin_platform cg (silicon_arch av))
      × Answers mock_platform
      × Answers (netbsd_platform b)
      × Answers (darwin_platform cg' (intel_arch fb))
backends-Answers d cg av b cg' fb bus_typed replies_typed = (
  λ h feature w v. VcpIfAny-some _ v (windows-VcpIfAny d h feature w),
  λ h feature w v. VcpIfAny-some _ v (silicon-VcpIfAny av h feature w),
  λ h feature w v. VcpIfAny-some _ v (mock-VcpIfAny h feature w),
  λ h feature w v. VcpIfAny-some _ v (netbsd-VcpIfAny b h feature w bus_typed),
  λ h feature w v. VcpIfAny-some _ v (intel-VcpIfAny fb h feature w replies_typed),
)
