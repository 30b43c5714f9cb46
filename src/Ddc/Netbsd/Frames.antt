-- ===== src/Ddc/Netbsd/Frames.antt =====
-- The messages and the replies of src/platform/ddc/netbsd.c, and what a display that follows DDC/CI
-- takes and sends.
use Prim.Native.Nat.{bit_xor}
use dimmit.Base.{
  ℕ, zero, suc, ◌-◌, ◌<◌, ◌≡◌, ◌↔◌, refl, sym, ◌∙◌, Bool, true, false, not, ◌&&◌, ◌||◌, none, List,
  [], ◌∷◌, ◌++◌, arith, ◌==◌, ==_refl, leb,
}
use dimmit.Ddc.Netbsd.{ddc_checksum, with_checksum, read_message, write_message, parse_reply}

-- After as many bytes of data the next byte is the sum of all before it.
abbrev pub sums_up : ℕ → ℕ → List ℕ → Bool
sums_up n sum [] = false
sums_up zero sum (byte ∷ bytes) = sum == byte
sums_up (suc n) sum (byte ∷ bytes) = sums_up n (bit_xor sum byte) bytes

-- A display takes the message of a host: its source, 0x80 and the number of bytes of data, the data,
-- and the sum from the address on. What follows is not part of it.
abbrev pub takes : List ℕ → Bool
takes (source ∷ size ∷ bytes) =
    (source == 0x51)
    && (leb 0x80 size && sums_up (size - 0x80) (bit_xor (bit_xor 0x6E source) size) bytes)
takes _ = false

-- What a display sends for a feature, up to the sum: its own address 0x6E, eight bytes, and the maximal
-- and the present value, the high bytes first.
abbrev pub feature_reply : ℕ → ℕ → ℕ → ℕ → ℕ → ℕ → List ℕ
feature_reply feature_code type mh ml sh sl =
    0x6E ∷ 0x88 ∷ 0x02 ∷ 0x00 ∷ feature_code ∷ type ∷ mh ∷ ml ∷ sh ∷ sl ∷ []

holds_below : ℕ → (ℕ → Bool) → Bool
holds_below zero test = true
holds_below (suc n) test = test n && holds_below n test

below-lem : (n : ℕ) (test : ℕ → Bool) (x : ℕ) → holds_below n test ≡ true → x < n → test x ≡ true
unfolding holds_below
below-lem zero test x all h = absurd (omega arith)
below-lem (suc n) test x all h = ground (arith, below-lem n test x)

zero_sums : holds_below 256 (λ x. not (bit_xor 0xBC x == 0) || (x == 0xBC)) ≡ true
unfolding holds_below
zero_sums = refl

write-takes : (feature_code hi lo : ℕ) → takes (write_message feature_code hi lo) ≡ true
unfolding write_message with_checksum ddc_checksum
write-takes feature_code hi lo = ==_refl _

read-takes :
    (feature_code : ℕ) → takes (read_message feature_code) ≡ (bit_xor 0xBC feature_code == 0)
unfolding read_message with_checksum ddc_checksum
read-takes feature_code = refl

-- A byte that makes the sum zero.
only_zero : (x : ℕ) → x < 256 → (bit_xor 0xBC x == 0) ≡ true → x ≡ 0xBC
only_zero x h zero_sum = ground (arith, below-lem 256 _ x zero_sums h)

zero_at : (x : ℕ) → x ≡ 0xBC → (bit_xor 0xBC x == 0) ≡ true
zero_at x e = rw e refl

-- A display that follows DDC/CI takes every write message of the NetBSD backend. Of its read
-- messages, for a feature of one byte, it takes only the one for feature 0xBC: the size says two
-- bytes of data where three are sent, so the byte in the place of the sum is 0. And the backend
-- refuses every reply of such a display.
pub netbsd_messages :
    (feature_code hi lo type mh ml sh sl : ℕ) (rest : List ℕ)
    → feature_code < 256
    → (takes (write_message feature_code hi lo) ≡ true)
      × ((takes (read_message feature_code) ≡ true) ↔ (feature_code ≡ 0xBC))
      × (parse_reply feature_code (feature_reply feature_code type mh ml sh sl ++ rest) ≡ none)
unfolding parse_reply
netbsd_messages feature_code hi lo type mh ml sh sl rest small = (
  write-takes feature_code hi lo,
  (
    λ taken. only_zero feature_code small (sym (read-takes feature_code) ∙ taken),
    λ e. read-takes feature_code ∙ zero_at feature_code e,
  ),
  refl,
)
