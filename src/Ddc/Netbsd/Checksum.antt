-- ===== src/Ddc/Netbsd/Checksum.antt =====
-- The checksums of the messages of src/platform/ddc/netbsd.c.
use Prim.Native.Nat.{bit_xor, bit_xor-bitwise, digits, differ}
use dimmit.Base.{ℕ, zero, suc, ◌/◌, ◌%◌, ◌≤◌, ◌≡◌, refl, ◌∙◌, List, [], ◌∷◌, ◌++◌, arith}
use dimmit.Ddc.Netbsd.{ddc_addr, ddc_checksum, with_checksum, read_message, write_message}

differ_self : (x : ℕ) → differ x x ≡ 0
differ_self zero = refl
differ_self (suc x) = differ_self x

digits_self : (n a : ℕ) → a ≤ n → digits (λ b. b) differ n a a ≡ 0
digits_self zero zero h = refl
digits_self zero (suc a) h = absurd (omega arith)
digits_self (suc n) zero h = refl
digits_self (suc n) (suc a) h =
    omega (arith, digits_self n (suc a / 2) (omega arith), differ_self (suc a % 2))

bit_xor_self : (a : ℕ) → bit_xor a a ≡ 0
bit_xor_self a = bit_xor-bitwise a a ∙ digits_self a a (omega arith)

checksum-closed :
    (chk : ℕ) (bytes : List ℕ) → ddc_checksum chk (bytes ++ ddc_checksum chk bytes ∷ []) ≡ 0
unfolding ddc_checksum
checksum-closed chk [] = bit_xor_self chk
checksum-closed chk (byte ∷ bytes) = checksum-closed (bit_xor chk byte) bytes

-- Each message of the NetBSD backend, its checksum included, sums to 0 from the display's address.
messages_verify :
    (feature_code hi_byte lo_byte : ℕ)
    → (ddc_checksum ddc_addr (read_message feature_code) ≡ 0)
      × (ddc_checksum ddc_addr (write_message feature_code hi_byte lo_byte) ≡ 0)
unfolding read_message write_message with_checksum
messages_verify feature_code hi_byte lo_byte = (
  checksum-closed ddc_addr (0x51 ∷ 0x82 ∷ 0x01 ∷ feature_code ∷ 0x00 ∷ []),
  checksum-closed ddc_addr (0x51 ∷ 0x84 ∷ 0x03 ∷ feature_code ∷ hi_byte ∷ lo_byte ∷ []),
)
