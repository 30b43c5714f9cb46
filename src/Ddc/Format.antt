-- ===== src/Ddc/Format.antt =====
-- The number formats of C's `snprintf` that src/platform/ddc/abstraction.c uses.
pub mod Digits
use dimmit.Base.{
  ℕ, zero, suc, ◌+◌, ◌-◌, ◌/◌, ◌%◌, List, [], ◌∷◌, ◌++◌, ltb, ◌==◌, if◌then◌else◌, length,
}

unfoldable pub digit_byte : ℕ → ℕ
digit_byte d = if ltb d 10 then b'0' + d else b'a' + d - 10

-- The digits of `n` in front of `tail`; the fuel is a bound on their number.
unfoldable pub print_base : ℕ → ℕ → ℕ → List ℕ → List ℕ
unfolding digit_byte
print_base zero base n tail = tail
print_base (suc f) base n tail =
    let more = print_base f base (n / base) (digit_byte (n % base) ∷ tail) in
    if n / base == 0 then digit_byte (n % base) ∷ tail else more

-- `%d` of an `int` that is not negative: at most ten digits.
unfoldable pub print_dec : ℕ → List ℕ
unfolding print_base
print_dec n = print_base 10 10 n []

unfoldable pub zeros : ℕ → List ℕ
zeros zero = []
zeros (suc n) = b'0' ∷ zeros n

-- `%04x` of a uint32_t: at most eight digits, and at least four.
unfoldable pub print_hex4 : ℕ → List ℕ
unfolding print_base zeros
print_hex4 n = let digits = print_base 8 16 n [] in zeros (4 - length digits) ++ digits
