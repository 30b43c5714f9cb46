-- ===== src/Ddc/Format/Digits.antt =====
-- What the number formats of src/platform/ddc/abstraction.c print: how long, and that a decimal number
-- can be read back.
use dimmit.Base.{
  ℕ, zero, suc, ◌+◌, ◌*◌, ◌-◌, ◌/◌, ◌%◌, ◌≤◌, ◌<◌, ◌≡◌, inl, inr, refl, ap, ◌∙◌, List, [], ◌∷◌,
  ◌++◌, take, length, length-append, ◌==◌, if◌then◌else◌, arith, Bool-cases,
}
use dimmit.Ddc.Format.{digit_byte, print_base, zeros, print_hex4}

-- The number after the last colon, from the number before these bytes on.
unfoldable pub last_number : ℕ → List ℕ → ℕ
last_number acc [] = acc
last_number acc (c ∷ cs) = last_number (if c == b':' then 0 else acc * 10 + (c - b'0')) cs

pub last_number-append :
    (acc : ℕ) (xs ys : List ℕ) → last_number acc (xs ++ ys) ≡ last_number (last_number acc xs) ys
unfolding last_number
last_number-append acc [] ys = refl
last_number-append acc (x ∷ xs) ys =
    last_number-append (if x == b':' then 0 else acc * 10 + (x - b'0')) xs ys

last_number-digit :
    (acc d : ℕ) (cs : List ℕ)
    → d < 10
    → last_number acc (digit_byte d ∷ cs) ≡ last_number (acc * 10 + d) cs
unfolding last_number digit_byte
last_number-digit acc d cs h = ap (λ n. last_number n cs) (ground arith)

-- 10 to that power.
unfoldable pub tens : ℕ → ℕ
tens zero = 1
tens (suc f) = 10 * tens f

pub last_number-print_base :
    (f n : ℕ) (cs : List ℕ) → n < tens f → last_number 0 (print_base f 10 n cs) ≡ last_number n cs
unfolding print_base tens
last_number-print_base zero n cs h = ap (λ m. last_number m cs) (omega arith)
last_number-print_base (suc f) n cs h = elim (Bool-cases (n / 10 == 0)) [
  | inl small ↦
      rw small
        (last_number-digit 0 (n % 10) cs (omega arith) ∙ ap (λ m. last_number m cs) (ground arith))
  | inr more ↦ rw more (
      last_number-print_base f (n / 10) (digit_byte (n % 10) ∷ cs) (omega arith)
      ∙ last_number-digit (n / 10) (n % 10) cs (omega arith)
      ∙ ap (λ m. last_number m cs) (omega arith))
]

pub length-print_base :
    (f base n : ℕ) (cs : List ℕ) → length (print_base f base n cs) ≤ f + length cs
unfolding print_base
length-print_base zero base n cs = omega arith
length-print_base (suc f) base n cs = elim (Bool-cases (n / base == 0)) [
  | inl small ↦ rw small (omega arith)
  | inr more ↦
      rw more (omega (arith, length-print_base f base (n / base) (digit_byte (n % base) ∷ cs)))
]

length-zeros : (n : ℕ) → length (zeros n) ≡ n
unfolding zeros
length-zeros zero = refl
length-zeros (suc n) = ap suc (length-zeros n)

pub length-print_hex4 : (n : ℕ) → length (print_hex4 n) ≤ 8
unfolding print_hex4
length-print_hex4 n = omega (
  arith,
  length-append (zeros (4 - length (print_base 8 16 n []))) (print_base 8 16 n []),
  length-zeros (4 - length (print_base 8 16 n [])),
  length-print_base 8 16 n [],
)

pub take-all : (n : ℕ) (xs : List ℕ) → length xs ≤ n → take n xs ≡ xs
take-all zero [] h = refl
take-all zero (x ∷ xs) h = absurd (omega arith)
take-all (suc n) [] h = refl
take-all (suc n) (x ∷ xs) h = ap (◌∷◌ x) (take-all n xs (omega arith))
