-- ===== src/Ddc/Linux/Eisa.antt =====
-- The vendor ids of src/platform/ddc/linux.c.
use dimmit.Base.{ℕ, ◌+◌, ◌-◌, ◌*◌, ◌/◌, ◌%◌, ◌^◌, ◌<◌, ◌≤◌, ◌≡◌, ◌∙◌, ◌⊎◌, List, ◌∷◌, arith, true}
use dimmit.Ddc.Linux.{letter_number, is_letter_number, toupper, eisa_id_from_mfg}

-- An ASCII letter.
abbrev pub IsLetter : ℕ → Type 0
IsLetter c = ((b'A' ≤ c) × (c ≤ b'Z')) ⊎ ((b'a' ≤ c) × (c ≤ b'z'))

-- The letter of the five bits at `place`.
abbrev pub letter_at : ℕ → ℕ → ℕ
letter_at place id = id / 2 ^ place % 2 ^ 5 + b'A' - 1

letter_number-bounds :
    (c : ℕ)
    → IsLetter c
    → (letter_number c ≤ 26)
      × (is_letter_number (letter_number c) ≡ true)
      × (letter_number c + b'A' - 1 ≡ toupper c)
unfolding letter_number is_letter_number
letter_number-bounds c h = ground arith

letter_at-sum :
    (a b c : ℕ)
    → a ≤ 26
    → b ≤ 26
    → c ≤ 26
    → (letter_at 10 (a * 2 ^ 10 + b * 2 ^ 5 + c) ≡ a + b'A' - 1)
      × (letter_at 5 (a * 2 ^ 10 + b * 2 ^ 5 + c) ≡ b + b'A' - 1)
      × (letter_at 0 (a * 2 ^ 10 + b * 2 ^ 5 + c) ≡ c + b'A' - 1)
      × (a * 2 ^ 10 + b * 2 ^ 5 + c < 2 ^ 15)
letter_at-sum a b c ha hb hc = (omega arith, omega arith, omega arith, omega arith)

-- From the vendor id of three letters each letter is read back, in upper case, and the id has 15
-- bits.
eisa_id_from_mfg-letters :
    (a b c : ℕ) (rest : List ℕ)
    → IsLetter a
    → IsLetter b
    → IsLetter c
    → (letter_at 10 (eisa_id_from_mfg (a ∷ b ∷ c ∷ rest)) ≡ toupper a)
      × (letter_at 5 (eisa_id_from_mfg (a ∷ b ∷ c ∷ rest)) ≡ toupper b)
      × (letter_at 0 (eisa_id_from_mfg (a ∷ b ∷ c ∷ rest)) ≡ toupper c)
      × (eisa_id_from_mfg (a ∷ b ∷ c ∷ rest) < 2 ^ 15)
unfolding eisa_id_from_mfg
eisa_id_from_mfg-letters a b c rest ha hb hc =
    let x = letter_number-bounds a ha in
    let y = letter_number-bounds b hb in
    let z = letter_number-bounds c hc in
    let sum = letter_at-sum (letter_number a) (letter_number b) (letter_number c) x.0 y.0 z.0 in
    rw (x.1, y.1, z.1) (sum.0 ∙ x.2, sum.1 ∙ y.2, sum.2 ∙ z.2, sum.3)
