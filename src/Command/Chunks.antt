-- ===== src/Command/Chunks.antt =====
-- Which chunks of bytes `read_command` of src/command.c takes for a command.
use dimmit.Base.{
  ℕ, ◌≡◌, ◌⊎◌, true, inl, inr, refl, ap, ◌∙◌, some, List, [], ◌∷◌, ◌++◌, append_assoc, arith, codes,
  str_eq, take, Bool-cases, ◌==◌,
}
use dimmit.Base.Int.{pos, negsuc}
use dimmit.Command.{
  parse_command, c_string, newline, cut_newline, line_limit, parse_received, read_command,
}
use dimmit.Command.Wire.{
  IsWord, parse_command-cases, c_string-word, c_string-ended, cut_newline-word, cut_newline-line,
}

-- The chunk is the word, or its line, or the word with a zero byte and anything after it.
abbrev pub Carries : List ℕ → List ℕ → Type 0
Carries word chunk =
    (chunk ≡ word) ⊎ (chunk ≡ word ++ newline ∷ []) ⊎ ((rest : List ℕ) × (chunk ≡ word ++ 0 ∷ rest))

same : (a b : ℕ) → (a == b) ≡ true → a ≡ b
same a b e = ground arith

c_string-inverse :
    (xs : List ℕ) → (xs ≡ c_string xs) ⊎ ((rest : List ℕ) × (xs ≡ c_string xs ++ 0 ∷ rest))
unfolding c_string
c_string-inverse [] = inl refl
c_string-inverse (c ∷ cs) = elim (Bool-cases (c == 0)) [
  | inl zero ↦ simp zero (inr (cs, ap (λ x. x ∷ cs) (same c 0 zero)))
  | inr other ↦ simp other (behind (c_string-inverse cs))
]
  where
    behind :
        (cs ≡ c_string cs) ⊎ ((rest : List ℕ) × (cs ≡ c_string cs ++ 0 ∷ rest))
        → (c ∷ cs ≡ c ∷ c_string cs) ⊎ ((rest : List ℕ) × (c ∷ cs ≡ c ∷ (c_string cs ++ 0 ∷ rest)))
    behind (inl all) = inl (ap (◌∷◌ c) all)
    behind (inr (rest, e)) = inr (rest, ap (◌∷◌ c) e)

c_string-zero : (word rest : List ℕ) → IsWord word → c_string (word ++ 0 ∷ rest) ≡ word
unfolding c_string
c_string-zero [] rest h = refl
c_string-zero (c ∷ cs) rest h = ground (arith, c_string-zero cs rest h.1)

c_string-snoc : (xs : List ℕ) → c_string (xs ++ 0 ∷ []) ≡ c_string xs
unfolding c_string
c_string-snoc [] = refl
c_string-snoc (c ∷ cs) = rw (c_string-snoc cs)

cut_newline-cases :
    (xs : List ℕ)
    → (cut_newline xs ≡ xs)
      ⊎ ((ys : List ℕ) × (xs ≡ ys ++ newline ∷ []) × (cut_newline xs ≡ ys ++ 0 ∷ []))
unfolding cut_newline
cut_newline-cases [] = inl refl
cut_newline-cases (c ∷ []) = elim (Bool-cases (c == newline)) [
  | inl line ↦ simp line (inr ([], ap (λ x. x ∷ []) (same c newline line), refl))
  | inr other ↦ simp other (inl refl)
]
cut_newline-cases (c ∷ d ∷ cs) = elim (cut_newline-cases (d ∷ cs)) [
  | inl same ↦ inl (ap (◌∷◌ c) same)
  | inr (ys, line, cut) ↦ inr (c ∷ ys, ap (◌∷◌ c) line, ap (◌∷◌ c) cut)
]

cut_newline-zero :
    (word rest : List ℕ) → (more : List ℕ) × (cut_newline (word ++ 0 ∷ rest) ≡ word ++ 0 ∷ more)
unfolding cut_newline
cut_newline-zero [] [] = ([], refl)
cut_newline-zero [] (d ∷ rest) = (_, refl)
cut_newline-zero (c ∷ []) rest = let (more, e) = cut_newline-zero [] rest in (more, ap (◌∷◌ c) e)
cut_newline-zero (c ∷ d ∷ word) rest =
    let (more, e) = cut_newline-zero (d ∷ word) rest in (more, ap (◌∷◌ c) e)

-- What stands before the first zero byte of a list.
abbrev Ends : List ℕ → Type 0
Ends xs = (xs ≡ c_string xs) ⊎ ((rest : List ℕ) × (xs ≡ c_string xs ++ 0 ∷ rest))

plain-Carries : (xs : List ℕ) → Ends xs → Carries (c_string xs) xs
plain-Carries xs (inl whole) = inl whole
plain-Carries xs (inr ended) = inr (inr ended)

line-Carries : (ys : List ℕ) → Ends ys → Carries (c_string ys) (ys ++ newline ∷ [])
line-Carries ys (inl whole) = inr (inl (ap (λ x. x ++ newline ∷ []) whole))
line-Carries ys (inr (rest, e)) = inr (
    inr (
      rest ++ newline ∷ [],
      ap (λ x. x ++ newline ∷ []) e ∙ append_assoc (c_string ys) (0 ∷ rest) (newline ∷ []),
    ))

-- A chunk carries the C string that is left of it.
chunk-Carries : (chunk : List ℕ) → Carries (c_string (cut_newline chunk)) chunk
chunk-Carries chunk = elim (cut_newline-cases chunk) [
  | inl uncut ↦ rw uncut (plain-Carries chunk (c_string-inverse chunk))
  | inr (ys, line, cut) ↦ rw (cut, c_string-snoc ys, line) (line-Carries ys (c_string-inverse ys))
]

up-IsWord : IsWord (codes "up")
up-IsWord = omega arith

down-IsWord : IsWord (codes "down")
down-IsWord = omega arith

Carries-chunk :
    (word chunk : List ℕ) → IsWord word → Carries word chunk → c_string (cut_newline chunk) ≡ word
Carries-chunk word chunk h (inl whole) =
    rw whole (ap c_string (cut_newline-word word h) ∙ c_string-word word h)
Carries-chunk word chunk h (inr (inl line)) =
    rw line (ap c_string (cut_newline-line word) ∙ c_string-ended word h)
Carries-chunk word chunk h (inr (inr (rest, e))) =
    let (more, cut) = cut_newline-zero word rest in rw (e, cut) (c_string-zero word more h)

received :
    (chunk : List ℕ) → parse_received (some chunk) ≡ parse_command (c_string (cut_newline chunk))
unfolding parse_received parse_command str_eq c_string cut_newline
received [] = refl
received (c ∷ cs) = refl

-- What the daemon reads from a connection is +1, and the first 15 bytes that arrive are `up`,
-- alone, with a newline at the end, or with a zero byte and anything after it; or it is -1, and
-- they are `down` in one of these ways; or it is 0, and they are neither.
pub read_command-cases :
    (bytes : List ℕ)
    → ((read_command (some bytes) ≡ pos 1) × Carries (codes "up") (take line_limit bytes))
      ⊎ ((read_command (some bytes) ≡ negsuc 0) × Carries (codes "down") (take line_limit bytes))
      ⊎ ((read_command (some bytes) ≡ pos 0)
          × ¬ Carries (codes "up") (take line_limit bytes)
          × ¬ Carries (codes "down") (take line_limit bytes))
unfolding read_command
read_command-cases bytes =
    elim (parse_command-cases (c_string (cut_newline (take line_limit bytes)))) [
      | inl (one, up) ↦
          inl (
            received (take line_limit bytes) ∙ one,
            rw up at (chunk-Carries (take line_limit bytes)),
          )
      | inr (inl (minus, down)) ↦ inr (
          inl (
            received (take line_limit bytes) ∙ minus,
            rw down at (chunk-Carries (take line_limit bytes)),
          ))
      | inr (inr (zero, not_up, not_down)) ↦ inr (
          inr (
            received (take line_limit bytes) ∙ zero,
            λ up. not_up (Carries-chunk (codes "up") _ up-IsWord up),
            λ down. not_down (Carries-chunk (codes "down") _ down-IsWord down),
          ))
    ]
