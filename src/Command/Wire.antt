-- ===== src/Command/Wire.antt =====
-- What the daemon reads from a connection, `read_command` of src/command.c.
use Prim.Native.String.{String}
use dimmit.Base.{
  ◌≡◌, ◌⊎◌, inl, inr, refl, ap, ◌∙◌, ℕ, zero, suc, ◌≤◌, ◌<◌, ◌≢◌, length, length-append, All, false,
  some, List, [], ◌∷◌, ◌++◌, arith, codes, str_eq, str_eq_refl, str_eq→eq, take, Bool-cases,
}
use dimmit.Base.Int.{pos, negsuc}
use dimmit.Command.{
  parse_command, c_string, newline, cut_newline, line_limit, parse_received, read_command,
}

-- `parse_command` gives +1 for `up`, -1 for `down`, and 0 for every other string.
pub parse_command-cases :
    (cmd : List ℕ)
    → ((parse_command cmd ≡ pos 1) × (cmd ≡ codes "up"))
      ⊎ ((parse_command cmd ≡ negsuc 0) × (cmd ≡ codes "down"))
      ⊎ ((parse_command cmd ≡ pos 0) × (cmd ≢ codes "up") × (cmd ≢ codes "down"))
unfolding parse_command
parse_command-cases cmd = elim (Bool-cases (str_eq cmd (codes "up"))) [
  | inl up ↦ inl (rw up, str_eq→eq cmd (codes "up") up)
  | inr not_up ↦ elim (Bool-cases (str_eq cmd (codes "down"))) [
    | inl down ↦ inr (inl (rw (not_up, down), str_eq→eq cmd (codes "down") down))
    | inr not_down ↦ inr (inr (rw (not_up, not_down), differs "up" not_up, differs "down" not_down))
  ]
]
  where
    differs : (word : String) → str_eq cmd (codes word) ≡ false → cmd ≡ codes word → ⊥
    differs word no_match e =
        cc (no_match, ap (λ x. str_eq x (codes word)) e, str_eq_refl (codes word))

-- A word that can stand on a command line: neither a zero byte nor a newline in it.
abbrev pub IsWord : List ℕ → Type 0
IsWord w = All (λ c. (c ≢ 0) × (c ≢ newline)) w

take_all : (n : ℕ) (xs : List ℕ) → length xs ≤ n → take n xs ≡ xs
take_all zero [] h = refl
take_all zero (x ∷ xs) h = absurd (omega arith)
take_all (suc n) [] h = refl
take_all (suc n) (x ∷ xs) h = ap (◌∷◌ x) (take_all n xs (omega arith))

pub c_string-word : (w : List ℕ) → IsWord w → c_string w ≡ w
unfolding c_string
c_string-word [] h = refl
c_string-word (c ∷ cs) h = ground (arith, c_string-word cs h.1)

pub c_string-ended : (w : List ℕ) → IsWord w → c_string (w ++ 0 ∷ []) ≡ w
unfolding c_string
c_string-ended [] h = refl
c_string-ended (c ∷ cs) h = ground (arith, c_string-ended cs h.1)

pub cut_newline-word : (w : List ℕ) → IsWord w → cut_newline w ≡ w
unfolding cut_newline
cut_newline-word [] h = refl
cut_newline-word (c ∷ []) h = ground arith
cut_newline-word (c ∷ d ∷ cs) h = ap (◌∷◌ c) (cut_newline-word (d ∷ cs) h.1)

pub cut_newline-line : (w : List ℕ) → cut_newline (w ++ newline ∷ []) ≡ w ++ 0 ∷ []
unfolding cut_newline
cut_newline-line [] = refl
cut_newline-line (c ∷ []) = refl
cut_newline-line (c ∷ d ∷ cs) = ap (◌∷◌ c) (cut_newline-line (d ∷ cs))

parse_received-nonempty :
    (c : ℕ) (cs w : List ℕ)
    → c_string (cut_newline (c ∷ cs)) ≡ w
    → parse_received (some (c ∷ cs)) ≡ parse_command w
unfolding parse_received
parse_received-nonempty c cs w e = ap parse_command e

parse_received-word : (w : List ℕ) → IsWord w → parse_received (some w) ≡ parse_command w
unfolding parse_received
parse_received-word [] h = refl
parse_received-word (c ∷ cs) h =
    ap parse_command (ap c_string (cut_newline-word (c ∷ cs) h) ∙ c_string-word (c ∷ cs) h)

parse_received-line :
    (w : List ℕ) → IsWord w → parse_received (some (w ++ newline ∷ [])) ≡ parse_command w
parse_received-line [] h = unfold parse_received in refl
parse_received-line (c ∷ cs) h =
    parse_received-nonempty c (cs ++ newline ∷ []) (c ∷ cs)
      (ap c_string (cut_newline-line (c ∷ cs)) ∙ c_string-ended (c ∷ cs) h)

-- A word of at most 14 bytes, without zero byte and newline, is read alike with and without its
-- newline.
read_command-word :
    (w : List ℕ)
    → IsWord w
    → length w < line_limit
    → (read_command (some w) ≡ parse_command w)
      × (read_command (some (w ++ newline ∷ [])) ≡ parse_command w)
unfolding read_command
read_command-word w h short = (
  ap (λ x. parse_received (some x)) (take_all line_limit w (omega arith)) ∙ parse_received-word w h,
  ap (λ x. parse_received (some x))
        (take_all line_limit (w ++ newline ∷ []) (omega (arith, length-append w (newline ∷ []))))
      ∙ parse_received-line w h,
)
