-- ===== src/Text/Lines.antt =====
-- `str::lines` and `str::trim`, on the bytes of UTF-8.
use meshlet.Common.{
  ℕ, Bool, true, false, ◌&&◌, ◌||◌, List, [], ◌∷◌, leb, eqb, if◌then◌else◌, Bytes, nat_eq, list_eq,
  pair_eq,
}
use mathlib.Core.List.{reverse}

-- A text up to a newline, without it and a carriage return before it.
abbrev strip_return : Bytes → Bytes
strip_return reversed = elim reversed [
  | [] ↦ []
  | c ∷ s ↦ if eqb c 13 then reverse s else reverse (c ∷ s)
]

-- The line read so far stands reversed.
unfoldable pub lines_onto : Bytes → Bytes → List Bytes
lines_onto [] [] = []
lines_onto (c ∷ line) [] = reverse (c ∷ line) ∷ []
lines_onto line (c ∷ s) = elim (eqb c 10) [
  | true ↦ strip_return line ∷ lines_onto [] s
  | false ↦ lines_onto (c ∷ line) s
]

unfoldable pub lines : Bytes → List Bytes
unfolding lines_onto
lines = lines_onto []

-- Unicode's white space, in one, two and three bytes.
abbrev white : ℕ → Bool
white a = leb 9 a && leb a 13 || eqb a 32

abbrev white₂ : ℕ → ℕ → Bool
white₂ a b = eqb a 0xc2 && (eqb b 0x85 || eqb b 0xa0)

abbrev white₃ : ℕ → ℕ → ℕ → Bool
white₃ a b c =
    eqb a 0xe1 && eqb b 0x9a && eqb c 0x80
    || (eqb a 0xe2
        && eqb b 0x80
        && (leb 0x80 c && leb c 0x8a || (eqb c 0xa8 || (eqb c 0xa9 || eqb c 0xaf))))
    || (eqb a 0xe2 && eqb b 0x81 && eqb c 0x9f)
    || (eqb a 0xe3 && eqb b 0x80 && eqb c 0x80)

unfoldable pub trim_start : Bytes → Bytes
trim_start [] = []
trim_start (a ∷ []) = if white a then [] else a ∷ []
trim_start (a ∷ b ∷ []) = elim (white a) [
  | true ↦ trim_start (b ∷ [])
  | false ↦ if white₂ a b then [] else a ∷ b ∷ []
]
trim_start (a ∷ b ∷ c ∷ s) = elim (white a) [
  | true ↦ trim_start (b ∷ c ∷ s)
  | false ↦ elim (white₂ a b) [
    | true ↦ trim_start (c ∷ s)
    | false ↦ elim (white₃ a b c) [ true ↦ trim_start s | false ↦ a ∷ b ∷ c ∷ s ]
  ]
]

-- On the reversed bytes.
unfoldable pub trim_end : Bytes → Bytes
trim_end [] = []
trim_end (a ∷ []) = if white a then [] else a ∷ []
trim_end (b ∷ a ∷ []) = elim (white b) [
  | true ↦ trim_end (a ∷ [])
  | false ↦ if white₂ a b then [] else b ∷ a ∷ []
]
trim_end (c ∷ b ∷ a ∷ s) = elim (white c) [
  | true ↦ trim_end (b ∷ a ∷ s)
  | false ↦ elim (white₂ b c) [
    | true ↦ trim_end (a ∷ s)
    | false ↦ elim (white₃ a b c) [ true ↦ trim_end s | false ↦ c ∷ b ∷ a ∷ s ]
  ]
]

unfoldable pub trim : Bytes → Bytes
unfolding trim_start trim_end
trim s = reverse (trim_end (reverse (trim_start s)))
