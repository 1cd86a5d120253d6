-- ===== src/Net/Ipv6.antt =====
-- `Ipv6Addr` as its eight 16-bit segments, and its `Display`.
use meshlet.Common.{
  ℕ, zero, suc, ◌+◌, ◌*◌, ◌/◌, ◌%◌, true, false, Option, none, some, List, [], ◌∷◌, ◌++◌, ltb, eqb,
  if◌then◌else◌, Bytes, take, drop, ◌==◌, nat_eq, list_eq, list_beq,
}
use meshlet.Net.Ipv4.{display_ipv4}
use meshlet.Text.{codes}

abbrev pub Ipv6Addr : Type 0
Ipv6Addr = List ℕ

abbrev hex_digit : ℕ → ℕ
hex_digit d = if ltb d 10 then b'0' + d else b'W' + d

-- `{:x}` of a 16-bit number: at most four digits.
hex_digits : ℕ → ℕ → Bytes
hex_digits zero n = []
hex_digits (suc f) n = elim (ltb n 16) [
  | true ↦ hex_digit n ∷ []
  | false ↦ hex_digits f (n / 16) ++ hex_digit (n % 16) ∷ []
]

segment : ℕ → Bytes
unfolding hex_digits
segment = hex_digits 4

segments : List ℕ → Bytes
unfolding segment
segments [] = []
segments (n ∷ []) = segment n
segments (n ∷ m ∷ ns) = segment n ++ (b':' ∷ segments (m ∷ ns))

pub record Span : Type 0 where
  pub start : ℕ
  pub len : ℕ

abbrev pub no_zeros : Span
no_zeros = record { start = 0; len = 0 }

-- One more zero segment, at index `i`.
abbrev grown : ℕ → Span → Span
grown i s = record { start = if eqb s.len 0 then i else s.start; len = s.len + 1 }

-- The first of the longest runs of zero segments; `i` is the index of the next segment.
longest_zeros : ℕ → Span → Span → List ℕ → Span
longest_zeros i current longest [] = longest
longest_zeros i current longest (n ∷ ns) =
    let here : Span = if eqb n 0 then grown i current else no_zeros in
    longest_zeros (i + 1) here (if ltb longest.len here.len then here else longest) ns

-- `to_ipv4_mapped`
mapped : List ℕ → Option ℕ
mapped (a ∷ b ∷ c ∷ d ∷ e ∷ f ∷ g ∷ h ∷ []) =
    if (a ∷ b ∷ c ∷ d ∷ e ∷ f ∷ []) == (0 ∷ 0 ∷ 0 ∷ 0 ∷ 0 ∷ 0xffff ∷ [])
    then some (g * 65_536 + h)
    else none
mapped _ = none

shortened : Span → List ℕ → Bytes
unfolding segments
shortened zeros s =
    if ltb 1 zeros.len
    then segments (take zeros.start s)
      ++ (codes "::" ++ segments (drop (zeros.start + zeros.len) s))
    else segments s

unfoldable pub display_ipv6 : Ipv6Addr → Bytes
unfolding mapped shortened longest_zeros list_beq
display_ipv6 s = elim (mapped s) [
  | some ip ↦ codes "::ffff:" ++ display_ipv4 ip
  | none ↦ shortened (longest_zeros 0 no_zeros no_zeros s) s
]
