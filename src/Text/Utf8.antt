-- ===== src/Text/Utf8.antt =====
-- `std::str::from_utf8`: which byte strings are texts.
use meshlet.Common.{
  ℕ, zero, suc, ◌<◌, ◌≡◌, refl, Bool, true, false, ◌&&◌, Option, none, some, [], ◌∷◌, ltb, leb, eqb,
  if◌then◌else◌, Bytes, All, lt→ltb,
}

-- How many continuation bytes follow a first byte, and the range of the first of them.
unfoldable pub lead : ℕ → Option (ℕ × ℕ × ℕ)
lead c =
    if ltb c 0x80
    then some (0, 0, 0)
    else if ltb c 0xc2
    then none
    else if ltb c 0xe0
    then some (1, 0x80, 0xbf)
    else if eqb c 0xe0
    then some (2, 0xa0, 0xbf)
    else if eqb c 0xed
    then some (2, 0x80, 0x9f)
    else if ltb c 0xf0
    then some (2, 0x80, 0xbf)
    else if eqb c 0xf0
    then some (3, 0x90, 0xbf)
    else if ltb c 0xf4
    then some (3, 0x80, 0xbf)
    else if eqb c 0xf4
    then some (3, 0x80, 0x8f)
    else none

-- The validation loop: `more` continuation bytes are due, the next of them from `lo` to `hi`.
unfoldable pub valid_from : ℕ → ℕ → ℕ → Bytes → Bool
valid_from zero lo hi [] = true
valid_from (suc more) lo hi [] = false
valid_from zero lo hi (c ∷ s) = elim (lead c) [
  | none ↦ false
  | some (more, lo', hi') ↦ valid_from more lo' hi' s
]
valid_from (suc more) lo hi (c ∷ s) = leb lo c && leb c hi && valid_from more 0x80 0xbf s

unfoldable pub is_utf8 : Bytes → Bool
unfolding valid_from lead
is_utf8 = valid_from 0 0 0

valid_from-ascii : (s : Bytes) → All (λ c. c < 128) s → valid_from 0 0 0 s ≡ true
unfolding valid_from
valid_from-ascii [] h = refl
valid_from-ascii (c ∷ s) h = rw (lead_ascii, valid_from) (valid_from-ascii s h.1)
  where
    lead_ascii : lead c ≡ some (0, 0, 0)
    lead_ascii = unfold lead in rw (lt→ltb c 0x80 h.0)

-- Every ASCII string is a text.
pub is_utf8-ascii : (s : Bytes) → All (λ c. c < 128) s → is_utf8 s ≡ true
unfolding is_utf8
is_utf8-ascii s h = valid_from-ascii s h
