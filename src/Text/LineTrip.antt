-- ===== src/Text/LineTrip.antt =====
-- A line that starts and ends with visible ASCII is read back from a text of this one line.
use mathlib.Core.List.{reverse, reverse_aux, reverse_aux-append, reverse-reverse}
use meshlet.Common.{
  ℕ, ◌≡◌, refl, ap, ◌∙◌, ◌≢◌, Bool, true, false, not, ◌&&◌, [], ◌∷◌, ◌++◌, arith, leb, eqb,
  if◌then◌else◌, Bytes, All, All-append, All-imp, nat_eq, list_eq, pair_eq,
}
use meshlet.Text.Fields.{is_plain}
use meshlet.Text.Words.{spaced}
use meshlet.Text.Lines.{lines, lines_onto, trim, trim_start, trim_end}

-- A first visible byte, in front of what is given.
abbrev pub StartsPlain : Bytes → Type 0
StartsPlain [] = ⊥
StartsPlain (c ∷ s) = is_plain c ≡ true × (leb 9 c && leb c 13 ≡ false)

trim_start_plain : (t : Bytes) → StartsPlain t → trim_start t ≡ t
unfolding trim_start
trim_start_plain [] h = absurd h
trim_start_plain (a ∷ []) h = ground (arith, h.0, h.1)
trim_start_plain (a ∷ b ∷ []) h = ground (arith, h.0, h.1)
trim_start_plain (a ∷ b ∷ c ∷ s) h = ground (arith, h.0, h.1)

trim_end_plain : (t : Bytes) → StartsPlain t → trim_end t ≡ t
unfolding trim_end
trim_end_plain [] h = absurd h
trim_end_plain (a ∷ []) h = ground (arith, h.0, h.1)
trim_end_plain (a ∷ b ∷ []) h = ground (arith, h.0, h.1)
trim_end_plain (a ∷ b ∷ c ∷ s) h = ground (arith, h.0, h.1)

abbrev pub IsLine : Bytes → Type 0
IsLine t = StartsPlain t × StartsPlain (reverse t) × All (λ c. eqb c 10 ≡ false) t

pub trim-IsLine : (t : Bytes) → IsLine t → trim t ≡ t
unfolding trim
trim-IsLine t (h, k, _) =
    rw (trim_start_plain t h, trim_end_plain (reverse t) k) (reverse-reverse t)

abbrev strip : Bytes → Bytes
strip [] = []
strip (c ∷ s) = if eqb c 13 then reverse s else reverse (c ∷ s)

lines_onto-line :
    (acc t : Bytes)
    → All (λ c. eqb c 10 ≡ false) t
    → lines_onto acc (t ++ 10 ∷ []) ≡ strip (reverse_aux t acc) ∷ []
unfolding lines_onto
lines_onto-line [] [] h = refl
lines_onto-line (a ∷ acc) [] h = refl
lines_onto-line [] (c ∷ t) h = rw (h.0, lines_onto) (lines_onto-line (c ∷ []) t h.1)
lines_onto-line (a ∷ acc) (c ∷ t) h = rw (h.0, lines_onto) (lines_onto-line (c ∷ a ∷ acc) t h.1)

strip_plain : (r : Bytes) → StartsPlain r → strip r ≡ reverse r
strip_plain [] h = absurd h
strip_plain (c ∷ s) h = ground (arith, h.0, h.1)

pub lines-IsLine : (t : Bytes) → IsLine t → lines (t ++ 10 ∷ []) ≡ t ∷ []
unfolding lines
lines-IsLine t (_, k, l) =
    lines_onto-line [] t l ∙ ap (λ s. s ∷ []) (strip_plain (reverse t) k ∙ reverse-reverse t)

-- A byte of hexadecimal text, or of the start of a file's version.
abbrev pub is_visible : ℕ → Bool
is_visible c = is_plain c && not (leb 9 c && leb c 13)

starts_reversed :
    (h r : Bytes) → h ≢ [] → All (λ c. is_visible c ≡ true) h → StartsPlain (reverse_aux h r)
starts_reversed [] r ne v = absurd (ne refl)
starts_reversed (x ∷ []) r ne v = (ground (arith, v.0), ground (arith, v.0))
starts_reversed (x ∷ y ∷ h) r ne v = starts_reversed (y ∷ h) (x ∷ r) (λ e. cc) v.1

-- Three fields, of which the first starts visibly and the last is visible.
pub three_fields-IsLine :
    (a : ℕ) (v n h : Bytes)
    → StartsPlain (a ∷ [])
    → All (λ c. eqb c 10 ≡ false) (a ∷ v)
    → All (λ c. eqb c 10 ≡ false) n
    → h ≢ []
    → All (λ c. is_visible c ≡ true) h
    → IsLine (spaced ((a ∷ v) ∷ n ∷ h ∷ []))
unfolding spaced
three_fields-IsLine a v n h first vs ns ne hs = (
  first,
  rw (reverse_aux-append v (b' ' ∷ (n ++ (b' ' ∷ h))) (a ∷ []), reverse_aux-append n (b' ' ∷ h) _)
      (starts_reversed h _ ne hs),
  (
    vs.0,
    All-append _ v _ vs.1
        (refl, All-append _ n _ ns (refl, All-imp _ _ (λ c k. ground (arith, k)) h hs)),
  ),
)
