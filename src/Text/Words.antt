-- ===== src/Text/Words.antt =====
-- `str::split_ascii_whitespace`, and the texts of fields between single spaces that `format!` makes.
use meshlet.Common.{
  ℕ, ◌≡◌, refl, sym, ap, ◌∙◌, ◌≢◌, Bool, true, false, ◌||◌, List, [], ◌∷◌, ◌++◌, arith, eqb, Bytes,
  All, nat_eq, list_eq, pair_eq,
}
use mathlib.Core.List.{append-nil, append_assoc}

-- `u8::is_ascii_whitespace`: space, tab, line feed, form feed, carriage return
abbrev pub is_space : ℕ → Bool
is_space c = eqb c 32 || eqb c 9 || eqb c 10 || eqb c 12 || eqb c 13

-- The word read so far is a field if it is not empty.
abbrev pub flush : Bytes → List Bytes → List Bytes
flush [] rest = rest
flush (c ∷ w) rest = (c ∷ w) ∷ rest

unfoldable pub words_onto : Bytes → Bytes → List Bytes
words_onto word [] = flush word []
words_onto word (c ∷ s) = elim (is_space c) [
  | true ↦ flush word (words_onto [] s)
  | false ↦ words_onto (word ++ c ∷ []) s
]

unfoldable pub split_ascii_whitespace : Bytes → List Bytes
unfolding words_onto
split_ascii_whitespace = words_onto []

-- `"{} {} …"`
unfoldable pub spaced : List Bytes → Bytes
spaced [] = []
spaced (w ∷ []) = w
spaced (w ∷ v ∷ ws) = w ++ (b' ' ∷ spaced (v ∷ ws))

-- One field: not empty, and without white space.
abbrev pub IsWord : Bytes → Type 0
IsWord w = (w ≢ []) × All (λ c. is_space c ≡ false) w

words_onto-append :
    (word w s : Bytes)
    → All (λ c. is_space c ≡ false) w
    → words_onto word (w ++ s) ≡ words_onto (word ++ w) s
unfolding words_onto
words_onto-append word [] s h = rw append-nil
words_onto-append word (c ∷ w) s h =
    rw (h.0, words_onto) (words_onto-append (word ++ c ∷ []) w s h.1 ∙ rw append_assoc)

flush-ne : (w : Bytes) (rest : List Bytes) → w ≢ [] → flush w rest ≡ w ∷ rest
flush-ne [] rest h = absurd (h refl)
flush-ne (c ∷ w) rest h = refl

words-space : (w s : Bytes) → IsWord w → words_onto [] (w ++ (b' ' ∷ s)) ≡ w ∷ words_onto [] s
unfolding words_onto
words-space w s h = words_onto-append [] w (b' ' ∷ s) h.1 ∙ flush-ne w (words_onto [] s) h.0

words_single : (w : Bytes) → IsWord w → words_onto [] w ≡ w ∷ []
unfolding words_onto
words_single w h =
    ap (words_onto []) (sym (append-nil w)) ∙ words_onto-append [] w [] h.1 ∙ flush-ne w [] h.0

-- The fields of a text are read back, whatever words they are.
pub split_ascii_whitespace-spaced :
    (ws : List Bytes) → All IsWord ws → split_ascii_whitespace (spaced ws) ≡ ws
unfolding split_ascii_whitespace spaced
split_ascii_whitespace-spaced [] h = refl
split_ascii_whitespace-spaced (w ∷ []) h = words_single w h.0
split_ascii_whitespace-spaced (w ∷ v ∷ ws) h =
    words-space w (spaced (v ∷ ws)) h.0 ∙ ap (◌∷◌ w) (split_ascii_whitespace-spaced (v ∷ ws) h.1)

words_onto-newline : (word s : Bytes) → words_onto word (s ++ b'\n' ∷ []) ≡ words_onto word s
unfolding words_onto
words_onto-newline word [] = refl
words_onto-newline word (c ∷ s) =
    ground (arith, words_onto-newline [] s, words_onto-newline (word ++ c ∷ []) s)

-- A newline at the end of a text changes none of its fields.
pub split_ascii_whitespace-newline :
    (s : Bytes) → split_ascii_whitespace (s ++ b'\n' ∷ []) ≡ split_ascii_whitespace s
unfolding split_ascii_whitespace
split_ascii_whitespace-newline s = words_onto-newline [] s
