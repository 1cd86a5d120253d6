-- ===== src/Main/Ranks.antt =====
-- src/main.rs: what `percentile` selects, and what `udp_rtt_client` reports.
use meshlet.Common.{
  ℕ, zero, suc, ◌+◌, ◌-◌, ◌*◌, ◌/◌, ◌≤◌, ◌<◌, ◌≡◌, refl, some, List, [], ◌∷◌, arith, ltb, leb,
  if◌then◌else◌, length, get_elem?, All, nat_eq, list_eq, pair_eq, Duration,
}
use meshlet.Common.Outcome.{done}
use meshlet.Main.Latency.{nearest_rank, index, percentile}
use meshlet.Text.Decimal.{max_u64}

abbrev pub IsSorted : List Duration → Type 0
IsSorted [] = Unit
IsSorted (x ∷ xs) = All (λ y. x ≤ y) xs × IsSorted xs

-- How many samples are at most `x`, and how many are below it.
abbrev pub count_le : Duration → List Duration → ℕ
count_le x [] = 0
count_le x (y ∷ ys) = (if leb y x then 1 else 0) + count_le x ys

abbrev pub count_lt : Duration → List Duration → ℕ
count_lt x [] = 0
count_lt x (y ∷ ys) = (if ltb y x then 1 else 0) + count_lt x ys

-- The sample that would stand at this place, were they sorted.
abbrev pub IsPlaced : ℕ → Duration → List Duration → Type 0
IsPlaced i x xs = (i < count_le x xs) × (count_lt x xs ≤ i)

count_lt_none : (x : Duration) (ys : List Duration) → All (λ y. x ≤ y) ys → count_lt x ys ≡ 0
count_lt_none x [] h = refl
count_lt_none x (y ∷ ys) h = ground (arith, count_lt_none x ys h.1)

get_elem-All :
    (P : Duration → Type 0) (xs : List Duration) (i x : ℕ)
    → All P xs
    → get_elem? xs i ≡ some x
    → P x
get_elem-All P [] i x h e = cc
get_elem-All P (y ∷ ys) zero x h e = ground (arith, h, e)
get_elem-All P (y ∷ ys) (suc i) x h e = get_elem-All P ys i x h.1 e

-- The sample at a place of the sorted list: enough are at most as large, and not too many smaller.
pub at_place :
    (xs : List Duration) (i x : ℕ) → IsSorted xs → get_elem? xs i ≡ some x → IsPlaced i x xs
at_place [] i x s e = cc
at_place (y ∷ ys) zero x s e = ground (arith, count_lt_none y ys s.0)
at_place (y ∷ ys) (suc i) x s e =
    ground (arith, at_place ys i x s.1 e, get_elem-All (λ z. y ≤ z) ys i x s.0 e)

get_elem-some :
    {A : Type 0} (xs : List A) (i : ℕ) → i < length xs → (x : A) × (get_elem? xs i ≡ some x)
get_elem-some [] i h = absurd (omega arith)
get_elem-some (x ∷ xs) zero h = (x, refl)
get_elem-some (x ∷ xs) (suc i) h = get_elem-some xs i (omega arith)

pub index-done :
    {A : Type 0} (xs : List A) (i : ℕ)
    → i < length xs
    → (x : A) × (index xs i ≡ done x) × (get_elem? xs i ≡ some x)
index-done xs i h = let (x, e) = get_elem-some xs i h in (x, rw e refl, e)

pub percentile-index :
    (xs : List Duration) (p : ℕ)
    → 0 < length xs
    → p ≤ 100
    → percentile xs p ≡ index xs (nearest_rank (length xs) p - 1)
unfolding percentile
percentile-index [] p h k = absurd (omega arith)
percentile-index (x ∷ xs) p h k = ground (arith, h, k)

scaled : (n p : ℕ) → p ≤ 100 → n * p ≤ n * 100
scaled n p h = grind arith

pub rank_inside : (n p : ℕ) → 0 < n → p ≤ 100 → nearest_rank n p - 1 < n
rank_inside n p h k = ground (arith, scaled n p k)

pub rank_exact : (n p : ℕ) → p ≤ 100 → n * 100 ≤ max_u64 → nearest_rank n p ≡ (n * p + 99) / 100
rank_exact n p h k = ground (arith, scaled n p h)
