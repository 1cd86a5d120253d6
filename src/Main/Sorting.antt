-- ===== src/Main/Sorting.antt =====
-- src/main.rs: the sorted latencies.
use meshlet.Common.{
  ℕ, suc, ◌≤◌, ◌≡◌, refl, inl, inr, some, List, [], ◌∷◌, arith, leb, leb→le, Bool-cases, length,
  get_elem?, All, All-imp, nat_eq, list_eq, pair_eq, Duration,
}
use meshlet.Main.Latency.{insert_sorted, sort}
use meshlet.Main.Ranks.{IsSorted, count_le, count_lt, IsPlaced, at_place}

All-insert_sorted :
    (P : Duration → Type 0) (x : Duration) (xs : List Duration)
    → P x
    → All P xs
    → All P (insert_sorted x xs)
unfolding insert_sorted
All-insert_sorted P x [] h k = (h, tt)
All-insert_sorted P x (y ∷ ys) h k = ground (arith, All-insert_sorted P x ys h k.1)

insert_sorted-IsSorted :
    (x : Duration) (xs : List Duration) → IsSorted xs → IsSorted (insert_sorted x xs)
unfolding insert_sorted
insert_sorted-IsSorted x [] h = (tt, tt)
insert_sorted-IsSorted x (y ∷ ys) h = elim (Bool-cases (leb x y)) [
  | inl small ↦ rw small (
    (
      leb→le x y small,
      All-imp (λ z. y ≤ z) (λ z. x ≤ z) (λ z k. omega (arith, leb→le x y small)) ys h.0,
    ),
    h,
  )
  | inr large ↦
      rw large
        (All-insert_sorted (λ z. y ≤ z) x ys (ground arith) h.0, insert_sorted-IsSorted x ys h.1)
]

pub sort-IsSorted : (xs : List Duration) → IsSorted (sort xs)
unfolding sort
sort-IsSorted [] = tt
sort-IsSorted (x ∷ xs) = insert_sorted-IsSorted x (sort xs) (sort-IsSorted xs)

count_le-insert_sorted :
    (z x : Duration) (xs : List Duration) → count_le z (insert_sorted x xs) ≡ count_le z (x ∷ xs)
unfolding insert_sorted
count_le-insert_sorted z x [] = refl
count_le-insert_sorted z x (y ∷ ys) = ground (arith, count_le-insert_sorted z x ys)

pub count_le-sort : (z : Duration) (xs : List Duration) → count_le z (sort xs) ≡ count_le z xs
unfolding sort
count_le-sort z [] = refl
count_le-sort z (x ∷ xs) = omega (arith, count_le-insert_sorted z x (sort xs), count_le-sort z xs)

count_lt-insert_sorted :
    (z x : Duration) (xs : List Duration) → count_lt z (insert_sorted x xs) ≡ count_lt z (x ∷ xs)
unfolding insert_sorted
count_lt-insert_sorted z x [] = refl
count_lt-insert_sorted z x (y ∷ ys) = ground (arith, count_lt-insert_sorted z x ys)

pub count_lt-sort : (z : Duration) (xs : List Duration) → count_lt z (sort xs) ≡ count_lt z xs
unfolding sort
count_lt-sort z [] = refl
count_lt-sort z (x ∷ xs) = omega (arith, count_lt-insert_sorted z x (sort xs), count_lt-sort z xs)

length-insert_sorted :
    (x : Duration) (xs : List Duration) → length (insert_sorted x xs) ≡ suc (length xs)
unfolding insert_sorted
length-insert_sorted x [] = refl
length-insert_sorted x (y ∷ ys) = ground (arith, length-insert_sorted x ys)

pub length-sort : (xs : List Duration) → length (sort xs) ≡ length xs
unfolding sort
length-sort [] = refl
length-sort (x ∷ xs) = omega (arith, length-insert_sorted x (sort xs), length-sort xs)

-- A place of the sorted samples, as a place among the samples.
pub IsPlaced-sort :
    (xs : List Duration) (i x : ℕ) → get_elem? (sort xs) i ≡ some x → IsPlaced i x xs
IsPlaced-sort xs i x e =
    omega
      (arith, at_place (sort xs) i x (sort-IsSorted xs) e, count_le-sort x xs, count_lt-sort x xs)
