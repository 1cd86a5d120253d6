-- ===== src/Routing/Mask.antt =====
-- src/routing.rs: what the mask keeps, and which addresses a prefix contains.
use Prim.Native.Nat.{bit_and, bit_and-bitwise, digits, min}
use native.Mathlib.Nat.{
  pow-suc, pow-succ', one-le-pow, mul-one, div-one, div-div-eq-div-mul, div-lt_iff_lt-mul,
  div-mul-le_self, lt-div-mul-add, div-eq_of_lt-le,
}
use meshlet.Common.{
  ℕ, zero, suc, ◌+◌, ◌-◌, ◌*◌, ◌/◌, ◌%◌, ◌^◌, ◌≤◌, ◌<◌, ◌≡◌, refl, sym, ap, ◌∙◌, ◌↔◌, Bool, true,
  ◌&&◌, arith, eqb, eqb_iff, all_below, all_below_sound, length, nat_eq, list_eq, pair_eq,
}
use meshlet.Net.Ipv4.{Ipv4Addr}
use meshlet.Routing.Prefix.{Ipv4Prefix, prefix_mask, contains}

-- The native operation is a recursion on binary digits, with the first operand for fuel.
abbrev and_digits : ℕ → ℕ → ℕ → ℕ
and_digits fuel a b = digits (λ _. zero) min fuel a b

enough_fuel : (n m a b : ℕ) → a ≤ n → a ≤ m → and_digits n a b ≡ and_digits m a b
enough_fuel zero zero a b p q = refl
enough_fuel zero (suc m) zero b p q = refl
enough_fuel zero (suc m) (suc a) b p q = absurd (omega arith)
enough_fuel (suc n) zero zero b p q = refl
enough_fuel (suc n) zero (suc a) b p q = absurd (omega arith)
enough_fuel (suc n) (suc m) zero b p q = refl
enough_fuel (suc n) (suc m) (suc a) b p q =
    omega (arith, enough_fuel n m (suc a / 2) (b / 2) (omega arith) (omega arith))

lowest_bit : (a b : ℕ) → bit_and a b ≡ bit_and (a / 2) (b / 2) * 2 + min (a % 2) (b % 2)
lowest_bit zero b = omega (arith, bit_and-bitwise 0 b, bit_and-bitwise 0 (b / 2))
lowest_bit (suc a) b = omega (
  arith,
  bit_and-bitwise (suc a) b,
  bit_and-bitwise (suc a / 2) (b / 2),
  enough_fuel a (suc a / 2) (suc a / 2) (b / 2) (omega arith) (omega arith),
)

-- Low zeros of a mask cut off the low bits.
bit_and_shifted : (k a c : ℕ) → bit_and a (c * 2 ^ k) ≡ bit_and (a / 2 ^ k) c * 2 ^ k
bit_and_shifted zero a c =
    ap (bit_and a) (mul-one c)
    ∙ sym (mul-one (bit_and a c))
    ∙ ap (λ t. bit_and t c * 2 ^ 0) (sym (div-one a))
bit_and_shifted (suc k) a c =
    let doubled : (t : ℕ) → t * 2 ^ suc k ≡ t * 2 ^ k * 2 =
      λ t. omega (arith, ap (λ (u : ℕ). t * u) (pow-suc 2 k)) in
    let half : c * 2 ^ suc k / 2 ≡ c * 2 ^ k = omega (arith, doubled c) in
    let shift : a / 2 / 2 ^ k ≡ a / 2 ^ suc k =
      div-div-eq-div-mul a 2 (2 ^ k) ∙ ap (λ (t : ℕ). a / t) (sym (pow-succ' 2 k)) in
    omega (
      arith,
      lowest_bit a (c * 2 ^ suc k),
      ap (bit_and (a / 2)) half ∙ bit_and_shifted k (a / 2) c ∙ ap (λ t. bit_and t c * 2 ^ k) shift,
      doubled c,
      doubled (bit_and (a / 2 ^ suc k) c),
    )

-- A mask of ones keeps what fits.
bit_and_ones : (m x : ℕ) → x < 2 ^ m → bit_and x (2 ^ m - 1) ≡ x
bit_and_ones zero zero h = refl
bit_and_ones zero (suc x) h = absurd (omega arith)
bit_and_ones (suc m) x h =
    let half : (2 ^ suc m - 1) / 2 ≡ 2 ^ m - 1 = omega (arith, pow-suc 2 m, one-le-pow m 2) in
    omega (
      arith,
      lowest_bit x (2 ^ suc m - 1),
      ap (bit_and (x / 2)) half ∙ bit_and_ones m (x / 2) (omega (arith, pow-suc 2 m)),
      pow-suc 2 m,
      one-le-pow m 2,
    )

-- The low bits that a prefix of this length leaves free, as the number of addresses.
abbrev pub block : ℕ → ℕ
block length = 2 ^ (32 - length)

abbrev has_shape : ℕ → Bool
has_shape l = eqb (prefix_mask l) ((2 ^ l - 1) * block l) && eqb (2 ^ l * block l) (2 ^ 32)

mask_table : all_below 33 has_shape ≡ true
unfolding all_below prefix_mask
mask_table = refl

prefix_mask_shape :
    (l : ℕ) → l ≤ 32 → (prefix_mask l ≡ (2 ^ l - 1) * block l) × (2 ^ l * block l ≡ 2 ^ 32)
prefix_mask_shape l h = ground (arith, all_below_sound 33 has_shape l mask_table (omega arith))

-- The mask of a length keeps that many leading bits, and clears the rest.
pub bit_and-prefix_mask :
    (a l : ℕ) → a < 2 ^ 32 → l ≤ 32 → bit_and a (prefix_mask l) ≡ a / block l * block l
bit_and-prefix_mask a l h k =
    let (shape, whole) = prefix_mask_shape l k in
    ap (bit_and a) shape
    ∙ bit_and_shifted (32 - l) a (2 ^ l - 1)
    ∙ ap (λ t. t * block l)
        (bit_and_ones l (a / block l)
          ((div-lt_iff_lt-mul (one-le-pow (32 - l) 2 (omega arith))).1 (omega (arith, whole))))

-- A prefix that the parser can make: 32 bits at most, and no bit set behind them.
pub record IsCanonical (p : Ipv4Prefix) : Type 0 where
  pub length_le : p.length ≤ 32
  pub network_lt : p.network < 2 ^ 32
  pub no_host_bits : p.network / block p.length * block p.length ≡ p.network

same_block :
    (size start a : ℕ)
    → 0 < size
    → start / size * size ≡ start
    → start ≤ a
    → a < start + size
    → a / size * size ≡ start
same_block size start a pos aligned low high =
    ap (λ t. t * size)
      (div-eq_of_lt-le {k = start / size} size {m = a} (omega (arith, aligned))
        (omega (arith, aligned, next)))
    ∙ aligned
  where
    next : (start / size + 1) * size ≡ start / size * size + size
    next = grind arith

-- A canonical prefix contains exactly the addresses that share its leading bits: those of the
-- block of addresses that begins at its network.
pub contains_iff :
    (p : Ipv4Prefix) (a : Ipv4Addr)
    → IsCanonical p
    → a < 2 ^ 32
    → (contains p a ≡ true) ↔ ((p.network ≤ a) × (a < p.network + block p.length))
unfolding contains
contains_iff p a v h =
    let masked = bit_and-prefix_mask a p.length h v.length_le in
    let pos = one-le-pow (32 - p.length) 2 (omega arith) in
    (
      λ e.
          let start : a / block p.length * block p.length ≡ p.network =
            sym masked ∙ (eqb_iff _ p.network).0 e in
          (
            omega (arith, div-mul-le_self a (block p.length)),
            omega (arith, lt-div-mul-add {a = a} pos),
          ),
      λ r.
          (eqb_iff _ p.network).1
            (masked ∙ same_block (block p.length) p.network a pos v.no_host_bits r.0 r.1),
    )
