-- ===== src/Net/Ipv4.antt =====
-- `Ipv4Addr` as its 32-bit value: `octets`, `Display` and `FromStr`.
use mathlib.Core.Option
use meshlet.Common.{
  ℕ, ◌+◌, ◌*◌, ◌/◌, ◌%◌, ◌^◌, ◌<◌, ◌≡◌, refl, sym, ap, ◌∙◌, ◌≢◌, inl, inr, Bool, true, false, ◌||◌,
  Option, none, some, [], ◌∷◌, ◌++◌, arith, ltb, eqb, if◌then◌else◌, all_below, all_below_sound,
  Bytes, length, All, All-append, All-imp, List-cases, nat_eq, list_eq, pair_eq,
}
use meshlet.Text.Decimal.{decimal, decimal-All, decimal-ne-nil, is_digit, scan, scan-le, max_u8}

abbrev pub Ipv4Addr : Type 0
Ipv4Addr = ℕ

-- `Ipv4Addr::new`
abbrev pub new : ℕ → ℕ → ℕ → ℕ → Ipv4Addr
new a b c d = a * 16_777_216 + b * 65_536 + c * 256 + d

-- `str::split_once`
unfoldable pub split_once : ℕ → Bytes → Option (Bytes × Bytes)
split_once sep [] = none
split_once sep (c ∷ s) =
    let rest = Option.map (λ (p : Bytes × Bytes). (c ∷ p.0, p.1)) (split_once sep s) in
    if eqb c sep then some ([], s) else rest

-- One to three digits, with no zero in front of another digit.
unfoldable pub octet : Bytes → Option ℕ
unfolding scan
octet [] = none
octet (c ∷ []) = scan max_u8 (c ∷ []) 0
octet (c ∷ d ∷ s) =
    if eqb c b'0' || ltb 3 (length (c ∷ d ∷ s)) then none else scan max_u8 (c ∷ d ∷ s) 0

infixl 5 ◌>>=◌
abbrev ◌>>=◌ {ℓ κ} : {A : Type ℓ} {B : Type κ} → Option A → (A → Option B) → Option B
none >>= f = none
some a >>= f = f a

>>=-eq-some {ℓ κ} :
    {A : Type ℓ} {B : Type κ} (m : Option A) (f : A → Option B) {b : B}
    → (m >>= f) ≡ some b
    → (a : A) × (m ≡ some a) × (f a ≡ some b)
>>=-eq-some none f h = cc
>>=-eq-some (some a) f h = (a, refl, h)

unfoldable pub four_octets : Bytes → Bytes → Bytes → Bytes → Option Ipv4Addr
four_octets a b c d = do
  a' ← octet a
  b' ← octet b
  c' ← octet c
  d' ← octet d
  some (new a' b' c' d')

unfoldable pub parse_ipv4 : Bytes → Option Ipv4Addr
parse_ipv4 s = do
  (a, s₁) ← split_once b'.' s
  (b, s₂) ← split_once b'.' s₁
  (c, d) ← split_once b'.' s₂
  four_octets a b c d

unfoldable pub display_ipv4 : Ipv4Addr → Bytes
display_ipv4 ip =
    decimal (ip / 16_777_216)
    ++ (b'.'
        ∷ (decimal (ip / 65_536 % 256)
            ++ (b'.' ∷ (decimal (ip / 256 % 256) ++ (b'.' ∷ decimal (ip % 256))))))

pub split_once-append :
    (sep : ℕ) (w rest : Bytes)
    → All (λ c. eqb c sep ≡ false) w
    → split_once sep (w ++ (sep ∷ rest)) ≡ some (w, rest)
unfolding split_once
split_once-append sep [] rest h = ground arith
split_once-append sep (c ∷ w) rest h = rw (h.0, split_once-append sep w rest h.1)

-- A decimal goes up to the separator.
pub split_once-decimal :
    (sep n : ℕ) (rest : Bytes)
    → is_digit sep ≡ false
    → split_once sep (decimal n ++ (sep ∷ rest)) ≡ some (decimal n, rest)
split_once-decimal sep n rest h = split_once-append sep (decimal n) rest (
    All-imp (λ c. is_digit c ≡ true) (λ c. eqb c sep ≡ false) (λ c k. ground arith) (decimal n)
      (decimal-All n))

reads_back : ℕ → Bool
reads_back n = elim (octet (decimal n)) [ none ↦ false | some m ↦ eqb m n ]

octet_table : all_below 256 reads_back ≡ true
unfolding reads_back octet decimal all_below
octet_table = refl

octet-decimal : (n : ℕ) → n < 256 → octet (decimal n) ≡ some n
octet-decimal n h = from_test (all_below_sound 256 reads_back n octet_table h)
  where
    from_test : reads_back n ≡ true → octet (decimal n) ≡ some n
    from_test e = unfold reads_back in ground arith

-- An address that is printed is read back.
pub parse_ipv4-display_ipv4 : (ip : Ipv4Addr) → ip < 2 ^ 32 → parse_ipv4 (display_ipv4 ip) ≡ some ip
unfolding parse_ipv4 four_octets display_ipv4
parse_ipv4-display_ipv4 ip h =
    simp
      (
        split_once-decimal b'.' (ip / 16_777_216) _ refl,
        split_once-decimal b'.' (ip / 65_536 % 256) _ refl,
        split_once-decimal b'.' (ip / 256 % 256) _ refl,
        octet-decimal (ip / 16_777_216) (omega arith),
        octet-decimal (ip / 65_536 % 256) (omega arith),
        octet-decimal (ip / 256 % 256) (omega arith),
        octet-decimal (ip % 256) (omega arith),
      )
      (ap some (omega arith))

abbrev pub is_address_byte : ℕ → Bool
is_address_byte c = is_digit c || eqb c b'.'

decimal_address : (n : ℕ) → All (λ c. is_address_byte c ≡ true) (decimal n)
decimal_address n =
    All-imp (λ c. is_digit c ≡ true) (λ c. is_address_byte c ≡ true) (λ c h. ground arith)
      (decimal n) (decimal-All n)

-- An address is printed with digits and dots.
pub display_ipv4-All : (ip : Ipv4Addr) → All (λ c. is_address_byte c ≡ true) (display_ipv4 ip)
unfolding display_ipv4
display_ipv4-All ip =
    dotted (ip / 16_777_216) _
      (dotted (ip / 65_536 % 256) _ (dotted (ip / 256 % 256) _ (decimal_address (ip % 256))))
  where
    dotted :
        (n : ℕ) (rest : Bytes)
        → All (λ c. is_address_byte c ≡ true) rest
        → All (λ c. is_address_byte c ≡ true) (decimal n ++ (b'.' ∷ rest))
    dotted n rest h = All-append _ (decimal n) (b'.' ∷ rest) (decimal_address n) (refl, h)

pub display_ipv4-ne-nil : (ip : Ipv4Addr) → display_ipv4 ip ≢ []
unfolding display_ipv4
display_ipv4-ne-nil ip e = elim (List-cases (decimal (ip / 16_777_216))) [
  | inl empty ↦ decimal-ne-nil (ip / 16_777_216) empty
  | inr (c, rest, front) ↦ cc (
      sym (
        ap
          (λ t.
            t
            ++ (b'.'
                ∷ (decimal (ip / 65_536 % 256)
                    ++ (b'.' ∷ (decimal (ip / 256 % 256) ++ (b'.' ∷ decimal (ip % 256)))))))
          front)
      ∙ e)
]

octet-le : (s : Bytes) (n : ℕ) → octet s ≡ some n → n < 256
unfolding octet
octet-le [] n e = absurd (ground arith)
octet-le (c ∷ []) n e = ground (arith, scan-le max_u8 (c ∷ []) 0 n)
octet-le (c ∷ d ∷ s) n e = ground (arith, scan-le max_u8 (c ∷ d ∷ s) 0 n)

four_octets-lt : (a b c d : Bytes) (ip : Ipv4Addr) → four_octets a b c d ≡ some ip → ip < 2 ^ 32
unfolding four_octets
four_octets-lt a b c d ip e =
    let (a', ha, e₁) = >>=-eq-some (octet a) _ e in
    let (b', hb, e₂) = >>=-eq-some (octet b) _ e₁ in
    let (c', hc, e₃) = >>=-eq-some (octet c) _ e₂ in
    let (d', hd, e₄) = >>=-eq-some (octet d) _ e₃ in
    from_octets a' b' c' d' (octet-le a a' ha) (octet-le b b' hb) (octet-le c c' hc)
      (octet-le d d' hd) e₄
  where
    from_octets :
        (a' b' c' d' : ℕ)
        → a' < 256
        → b' < 256
        → c' < 256
        → d' < 256
        → some (new a' b' c' d') ≡ some ip
        → ip < 2 ^ 32
    from_octets a' b' c' d' ha hb hc hd k = ground arith

-- An address that is read has 32 bits.
pub parse_ipv4-lt : (s : Bytes) (ip : Ipv4Addr) → parse_ipv4 s ≡ some ip → ip < 2 ^ 32
unfolding parse_ipv4
parse_ipv4-lt s ip e =
    let ((a, s₁), _, e₁) = >>=-eq-some (split_once b'.' s) _ e in
    let ((b, s₂), _, e₂) = >>=-eq-some (split_once b'.' s₁) _ e₁ in
    let ((c, d), _, e₃) = >>=-eq-some (split_once b'.' s₂) _ e₂ in four_octets-lt a b c d ip e₃
