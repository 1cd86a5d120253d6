-- ===== src/Common/Words.antt =====
-- `to_be_bytes` and `from_be_bytes` of the unsigned integers.
use Prim.Native.Nat.{ℕ, zero, suc, ◌+◌, ◌*◌, ◌/◌, ◌%◌, ◌^◌, ◌<◌}
use mathlib.Core.Path.{◌≡◌, refl, ap, ◌∙◌}
use mathlib.Core.List.{[], ◌∷◌, ◌++◌}
use native.Mathlib.Nat.{pow-suc}
use native.Mathlib.Omega.{arith}
use meshlet.Common.Lists.{Bytes, length, length-append}

unfoldable pub to_be_bytes : ℕ → ℕ → Bytes
to_be_bytes zero n = []
to_be_bytes (suc w) n = to_be_bytes w (n / 256) ++ (n % 256) ∷ []

unfoldable pub be_onto : ℕ → Bytes → ℕ
be_onto acc [] = acc
be_onto acc (b ∷ bs) = be_onto (acc * 256 + b) bs

unfoldable pub from_be_bytes : Bytes → ℕ
from_be_bytes = be_onto 0

be_onto-append : (acc : ℕ) (xs ys : Bytes) → be_onto acc (xs ++ ys) ≡ be_onto (be_onto acc xs) ys
unfolding be_onto
be_onto-append acc [] ys = refl
be_onto-append acc (x ∷ xs) ys = be_onto-append (acc * 256 + x) xs ys

pub length-to_be_bytes : (w n : ℕ) → length (to_be_bytes w n) ≡ w
unfolding to_be_bytes
length-to_be_bytes zero n = refl
length-to_be_bytes (suc w) n = omega (
  arith,
  length-append (to_be_bytes w (n / 256)) ((n % 256) ∷ []),
  length-to_be_bytes w (n / 256),
)

pub from_be_bytes-to_be_bytes : (w n : ℕ) → n < 256 ^ w → from_be_bytes (to_be_bytes w n) ≡ n
unfolding from_be_bytes to_be_bytes be_onto
from_be_bytes-to_be_bytes zero n h = omega arith
from_be_bytes-to_be_bytes (suc w) n h =
    be_onto-append 0 (to_be_bytes w (n / 256)) ((n % 256) ∷ [])
    ∙ ap (λ t. t * 256 + n % 256)
        (from_be_bytes-to_be_bytes w (n / 256) (omega (arith, pow-suc 256 w)))
    ∙ omega arith
