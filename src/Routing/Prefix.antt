-- ===== src/Routing/Prefix.antt =====
-- src/routing.rs: `Ipv4Prefix`, its mask, its text and its parser.
use Prim.Native.Nat.{bit_and}
use meshlet.Common.{
  ℕ, ◌-◌, ◌*◌, ◌%◌, ◌^◌, ◌≡◌, ◌↔◌, Bool, true, ◌&&◌, ◌∷◌, ◌++◌, arith, leb, eqb, if◌then◌else◌,
  Bytes, Eq, nat_eq, list_eq, pair_eq,
}
use meshlet.Common.Result.{Result, ok, ensure, ok_or, ◌>>=◌, ◌>>◌}
use meshlet.Errors.{
  Error, prefix_form, prefix_address, prefix_length_integer, prefix_length_range, host_bits,
}
use meshlet.Net.Ipv4.{Ipv4Addr, display_ipv4, parse_ipv4, split_once}
use meshlet.Text.Decimal.{decimal, parse_unsigned, max_u8}

pub record Ipv4Prefix : Type 0 where
  pub network : Ipv4Addr
  pub length : ℕ

-- `u32::MAX << (32 - length)`, in 32 bits
unfoldable pub prefix_mask : ℕ → ℕ
prefix_mask length = if eqb length 0 then 0 else 0xffff_ffff * 2 ^ (32 - length) % 2 ^ 32

unfoldable pub contains : Ipv4Prefix → Ipv4Addr → Bool
contains p address = eqb (bit_and address (prefix_mask p.length)) p.network

unfoldable pub display_prefix : Ipv4Prefix → Bytes
display_prefix p = display_ipv4 p.network ++ (b'/' ∷ decimal p.length)

-- The checks of `from_str` on the numbers that were read.
unfoldable pub checked_prefix : Ipv4Addr → ℕ → Result Error Ipv4Prefix
checked_prefix address length = do
  ensure (leb length 32) prefix_length_range
  let network = bit_and address (prefix_mask length)
  ensure (eqb network address) (host_bits network length)
  ok (record { network = network; length = length })

unfoldable pub parse_prefix : Bytes → Result Error Ipv4Prefix
unfolding checked_prefix
parse_prefix value = do
  (address, length) ← ok_or (split_once b'/' value) prefix_form
  address' ← ok_or (parse_ipv4 address) prefix_address
  length' ← ok_or (parse_unsigned max_u8 length) prefix_length_integer
  checked_prefix address' length'

-- The derived `PartialEq`.
unfoldable pub prefix_beq : Ipv4Prefix → Ipv4Prefix → Bool
prefix_beq p q = eqb p.network q.network && eqb p.length q.length

pub prefix_beq_iff : (p q : Ipv4Prefix) → (prefix_beq p q ≡ true) ↔ (p ≡ q)
unfolding prefix_beq
prefix_beq_iff p q = ground arith

instance abbrev pub prefix_eq : Eq Ipv4Prefix
prefix_eq = record { beq = prefix_beq; beq_iff = prefix_beq_iff }
