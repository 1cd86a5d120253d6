-- ===== src/Routing/Parse.antt =====
-- src/routing.rs: `from_str` accepts only canonical prefixes, and reads back what `Display` prints.
use meshlet.Common.{
  ℕ, ◌^◌, ◌<◌, ◌≡◌, true, false, arith, eqb, Bytes, length, All, All-imp, nat_eq, list_eq, pair_eq,
}
use meshlet.Common.Result.{ok, ok_or, ok_or-eq-ok, >>=-eq-ok}
use meshlet.Errors.{prefix_form, prefix_address, prefix_length_integer}
use meshlet.Net.Ipv4.{
  display_ipv4, display_ipv4-All, is_address_byte, parse_ipv4, parse_ipv4-lt,
  parse_ipv4-display_ipv4, split_once, split_once-append,
}
use meshlet.Routing.Mask.{IsCanonical, bit_and-prefix_mask}
use meshlet.Routing.Prefix.{Ipv4Prefix, checked_prefix, parse_prefix, display_prefix}
use meshlet.Text.Decimal.{decimal, parse_unsigned, parse_unsigned-decimal, max_u8}

checked_prefix-IsCanonical :
    (a l : ℕ) (p : Ipv4Prefix) → a < 2 ^ 32 → checked_prefix a l ≡ ok p → IsCanonical p
unfolding checked_prefix
checked_prefix-IsCanonical a l p h e = record {
  length_le = ground arith;
  network_lt = ground arith;
  no_host_bits = ground (arith, bit_and-prefix_mask a l h);
}

-- Whatever text is parsed to a prefix, its length is at most 32, and its network has 32 bits, none
-- of them set behind the length.
pub parse_prefix-IsCanonical :
    (value : Bytes) (p : Ipv4Prefix) → parse_prefix value ≡ ok p → IsCanonical p
unfolding parse_prefix
parse_prefix-IsCanonical value p e =
    let ((address, length), _, e₁) = >>=-eq-ok (ok_or (split_once b'/' value) prefix_form) _ e in
    let (address', read, e₂) = >>=-eq-ok (ok_or (parse_ipv4 address) prefix_address) _ e₁ in
    let (length', _, e₃) =
      >>=-eq-ok (ok_or (parse_unsigned max_u8 length) prefix_length_integer) _ e₂ in
    checked_prefix-IsCanonical address' length' p
      (parse_ipv4-lt address address' (ok_or-eq-ok (parse_ipv4 address) prefix_address read)) e₃

checked_prefix_canonical :
    (p : Ipv4Prefix) → IsCanonical p → checked_prefix p.network p.length ≡ ok p
unfolding checked_prefix
checked_prefix_canonical p v = ground (
  arith,
  bit_and-prefix_mask p.network p.length v.network_lt v.length_le,
  v.no_host_bits,
  v.length_le,
)

-- A canonical prefix is read back from its text.
pub parse_prefix-display_prefix :
    (p : Ipv4Prefix) → IsCanonical p → parse_prefix (display_prefix p) ≡ ok p
unfolding parse_prefix display_prefix
parse_prefix-display_prefix p v =
    simp
      (
        split_once-append b'/' (display_ipv4 p.network) (decimal p.length) no_slash,
        parse_ipv4-display_ipv4 p.network v.network_lt,
        parse_unsigned-decimal max_u8 p.length (omega (arith, v.length_le)),
      )
      (checked_prefix_canonical p v)
  where
    no_slash : All (λ c. eqb c b'/' ≡ false) (display_ipv4 p.network)
    no_slash =
        All-imp (λ c. is_address_byte c ≡ true) (λ c. eqb c b'/' ≡ false) (λ c h. ground arith)
          (display_ipv4 p.network) (display_ipv4-All p.network)
