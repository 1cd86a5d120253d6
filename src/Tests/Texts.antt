-- ===== src/Tests/Texts.antt =====
-- Runs of the standard library's part: addresses, decimals, fields and UTF-8.
use meshlet.Common.{◌≡◌, refl, true, false, none, some, [], ◌∷◌, nat_eq, list_eq, pair_eq}
use meshlet.Net.Ipv4.{display_ipv4, parse_ipv4, split_once, octet, four_octets}
use meshlet.Net.Ipv6.{display_ipv6}
use meshlet.Text.Decimal.{decimal, parse_unsigned, scan, max_u8}
use meshlet.Text.Utf8.{is_utf8}
use meshlet.Text.Words.{split_ascii_whitespace}
use meshlet.Text.{codes}

loopback : display_ipv6 (0 ∷ 0 ∷ 0 ∷ 0 ∷ 0 ∷ 0 ∷ 0 ∷ 1 ∷ []) ≡ codes "::1"
unfolding display_ipv6
loopback = refl

first_longest_run :
    display_ipv6 (0x2001 ∷ 0xdb8 ∷ 0 ∷ 0 ∷ 1 ∷ 0 ∷ 0 ∷ 1 ∷ []) ≡ codes "2001:db8::1:0:0:1"
unfolding display_ipv6
first_longest_run = refl

mapped_address :
    display_ipv6 (0 ∷ 0 ∷ 0 ∷ 0 ∷ 0 ∷ 0xffff ∷ 0xa00 ∷ 0x2 ∷ []) ≡ codes "::ffff:10.0.0.2"
unfolding display_ipv6 display_ipv4 decimal
mapped_address = refl

fields_of_a_request :
    split_ascii_whitespace (codes " MESHLET/1\tLOOKUP  mesh-a\n")
    ≡ codes "MESHLET/1" ∷ codes "LOOKUP" ∷ codes "mesh-a" ∷ []
unfolding split_ascii_whitespace
fields_of_a_request = refl

octet_texts :
    (parse_ipv4 (codes "10.30.0.2") ≡ some 169_738_242)
    × (parse_ipv4 (codes "10.030.0.2") ≡ none)
    × (parse_ipv4 (codes "10.30.0") ≡ none)
    × (parse_ipv4 (codes "10.30.0.256") ≡ none)
unfolding parse_ipv4 four_octets split_once octet
octet_texts = (refl, refl, refl, refl)

unsigned_texts :
    (parse_unsigned max_u8 (codes "+08") ≡ some 8)
    × (parse_unsigned max_u8 (codes "+") ≡ none)
    × (parse_unsigned max_u8 (codes "256") ≡ none)
unfolding parse_unsigned scan
unsigned_texts = (refl, refl, refl)

utf8_texts :
    (is_utf8 (0xe2 ∷ 0x82 ∷ 0xac ∷ []) ≡ true)
    × (is_utf8 (0xc0 ∷ 0x80 ∷ []) ≡ false)
    × (is_utf8 (0xed ∷ 0xa0 ∷ 0x80 ∷ []) ≡ false)
    × (is_utf8 (0xe2 ∷ 0x82 ∷ []) ≡ false)
unfolding is_utf8
utf8_texts = (refl, refl, refl, refl)
