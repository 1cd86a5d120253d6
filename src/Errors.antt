-- ===== src/Errors.antt =====
-- The errors that the parsers and the coordinator return as texts: those of src/coordinator.rs,
-- src/identity.rs and src/routing.rs. `message` is the text.
use meshlet.Common.{
  ℕ, ◌+◌, ◌/◌, ◌%◌, [], ◌∷◌, ◌++◌, ltb, if◌then◌else◌, Bytes, length, nat_eq, list_eq, pair_eq,
}
use meshlet.Net.Ipv4.{display_ipv4}
use meshlet.Text.Decimal.{decimal}
use meshlet.Text.{codes}

pub data Error : Type 0 where
  node_id_grammar lease_not_integer lease_range : Error
  prefix_form prefix_address prefix_length_integer prefix_length_range : Error
  -- the network and the length to use
  host_bits : ℕ → ℕ → Error
  hex_length hex_character : ℕ → Error
  request_not_utf8 unexpected_request unexpected_auth_request destination_address : Error
  unsupported_version unsupported_auth_version : Bytes → Error
  -- the text that the crate `ed25519-dalek` gives
  signature_encoding : Bytes → Error
  -- the text that the operating system gives
  challenge_random : Bytes → Error
  request_size not_authorized no_challenge wrong_challenge bad_signature : Error
  challenge_response_form : Error
  response_version : Bytes → Error
  -- the node of the response and the one expected
  response_node : Bytes → Bytes → Error

-- `char::from(u8)` in UTF-8: Latin-1
abbrev latin1 : ℕ → Bytes
latin1 c = if ltb c 128 then c ∷ [] else (192 + c / 64) ∷ (128 + c % 64) ∷ []

abbrev quoted : Bytes → Bytes
quoted s = b'\'' ∷ (s ++ codes "'")

unfoldable pub message : Error → Bytes
message node_id_grammar = codes "node ID must use 1-64 ASCII letters, digits, '.', '-' or '_'"
message lease_not_integer = codes "lease must be an integer number of seconds"
message lease_range = codes "lease must be between 1 and 300 seconds"
message prefix_form = codes "prefix must be ADDRESS/LENGTH"
message prefix_address = codes "prefix address must be IPv4"
message prefix_length_integer = codes "prefix length must be an integer"
message prefix_length_range = codes "IPv4 prefix length must be between 0 and 32"
message (host_bits network length) =
    codes "prefix has host bits set; use " ++ (display_ipv4 network ++ (b'/' ∷ decimal length))
message (hex_length n) = codes "expected " ++ (decimal n ++ codes " hexadecimal characters")
message (hex_character c) = codes "invalid hexadecimal character " ++ quoted (latin1 c)
message request_not_utf8 = codes "request is not UTF-8"
message unexpected_request =
    codes "expected a node registration, node lookup, route advertisement, or route lookup"
message unexpected_auth_request =
    codes "expected 'MESHLET/2 CHALLENGE NODE_ID', "
    ++ (codes "'MESHLET/2 REGISTER NODE_ID LEASE_SECONDS CHALLENGE_HEX SIGNATURE_HEX', "
        ++ codes "or 'MESHLET/2 LOOKUP NODE_ID'")
message destination_address = codes "route destination must be an IPv4 address"
message (unsupported_version v) = codes "unsupported protocol version " ++ quoted v
message (unsupported_auth_version v) =
    codes "unsupported authenticated protocol version " ++ quoted v
message (signature_encoding e) = codes "invalid signature encoding: " ++ e
message (challenge_random e) = codes "operating system failed to generate a challenge: " ++ e
message request_size = codes "request exceeds 1024-byte limit"
message not_authorized = codes "node ID is not authorized"
message no_challenge = codes "no unexpired challenge exists for this node and source endpoint"
message wrong_challenge = codes "challenge does not match the issued value"
message bad_signature = codes "signature verification failed"
message challenge_response_form = codes "expected an authenticated CHALLENGE response"
message (response_version v) = codes "unexpected protocol version " ++ quoted v
message (response_node n expected) =
    codes "challenge belongs to node " ++ (quoted n ++ (codes ", not " ++ quoted expected))
