-- ===== src/Stun.antt =====
-- core/src/stun_client.rs: the binding request, and the parser of the response.
pub mod Attributes
pub mod Parse
pub mod Xor
pub mod Discover
use zao_p2p.Prelude.{
  ℕ, zero, suc, ◌+◌, ◌-◌, ◌*◌, ◌/◌, ◌%◌, String, Bool, true, false, not, ◌&&◌, ◌||◌, Option, none,
  some, List, [], ◌∷◌, ◌++◌, length, get_or, ltb, leb, ◌==◌, if◌then◌else◌, min, bit_xor,
}
use zao_p2p.Prelude.Bytes.{Bytes, to_be_bytes, from_be_bytes, bytes_eq, slice}
use zao_p2p.CoreError.{Result, ok, err, invalid_state, ok_or, ◌>>=◌}
use zao_p2p.Transfer.{div_ceil}

abbrev pub stun_magic_cookie : ℕ
stun_magic_cookie = 0x2112A442

abbrev pub stun_binding_request : ℕ
stun_binding_request = 0x0001

abbrev pub stun_binding_response : ℕ
stun_binding_response = 0x0101

abbrev pub attr_xor_mapped_address : ℕ
attr_xor_mapped_address = 0x0020

abbrev pub attr_mapped_address : ℕ
attr_mapped_address = 0x0001

-- The four octets of an IPv4 address, and the port.
pub record SocketAddr : Type 0 where
  pub ip : Bytes
  pub port : ℕ

unfoldable pub build_binding_request : Bytes → Bytes
build_binding_request transaction_id =
    to_be_bytes 2 stun_binding_request
    ++ (to_be_bytes 2 0 ++ (to_be_bytes 4 stun_magic_cookie ++ transaction_id))

-- The bytes of the cookie, as `to_be_bytes` gives them.
abbrev pub cookie_byte : ℕ → ℕ
cookie_byte i = get_or (0x21 ∷ (0x12 ∷ (0xA4 ∷ (0x42 ∷ [])))) i 0

-- The transaction id is read for IPv6 only, which is refused.
unfoldable pub parse_xor_mapped_address : Bytes → Option SocketAddr
parse_xor_mapped_address value =
    if ltb (length value) 8 || not (get_or value 1 0 == 0x01)
    then none
    else some (record {
      ip =
          bit_xor (get_or value 4 0) (cookie_byte 0)
          ∷ (bit_xor (get_or value 5 0) (cookie_byte 1)
              ∷ (bit_xor (get_or value 6 0) (cookie_byte 2)
                  ∷ (bit_xor (get_or value 7 0) (cookie_byte 3) ∷ [])));
      port = bit_xor (from_be_bytes (slice value 2 4)) 0x2112;
    })

unfoldable pub parse_mapped_address : Bytes → Option SocketAddr
parse_mapped_address value =
    if ltb (length value) 8 || not (get_or value 1 0 == 0x01)
    then none
    else some (record { ip = slice value 4 8; port = from_be_bytes (slice value 2 4) })

-- What the loop has found so far.
pub record Found : Type 0 where
  pub mapped_address : Option SocketAddr
  pub xor_mapped_address : Option SocketAddr

-- `if let Some(addr) = new { old = Some(addr) }`
abbrev pub replace_by : Option SocketAddr → Option SocketAddr → Option SocketAddr
replace_by old none = old
replace_by old (some addr) = some addr

unfoldable pub match_attribute : ℕ → Bytes → Found → Found
match_attribute attr_type value found =
    if attr_type == attr_xor_mapped_address
    then record found {
      xor_mapped_address = replace_by found.xor_mapped_address (parse_xor_mapped_address value);
    }
    else if attr_type == attr_mapped_address
    then record found {
      mapped_address = replace_by found.mapped_address (parse_mapped_address value);
    }
    else found

-- The `while` loop over the attributes; `none` means that the fuel ran out.
unfoldable pub walk_attributes : ℕ → Bytes → ℕ → ℕ → Found → Option Found
walk_attributes zero bytes attrs_end offset found = none
walk_attributes (suc fuel) bytes attrs_end offset found =
    let attr_type = from_be_bytes (slice bytes offset (offset + 2)) in
    let attr_len = from_be_bytes (slice bytes (offset + 2) (offset + 4)) in
    let value_start = offset + 4 in
    let value_end = value_start + attr_len in
    let value = slice bytes value_start value_end in
    let padded_len = div_ceil attr_len 4 * 4 in
    let rest =
      walk_attributes fuel bytes attrs_end (value_start + padded_len)
        (match_attribute attr_type value found) in
    if leb (offset + 4) attrs_end
    then (if ltb (length bytes) value_end then some found else rest)
    else some found

abbrev pub found_nothing : Found
found_nothing = record { mapped_address = none; xor_mapped_address = none }

-- `xor_mapped_address.or(mapped_address).ok_or_else(..)`
unfoldable pub choose_address : Option Found → Result SocketAddr
choose_address none = err (invalid_state "STUN attribute loop did not end")
choose_address (some found) = elim found.xor_mapped_address [
  | some addr ↦ ok addr
  | none ↦ ok_or found.mapped_address (invalid_state "STUN response had no mapped address")
]

-- A round of the loop reads four bytes at least, so the length of the data is enough fuel.
unfoldable pub parse_binding_response : Bytes → Bytes → Result SocketAddr
parse_binding_response bytes expected_transaction_id =
    if ltb (length bytes) 20
    then err (invalid_state "STUN response too short")
    else if not (from_be_bytes (slice bytes 0 2) == stun_binding_response)
    then err (invalid_state "unexpected STUN message type")
    else if not (from_be_bytes (slice bytes 4 8) == stun_magic_cookie)
    then err (invalid_state "STUN magic cookie mismatch")
    else if not (bytes_eq (slice bytes 8 20) expected_transaction_id)
    then err (invalid_state "STUN transaction ID mismatch")
    else (let message_length = from_be_bytes (slice bytes 2 4) in
        let attrs_end = min (20 + message_length) (length bytes) in
        choose_address (walk_attributes (length bytes) bytes attrs_end 20 found_nothing))
