-- ===== src/Stun/Parse.antt =====
-- `parse_binding_response` on well-formed responses, and what it refuses.
use zao_p2p.Prelude.{
  ℕ, ◌+◌, ◌<◌, ◌≤◌, ◌^◌, ◌≡◌, ◌≢◌, refl, ◌∙◌, Option, none, some, List, [], ◌∷◌, ◌++◌, ◌==◌,
  if◌then◌else◌, length, length-append, arith, ap,
}
use mathlib.Core.List.{append_assoc}
use zao_p2p.Prelude.Bytes.{
  Bytes, to_be_bytes, from_be_bytes, bytes_eq_refl, bytes_eq→eq, slice, slice_middle,
  length-to_be_bytes, from_be_bytes-to_be_bytes,
}
use zao_p2p.CoreError.{ok, err, invalid_state}
use zao_p2p.Stun.{
  SocketAddr, Found, replace_by, match_attribute, parse_xor_mapped_address, parse_mapped_address,
  stun_magic_cookie, stun_binding_response, found_nothing, choose_address, parse_binding_response,
  walk_attributes,
}
use zao_p2p.Stun.Attributes.{
  Attribute, AllAttributes, encode_attributes, match_attributes, walk_attributes_total,
  walk_attributes-encode_attributes,
}

-- The 20 bytes of a header.
unfoldable pub header : ℕ → ℕ → ℕ → Bytes → Bytes
header message_type message_length cookie transaction_id =
    to_be_bytes 2 message_type
    ++ (to_be_bytes 2 message_length ++ (to_be_bytes 4 cookie ++ transaction_id))

module _ (t n c : ℕ) (id rest : Bytes) (id_size : length id ≡ 12) where
  length-header : length (header t n c id) ≡ 20
  unfolding header
  length-header =
      rw
        (
          length-append (to_be_bytes 2 t) _,
          length-append (to_be_bytes 2 n) _,
          length-append (to_be_bytes 4 c) _,
          length-to_be_bytes 2 t,
          length-to_be_bytes 2 n,
          length-to_be_bytes 4 c,
        )
        (omega arith)

  type_of_header : slice (header t n c id ++ rest) 0 2 ≡ to_be_bytes 2 t
  unfolding header
  type_of_header =
      rw (append_assoc (to_be_bytes 2 t) _ rest)
        (slice_middle [] (to_be_bytes 2 t) _ 0 2 refl (rw (length-to_be_bytes 2 t)))

  length_of_header : slice (header t n c id ++ rest) 2 4 ≡ to_be_bytes 2 n
  unfolding header
  length_of_header =
      rw (append_assoc (to_be_bytes 2 t) _ rest, append_assoc (to_be_bytes 2 n) _ rest)
        (slice_middle (to_be_bytes 2 t) (to_be_bytes 2 n) _ 2 4 (length-to_be_bytes 2 t)
          (rw (length-to_be_bytes 2 n)))

  cookie_of_header : slice (header t n c id ++ rest) 4 8 ≡ to_be_bytes 4 c
  unfolding header
  cookie_of_header =
      rw
        (
          append_assoc (to_be_bytes 2 t) _ rest,
          append_assoc (to_be_bytes 2 n) _ rest,
          append_assoc (to_be_bytes 4 c) _ rest,
          ← append_assoc (to_be_bytes 2 t) (to_be_bytes 2 n) _,
        )
        (slice_middle (to_be_bytes 2 t ++ to_be_bytes 2 n) (to_be_bytes 4 c) _ 4 8
          (rw (length-append (to_be_bytes 2 t) _, length-to_be_bytes 2 t, length-to_be_bytes 2 n))
          (rw (length-to_be_bytes 4 c)))

  id_of_header : slice (header t n c id ++ rest) 8 20 ≡ id
  unfolding header
  id_of_header =
      rw
        (
          append_assoc (to_be_bytes 2 t) _ rest,
          append_assoc (to_be_bytes 2 n) _ rest,
          append_assoc (to_be_bytes 4 c) _ rest,
          ← append_assoc (to_be_bytes 2 t) (to_be_bytes 2 n) _,
          ← append_assoc (to_be_bytes 2 t ++ to_be_bytes 2 n) (to_be_bytes 4 c) _,
        )
        (slice_middle ((to_be_bytes 2 t ++ to_be_bytes 2 n) ++ to_be_bytes 4 c) id rest 8 20
          (rw (
            length-append (to_be_bytes 2 t ++ to_be_bytes 2 n) _,
            length-append (to_be_bytes 2 t) _,
            length-to_be_bytes 2 t,
            length-to_be_bytes 2 n,
            length-to_be_bytes 4 c,
          ))
          (omega arith))

-- A response with these attributes.
abbrev pub response : Bytes → List Attribute → Bytes
response id as' =
    header stun_binding_response (length (encode_attributes as')) stun_magic_cookie id
    ++ encode_attributes as'

-- The last attribute of a type whose value can be read.
unfoldable pub last_readable : ℕ → (Bytes → Option SocketAddr) → List Attribute → Option SocketAddr
last_readable attr_type read [] = none
last_readable attr_type read (a ∷ as') = elim (last_readable attr_type read as') [
  | some addr ↦ some addr
  | none ↦ (if a.attr_type == attr_type then read a.value else none)
]

-- What the loop has found after attributes, by each type on its own.
xor_of_match_attributes :
    (as' : List Attribute) (found : Found)
    → (match_attributes as' found).xor_mapped_address
      ≡ replace_by found.xor_mapped_address (last_readable 0x0020 parse_xor_mapped_address as')
unfolding last_readable match_attribute
xor_of_match_attributes [] found = refl
xor_of_match_attributes (a ∷ as') found =
    xor_of_match_attributes as' (match_attribute a.attr_type a.value found) ∙ ground arith

mapped_of_match_attributes :
    (as' : List Attribute) (found : Found)
    → (match_attributes as' found).mapped_address
      ≡ replace_by found.mapped_address (last_readable 0x0001 parse_mapped_address as')
unfolding last_readable match_attribute
mapped_of_match_attributes [] found = refl
mapped_of_match_attributes (a ∷ as') found =
    mapped_of_match_attributes as' (match_attribute a.attr_type a.value found) ∙ ground arith

choose_last :
    (as' : List Attribute)
    → choose_address (some (match_attributes as' found_nothing))
      ≡ (elim (last_readable 0x0020 parse_xor_mapped_address as') [
        | some addr ↦ ok addr
        | none ↦ elim (last_readable 0x0001 parse_mapped_address as') [
          | some addr ↦ ok addr
          | none ↦ err (invalid_state "STUN response had no mapped address")
        ]
      ])
unfolding choose_address
choose_last as' =
    ground (
      arith,
      xor_of_match_attributes as' found_nothing,
      mapped_of_match_attributes as' found_nothing,
    )

-- A response to the request gives the last of its XOR-MAPPED-ADDRESS attributes that can be read, if
-- there is one, wherever it stands; else the last MAPPED-ADDRESS that can be read; else an error.
-- Other attributes are passed over.
pub parse_binding_response-response :
    (id : Bytes) (as' : List Attribute)
    → length id ≡ 12
    → AllAttributes as'
    → length (encode_attributes as') < 2 ^ 16
    → parse_binding_response (response id as') id
      ≡ (elim (last_readable 0x0020 parse_xor_mapped_address as') [
        | some addr ↦ ok addr
        | none ↦ elim (last_readable 0x0001 parse_mapped_address as') [
          | some addr ↦ ok addr
          | none ↦ err (invalid_state "STUN response had no mapped address")
        ]
      ])
unfolding parse_binding_response
parse_binding_response-response id as' id_size fits small =
    let n = length (encode_attributes as') in
    let e = encode_attributes as' in
    let size : length (response id as') ≡ 20 + n =
      length-append (header stun_binding_response n stun_magic_cookie id) e
      ∙ ap (λ (k : ℕ). k + n)
          (length-header stun_binding_response n stun_magic_cookie id e id_size) in
    rw
      (
        type_of_header stun_binding_response n stun_magic_cookie id e id_size,
        from_be_bytes-to_be_bytes 2 stun_binding_response (omega arith),
        cookie_of_header stun_binding_response n stun_magic_cookie id e id_size,
        from_be_bytes-to_be_bytes 4 stun_magic_cookie (omega arith),
        id_of_header stun_binding_response n stun_magic_cookie id e id_size,
        bytes_eq_refl id,
        length_of_header stun_binding_response n stun_magic_cookie id e id_size,
        from_be_bytes-to_be_bytes 2 n small,
      )
      (ground (
        arith,
        size,
        walk_attributes-encode_attributes as' (length (response id as'))
            (header stun_binding_response n stun_magic_cookie id) 20 found_nothing fits
            (length-header stun_binding_response n stun_magic_cookie id e id_size)
            (omega (arith, size)),
        choose_last as',
      ))

-- Whatever the peer sends, an address comes only out of a binding response of 20 bytes or more with
-- the magic cookie and the transaction id of the request.
pub parse_binding_response_only :
    (bytes id : Bytes) (addr : SocketAddr)
    → parse_binding_response bytes id ≡ ok addr
    → (20 ≤ length bytes)
      × (from_be_bytes (slice bytes 0 2) ≡ stun_binding_response)
      × (from_be_bytes (slice bytes 4 8) ≡ stun_magic_cookie)
      × (slice bytes 8 20 ≡ id)
unfolding parse_binding_response
parse_binding_response_only bytes id addr h = ground (arith, bytes_eq→eq (slice bytes 8 20) id)

-- The attribute loop ends on every response, within the fuel that the parser gives it.
pub parse_binding_response_ends :
    (bytes : Bytes) (attrs_end : ℕ)
    → attrs_end ≤ length bytes
    → 20 ≤ length bytes
    → walk_attributes (length bytes) bytes attrs_end 20 found_nothing ≢ none
parse_binding_response_ends bytes attrs_end h h' =
    walk_attributes_total (length bytes) bytes attrs_end 20 found_nothing (omega arith)
