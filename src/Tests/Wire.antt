-- ===== src/Tests/Wire.antt =====
-- Frames, chunk frames, STUN messages and sealed boxes.
use zao_p2p.Prelude.{
  ℕ, ◌≡◌, ◌≢◌, ◌≤◌, refl, true, false, none, some, List, [], ◌∷◌, ◌++◌, length, arith,
}
use zao_p2p.Prelude.Bytes.{Bytes, to_le_bytes, from_be_bytes, slice}
use zao_p2p.Transfer.ChunkFrame.{ChunkFrame}
use zao_p2p.CoreError.{ok}
use zao_p2p.Stun.{
  SocketAddr, parse_xor_mapped_address, parse_binding_response, choose_address, found_nothing,
  walk_attributes, stun_binding_response, stun_magic_cookie,
}
use zao_p2p.Stun.Attributes.{Attribute, match_attributes}
use zao_p2p.Stun.Xor.{xor_value}
use zao_p2p.Stun.Parse.{response, parse_binding_response-response}
use zao_p2p.Tests.Concrete

abbrev frame : ChunkFrame
frame = record { chunk_index = 3; payload = 5 ∷ 6 ∷ []; checksum = Concrete.zeros }

abbrev nonce : Bytes
nonce = 1 ∷ 2 ∷ 3 ∷ 4 ∷ 5 ∷ 6 ∷ 7 ∷ 8 ∷ 9 ∷ 10 ∷ 11 ∷ 12 ∷ []

-- An attribute that is not an address, and then the address.
abbrev attributes : List Attribute
attributes =
    record { attr_type = 32802; value = 1 ∷ 2 ∷ 3 ∷ [] }
    ∷ record { attr_type = 32; value = xor_value 192 0 2 1 5000 }
    ∷ []

parse_binding_response-response_example :
    parse_binding_response (response nonce attributes) nonce
    ≡ ok (record { ip = 192 ∷ 0 ∷ 2 ∷ 1 ∷ []; port = 5000 })
unfolding zao_p2p.Prelude.Bytes.to_be_bytes to_le_bytes zao_p2p.Stun.Attributes.encode_attribute
    zao_p2p.Prelude.replicate zao_p2p.Transfer.div_ceil zao_p2p.Stun.Parse.last_readable
    parse_xor_mapped_address from_be_bytes zao_p2p.Prelude.Bytes.from_le_bytes slice
    zao_p2p.Prelude.take zao_p2p.Prelude.drop
parse_binding_response-response_example =
    parse_binding_response-response nonce attributes refl
      ((omega arith, omega arith), ((omega arith, omega arith), tt)) (omega arith)

abbrev address : SocketAddr
address = record { ip = 192 ∷ 0 ∷ 2 ∷ 1 ∷ []; port = 5000 }
