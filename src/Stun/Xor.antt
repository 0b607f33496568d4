-- ===== src/Stun/Xor.antt =====
-- The two address attributes are read back as they were written.
use zao_p2p.Prelude.{
  ℕ, zero, suc, ◌<◌, ◌≡◌, refl, Bool, true, ◌&&◌, some, [], ◌∷◌, ◌++◌, length, arith, bit_xor, ◌==◌,
  ==_iff, ltb, ltb→lt, take, drop,
}
use zao_p2p.Prelude.Bytes.{
  Bytes, IsByte, to_be_bytes, from_be_bytes, slice, from_be_bytes-to_be_bytes, to_le_bytes,
  length-to_be_bytes, slice_middle,
}
use zao_p2p.Stun.{cookie_byte, parse_xor_mapped_address, parse_mapped_address}

-- Whether a test holds for every number under a bound, run from the bound down.
holds_under : (test : ℕ → Bool) → (bound : ℕ) → Bool
holds_under test zero = true
holds_under test (suc bound) = holds_under test bound && test bound

of_holds_under :
    (test : ℕ → Bool) (value bound : ℕ)
    → value < bound
    → holds_under test bound ≡ true
    → test value ≡ true
unfolding holds_under
of_holds_under test value (suc bound) below table = ground (arith, of_holds_under test value bound)
of_holds_under test value zero below table = absurd (omega arith)

twice_table :
    (holds_under (λ x. bit_xor (bit_xor x 0x21) 0x21 == x) 256 ≡ true)
    × (holds_under (λ x. bit_xor (bit_xor x 0x12) 0x12 == x) 256 ≡ true)
    × (holds_under (λ x. bit_xor (bit_xor x 0xA4) 0xA4 == x) 256 ≡ true)
    × (holds_under (λ x. bit_xor (bit_xor x 0x42) 0x42 == x) 256 ≡ true)
unfolding holds_under
twice_table = (refl, refl, refl, refl)

port_table :
    (holds_under (λ x. bit_xor (bit_xor x 0x2112) 0x2112 == x) 65536 ≡ true)
    × (holds_under (λ x. ltb (bit_xor x 0x2112) 65536) 65536 ≡ true)
unfolding holds_under
port_table = (refl, refl)

xor_twice :
    (k n x : ℕ)
    → holds_under (λ y. bit_xor (bit_xor y k) k == y) n ≡ true
    → x < n
    → bit_xor (bit_xor x k) k ≡ x
xor_twice k n x table h =
    (==_iff _ x).0 (of_holds_under (λ y. bit_xor (bit_xor y k) k == y) x n h table)

xor_port_below : (port : ℕ) → port < 65536 → bit_xor port 0x2112 < 65536
xor_port_below port h =
    ltb→lt _ _ (of_holds_under (λ x. ltb (bit_xor x 0x2112) 65536) port 65536 h port_table.1)

-- The value of an XOR-MAPPED-ADDRESS attribute: a zero, the family, the port and the address, the
-- last two XORed with the magic cookie.
abbrev pub xor_value : ℕ → ℕ → ℕ → ℕ → ℕ → Bytes
xor_value a b c d port =
    0
    ∷ (1
        ∷ (to_be_bytes 2 (bit_xor port 0x2112)
            ++ (bit_xor a (cookie_byte 0)
                ∷ (bit_xor b (cookie_byte 1)
                    ∷ (bit_xor c (cookie_byte 2) ∷ (bit_xor d (cookie_byte 3) ∷ []))))))

port_field :
    (front back : Bytes) (n : ℕ)
    → length front ≡ 2
    → n < 65536
    → from_be_bytes (slice (front ++ (to_be_bytes 2 n ++ back)) 2 4) ≡ n
port_field front back n size h =
    rw (slice_middle front (to_be_bytes 2 n) back 2 4 size (rw (length-to_be_bytes 2 n)))
      (from_be_bytes-to_be_bytes 2 n h)

-- Every IPv4 address and port is read back from its XOR-MAPPED-ADDRESS.
pub parse_xor_mapped_address-xor_value :
    (a b c d port : ℕ)
    → IsByte a
    → IsByte b
    → IsByte c
    → IsByte d
    → port < 65536
    → parse_xor_mapped_address (xor_value a b c d port)
      ≡ some (record { ip = a ∷ (b ∷ (c ∷ (d ∷ []))); port = port })
unfolding parse_xor_mapped_address
parse_xor_mapped_address-xor_value a b c d port ha hb hc hd hp =
    rw
      (
        port_field (0 ∷ (1 ∷ [])) _ (bit_xor port 0x2112) refl (xor_port_below port hp),
        xor_twice 0x2112 65536 port port_table.0 hp,
      )
      (unfold to_be_bytes to_le_bytes in
        rw (
          xor_twice 0x21 256 a twice_table.0 ha,
          xor_twice 0x12 256 b twice_table.1 hb,
          xor_twice 0xA4 256 c twice_table.2 hc,
          xor_twice 0x42 256 d twice_table.3 hd,
        ))

-- So is it from its MAPPED-ADDRESS, which is not XORed.
pub parse_mapped_address-value :
    (a b c d port : ℕ)
    → port < 65536
    → parse_mapped_address (0 ∷ (1 ∷ (to_be_bytes 2 port ++ (a ∷ (b ∷ (c ∷ (d ∷ [])))))))
      ≡ some (record { ip = a ∷ (b ∷ (c ∷ (d ∷ []))); port = port })
unfolding parse_mapped_address
parse_mapped_address-value a b c d port hp =
    rw (port_field (0 ∷ (1 ∷ [])) _ port refl hp)
      (unfold to_be_bytes to_le_bytes slice take drop in refl)
