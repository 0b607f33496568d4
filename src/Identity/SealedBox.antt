-- ===== src/Identity/SealedBox.antt =====
-- `sealed_box` of core/src/identity.rs: [ephemeral public key: 32][nonce: 12][ciphertext].
use zao_p2p.Prelude.{
  ℕ, ◌+◌, ◌<◌, ◌≡◌, refl, [], ◌∷◌, ◌++◌, length, length-append, drop, drop-append, false, inl, inr,
  Option-cases, ltb, if◌then◌else◌, arith,
}
use mathlib.Core.List.{append_assoc}
use zao_p2p.Prelude.Bytes.{Bytes, slice, slice_middle}
use zao_p2p.CoreError.{Result, ok, err, crypto, ok_or, ◌>>=◌}
use zao_p2p.Identity.{Crypto}

-- b"zao-p2p-sealed-box-v1"
abbrev sealed_box_domain : Bytes
sealed_box_domain =
    122
    ∷ (97
        ∷ (111
            ∷ (45
                ∷ (112
                    ∷ (50
                        ∷ (112
                            ∷ (45
                                ∷ (115
                                    ∷ (101
                                        ∷ (97
                                            ∷ (108
                                                ∷ (101
                                                    ∷ (100
                                                        ∷ (45
                                                            ∷ (98
                                                            ∷ (111
                                                            ∷ (120
                                                            ∷ (45
                                                            ∷ (118 ∷ (49 ∷ []))))))))))))))))))))

module _ (c : Crypto) where
  unfoldable pub derive_symmetric_key : Bytes → Bytes
  derive_symmetric_key shared_secret = c.sha256 (shared_secret ++ sealed_box_domain)

  -- The ephemeral secret and the nonce are drawn for each message.
  unfoldable pub seal : c.StaticSecret → Bytes → Bytes → Bytes → Result Bytes
  seal ephemeral_secret nonce recipient_public plaintext = do
    let key = derive_symmetric_key (c.diffie_hellman ephemeral_secret recipient_public)
    ciphertext ← ok_or (c.encrypt key nonce plaintext) (crypto "sealed_box encrypt failed")
    ok (c.public_key ephemeral_secret ++ (nonce ++ ciphertext))

  unfoldable pub open_sealed : c.StaticSecret → Bytes → Result Bytes
  open_sealed recipient_secret sealed =
      if ltb (length sealed) (32 + 12)
      then err (crypto "sealed_box message too short")
      else (let ephemeral_public = slice sealed 0 32 in
          let nonce = slice sealed 32 44 in
          let ciphertext = drop 44 sealed in
          let key = derive_symmetric_key (c.diffie_hellman recipient_secret ephemeral_public) in
          ok_or (c.decrypt key nonce ciphertext) (crypto "sealed_box decrypt failed"))

  drop_front : (front back : Bytes) (n : ℕ) → length front ≡ n → drop n (front ++ back) ≡ back
  drop_front front back n h = rw (← h) (drop-append front back)

  -- The three parts of a message, as `open_sealed` takes them.
  open_sealed_parts :
      (recipient_secret : c.StaticSecret) (public nonce ciphertext : Bytes)
      → length public ≡ 32
      → length nonce ≡ 12
      → open_sealed recipient_secret (public ++ (nonce ++ ciphertext))
        ≡ ok_or
            (c.decrypt
              (derive_symmetric_key (c.diffie_hellman recipient_secret public))
              nonce
              ciphertext)
            (crypto "sealed_box decrypt failed")
  unfolding open_sealed
  open_sealed_parts recipient_secret public nonce ciphertext hp hn =
      let long : ltb (length (public ++ (nonce ++ ciphertext))) 44 ≡ false =
        ground
          (arith, length-append public (nonce ++ ciphertext), length-append nonce ciphertext) in
      let tail : drop 44 (public ++ (nonce ++ ciphertext)) ≡ ciphertext =
        rw (← append_assoc public nonce ciphertext) (
          drop_front (public ++ nonce) ciphertext 44
            (rw (length-append public nonce) (omega arith))) in
      rw (
        long,
        tail,
        slice_middle [] public (nonce ++ ciphertext) 0 32 refl (omega arith),
        slice_middle public nonce ciphertext 32 44 hp (omega arith),
      )

  -- What is sealed for a recipient's public key, the recipient opens with the secret key.
  pub open_sealed-seal :
      (ephemeral_secret recipient_secret : c.StaticSecret) (nonce plaintext sealed : Bytes)
      → length nonce ≡ 12
      → seal ephemeral_secret nonce (c.public_key recipient_secret) plaintext ≡ ok sealed
      → open_sealed recipient_secret sealed ≡ ok plaintext
  unfolding seal
  open_sealed-seal ephemeral_secret recipient_secret nonce plaintext sealed size h =
      elim (Option-cases (c.encrypt key nonce plaintext)) [
        | inl e ↦ cc (rw e at h)
        | inr (ciphertext, e) ↦
            (let layout : ok (c.public_key ephemeral_secret ++ (nonce ++ ciphertext)) ≡ ok sealed =
                rw e at h in
              let same : c.public_key ephemeral_secret ++ (nonce ++ ciphertext) ≡ sealed =
                cc layout in
              rw (
                ← same,
                open_sealed_parts recipient_secret (c.public_key ephemeral_secret) nonce ciphertext
                    (c.length-public_key ephemeral_secret) size,
                c.diffie_hellman_comm recipient_secret ephemeral_secret,
                c.decrypt-encrypt key nonce plaintext ciphertext e,
              ))
      ]
    where
      key : Bytes
      key = derive_symmetric_key (c.diffie_hellman ephemeral_secret (c.public_key recipient_secret))

  -- A message without room for the key and the nonce is refused before any cipher is used.
  pub open_sealed_short :
      (recipient_secret : c.StaticSecret) (sealed : Bytes)
      → length sealed < 44
      → open_sealed recipient_secret sealed ≡ err (crypto "sealed_box message too short")
  unfolding open_sealed
  open_sealed_short recipient_secret sealed h = ground arith
