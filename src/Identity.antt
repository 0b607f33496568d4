-- ===== src/Identity.antt =====
-- core/src/identity.rs: the identity of a device. The Ed25519 and X25519 keys, the hashes, the
-- cipher and the hex encoding come from crates: a record of operations with their documented laws.
pub mod SealedBox
pub mod Laws
use zao_p2p.Prelude.{
  ℕ, ◌≡◌, String, Bool, Option, none, some, List, [], ◌∷◌, ◌++◌, length, take, if◌then◌else◌,
  str_eq,
}
use zao_p2p.Prelude.Bytes.{Bytes}
use zao_p2p.CoreError.{Result, ok, err, invalid_state}

pub record Crypto : Type 1 where
  pub SigningKey : Type 0
  pub StaticSecret : Type 0
  pub signing_from_bytes : Bytes → SigningKey
  pub signing_to_bytes : SigningKey → Bytes
  pub signing_from_to : (k : SigningKey) → signing_from_bytes (signing_to_bytes k) ≡ k
  pub verifying_key : SigningKey → Bytes
  pub sign_with : SigningKey → Bytes → Bytes
  pub secret_from_bytes : Bytes → StaticSecret
  pub secret_to_bytes : StaticSecret → Bytes
  pub secret_from_to : (s : StaticSecret) → secret_from_bytes (secret_to_bytes s) ≡ s
  pub public_key : StaticSecret → Bytes
  pub length-public_key : (s : StaticSecret) → length (public_key s) ≡ 32
  pub diffie_hellman : StaticSecret → Bytes → Bytes
  -- both sides of an exchange come to one secret
  pub diffie_hellman_comm :
      (a b : StaticSecret) → diffie_hellman a (public_key b) ≡ diffie_hellman b (public_key a)
  pub sha256 : Bytes → Bytes
  pub sha512 : Bytes → Bytes
  pub hex_encode : Bytes → String
  -- ChaCha20-Poly1305: key, nonce, text
  pub encrypt : Bytes → Bytes → Bytes → Option Bytes
  pub decrypt : Bytes → Bytes → Bytes → Option Bytes
  pub decrypt-encrypt :
      (key nonce plaintext ciphertext : Bytes)
      → encrypt key nonce plaintext ≡ some ciphertext
      → decrypt key nonce ciphertext ≡ some plaintext

module _ (c : Crypto) where
  pub record DeviceIdentity : Type 0 where
    pub device_id : String
    pub signing_key : c.SigningKey
    pub noise_static : c.StaticSecret

pub record StoredIdentity : Type 0 where
  pub device_id : String
  pub signing_key_bytes : Bytes
  pub noise_static_bytes : Bytes

-- b"zao-p2p-noise-static-v1"
abbrev pub noise_static_domain : Bytes
noise_static_domain =
    122
    ∷ (97
        ∷ (111
            ∷ (45
                ∷ (112
                    ∷ (50
                        ∷ (112
                            ∷ (45
                                ∷ (110
                                    ∷ (111
                                        ∷ (105
                                            ∷ (115
                                                ∷ (101
                                                    ∷ (45
                                                        ∷ (115
                                                            ∷ (116
                                                            ∷ (97
                                                            ∷ (116
                                                            ∷ (105
                                                            ∷ (99
                                                            ∷ (45
                                                            ∷ (118 ∷ (49 ∷ []))))))))))))))))))))))

module _ (c : Crypto) where
  unfoldable pub derive_noise_static : c.SigningKey → c.StaticSecret
  derive_noise_static signing_key =
      c.secret_from_bytes
        (take 32 (c.sha512 (c.signing_to_bytes signing_key ++ noise_static_domain)))

  unfoldable pub derive_device_id : Bytes → String
  derive_device_id vk = c.hex_encode (c.sha256 vk)

  -- `SigningKey::generate` draws the key.
  unfoldable pub generate : c.SigningKey → DeviceIdentity c
  unfolding derive_noise_static derive_device_id
  generate signing_key = record {
    device_id = derive_device_id (c.verifying_key signing_key);
    signing_key = signing_key;
    noise_static = derive_noise_static signing_key;
  }

  unfoldable pub noise_public : DeviceIdentity c → Bytes
  noise_public id = c.public_key id.noise_static

  unfoldable pub device_id_from_public_key : Bytes → String
  device_id_from_public_key public_key_bytes = c.hex_encode (c.sha256 public_key_bytes)

  unfoldable pub sign : DeviceIdentity c → Bytes → Bytes
  sign id message = c.sign_with id.signing_key message

  unfoldable pub to_stored : DeviceIdentity c → StoredIdentity
  to_stored id = record {
    device_id = id.device_id;
    signing_key_bytes = c.signing_to_bytes id.signing_key;
    noise_static_bytes = c.secret_to_bytes id.noise_static;
  }

  unfoldable pub from_stored : StoredIdentity → Result (DeviceIdentity c)
  unfolding derive_device_id
  from_stored stored =
      let signing_key = c.signing_from_bytes stored.signing_key_bytes in
      let noise_static = c.secret_from_bytes stored.noise_static_bytes in
      if str_eq (derive_device_id (c.verifying_key signing_key)) stored.device_id
      then ok (record {
        device_id = stored.device_id;
        signing_key = signing_key;
        noise_static = noise_static;
      })
      else err (invalid_state "stored device_id does not match derived key")
