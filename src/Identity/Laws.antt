-- ===== src/Identity/Laws.antt =====
-- What is stored of an identity gives the identity back, and only for its own id.
use zao_p2p.Prelude.{◌≡◌, eq_iff, eq_refl, arith}
use zao_p2p.CoreError.{ok}
use zao_p2p.Identity.{
  Crypto, DeviceIdentity, StoredIdentity, generate, to_stored, from_stored, derive_device_id,
}

module _ (c : Crypto) where
  -- A generated identity is read back whole from what was stored of it.
  pub from_stored-to_stored :
      (k : c.SigningKey) → from_stored c (to_stored c (generate c k)) ≡ ok (generate c k)
  unfolding from_stored to_stored generate
  from_stored-to_stored k =
      rw (c.signing_from_to k, c.secret_from_to _, eq_refl (derive_device_id c (c.verifying_key k)))

  -- An identity comes out of a stored one only under the id that its signing key derives.
  pub from_stored_only :
      (stored : StoredIdentity) (id : DeviceIdentity c)
      → from_stored c stored ≡ ok id
      → (id.device_id ≡ derive_device_id c (c.verifying_key id.signing_key))
        × (id.device_id ≡ stored.device_id)
  unfolding from_stored
  from_stored_only stored id h = ground (
    arith,
    eq_iff (derive_device_id c (c.verifying_key (c.signing_from_bytes stored.signing_key_bytes)))
        stored.device_id,
  )
