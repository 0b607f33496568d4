-- ===== src/Ffi/Mesh.antt =====
-- The sealed messages of core/src/ffi.rs for the BLE mesh.
use zao_p2p.Prelude.{
  ◌≡◌, refl, sym, ◌∙◌, String, Option, none, some, inl, inr, length, ◌==◌, if◌then◌else◌,
}
use zao_p2p.Prelude.Bytes.{Bytes}
use zao_p2p.CoreError.{Result, ok, err, Result-cases}
use zao_p2p.Identity.{DeviceIdentity, noise_public}
use zao_p2p.Identity.SealedBox.{seal, open_sealed, open_sealed-seal}
use zao_p2p.Storage.Devices.{load_identity, load_device_public_key}
use zao_p2p.Manager.{World}
use zao_p2p.Ffi.{App, Reply, reply, failure, Texts, with_manager, opened_storage, store}

module _ (w : World) (texts : Texts w.crypto.hex_encode) where
  -- `hex::decode(..)?`
  abbrev decoded : String → (Bytes → Reply String) → Reply String
  decoded t f = elim (texts.hex_decode t) [ none ↦ failure "invalid hex" | some bytes ↦ f bytes ]

  abbrev in_hex : Result Bytes → Reply String
  in_hex (ok sealed) = reply (w.crypto.hex_encode sealed)
  in_hex (err e) = failure (texts.to_text e)

  -- `ephemeral` and `nonce` are drawn.
  unfoldable pub ble_seal_message : w.crypto.StaticSecret → Bytes → String → String → Reply String
  unfolding seal
  ble_seal_message ephemeral nonce recipient_hex plaintext = decoded recipient_hex (λ key.
      if length key == 32
      then in_hex (seal w.crypto ephemeral nonce key (texts.as_bytes plaintext))
      else failure "recipient public key must be exactly 32 bytes")

  abbrev in_text : Result Bytes → Reply String
  in_text (err e) = failure (texts.to_text e)
  in_text (ok plaintext) = elim (texts.from_utf8 plaintext) [
    | none ↦ failure "invalid utf-8"
    | some t ↦ reply t
  ]

  abbrev open_as : Option (DeviceIdentity w.crypto) → String → Reply String
  open_as none sealed_hex = failure "no identity found; call init_app first"
  open_as (some id) sealed_hex =
      decoded sealed_hex (λ sealed. in_text (open_sealed w.crypto id.noise_static sealed))

  unfoldable pub ble_open_message : App w → String → App w × Reply String
  unfolding opened_storage store load_identity open_sealed
  ble_open_message a sealed_hex = (
    store w texts a (opened_storage w texts a),
    elim (load_identity w.crypto (opened_storage w texts a)) [
      | err e ↦ failure (texts.to_text e)
      | ok found ↦ open_as found sealed_hex
    ],
  )

  unfoldable pub get_known_device_public_key : App w → String → App w × Reply String
  unfolding with_manager load_device_public_key
  get_known_device_public_key a peer = with_manager w texts a (λ m.
      elim (load_device_public_key m.storage peer) [
        | none ↦ (m, failure "no known public key for device")
        | some key ↦ (m, reply (w.crypto.hex_encode key))
      ])

  decoded-encode :
      (bytes : Bytes) (f : Bytes → Reply String) → decoded (w.crypto.hex_encode bytes) f ≡ f bytes
  decoded-encode bytes f = rw (decoded, texts.decode-encode bytes) refl

  ble_seal_message_lem :
      (id : DeviceIdentity w.crypto) (ephemeral : w.crypto.StaticSecret) (nonce : Bytes)
      (plaintext : String)
      → ble_seal_message ephemeral nonce (w.crypto.hex_encode (noise_public w.crypto id)) plaintext
        ≡ in_hex (
            seal w.crypto ephemeral nonce
              (w.crypto.public_key id.noise_static)
              (texts.as_bytes plaintext))
  unfolding ble_seal_message noise_public
  ble_seal_message_lem id ephemeral nonce plaintext =
      rw
        (
          ble_seal_message,
          decoded-encode (w.crypto.public_key id.noise_static) _,
          w.crypto.length-public_key id.noise_static,
        )
        refl

  in_text-as_bytes :
      (t : String)
      → texts.from_utf8 (texts.as_bytes t) ≡ some t
      → in_text (ok (texts.as_bytes t)) ≡ reply t
  in_text-as_bytes t utf8 = rw (in_text, utf8) refl

  -- What is sealed for the Noise key of a device, in hex, that device opens, if its text is read
  -- back from its UTF-8.
  pub ble_open_message-ble_seal_message :
      (a : App w) (id : DeviceIdentity w.crypto) (ephemeral : w.crypto.StaticSecret) (nonce : Bytes)
      (plaintext sealed_hex : String)
      → load_identity w.crypto (opened_storage w texts a) ≡ ok (some id)
      → length nonce ≡ 12
      → texts.from_utf8 (texts.as_bytes plaintext) ≡ some plaintext
      → ble_seal_message ephemeral nonce (w.crypto.hex_encode (noise_public w.crypto id)) plaintext
        ≡ reply sealed_hex
      → (ble_open_message a sealed_hex).1 ≡ reply plaintext
  unfolding ble_open_message noise_public
  ble_open_message-ble_seal_message a id ephemeral nonce plaintext sealed_hex own size utf8 sealed =
      let in_hex_lem = sym (ble_seal_message_lem id ephemeral nonce plaintext) ∙ sealed in
      elim (Result-cases (
        seal w.crypto ephemeral nonce (w.crypto.public_key id.noise_static)
          (texts.as_bytes plaintext))) [
            | inr (e, s) ↦ absurd (cc (rw s at in_hex_lem))
            | inl (bytes, s) ↦
                let same : reply (w.crypto.hex_encode bytes) ≡ reply sealed_hex =
                  rw s at in_hex_lem in
                let hex : w.crypto.hex_encode bytes ≡ sealed_hex = cc same in
                rw
                  (
                    ble_open_message,
                    own,
                    ← hex,
                    decoded-encode bytes _,
                    open_sealed-seal w.crypto ephemeral id.noise_static nonce
                        (texts.as_bytes plaintext) bytes size s,
                    in_text-as_bytes plaintext utf8,
                  )
                  refl
          ]
