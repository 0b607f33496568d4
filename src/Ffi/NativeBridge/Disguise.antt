-- ===== src/Ffi/NativeBridge/Disguise.antt =====
-- A sealed message whose plaintext has the form of a failure.
use zao_p2p.Prelude.{◌≡◌, ap, String, some, length}
use zao_p2p.Prelude.Bytes.{Bytes}
use zao_p2p.CoreError.{ok}
use zao_p2p.Identity.{DeviceIdentity, noise_public}
use zao_p2p.Storage.Devices.{load_identity}
use zao_p2p.Manager.{World}
use zao_p2p.Ffi.{App, Texts, reply, failure, opened_storage}
use zao_p2p.Ffi.Mesh.{ble_seal_message, ble_open_message-ble_seal_message}
use zao_p2p.Ffi.NativeBridge.{error_json, answer_text}
use zao_p2p.Ffi.NativeBridge.Calls

module _ (w : World) (texts : Texts w.crypto.hex_encode) where
  -- A message that was sealed for a device, with the text of a failure as its plaintext, opens to
  -- the very answer that a call that fails with that error gives; the text is taken to be read
  -- back from its UTF-8.
  pub ble_open_message-error_json :
      (a : App w) (id : DeviceIdentity w.crypto) (ephemeral : w.crypto.StaticSecret) (nonce : Bytes)
      (e sealed_hex : String)
      → load_identity w.crypto (opened_storage w texts a) ≡ ok (some id)
      → length nonce ≡ 12
      → texts.from_utf8 (texts.as_bytes (error_json e)) ≡ some (error_json e)
      → ble_seal_message w texts ephemeral nonce
          (w.crypto.hex_encode (noise_public w.crypto id))
          (error_json e)
        ≡ reply sealed_hex
      → (Calls.ble_open_message w texts a sealed_hex).1
        ≡ answer_text (λ (plaintext : String). plaintext) (failure e)
  unfolding Calls.ble_open_message answer_text
  ble_open_message-error_json a id ephemeral nonce e sealed_hex own size utf8 sealed =
      ap (answer_text (λ (plaintext : String). plaintext)) (
        ble_open_message-ble_seal_message w texts a id ephemeral nonce (error_json e) sealed_hex own
          size utf8 sealed)
