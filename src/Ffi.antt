-- ===== src/Ffi.antt =====
-- The functions of core/src/ffi.rs that both shells call, and the session that they share. The
-- database is one file, opened with one key. A reply is what its JSON text holds: of a fixed status
-- only the status.
pub mod Network
pub mod Chat
pub mod Files
pub mod Mesh
pub mod Starting
pub mod Pending
pub mod NativeBridge
use zao_p2p.Prelude.{ℕ, ◌≡◌, String, true, false, Option, none, some, List, [], ◌∷◌, length}
use zao_p2p.Prelude.Bytes.{Bytes}
use zao_p2p.CoreError.{CoreError, Result, ok, err, ◌>>=◌}
use zao_p2p.Identity.{DeviceIdentity}
use zao_p2p.Storage.{Storage, open_storage}
use zao_p2p.Storage.Devices.{load_identity, load_or_create_identity}
use zao_p2p.Transfer.Files.{Disk}
use zao_p2p.Discovery.{Peers, DiscoveredPeer, known_peers}
use zao_p2p.Manager.{World, Manager, connected_device_ids}

-- `Result<T, String>`
pub data Reply {ℓ} (A : Type ℓ) : Type ℓ where
  reply : A → Reply A
  failure : String → Reply A

-- The code of other crates that only these functions use: the text of an error, hex and UTF-8.
pub record Texts (encode : Bytes → String) : Type 0 where
  pub to_text : CoreError → String
  pub hex_decode : String → Option Bytes
  pub decode-encode : (bytes : Bytes) → hex_decode (encode bytes) ≡ some bytes
  pub as_bytes : String → Bytes
  pub from_utf8 : Bytes → Option String

module _ (w : World) where
  pub record Session : Type 0 where
    pub discovery : Peers
    pub connection_manager : Manager w

  -- `database` is the file while no session runs; a session has it in its manager.
  pub record App : Type 0 where
    pub database : Option Storage
    pub session : Option Session

pub record IdentityInfo : Type 0 where
  pub device_id : String
  pub public_key_hex : String

pub record Started : Type 0 where
  pub quic_port : ℕ
  pub device_id : String

pub data StartReply : Type 0 where
  already_started : StartReply
  started : Started → StartReply

pub record Status : Type 0 where
  pub quic_local_addr : String
  pub known_peer_count : ℕ
  pub connected_peer_count : ℕ

module _ (w : World) (texts : Texts w.crypto.hex_encode) where
  abbrev pub identity_info : DeviceIdentity w.crypto → IdentityInfo
  identity_info id = record {
    device_id = id.device_id;
    public_key_hex = w.crypto.hex_encode (w.crypto.verifying_key id.signing_key);
  }

  -- `map_err(|e| e.to_string())`
  abbrev pub to_reply {ℓ} : {A : Type ℓ} → Result A → Reply A
  to_reply (ok a) = reply a
  to_reply (err e) = failure (texts.to_text e)

  -- What `Storage::open` finds in the file.
  unfoldable pub opened_storage : App w → Storage
  unfolding open_storage
  opened_storage a = elim a.session [
    | none ↦ open_storage a.database
    | some s ↦ s.connection_manager.storage
  ]

  unfoldable pub store : App w → Storage → App w
  store a s = elim a.session [
    | none ↦ record a { database = some s }
    | some sess ↦ record a {
      session =
          some
            (record sess { connection_manager = record sess.connection_manager { storage = s } });
    }
  ]

  -- `session()?` and a method of its manager.
  unfoldable pub with_manager {ℓ} :
      {A : Type ℓ} → App w → (Manager w → Manager w × Reply A) → App w × Reply A
  with_manager a f = elim a.session [
    | none ↦ (a, failure "session not started; call start_networking first")
    | some s ↦
        (let (m, r) = f s.connection_manager in
          (record a { session = some (record s { connection_manager = m }) }, r))
  ]

  -- `drawn` is the key that a new identity would get.
  unfoldable pub init_app : App w → w.crypto.SigningKey → App w × Reply IdentityInfo
  unfolding opened_storage store load_or_create_identity
  init_app a drawn = elim (load_or_create_identity w.crypto (opened_storage a) drawn) [
    | err e ↦ (store a (opened_storage a), failure (texts.to_text e))
    | ok (id, s) ↦ (store a s, reply (identity_info id))
  ]

  abbrev found_identity : Option (DeviceIdentity w.crypto) → Reply IdentityInfo
  found_identity none = failure "no identity found; call init_app first"
  found_identity (some id) = reply (identity_info id)

  unfoldable pub get_identity : App w → App w × Reply IdentityInfo
  unfolding opened_storage store load_identity
  get_identity a = elim (load_identity w.crypto (opened_storage a)) [
    | err e ↦ (store a (opened_storage a), failure (texts.to_text e))
    | ok found ↦ (store a (opened_storage a), found_identity found)
  ]

  -- An operation of the manager, and the status of its success.
  unfoldable pub call {ℓ} :
      {A : Type ℓ} → App w → String → (Manager w → Manager w × Result A) → App w × Reply String
  unfolding with_manager
  call a status f = with_manager a (λ m. ((f m).0, to_reply ((f m).1 >>= λ u. ok status)))
