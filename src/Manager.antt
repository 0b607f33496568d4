-- ===== src/Manager.antt =====
-- core/src/connection_manager.rs: the state of the `ConnectionManager`, and how a message leaves it.
-- A transfer's handle is in the entry of its table, and a session's Noise state in the session. What
-- a `tokio::spawn` starts runs as operations of its own; `resumes` are the devices for which an
-- auto-resume was spawned. `wire` are the frames given to the writer tasks. Each operation returns
-- the state that it leaves, on an error too.
pub mod Transfers
pub mod Chunks
pub mod Offers
pub mod Dispatch
pub mod Sending
pub mod Resume
pub mod Relay
pub mod Folder
pub mod Streams
pub mod Effects
pub mod Sessions
pub mod Authentic
use zao_p2p.Prelude.{
  ℕ, ◌≡◌, String, Bool, true, false, Option, none, some, List, [], ◌∷◌, ◌++◌, if◌then◌else◌,
}
use zao_p2p.Prelude.Bytes.{Bytes}
use zao_p2p.Prelude.Maps.{Map, lookup, insert, remove, contains_key}
use zao_p2p.CoreError.{CoreError, Result, ok, err, invalid_state, not_found}
use zao_p2p.Float.{Float}
use zao_p2p.Identity.{Crypto, DeviceIdentity}
use zao_p2p.Protocol.{ProtocolMessage, Codec}
use zao_p2p.Signaling
use zao_p2p.Signaling.{SignalingMessage, SignalingClient, Tracker}
use zao_p2p.Noise.{Snow, NoiseSession, encrypt}
use zao_p2p.Storage.{Storage}
use zao_p2p.Events.{QueueSink}
use zao_p2p.Transfer.Handle.{TransferHandle}
use zao_p2p.Transfer.Files.{FileSource, Disk}

-- The code of other crates that the manager uses.
pub record World : Type 1 where
  pub crypto : Crypto
  pub snow : Snow
  pub codec : Codec
  pub float : Float
  pub signaling_json : SignalingMessage → Option String
  -- `PathBuf::join`
  pub join_path : String → String → String

-- `quic` names the transfers that have a stream of their own; `relay` has its session id.
pub data OutboundPath : Type 0 where
  quic : List String → OutboundPath
  relay : String → OutboundPath

-- Which stream a frame was given to.
pub data Lane : Type 0 where
  control : Lane
  transfer_stream : String → Lane

pub record Sent : Type 0 where
  pub to : String
  pub lane : Lane
  pub ciphertext : Bytes

-- `accept_tx` tells whether the sender of the decision is still there.
pub record OutgoingTransfer : Type 0 where
  pub file_source : FileSource
  pub handle : TransferHandle
  pub accept_tx : Bool

pub record IncomingTransfer : Type 0 where
  pub dest_path : String
  pub handle : TransferHandle

pub record PendingFolderOffer : Type 0 where
  pub accept_tx : Bool

module _ (w : World) where
  -- `control_open` is whether the writer task of the control stream still runs.
  pub record PeerSession : Type 0 where
    pub device_id : String
    pub noise : NoiseSession w.snow
    pub outbound : OutboundPath
    pub control_open : Bool

  pub record Manager : Type 0 where
    pub identity : DeviceIdentity w.crypto
    pub local_addr : String
    pub downloads_dir : String
    pub sessions : Map PeerSession
    pub sink : QueueSink w.float.F32 w.float.F64
    pub outgoing_transfers : Map OutgoingTransfer
    pub incoming_transfers : Map IncomingTransfer
    pub pending_folder_offers : Map PendingFolderOffer
    -- what went through the one-shot channels of offers
    pub decisions : List (String × Bool)
    pub storage : Storage
    pub disk : Disk
    pub client : SignalingClient
    pub signaling_set : Bool
    pub signaling_sessions : Tracker
    pub relay_handshake_waiters : Map (List Bytes)
    pub resumes : List String
    pub wire : List Sent

module _ (w : World) where
  -- The last step of `send_message`: which way the encrypted bytes leave.
  unfoldable pub deliver : Manager w → PeerSession w → Bytes → Manager w × Result (Unit {0})
  deliver m session ciphertext = elim session.outbound [
    | quic streams ↦
        (if session.control_open
          then (
            record m {
              wire =
                  m.wire
                  ++ (record { to = session.device_id; lane = control; ciphertext = ciphertext }
                      ∷ []);
            },
            ok tt,
          )
          else (m, err (invalid_state "control stream closed")))
    | relay session_id ↦
        elim (Signaling.send_relay_data w.signaling_json m.client session_id ciphertext) [
          | ok client' ↦ (record m { client = client' }, ok tt)
          | err e ↦ (m, err e)
        ]
  ]

  send_encrypted :
      Manager w
      → PeerSession w
      → Result (Bytes × NoiseSession w.snow)
      → Manager w × Result (Unit {0})
  unfolding deliver
  send_encrypted m session (err e) = (m, err e)
  send_encrypted m session (ok (ciphertext, noise')) =
      deliver
        (record m {
          sessions = insert session.device_id (record session { noise = noise' }) m.sessions;
        })
        session ciphertext

  -- `PeerSession::send_message`
  unfoldable pub send_message :
      Manager w → PeerSession w → ProtocolMessage → Manager w × Result (Unit {0})
  unfolding send_encrypted
  send_message m session msg = elim (w.codec.encode_plaintext msg) [
    | err e ↦ (m, err (invalid_state "encode failed"))
    | ok plaintext ↦ send_encrypted m session (encrypt w.snow session.noise plaintext)
  ]

  unfoldable pub send_to : Manager w → String → ProtocolMessage → Manager w × Result (Unit {0})
  unfolding send_message
  send_to m device_id msg = elim (lookup device_id m.sessions) [
    | none ↦ (m, err (not_found "no active session"))
    | some session ↦ send_message m session msg
  ]

  -- `if let Some(session) = .. { let _ = session.send_message(..) }`
  unfoldable pub try_send : Manager w → String → ProtocolMessage → Manager w
  unfolding send_to
  try_send m device_id msg = (send_to m device_id msg).0

  unfoldable pub is_connected : Manager w → String → Bool
  unfolding contains_key
  is_connected m device_id = contains_key device_id m.sessions

  keys : Map (PeerSession w) → List String
  keys [] = []
  keys ((k, s) ∷ sessions) = k ∷ keys sessions

  unfoldable pub connected_device_ids : Manager w → List String
  unfolding keys
  connected_device_ids m = keys m.sessions
