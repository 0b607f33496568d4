-- ===== src/Ffi/Network.antt =====
-- Starting the session, peers and connections of core/src/ffi.rs. What the transport and the discovery
-- make of a call is an argument.
use zao_p2p.Prelude.{ℕ, String, true, false, Option, none, some, List, [], length}
use zao_p2p.Prelude.Bytes.{Bytes}
use zao_p2p.CoreError.{Result, ok, err, ◌>>=◌}
use zao_p2p.Identity.{DeviceIdentity}
use zao_p2p.Storage.{Storage}
use zao_p2p.Storage.Devices.{load_or_create_identity}
use zao_p2p.Events
use zao_p2p.Transfer.Files.{Disk}
use zao_p2p.Discovery.{DiscoveredPeer, known_peers}
use zao_p2p.Manager.{World, Manager, connected_device_ids}
use zao_p2p.Manager.Sessions
use zao_p2p.Manager.Relay.Signals
use zao_p2p.Ffi.{
  App, StartReply, Status, already_started, started, Reply, reply, failure, Texts, opened_storage,
  store, with_manager, call,
}

module _ (w : World) (texts : Texts w.crypto.hex_encode) where
  -- `ConnectionManager::new`; `local_addr` is the transport's.
  unfoldable pub new_manager :
      DeviceIdentity w.crypto → String → String → Storage → Disk → Manager w
  unfolding Events.new_queue
  new_manager identity local_addr downloads_dir storage disk = record {
    identity = identity;
    local_addr = local_addr;
    downloads_dir = downloads_dir;
    sessions = [];
    sink = Events.new_queue;
    outgoing_transfers = [];
    incoming_transfers = [];
    pending_folder_offers = [];
    decisions = [];
    storage = storage;
    disk = disk;
    client = record { outbound = []; closed = true };
    signaling_set = false;
    signaling_sessions = [];
    relay_handshake_waiters = [];
    resumes = [];
    wire = [];
  }

  -- With the database open and the identity there: the directory, the transport with its address
  -- and port, and the discovery, each of which may fail.
  unfoldable pub start_session :
      App w
      → String
      → Disk
      → Result (Unit {0})
      → Result (String × ℕ)
      → Result (Unit {0})
      → DeviceIdentity w.crypto
      → Storage
      → App w × Reply StartReply
  unfolding new_manager store
  start_session a downloads_dir disk made bound discovering id s =
      elim (made >>= λ u. (bound >>= λ b. (discovering >>= λ v. ok b))) [
        | err e ↦ (store w texts a s, failure (texts.to_text e))
        | ok (local_addr, port) ↦ (
          record a {
            session = some (record {
              discovery = [];
              connection_manager = new_manager id local_addr downloads_dir s disk;
            });
          },
          reply (started (record { quic_port = port; device_id = id.device_id })),
        )
      ]

  unfoldable pub start_networking :
      App w
      → w.crypto.SigningKey
      → String
      → Disk
      → Result (Unit {0})
      → Result (String × ℕ)
      → Result (Unit {0})
      → App w × Reply StartReply
  unfolding opened_storage store start_session load_or_create_identity
  start_networking a drawn downloads_dir disk made bound discovering = elim a.session [
    | some s ↦ (a, reply already_started)
    | none ↦ elim (load_or_create_identity w.crypto (opened_storage w texts a) drawn) [
      | err e ↦ (store w texts a (opened_storage w texts a), failure (texts.to_text e))
      | ok (id, s) ↦ start_session a downloads_dir disk made bound discovering id s
    ]
  ]

  unfoldable pub discover_peers : App w → ℕ → App w × Reply (List DiscoveredPeer)
  unfolding known_peers
  discover_peers a now = elim a.session [
    | none ↦ (a, failure "session not started; call start_networking first")
    | some s ↦
        (let (fresh, peers) = known_peers s.discovery now in
          (record a { session = some (record s { discovery = fresh }) }, reply peers))
  ]

  -- `network` is what the transport makes of an address; `none` is one that does not parse.
  unfoldable pub connect_to_peer : App w → Option (Result Bytes) → String → ℕ → App w × Reply String
  unfolding call with_manager Sessions.connect_to_peer
  connect_to_peer a none expected now_unix = with_manager w texts a (λ m. (m, failure "bad addr"))
  connect_to_peer a (some connection) expected now_unix =
      call w texts a "connected" (λ m. Sessions.connect_to_peer w m connection expected now_unix)

  unfoldable pub connect_signaling_server : App w → Result (Unit {0}) → App w × Reply String
  unfolding call Signals.connect_signaling_server
  connect_signaling_server a socket =
      call w texts a "connected" (λ m. Signals.connect_signaling_server w m socket)

  unfoldable pub connect_to_peer_via_internet :
      App w → String → Result String → String → App w × Reply String
  unfolding call Signals.connect_to_peer_via_internet
  connect_to_peer_via_internet a peer public_addr session_id =
      call w texts a "candidates_offered"
        (λ m. Signals.connect_to_peer_via_internet w m peer public_addr session_id)

  unfoldable pub connected_peers : App w → App w × Reply (List String)
  unfolding with_manager connected_device_ids
  connected_peers a = with_manager w texts a (λ m. (m, reply (connected_device_ids w m)))

  unfoldable pub networking_status : App w → ℕ → App w × Reply Status
  unfolding known_peers connected_device_ids
  networking_status a now = elim a.session [
    | none ↦ (a, failure "session not started; call start_networking first")
    | some s ↦
        (let (fresh, peers) = known_peers s.discovery now in
          (
            record a { session = some (record s { discovery = fresh }) },
            reply (record {
              quic_local_addr = s.connection_manager.local_addr;
              known_peer_count = length peers;
              connected_peer_count = length (connected_device_ids w s.connection_manager);
            }),
          ))
  ]
