-- ===== src/Ffi/NativeBridge/Calls.antt =====
-- The JNI functions of core/src/ffi.rs for the session, peers, messages and the BLE mesh. What a core
-- function takes besides its texts is handed on; a Java text and a Rust one are the same.
use zao_p2p.Prelude.{ℕ, String, not, ◌==◌, Option, List}
use zao_p2p.Prelude.Int.{ℤ, max_zero}
use zao_p2p.Prelude.Bytes.{Bytes}
use zao_p2p.CoreError.{Result}
use zao_p2p.Discovery.{DiscoveredPeer}
use zao_p2p.Events.{QueueSink}
use zao_p2p.Storage.{StoredMessage}
use zao_p2p.Transfer.Files.{Disk}
use zao_p2p.Manager.{World}
use zao_p2p.Ffi.{App, Texts, IdentityInfo, StartReply, Status}
use zao_p2p.Ffi
use zao_p2p.Ffi.Network
use zao_p2p.Ffi.Chat
use zao_p2p.Ffi.Mesh
use zao_p2p.Ffi.NativeBridge.{answer_text, to_java}

module _ (w : World) (texts : Texts w.crypto.hex_encode) where
  unfoldable pub init_app : (IdentityInfo → String) → App w → w.crypto.SigningKey → App w × String
  unfolding to_java Ffi.init_app
  init_app to_json a drawn = to_java w to_json (Ffi.init_app w texts a drawn)

  unfoldable pub get_identity : (IdentityInfo → String) → App w → App w × String
  unfolding to_java Ffi.get_identity
  get_identity to_json a = to_java w to_json (Ffi.get_identity w texts a)

  unfoldable pub start_networking :
      (StartReply → String)
      → App w
      → w.crypto.SigningKey
      → String
      → Disk
      → Result (Unit {0})
      → Result (String × ℕ)
      → Result (Unit {0})
      → App w × String
  unfolding to_java Network.start_networking
  start_networking to_json a drawn downloads_dir disk made bound discovering =
      to_java w to_json
        (Network.start_networking w texts a drawn downloads_dir disk made bound discovering)

  unfoldable pub connect_to_peer :
      (String → String) → App w → Option (Result Bytes) → String → ℕ → App w × String
  unfolding to_java Network.connect_to_peer
  connect_to_peer to_json a connection expected_device_id now_unix =
      to_java w to_json (Network.connect_to_peer w texts a connection expected_device_id now_unix)

  unfoldable pub connect_signaling_server :
      (String → String) → App w → Result (Unit {0}) → App w × String
  unfolding to_java Network.connect_signaling_server
  connect_signaling_server to_json a socket =
      to_java w to_json (Network.connect_signaling_server w texts a socket)

  unfoldable pub connect_to_peer_via_internet :
      (String → String) → App w → String → Result String → String → App w × String
  unfolding to_java Network.connect_to_peer_via_internet
  connect_to_peer_via_internet to_json a peer_device_id public_addr session_id =
      to_java w to_json
        (Network.connect_to_peer_via_internet w texts a peer_device_id public_addr session_id)

  -- The answer of a success is the sealed message in hex.
  unfoldable pub ble_seal_message : w.crypto.StaticSecret → Bytes → String → String → String
  unfolding answer_text Mesh.ble_seal_message
  ble_seal_message ephemeral nonce recipient_public_key_hex plaintext =
      answer_text (λ hex. hex)
        (Mesh.ble_seal_message w texts ephemeral nonce recipient_public_key_hex plaintext)

  -- The answer of a success is the plaintext.
  unfoldable pub ble_open_message : App w → String → App w × String
  unfolding to_java Mesh.ble_open_message
  ble_open_message a sealed_hex =
      to_java w (λ plaintext. plaintext) (Mesh.ble_open_message w texts a sealed_hex)

  -- The answer of a success is the key in hex.
  unfoldable pub get_known_device_public_key : App w → String → App w × String
  unfolding to_java Mesh.get_known_device_public_key
  get_known_device_public_key a peer_device_id =
      to_java w (λ hex. hex) (Mesh.get_known_device_public_key w texts a peer_device_id)

  unfoldable pub send_text_message :
      (String → String) → App w → String → String → String → ℕ → App w × String
  unfolding to_java Chat.send_text_message
  send_text_message to_json a peer_device_id body message_id now =
      to_java w to_json (Chat.send_text_message w texts a peer_device_id body message_id now)

  unfoldable pub poll_events : (QueueSink w.float.F32 w.float.F64 → String) → App w → App w × String
  unfolding to_java Chat.poll_events
  poll_events to_json a = to_java w to_json (Chat.poll_events w texts a)

  -- A negative limit is none at all.
  unfoldable pub get_conversation_history :
      (List StoredMessage → String) → App w → String → ℤ → App w × String
  unfolding to_java Chat.get_conversation_history max_zero
  get_conversation_history to_json a peer_device_id limit =
      to_java w to_json (Chat.get_conversation_history w texts a peer_device_id (max_zero limit))

  -- A `jboolean` is a byte.
  unfoldable pub send_typing_indicator :
      (String → String) → App w → String → String → ℕ → App w × String
  unfolding to_java Chat.send_typing_indicator
  send_typing_indicator to_json a peer_device_id conversation_id is_typing =
      to_java w to_json
        (Chat.send_typing_indicator w texts a peer_device_id conversation_id (not (is_typing == 0)))

  unfoldable pub mark_message_read :
      (String → String) → App w → String → String → ℕ → App w × String
  unfolding to_java Chat.mark_message_read
  mark_message_read to_json a peer_device_id message_id now =
      to_java w to_json (Chat.mark_message_read w texts a peer_device_id message_id now)

  unfoldable pub connected_peers : (List String → String) → App w → App w × String
  unfolding to_java Network.connected_peers
  connected_peers to_json a = to_java w to_json (Network.connected_peers w texts a)

  unfoldable pub discover_peers : (List DiscoveredPeer → String) → App w → ℕ → App w × String
  unfolding to_java Network.discover_peers
  discover_peers to_json a now = to_java w to_json (Network.discover_peers w texts a now)

  unfoldable pub networking_status : (Status → String) → App w → ℕ → App w × String
  unfolding to_java Network.networking_status
  networking_status to_json a now = to_java w to_json (Network.networking_status w texts a now)
