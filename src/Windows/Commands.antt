-- ===== src/Windows/Commands.antt =====
-- The commands of windows/src-tauri/src/main.rs that hand on to a function of the core which opens
-- nothing. A core function takes besides what the network and the clock give it.
use zao_p2p.Prelude.{ℕ, String, Option, List, [], Bool}
use zao_p2p.Prelude.Bytes.{Bytes}
use zao_p2p.CoreError.{Result, unwrap_or}
use zao_p2p.Discovery.{DiscoveredPeer}
use zao_p2p.Events.{QueueSink}
use zao_p2p.Storage.{StoredMessage}
use zao_p2p.Protocol.{FolderFileEntry}
use zao_p2p.Manager.{World}
use zao_p2p.Manager.Folder.{Paths}
use zao_p2p.Ffi.{App, Reply, Texts, Status, reply, failure}
use zao_p2p.Ffi.Network
use zao_p2p.Ffi.Chat
use zao_p2p.Ffi.Files
use zao_p2p.Ffi.Files.{Offered, TransferStatus}
use zao_p2p.Windows.{Shell, Outcome, returned, forward}

module _ (w : World) (texts : Texts w.crypto.hex_encode) where
  unfoldable pub discover_peers_cmd :
      (List DiscoveredPeer → String) → Shell w → ℕ → Shell w × Outcome String
  unfolding forward Network.discover_peers
  discover_peers_cmd to_json sh now =
      forward w sh to_json (Network.discover_peers w texts sh.app now)

  unfoldable pub networking_status_cmd : (Status → String) → Shell w → ℕ → Shell w × Outcome String
  unfolding forward Network.networking_status
  networking_status_cmd to_json sh now =
      forward w sh to_json (Network.networking_status w texts sh.app now)

  unfoldable pub connect_to_peer_cmd :
      (String → String) → Shell w → Option (Result Bytes) → String → ℕ → Shell w × Outcome String
  unfolding forward Network.connect_to_peer
  connect_to_peer_cmd to_json sh connection expected_device_id now_unix =
      forward w sh to_json
        (Network.connect_to_peer w texts sh.app connection expected_device_id now_unix)

  unfoldable pub connect_signaling_server_cmd :
      (String → String) → Shell w → Result (Unit {0}) → Shell w × Outcome String
  unfolding forward Network.connect_signaling_server
  connect_signaling_server_cmd to_json sh socket =
      forward w sh to_json (Network.connect_signaling_server w texts sh.app socket)

  unfoldable pub connect_to_peer_via_internet_cmd :
      (String → String) → Shell w → String → Result String → String → Shell w × Outcome String
  unfolding forward Network.connect_to_peer_via_internet
  connect_to_peer_via_internet_cmd to_json sh peer_device_id public_addr session_id =
      forward w sh to_json
        (Network.connect_to_peer_via_internet w texts sh.app peer_device_id public_addr session_id)

  unfoldable pub send_text_message_cmd :
      (String → String) → Shell w → String → String → String → ℕ → Shell w × Outcome String
  unfolding forward Chat.send_text_message
  send_text_message_cmd to_json sh peer_device_id body message_id now =
      forward w sh to_json
        (Chat.send_text_message w texts sh.app peer_device_id body message_id now)

  unfoldable pub poll_events_cmd :
      (QueueSink w.float.F32 w.float.F64 → String) → Shell w → Shell w × Outcome String
  unfolding forward Chat.poll_events
  poll_events_cmd to_json sh = forward w sh to_json (Chat.poll_events w texts sh.app)

  unfoldable pub get_conversation_history_cmd :
      (List StoredMessage → String) → Shell w → String → ℕ → Shell w × Outcome String
  unfolding forward Chat.get_conversation_history
  get_conversation_history_cmd to_json sh peer_device_id limit =
      forward w sh to_json (Chat.get_conversation_history w texts sh.app peer_device_id limit)

  unfoldable pub send_typing_indicator_cmd :
      (String → String) → Shell w → String → String → Bool → Shell w × Outcome String
  unfolding forward Chat.send_typing_indicator
  send_typing_indicator_cmd to_json sh peer_device_id conversation_id is_typing =
      forward w sh to_json
        (Chat.send_typing_indicator w texts sh.app peer_device_id conversation_id is_typing)

  unfoldable pub mark_message_read_cmd :
      (String → String) → Shell w → String → String → ℕ → Shell w × Outcome String
  unfolding forward Chat.mark_message_read
  mark_message_read_cmd to_json sh peer_device_id message_id now =
      forward w sh to_json (Chat.mark_message_read w texts sh.app peer_device_id message_id now)

  unfoldable pub connected_peers_cmd : (List String → String) → Shell w → Shell w × Outcome String
  unfolding forward Network.connected_peers
  connected_peers_cmd to_json sh = forward w sh to_json (Network.connected_peers w texts sh.app)

  unfoldable pub pause_transfer_cmd :
      (String → String) → Shell w → String → Shell w × Outcome String
  unfolding forward Files.pause_transfer
  pause_transfer_cmd to_json sh transfer_id =
      forward w sh to_json (Files.pause_transfer w texts sh.app transfer_id)

  unfoldable pub resume_transfer_cmd :
      (String → String) → Shell w → String → Shell w × Outcome String
  unfolding forward Files.resume_transfer
  resume_transfer_cmd to_json sh transfer_id =
      forward w sh to_json (Files.resume_transfer w texts sh.app transfer_id)

  unfoldable pub cancel_transfer_cmd :
      (String → String) → Shell w → String → String → Shell w × Outcome String
  unfolding forward Files.cancel_transfer
  cancel_transfer_cmd to_json sh peer_device_id transfer_id =
      forward w sh to_json (Files.cancel_transfer w texts sh.app peer_device_id transfer_id)

  unfoldable pub get_transfer_progress_cmd :
      (TransferStatus w.float.F32 → String) → Shell w → String → Shell w × Outcome String
  unfolding forward Files.get_transfer_progress
  get_transfer_progress_cmd to_json sh transfer_id =
      forward w sh to_json (Files.get_transfer_progress w texts sh.app transfer_id)

  unfoldable pub send_file_cmd :
      (Offered → String)
      → Shell w
      → Paths
      → String
      → String
      → String
      → String × String
      → ℕ
      → ℕ
      → Shell w × Outcome String
  unfolding forward Files.send_file
  send_file_cmd to_json sh paths peer_device_id file_path conversation_id ids now now_unix =
      forward w sh to_json (
        Files.send_file w texts sh.app paths peer_device_id file_path conversation_id ids now
          now_unix)

  -- What follows the offer of a folder, with the decision of the peer and no other call while it is
  -- awaited.
  unfoldable pub folder_decided :
      (List (String × String) → String)
      → Shell w
      → Paths
      → String
      → String
      → String
      → List String
      → Option Bool
      → (ℕ → String × String)
      → (ℕ → String)
      → ℕ
      → ℕ
      → App w × Reply (List FolderFileEntry)
      → Shell w × Outcome String
  unfolding forward Files.send_folder
  folder_decided to_json sh paths peer conversation_id batch files decision uuids ids now now_unix
        (offered, failure e) =
      (record sh { app = offered }, returned (failure e))
  folder_decided to_json sh paths peer conversation_id batch files decision uuids ids now now_unix
        (offered, reply manifest) =
      forward w sh to_json (
        Files.send_folder w texts offered paths peer conversation_id batch files manifest decision
          uuids ids now now_unix)

  unfoldable pub send_folder_cmd :
      (List (String × String) → String)
      → Shell w
      → Paths
      → String
      → String
      → String
      → String
      → Result (List String)
      → Option Bool
      → (ℕ → String × String)
      → (ℕ → String)
      → ℕ
      → ℕ
      → Shell w × Outcome String
  unfolding folder_decided Files.begin_send_folder
  send_folder_cmd to_json sh paths peer_device_id folder_path conversation_id batch files decision
        uuids ids now now_unix =
      folder_decided to_json sh paths peer_device_id conversation_id batch (unwrap_or files [])
        decision uuids ids now now_unix
        (Files.begin_send_folder w texts sh.app paths peer_device_id folder_path conversation_id
          batch files)

  unfoldable pub accept_file_cmd :
      (String → String)
      → Shell w
      → String
      → String
      → String
      → String
      → ℕ
      → String
      → ℕ
      → ℕ
      → Shell w × Outcome String
  unfolding forward Files.accept_file
  accept_file_cmd to_json sh from_device_id transfer_id message_id file_name file_size mime_type now
        now_unix =
      forward w sh to_json (
        Files.accept_file w texts sh.app from_device_id transfer_id message_id file_name file_size
          mime_type now now_unix)

  unfoldable pub reject_file_cmd :
      (String → String) → Shell w → String → String → String → Shell w × Outcome String
  unfolding forward Files.reject_file
  reject_file_cmd to_json sh from_device_id transfer_id reason =
      forward w sh to_json (Files.reject_file w texts sh.app from_device_id transfer_id reason)
