-- ===== src/Windows/Invoke.antt =====
-- What the shell and the core make of a command, and of a sequence of them.
use zao_p2p.Prelude.{◌≡◌, ◌⊎◌, String, Option, none, some, List, [], ◌∷◌, length}
use zao_p2p.CoreError.{unwrap_or}
use zao_p2p.Manager.{World}
use zao_p2p.Protocol.{FolderFileEntry}
use zao_p2p.Ffi.Network
use zao_p2p.Ffi.Chat
use zao_p2p.Ffi.Files
use zao_p2p.Ffi.Files.{Offered, TransferStatus}
use zao_p2p.Windows.Commands.{
  discover_peers_cmd, networking_status_cmd, connect_to_peer_cmd, connect_signaling_server_cmd,
  connect_to_peer_via_internet_cmd, send_text_message_cmd, poll_events_cmd,
  get_conversation_history_cmd, send_typing_indicator_cmd, mark_message_read_cmd,
  connected_peers_cmd, pause_transfer_cmd, resume_transfer_cmd, cancel_transfer_cmd,
  get_transfer_progress_cmd, send_file_cmd, accept_file_cmd, reject_file_cmd, send_folder_cmd,
}
use zao_p2p.Ffi.{App, Reply, reply, failure, Texts, init_app, get_identity}
use zao_p2p.Ffi.Network.{start_networking}
use zao_p2p.Windows.{
  Outcome, returned, panicked, Shelled, Shell, map_reply, existing_key, init_app_cmd,
  get_identity_cmd, start_networking_cmd,
}
use zao_p2p.Windows.Calls.{
  Folder, Json, Call, init_app_call, get_identity_call, start_networking_call, discover_peers_call,
  networking_status_call, connect_to_peer_call, connect_signaling_server_call,
  connect_to_peer_via_internet_call, send_text_message_call, poll_events_call,
  get_conversation_history_call, send_typing_indicator_call, mark_message_read_call,
  connected_peers_call, pause_transfer_call, resume_transfer_call, cancel_transfer_call,
  get_transfer_progress_call, send_file_call, accept_file_call, reject_file_call, send_folder_call,
}

module _ (w : World) where
  abbrev pub shell : App w → Option String → Option String → Shell w
  shell a file made = record { app = a; zao_key = file; made_with = made }

module _ (w : World) (texts : Texts w.crypto.hex_encode) (json : Json w) where
  abbrev pub in_json : {A : Type 0} → (A → String) → App w × Reply A → App w × Reply String
  in_json to_json (a, r) = (a, map_reply to_json r)

  abbrev pub folder_sent : Folder → App w × Reply (List FolderFileEntry) → App w × Reply String
  folder_sent f (offered, failure e) = (offered, failure e)
  folder_sent f (offered, reply manifest) = in_json json.results (
      Files.send_folder w texts offered f.paths f.peer_device_id f.conversation_id f.batch
        (unwrap_or f.files []) manifest f.decision f.uuids f.ids f.now f.now_unix)

  -- What the core makes of it.
  unfoldable pub core_call : App w → Call w → App w × Reply String
  unfolding map_reply
  core_call a (init_app_call bytes write drawn) = in_json json.identity (init_app w texts a drawn)
  core_call a (get_identity_call bytes write) = in_json json.identity (get_identity w texts a)
  core_call a (start_networking_call bytes write s) =
      in_json json.start
        (start_networking w texts a s.drawn s.downloads_dir s.disk s.made s.bound s.discovering)
  core_call a (discover_peers_call now) = in_json json.peers (Network.discover_peers w texts a now)
  core_call a (networking_status_call now) =
      in_json json.status (Network.networking_status w texts a now)
  core_call a (connect_to_peer_call connection expected_device_id now_unix) =
      in_json (json.named "status")
        (Network.connect_to_peer w texts a connection expected_device_id now_unix)
  core_call a (connect_signaling_server_call socket) =
      in_json (json.named "status") (Network.connect_signaling_server w texts a socket)
  core_call a (connect_to_peer_via_internet_call peer_device_id public_addr session_id) =
      in_json (json.named "status")
        (Network.connect_to_peer_via_internet w texts a peer_device_id public_addr session_id)
  core_call a (send_text_message_call peer_device_id body message_id now) =
      in_json (json.named "message_id")
        (Chat.send_text_message w texts a peer_device_id body message_id now)
  core_call a (poll_events_call) = in_json json.events (Chat.poll_events w texts a)
  core_call a (get_conversation_history_call peer_device_id limit) =
      in_json json.messages (Chat.get_conversation_history w texts a peer_device_id limit)
  core_call a (send_typing_indicator_call peer_device_id conversation_id is_typing) =
      in_json (json.named "status")
        (Chat.send_typing_indicator w texts a peer_device_id conversation_id is_typing)
  core_call a (mark_message_read_call peer_device_id message_id now) =
      in_json (json.named "status") (Chat.mark_message_read w texts a peer_device_id message_id now)
  core_call a (connected_peers_call) = in_json json.names (Network.connected_peers w texts a)
  core_call a (pause_transfer_call transfer_id) =
      in_json (json.named "status") (Files.pause_transfer w texts a transfer_id)
  core_call a (resume_transfer_call transfer_id) =
      in_json (json.named "status") (Files.resume_transfer w texts a transfer_id)
  core_call a (cancel_transfer_call peer_device_id transfer_id) =
      in_json (json.named "status") (Files.cancel_transfer w texts a peer_device_id transfer_id)
  core_call a (get_transfer_progress_call transfer_id) =
      in_json json.transfer (Files.get_transfer_progress w texts a transfer_id)
  core_call a (send_file_call paths peer_device_id file_path conversation_id ids now now_unix) =
      in_json json.offered
        (Files.send_file w texts a paths peer_device_id file_path conversation_id ids now now_unix)
  core_call a
        (accept_file_call from_device_id transfer_id message_id file_name file_size mime_type now
          now_unix) =
      in_json (json.named "dest_path") (
        Files.accept_file w texts a from_device_id transfer_id message_id file_name file_size
          mime_type now now_unix)
  core_call a (reject_file_call from_device_id transfer_id reason) =
      in_json (json.named "status") (Files.reject_file w texts a from_device_id transfer_id reason)
  core_call a (send_folder_call f) = folder_sent f (
      Files.begin_send_folder w texts a f.paths f.peer_device_id f.folder_path f.conversation_id
        f.batch f.files)

  module _ (system : Shelled w.crypto.hex_encode) where
    -- What the shell makes of it.
    unfoldable pub invoke : Shell w → Call w → Shell w × Outcome String
    unfolding init_app_cmd get_identity_cmd start_networking_cmd discover_peers_cmd
        networking_status_cmd connect_to_peer_cmd connect_signaling_server_cmd
        connect_to_peer_via_internet_cmd send_text_message_cmd poll_events_cmd
        get_conversation_history_cmd send_typing_indicator_cmd mark_message_read_cmd
        connected_peers_cmd pause_transfer_cmd resume_transfer_cmd cancel_transfer_cmd
        get_transfer_progress_cmd send_file_cmd accept_file_cmd reject_file_cmd send_folder_cmd
    invoke sh (init_app_call bytes write drawn) =
        init_app_cmd w texts system json.identity sh bytes write drawn
    invoke sh (get_identity_call bytes write) =
        get_identity_cmd w texts system json.identity sh bytes write
    invoke sh (start_networking_call bytes write s) =
        start_networking_cmd w texts system json.start sh bytes write s.drawn s.downloads_dir s.disk
          s.made s.bound s.discovering
    invoke sh (discover_peers_call now) = discover_peers_cmd w texts json.peers sh now
    invoke sh (networking_status_call now) = networking_status_cmd w texts json.status sh now
    invoke sh (connect_to_peer_call connection expected_device_id now_unix) =
        connect_to_peer_cmd w texts (json.named "status") sh connection expected_device_id now_unix
    invoke sh (connect_signaling_server_call socket) =
        connect_signaling_server_cmd w texts (json.named "status") sh socket
    invoke sh (connect_to_peer_via_internet_call peer_device_id public_addr session_id) =
        connect_to_peer_via_internet_cmd w texts (json.named "status") sh peer_device_id public_addr
          session_id
    invoke sh (send_text_message_call peer_device_id body message_id now) =
        send_text_message_cmd w texts (json.named "message_id") sh peer_device_id body message_id
          now
    invoke sh (poll_events_call) = poll_events_cmd w texts json.events sh
    invoke sh (get_conversation_history_call peer_device_id limit) =
        get_conversation_history_cmd w texts json.messages sh peer_device_id limit
    invoke sh (send_typing_indicator_call peer_device_id conversation_id is_typing) =
        send_typing_indicator_cmd w texts (json.named "status") sh peer_device_id conversation_id
          is_typing
    invoke sh (mark_message_read_call peer_device_id message_id now) =
        mark_message_read_cmd w texts (json.named "status") sh peer_device_id message_id now
    invoke sh (connected_peers_call) = connected_peers_cmd w texts json.names sh
    invoke sh (pause_transfer_call transfer_id) =
        pause_transfer_cmd w texts (json.named "status") sh transfer_id
    invoke sh (resume_transfer_call transfer_id) =
        resume_transfer_cmd w texts (json.named "status") sh transfer_id
    invoke sh (cancel_transfer_call peer_device_id transfer_id) =
        cancel_transfer_cmd w texts (json.named "status") sh peer_device_id transfer_id
    invoke sh (get_transfer_progress_call transfer_id) =
        get_transfer_progress_cmd w texts json.transfer sh transfer_id
    invoke sh (send_file_call paths peer_device_id file_path conversation_id ids now now_unix) =
        send_file_cmd w texts json.offered sh paths peer_device_id file_path conversation_id ids now
          now_unix
    invoke sh
          (accept_file_call from_device_id transfer_id message_id file_name file_size mime_type now
            now_unix) =
        accept_file_cmd w texts (json.named "dest_path") sh from_device_id transfer_id message_id
          file_name file_size mime_type now now_unix
    invoke sh (reject_file_call from_device_id transfer_id reason) =
        reject_file_cmd w texts (json.named "status") sh from_device_id transfer_id reason
    invoke sh (send_folder_call f) =
        send_folder_cmd w texts json.results sh f.paths f.peer_device_id f.folder_path
          f.conversation_id f.batch f.files f.decision f.uuids f.ids f.now f.now_unix

    unfoldable pub invoke_all : Shell w → List (Call w) → Shell w
    invoke_all sh [] = sh
    invoke_all sh (c ∷ calls) = invoke_all (invoke sh c).0 calls

    abbrev pub IsKeyed : Shell w → Type 0
    IsKeyed sh =
        (made : String)
        → sh.made_with ≡ some made
        → existing_key w texts system sh.zao_key ≡ some made

    -- The drawn key is of 32 bytes.
    abbrev pub IsDrawn : Call w → Type 0
    IsDrawn (init_app_call bytes write drawn) = length bytes ≡ 32
    IsDrawn (get_identity_call bytes write) = length bytes ≡ 32
    IsDrawn (start_networking_call bytes write s) = length bytes ≡ 32
    IsDrawn c = Unit

    abbrev pub AllDrawn : List (Call w) → Type 0
    AllDrawn [] = Unit
    AllDrawn (c ∷ calls) = IsDrawn c × AllDrawn calls

    -- The shell answered as the core does, or stopped before there was a database.
    abbrev pub Answers : Shell w → Call w → Type 0
    Answers sh c =
        (((invoke sh c).0.app ≡ (core_call sh.app c).0)
          × ((invoke sh c).1 ≡ returned (core_call sh.app c).1))
        ⊎ ((sh.made_with ≡ none) × (((invoke sh c).0.app ≡ sh.app) × ((invoke sh c).1 ≡ panicked)))
