-- ===== src/Windows/Database.antt =====
-- The database of the Windows shell over a sequence of commands: its key stays the one in the file.
use zao_p2p.Prelude.{
  ◌≡◌, refl, ap, sym, ◌∙◌, inl, String, true, false, Option, none, some, List, [], ◌∷◌, length,
  str_eq,
}
use zao_p2p.Prelude.Bytes.{Bytes}
use zao_p2p.Storage.{Storage}
use zao_p2p.Manager.{World}
use zao_p2p.Ffi.{App, Session, Reply, reply, failure, Texts, StartReply, init_app, get_identity}
use zao_p2p.Ffi.Network.{start_networking}
use zao_p2p.Windows.Calls.{
  StartArgs, Call, init_app_call, get_identity_call, start_networking_call, Folder,
  send_folder_call, discover_peers_call, networking_status_call, connect_to_peer_call,
  connect_signaling_server_call, connect_to_peer_via_internet_call, send_text_message_call,
  poll_events_call, get_conversation_history_call, send_typing_indicator_call,
  mark_message_read_call, connected_peers_call, pause_transfer_call, resume_transfer_call,
  cancel_transfer_call, get_transfer_progress_call, send_file_call, accept_file_call,
  reject_file_call, Json,
}
use zao_p2p.Windows.Opened.{open-Opened, plain-Opened}
use zao_p2p.Windows.Invoke.{
  folder_sent, core_call, invoke, invoke_all, shell, IsKeyed, IsDrawn, AllDrawn, Answers,
}
use zao_p2p.Ffi.Files
use zao_p2p.CoreError.{unwrap_or}
use zao_p2p.Protocol.{FolderFileEntry}
use zao_p2p.Windows.Commands.{
  folder_decided, discover_peers_cmd, networking_status_cmd, connect_to_peer_cmd,
  connect_signaling_server_cmd, connect_to_peer_via_internet_cmd, send_text_message_cmd,
  poll_events_cmd, get_conversation_history_cmd, send_typing_indicator_cmd, mark_message_read_cmd,
  connected_peers_cmd, pause_transfer_cmd, resume_transfer_cmd, cancel_transfer_cmd,
  get_transfer_progress_cmd, send_file_cmd, accept_file_cmd, reject_file_cmd, send_folder_cmd,
}
use zao_p2p.Windows.{
  Write, returned, Shelled, Shell, existing_key, with_key, forward, init_app_cmd, get_identity_cmd,
  start_networking_cmd,
}

module _ (w : World) (texts : Texts w.crypto.hex_encode) (json : Json w)
    (system : Shelled w.crypto.hex_encode)
    (trim-encode : (bytes : Bytes)
      → system.trim (w.crypto.hex_encode bytes) ≡ w.crypto.hex_encode bytes)
    (encode_some : (bytes : Bytes)
      → length bytes ≡ 32
      → str_eq (w.crypto.hex_encode bytes) "" ≡ false)
    (opens_own : (key : String) → system.opens key key ≡ true) where
  abbrev networked : StartArgs w → App w → App w × Reply StartReply
  networked s a =
      start_networking w texts a s.drawn s.downloads_dir s.disk s.made s.bound s.discovering

  start_networking-Answers :
      (d : Option Storage) (session : Option (Session w)) (file made : Option String)
      (bytes : Bytes) (write : Write) (s : StartArgs w)
      → let sh = shell w (record { database = d; session = session }) file made in
        let c : Call w = start_networking_call bytes write s in
        IsKeyed w texts json system sh
        → length bytes ≡ 32
        → IsKeyed w texts json system (invoke w texts json system sh c).0
          × Answers w texts json system sh c
  unfolding invoke core_call start_networking_cmd with_key
  start_networking-Answers d none file made bytes write s keyed size =
      open-Opened w texts json system trim-encode encode_some opens_own json.start (networked s)
        (record { database = d; session = none }) file made bytes write keyed size
  start_networking-Answers d (some running) file made bytes write s keyed size =
      plain-Opened w texts json system trim-encode encode_some opens_own json.start (networked s)
        (record { database = d; session = some running }) file made bytes write keyed

  -- After the offer of a folder, whether it failed or was decided.
  folder_decided_lem :
      (sh : Shell w) (f : Folder) (offer : App w × Reply (List FolderFileEntry))
      → let (sh', r) =
          folder_decided w texts json.results sh f.paths f.peer_device_id f.conversation_id f.batch
            (unwrap_or f.files [])
            f.decision
            f.uuids
            f.ids
            f.now
            f.now_unix
            offer in
        ((sh'.zao_key ≡ sh.zao_key) × (sh'.made_with ≡ sh.made_with))
        × ((sh'.app ≡ (folder_sent w texts json f offer).0)
            × (r ≡ returned (folder_sent w texts json f offer).1))
  unfolding folder_decided forward
  folder_decided_lem sh f (offered, failure e) = ((refl, refl), (refl, refl))
  folder_decided_lem sh f (offered, reply manifest) = ((refl, refl), (refl, refl))

  send_folder-Answers :
      (sh : Shell w) (f : Folder)
      → IsKeyed w texts json system sh
      → IsKeyed w texts json system (invoke w texts json system sh (send_folder_call f)).0
        × Answers w texts json system sh (send_folder_call f)
  unfolding invoke core_call send_folder_cmd
  send_folder-Answers sh f keyed =
      let ((file, made), (same, answer)) = folder_decided_lem sh f (
        Files.begin_send_folder w texts sh.app f.paths f.peer_device_id f.folder_path
          f.conversation_id f.batch f.files) in
      (λ m e. ap (existing_key w texts system) file ∙ keyed m (sym made ∙ e), inl (same, answer))

  invoke-Answers :
      (sh : Shell w) (c : Call w)
      → IsKeyed w texts json system sh
      → IsDrawn w texts json system c
      → IsKeyed w texts json system (invoke w texts json system sh c).0
        × Answers w texts json system sh c
  unfolding invoke core_call init_app_cmd get_identity_cmd forward discover_peers_cmd
      networking_status_cmd connect_to_peer_cmd connect_signaling_server_cmd
      connect_to_peer_via_internet_cmd send_text_message_cmd poll_events_cmd
      get_conversation_history_cmd send_typing_indicator_cmd mark_message_read_cmd
      connected_peers_cmd pause_transfer_cmd resume_transfer_cmd cancel_transfer_cmd
      get_transfer_progress_cmd send_file_cmd accept_file_cmd reject_file_cmd
  invoke-Answers sh (init_app_call bytes write drawn) keyed size =
      open-Opened w texts json system trim-encode encode_some opens_own json.identity
        (λ a. init_app w texts a drawn) sh.app sh.zao_key sh.made_with bytes write keyed size
  invoke-Answers sh (get_identity_call bytes write) keyed size =
      open-Opened w texts json system trim-encode encode_some opens_own json.identity
        (λ a. get_identity w texts a) sh.app sh.zao_key sh.made_with bytes write keyed size
  invoke-Answers sh (start_networking_call bytes write s) keyed size =
      start_networking-Answers sh.app.database sh.app.session sh.zao_key sh.made_with bytes write s
        keyed size
  invoke-Answers sh (discover_peers_call now) keyed size = (keyed, inl (refl, refl))
  invoke-Answers sh (networking_status_call now) keyed size = (keyed, inl (refl, refl))
  invoke-Answers sh (connect_to_peer_call connection expected_device_id now_unix) keyed size =
      (keyed, inl (refl, refl))
  invoke-Answers sh (connect_signaling_server_call socket) keyed size = (keyed, inl (refl, refl))
  invoke-Answers sh (connect_to_peer_via_internet_call peer_device_id public_addr session_id) keyed
        size =
      (keyed, inl (refl, refl))
  invoke-Answers sh (send_text_message_call peer_device_id body message_id now) keyed size =
      (keyed, inl (refl, refl))
  invoke-Answers sh (poll_events_call) keyed size = (keyed, inl (refl, refl))
  invoke-Answers sh (get_conversation_history_call peer_device_id limit) keyed size =
      (keyed, inl (refl, refl))
  invoke-Answers sh (send_typing_indicator_call peer_device_id conversation_id is_typing) keyed
        size =
      (keyed, inl (refl, refl))
  invoke-Answers sh (mark_message_read_call peer_device_id message_id now) keyed size =
      (keyed, inl (refl, refl))
  invoke-Answers sh (connected_peers_call) keyed size = (keyed, inl (refl, refl))
  invoke-Answers sh (pause_transfer_call transfer_id) keyed size = (keyed, inl (refl, refl))
  invoke-Answers sh (resume_transfer_call transfer_id) keyed size = (keyed, inl (refl, refl))
  invoke-Answers sh (cancel_transfer_call peer_device_id transfer_id) keyed size =
      (keyed, inl (refl, refl))
  invoke-Answers sh (get_transfer_progress_call transfer_id) keyed size = (keyed, inl (refl, refl))
  invoke-Answers sh (send_file_call paths peer_device_id file_path conversation_id ids now now_unix)
        keyed size =
      (keyed, inl (refl, refl))
  invoke-Answers sh
        (accept_file_call from_device_id transfer_id message_id file_name file_size mime_type now
          now_unix)
        keyed size =
      (keyed, inl (refl, refl))
  invoke-Answers sh (reject_file_call from_device_id transfer_id reason) keyed size =
      (keyed, inl (refl, refl))
  invoke-Answers sh (send_folder_call f) keyed size = send_folder-Answers sh f keyed

  invoke_all-IsKeyed :
      (sh : Shell w) (calls : List (Call w))
      → IsKeyed w texts json system sh
      → AllDrawn w texts json system calls
      → IsKeyed w texts json system (invoke_all w texts json system sh calls)
  unfolding invoke_all
  invoke_all-IsKeyed sh [] keyed drawn = keyed
  invoke_all-IsKeyed sh (c ∷ calls) keyed (one, rest) =
      invoke_all-IsKeyed (invoke w texts json system sh c).0 calls (invoke-Answers sh c keyed one).0
        rest

  -- After any commands on a shell with no database yet, the next one is answered as the core
  -- answers it on the same state, or stops at its `expect` with no database made and the app
  -- unchanged: no key that the shell reads back or makes fails to open the database. Hex is
  -- not changed by `trim` and not empty, a key opens what it made, and new keys are drawn of
  -- 32 bytes.
  pub invoke_all-Answers :
      (app : App w) (file : Option String) (calls : List (Call w)) (c : Call w)
      → AllDrawn w texts json system calls
      → IsDrawn w texts json system c
      → Answers w texts json system (invoke_all w texts json system (shell w app file none) calls) c
  invoke_all-Answers app file calls c drawn one =
      (invoke-Answers (invoke_all w texts json system (shell w app file none) calls) c
        (invoke_all-IsKeyed (shell w app file none) calls (λ m e. absurd (cc e)) drawn) one).1
