-- ===== src/Windows/Calls.antt =====
-- A sequence of commands of the Windows shell.
use zao_p2p.Prelude.{ℕ, Bool, String, Option, List}
use zao_p2p.Prelude.Bytes.{Bytes}
use zao_p2p.CoreError.{Result}
use zao_p2p.Transfer.Files.{Disk}
use zao_p2p.Manager.{World}
use zao_p2p.Manager.Folder.{Paths}
use zao_p2p.Discovery.{DiscoveredPeer}
use zao_p2p.Events.{QueueSink}
use zao_p2p.Storage.{StoredMessage}
use zao_p2p.Ffi.Files.{Offered, TransferStatus}
use zao_p2p.Ffi.{StartReply, Status, IdentityInfo}
use zao_p2p.Windows.{Write}

-- What the session's start takes from the rest of the system.
pub record StartArgs (w : World) : Type 0 where
  pub drawn : w.crypto.SigningKey
  pub downloads_dir : String
  pub disk : Disk
  pub made : Result (Unit {0})
  pub bound : Result (String × ℕ)
  pub discovering : Result (Unit {0})

-- What sending a folder takes.
pub record Folder : Type 0 where
  pub paths : Paths
  pub peer_device_id : String
  pub folder_path : String
  pub conversation_id : String
  pub batch : String
  pub files : Result (List String)
  pub decision : Option Bool
  pub uuids : ℕ → String × String
  pub ids : ℕ → String
  pub now : ℕ
  pub now_unix : ℕ

-- The commands that `main` registers. Those that take the key have the bytes drawn for a new one, and
-- what the write of its file does; the others have what their function of the core takes.
pub data Call (w : World) : Type 0 where
  init_app_call : Bytes → Write → w.crypto.SigningKey → Call w
  get_identity_call : Bytes → Write → Call w
  start_networking_call : Bytes → Write → StartArgs w → Call w
  discover_peers_call : ℕ → Call w
  networking_status_call : ℕ → Call w
  connect_to_peer_call : Option (Result Bytes) → String → ℕ → Call w
  connect_signaling_server_call : Result (Unit {0}) → Call w
  connect_to_peer_via_internet_call : String → Result String → String → Call w
  send_text_message_call : String → String → String → ℕ → Call w
  poll_events_call : Call w
  get_conversation_history_call : String → ℕ → Call w
  send_typing_indicator_call : String → String → Bool → Call w
  mark_message_read_call : String → String → ℕ → Call w
  connected_peers_call : Call w
  pause_transfer_call : String → Call w
  resume_transfer_call : String → Call w
  cancel_transfer_call : String → String → Call w
  get_transfer_progress_call : String → Call w
  send_file_call : Paths → String → String → String → String × String → ℕ → ℕ → Call w
  accept_file_call : String → String → String → String → ℕ → String → ℕ → ℕ → Call w
  reject_file_call : String → String → String → Call w
  send_folder_call : Folder → Call w

-- The JSON forms of what the core answers; `named` is an object with one text.
pub record Json (w : World) : Type 0 where
  pub identity : IdentityInfo → String
  pub start : StartReply → String
  pub peers : List DiscoveredPeer → String
  pub status : Status → String
  pub events : QueueSink w.float.F32 w.float.F64 → String
  pub messages : List StoredMessage → String
  pub names : List String → String
  pub transfer : TransferStatus w.float.F32 → String
  pub offered : Offered → String
  pub results : List (String × String) → String
  pub named : String → String → String
