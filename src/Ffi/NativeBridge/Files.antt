-- ===== src/Ffi/NativeBridge/Files.antt =====
-- The JNI functions of core/src/ffi.rs for transfers and folders. A Java `long` for a size counts as
-- zero where it is negative.
use zao_p2p.Prelude.{ℕ, String, Option, List, [], Bool}
use zao_p2p.Prelude.Int.{ℤ, max_zero}
use zao_p2p.CoreError.{Result, unwrap_or}
use zao_p2p.Manager.{World}
use zao_p2p.Manager.Folder.{Paths}
use zao_p2p.Ffi.{App, Texts, reply, failure}
use zao_p2p.Ffi.Files
use zao_p2p.Ffi.Files.{Offered, TransferStatus}
use zao_p2p.Ffi.NativeBridge.{to_java, error_json}

module _ (w : World) (texts : Texts w.crypto.hex_encode) where
  unfoldable pub pause_transfer : (String → String) → App w → String → App w × String
  unfolding to_java Files.pause_transfer
  pause_transfer to_json a transfer_id =
      to_java w to_json (Files.pause_transfer w texts a transfer_id)

  unfoldable pub resume_transfer : (String → String) → App w → String → App w × String
  unfolding to_java Files.resume_transfer
  resume_transfer to_json a transfer_id =
      to_java w to_json (Files.resume_transfer w texts a transfer_id)

  unfoldable pub cancel_transfer : (String → String) → App w → String → String → App w × String
  unfolding to_java Files.cancel_transfer
  cancel_transfer to_json a peer_device_id transfer_id =
      to_java w to_json (Files.cancel_transfer w texts a peer_device_id transfer_id)

  unfoldable pub send_file :
      (Offered → String)
      → App w
      → Paths
      → String
      → String
      → String
      → String × String
      → ℕ
      → ℕ
      → App w × String
  unfolding to_java Files.send_file
  send_file to_json a paths peer_device_id file_path conversation_id ids now now_unix =
      to_java w to_json
        (Files.send_file w texts a paths peer_device_id file_path conversation_id ids now now_unix)

  unfoldable pub send_file_fd :
      (Offered → String)
      → App w
      → String
      → String
      → String
      → ℤ
      → String
      → String
      → String × String
      → ℕ
      → ℕ
      → App w × String
  unfolding to_java Files.send_file_fd max_zero
  send_file_fd to_json a peer_device_id fd file_name file_size mime_type conversation_id ids now
        now_unix =
      to_java w to_json (
        Files.send_file_fd w texts a peer_device_id fd file_name (max_zero file_size) mime_type
          conversation_id ids now now_unix)

  -- With the decision of the peer, and no other call while it is awaited.
  unfoldable pub send_folder :
      (List (String × String) → String)
      → App w
      → Paths
      → String
      → String
      → String
      → String
      → Result (List String)
      → Option Bool
      → (ℕ → String × String)
      → (ℕ → String)
      → ℕ
      → ℕ
      → App w × String
  unfolding to_java error_json Files.begin_send_folder Files.send_folder
  send_folder to_json a paths peer_device_id folder_path conversation_id batch files decision uuids
        ids now now_unix =
      let (offered, r) =
        Files.begin_send_folder w texts a paths peer_device_id folder_path conversation_id batch
          files in
      elim r [
        | failure e ↦ (offered, error_json e)
        | reply manifest ↦ to_java w to_json (
            Files.send_folder w texts offered paths peer_device_id conversation_id batch
              (unwrap_or files []) manifest decision uuids ids now now_unix)
      ]

  unfoldable pub accept_file :
      (String → String)
      → App w
      → String
      → String
      → String
      → String
      → ℤ
      → String
      → ℕ
      → ℕ
      → App w × String
  unfolding to_java Files.accept_file max_zero
  accept_file to_json a from_device_id transfer_id message_id file_name file_size mime_type now
        now_unix =
      to_java w to_json (
        Files.accept_file w texts a from_device_id transfer_id message_id file_name
          (max_zero file_size) mime_type now now_unix)

  unfoldable pub reject_file : (String → String) → App w → String → String → String → App w × String
  unfolding to_java Files.reject_file
  reject_file to_json a from_device_id transfer_id reason =
      to_java w to_json (Files.reject_file w texts a from_device_id transfer_id reason)

  unfoldable pub accept_folder : (String → String) → App w → String → String → App w × String
  unfolding to_java Files.accept_folder
  accept_folder to_json a from_device_id folder_batch_id =
      to_java w to_json (Files.accept_folder w texts a from_device_id folder_batch_id)

  unfoldable pub reject_folder :
      (String → String) → App w → String → String → String → App w × String
  unfolding to_java Files.reject_folder
  reject_folder to_json a from_device_id folder_batch_id reason =
      to_java w to_json (Files.reject_folder w texts a from_device_id folder_batch_id reason)

  unfoldable pub get_transfer_progress :
      (TransferStatus w.float.F32 → String) → App w → String → App w × String
  unfolding to_java Files.get_transfer_progress
  get_transfer_progress to_json a transfer_id =
      to_java w to_json (Files.get_transfer_progress w texts a transfer_id)
