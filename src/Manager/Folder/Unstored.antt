-- ===== src/Manager/Folder/Unstored.antt =====
-- What the database has of the files of a folder.
use zao_p2p.Prelude.{
  ℕ, ◌≡◌, refl, ap, ◌∙◌, String, Bool, true, false, Option, none, some, List, [], ◌∷◌, length,
  arith,
}
use zao_p2p.CoreError.{unwrap_or}
use zao_p2p.Protocol.{FolderFileEntry, file_offer}
use zao_p2p.Sql.{exists}
use zao_p2p.Storage.{Storage, is_message}
use zao_p2p.Storage.Transfers.{create_transfer}
use zao_p2p.Transfer.Handle
use zao_p2p.Manager.{World, Manager}
use zao_p2p.Manager.Effects.{send_to-SameBut}
use zao_p2p.Manager.Offers.{OfferedFile, offer_of, send_file}
use zao_p2p.Manager.Folder.{Paths, send_files, send_folder_decided, file_in_folder}

create_transfer_refused :
    (s : Storage) (t m name mime direction local_path : String) (size chunks chunk_size now : ℕ)
    → exists (is_message m) s.messages ≡ false
    → unwrap_or (create_transfer s t m name size mime chunks chunk_size direction local_path now) s
      ≡ s
unfolding create_transfer
create_transfer_refused s t m name mime direction local_path size chunks chunk_size now absent =
    ground (arith, absent)

send_file_unstored :
    (w : World) (m : Manager w) (peer : String) (f : OfferedFile) (transfer_id : String)
    (now now_unix : ℕ)
    → exists (is_message f.message_id) m.storage.messages ≡ false
    → (send_file w m peer f transfer_id now now_unix).0.storage ≡ m.storage
unfolding send_file
send_file_unstored w m peer f transfer_id now now_unix absent =
    (send_to-SameBut w _ peer (
      file_offer
        (offer_of transfer_id (Handle.new transfer_id f.file_name f.file_size now) f))).storage
    ∙ create_transfer_refused m.storage transfer_id f.message_id f.file_name f.mime_type "send" _
        f.file_size _ _ now_unix absent

send_files_unstored :
    (w : World) (m : Manager w) (paths : Paths) (peer conversation_id batch : String)
    (files : List String) (manifest : List FolderFileEntry) (uuids : ℕ → String × String)
    (now now_unix : ℕ)
    → ((i : ℕ) → exists (is_message (uuids i).1) m.storage.messages ≡ false)
    → (send_files w m paths peer conversation_id batch files manifest uuids now now_unix).0.storage
      ≡ m.storage
unfolding send_files
send_files_unstored w m paths peer conversation_id batch [] manifest uuids now now_unix fresh = refl
send_files_unstored w m paths peer conversation_id batch (f ∷ files) [] uuids now now_unix fresh =
    refl
send_files_unstored w m paths peer conversation_id batch (f ∷ files) (entry ∷ manifest) uuids now
      now_unix fresh =
    let file = file_in_folder w paths conversation_id batch f entry (uuids (length files)).1 in
    let same = send_file_unstored w m peer file (uuids (length files)).0 now now_unix (fresh _) in
    send_files_unstored w (send_file w m peer file (uuids (length files)).0 now now_unix).0 paths
      peer conversation_id batch files manifest uuids now now_unix
      (λ i. ap (λ s. exists (is_message (uuids i).1) s.messages) same ∙ fresh i)
    ∙ same

-- The files of a folder are offered under message ids that are new, and so have no row: whatever was
-- decided, `send_folder` leaves no row of their transfers, nor any other, in the database.
pub send_folder_decided_unstored :
    (w : World) (m : Manager w) (paths : Paths) (peer conversation_id batch : String)
    (files : List String) (manifest : List FolderFileEntry) (decision : Option Bool)
    (uuids : ℕ → String × String) (now now_unix : ℕ)
    → ((i : ℕ) → exists (is_message (uuids i).1) m.storage.messages ≡ false)
    → (send_folder_decided w m paths peer conversation_id batch files manifest decision uuids now
        now_unix).0.storage
      ≡ m.storage
unfolding send_folder_decided
send_folder_decided_unstored w m paths peer conversation_id batch files manifest none uuids now
      now_unix fresh =
    refl
send_folder_decided_unstored w m paths peer conversation_id batch files manifest (some false) uuids
      now now_unix fresh =
    refl
send_folder_decided_unstored w m paths peer conversation_id batch files manifest (some true) uuids
      now now_unix fresh =
    send_files_unstored w _ paths peer conversation_id batch files manifest uuids now now_unix fresh
