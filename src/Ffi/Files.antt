-- ===== src/Ffi/Files.antt =====
-- Transfers and folders of core/src/ffi.rs. `disk` is the one that the manager sees; ids and clocks
-- are arguments.
use zao_p2p.Prelude.{
  ℕ, ◌*◌, ◌%◌, ◌^◌, String, Bool, Option, none, some, List, [], ◌∷◌, length, min, ◌==◌,
  if◌then◌else◌,
}
use zao_p2p.Prelude.Maps.{lookup}
use zao_p2p.CoreError.{Result, ok, err, ◌>>=◌, unwrap_or}
use zao_p2p.Protocol.{FolderFileEntry}
use zao_p2p.Transfer.{chunk_size, div_ceil}
use zao_p2p.Transfer.Files.{FileSource, path, fd}
use zao_p2p.Storage.{Storage}
use zao_p2p.Storage.Messages.{insert_message}
use zao_p2p.Storage.Transfers.{load_transfer_meta, load_acked_chunks}
use zao_p2p.Manager.{World, Manager}
use zao_p2p.Manager.Offers
use zao_p2p.Manager.Offers.{OfferedFile}
use zao_p2p.Manager.Transfers
use zao_p2p.Manager.Folder.{
  Paths, mime_guess_from_extension, or_else, offer_folder, send_folder_decided,
}
use zao_p2p.Ffi.{App, Reply, reply, failure, Texts, with_manager, to_reply, call}

pub record Offered : Type 0 where
  pub transfer_id : String
  pub message_id : String

pub record TransferStatus (F32 : Type 0) : Type 0 where
  pub transfer_id : String
  pub file_name : String
  pub total_bytes : ℕ
  pub bytes_transferred : ℕ
  pub percent : F32

module _ (w : World) (texts : Texts w.crypto.hex_encode) where
  -- The row of the message, and then the offer of the file under that message's id.
  unfoldable pub store_and_offer :
      Manager w → String → OfferedFile → String → ℕ → ℕ → Manager w × Reply Offered
  unfolding Offers.send_file insert_message
  store_and_offer m peer f transfer_id now now_unix =
      elim (insert_message m.storage f.message_id f.conversation_id "self" f.file_name "file"
        now_unix "pending") [
          | err e ↦ (m, failure (texts.to_text e))
          | ok s ↦
              (let (m', r) =
                  Offers.send_file w (record m { storage = s }) peer f transfer_id now now_unix in
                (
                  m',
                  to_reply w texts
                      (r >>= λ id. ok (record { transfer_id = id; message_id = f.message_id })),
                ))
        ]

  abbrev single_file : FileSource → String → ℕ → String → String → String → OfferedFile
  single_file source file_name file_size mime_type message_id conversation_id = record {
    source = source;
    file_name = file_name;
    file_size = file_size;
    mime_type = mime_type;
    message_id = message_id;
    conversation_id = conversation_id;
    relative_path = "";
    folder_batch_id = none;
  }

  unfoldable pub send_file :
      App w → Paths → String → String → String → String × String → ℕ → ℕ → App w × Reply Offered
  unfolding with_manager store_and_offer mime_guess_from_extension
  send_file a paths peer file_path conversation_id (transfer_id, message_id) now now_unix =
      with_manager w texts a (λ m. elim (lookup file_path m.disk) [
        | none ↦ (m, failure "could not read file metadata")
        | some file ↦
            store_and_offer m peer
              (single_file (path file_path) (or_else (paths.file_name file_path) file_path)
                (length file) (mime_guess_from_extension paths file_path) message_id
                conversation_id)
              transfer_id now now_unix
      ])

  unfoldable pub send_file_fd :
      App w
      → String
      → String
      → String
      → ℕ
      → String
      → String
      → String × String
      → ℕ
      → ℕ
      → App w × Reply Offered
  unfolding with_manager store_and_offer
  send_file_fd a peer number file_name file_size mime_type conversation_id (transfer_id, message_id)
        now now_unix =
      with_manager w texts a (λ m.
        store_and_offer m peer
          (single_file (fd number) file_name file_size mime_type message_id conversation_id)
          transfer_id now now_unix)

  -- A row for each file that was offered, under an id of its own; an error is only printed.
  unfoldable pub store_folder_rows :
      Storage → String → List (String × String) → (ℕ → String) → ℕ → Storage
  unfolding insert_message
  store_folder_rows s conversation_id [] ids now_unix = s
  store_folder_rows s conversation_id ((relative_path, transfer_id) ∷ results) ids now_unix =
      store_folder_rows
        (unwrap_or
          (insert_message s (ids (length results)) conversation_id "self" relative_path "file"
            now_unix "pending")
          s)
        conversation_id results ids now_unix

  -- `send_folder` up to the decision of the peer; `files` is what the walk gives.
  unfoldable pub begin_send_folder :
      App w
      → Paths
      → String
      → String
      → String
      → String
      → Result (List String)
      → App w × Reply (List FolderFileEntry)
  unfolding with_manager offer_folder
  begin_send_folder a paths peer folder conversation_id batch files = with_manager w texts a (λ m.
      let (m', r) = offer_folder w m paths peer folder conversation_id batch files in
      (m', to_reply w texts r))

  -- The rest of it.
  unfoldable pub send_folder :
      App w
      → Paths
      → String
      → String
      → String
      → List String
      → List FolderFileEntry
      → Option Bool
      → (ℕ → String × String)
      → (ℕ → String)
      → ℕ
      → ℕ
      → App w × Reply (List (String × String))
  unfolding with_manager send_folder_decided store_folder_rows
  send_folder a paths peer conversation_id batch files manifest decision uuids ids now now_unix =
      with_manager w texts a (λ m.
        let (m', r) =
          send_folder_decided w m paths peer conversation_id batch files manifest decision uuids now
            now_unix in
        elim r [
          | err e ↦ (m', failure (texts.to_text e))
          | ok results ↦ (
            record m' {
              storage = store_folder_rows m'.storage conversation_id results ids now_unix;
            },
            reply results,
          )
        ])

  -- The offer, made up again from what the event held; the reply is the destination.
  unfoldable pub accept_file :
      App w → String → String → String → String → ℕ → String → ℕ → ℕ → App w × Reply String
  unfolding with_manager Offers.accept_file
  accept_file a from transfer_id message_id file_name file_size mime_type now now_unix =
      with_manager w texts a (λ m.
        let (m', r) =
          Offers.accept_file w m from
            (record {
              transfer_id = transfer_id;
              message_id = message_id;
              conversation_id = from;
              file_name = file_name;
              file_size = file_size;
              mime_type = mime_type;
              total_chunks = div_ceil file_size chunk_size;
              chunk_size = chunk_size;
              relative_path = "";
              folder_batch_id = none;
            })
            now now_unix in
        (m', to_reply w texts r))

  unfoldable pub reject_file : App w → String → String → String → App w × Reply String
  unfolding call Offers.reject_file
  reject_file a from transfer_id reason =
      call w texts a "rejected" (λ m. Offers.reject_file w m from transfer_id reason)

  unfoldable pub accept_folder : App w → String → String → App w × Reply String
  unfolding call Offers.accept_folder
  accept_folder a from batch = call w texts a "accepted" (λ m. Offers.accept_folder w m from batch)

  unfoldable pub reject_folder : App w → String → String → String → App w × Reply String
  unfolding call Offers.reject_folder
  reject_folder a from batch reason =
      call w texts a "rejected" (λ m. Offers.reject_folder w m from batch reason)

  unfoldable pub pause_transfer : App w → String → App w × Reply String
  unfolding with_manager Transfers.pause_outgoing_transfer
  pause_transfer a transfer_id =
      with_manager w texts a (λ m. (Transfers.pause_outgoing_transfer w m transfer_id, reply "ok"))

  unfoldable pub resume_transfer : App w → String → App w × Reply String
  unfolding with_manager Transfers.resume_outgoing_transfer
  resume_transfer a transfer_id =
      with_manager w texts a (λ m. (Transfers.resume_outgoing_transfer w m transfer_id, reply "ok"))

  unfoldable pub cancel_transfer : App w → String → String → App w × Reply String
  unfolding call Transfers.cancel_transfer
  cancel_transfer a peer transfer_id =
      call w texts a "ok" (λ m. Transfers.cancel_transfer w m peer transfer_id)

  abbrev percent_of : ℕ → ℕ → w.float.F32
  percent_of bytes total =
      let fl = w.float in
      if total == 0
      then fl.to_f32 (fl.of_u64 100)
      else fl.to_f32 (fl.mul (fl.div (fl.of_u64 bytes) (fl.of_u64 total)) (fl.of_u64 100))

  -- Each acked chunk counts as a full one, up to the size.
  unfoldable pub get_transfer_progress : App w → String → App w × Reply (TransferStatus w.float.F32)
  unfolding with_manager load_transfer_meta load_acked_chunks
  get_transfer_progress a transfer_id = with_manager w texts a (λ m.
      elim (load_transfer_meta m.storage transfer_id) [
        | none ↦ (m, failure "transfer not found")
        | some (file_name, total_bytes, local_path) ↦
            (let bytes =
                min (length (load_acked_chunks m.storage transfer_id) * chunk_size % 2 ^ 64)
                  total_bytes in
              (
                m,
                reply (record {
                  transfer_id = transfer_id;
                  file_name = file_name;
                  total_bytes = total_bytes;
                  bytes_transferred = bytes;
                  percent = percent_of bytes total_bytes;
                }),
              ))
      ])
