-- ===== src/Manager/Offers.antt =====
-- Offers of core/src/connection_manager.rs: `send_file` up to the task that it spawns, that task's
-- decision, and the answers of a receiver. The id of a transfer is an argument, as `Uuid::new_v4`
-- makes it; `now` and `now_unix` are the clocks. An answer that `send_to` cannot send is an error,
-- and what was done before it stays.
pub mod Restart
use zao_p2p.Prelude.{ℕ, String, Bool, true, false, Option, none, some, List, [], ◌∷◌, if◌then◌else◌}
use Prim.Native.String.{◌++◌ as str_append}
use zao_p2p.Prelude.Maps.{Map, lookup, insert, remove}
use zao_p2p.CoreError.{CoreError, Result, ok, err, ◌>>=◌, unwrap_or, not_found}
use zao_p2p.Protocol.{FileOffer, file_offer, file_accept, file_reject, folder_accept, folder_reject}
use zao_p2p.Transfer.{chunk_size}
use zao_p2p.Transfer.Files.{FileSource, path, fd, preallocate_file}
use zao_p2p.Transfer.Handle
use zao_p2p.Transfer.Handle.{TransferHandle, resume_from_manifest}
use zao_p2p.Storage.{Storage}
use zao_p2p.Storage.Transfers.{create_transfer, load_acked_chunks}
use zao_p2p.Manager.{World, Manager, OutgoingTransfer, IncomingTransfer, send_to}

-- What `send_file` is told of the file.
pub record OfferedFile : Type 0 where
  pub source : FileSource
  pub file_name : String
  pub file_size : ℕ
  pub mime_type : String
  pub message_id : String
  pub conversation_id : String
  pub relative_path : String
  pub folder_batch_id : Option String

unfoldable pub local_path_for_db : FileSource → String
local_path_for_db (path p) = p
local_path_for_db (fd n) = str_append "fd:" n

abbrev pub offer_of : String → TransferHandle → OfferedFile → FileOffer
offer_of transfer_id h f = record {
  transfer_id = transfer_id;
  message_id = f.message_id;
  conversation_id = f.conversation_id;
  file_name = f.file_name;
  file_size = f.file_size;
  mime_type = f.mime_type;
  total_chunks = h.total_chunks;
  chunk_size = chunk_size;
  relative_path = f.relative_path;
  folder_batch_id = f.folder_batch_id;
}

-- `already_acked.is_empty()` decides between a new handle and a resumed one.
unfoldable pub handle_for_offer : FileOffer → List ℕ → ℕ → TransferHandle
handle_for_offer offer [] now = Handle.new offer.transfer_id offer.file_name offer.file_size now
handle_for_offer offer (i ∷ acked) now =
    resume_from_manifest offer.transfer_id offer.file_name offer.file_size (i ∷ acked) now

module _ (w : World) where
  -- The result is the transfer's id, or the error of `send_to`.
  unfoldable pub send_file :
      Manager w → String → OfferedFile → String → ℕ → ℕ → Manager w × Result String
  unfolding send_to local_path_for_db
  send_file m peer f transfer_id now now_unix =
      let h = Handle.new transfer_id f.file_name f.file_size now in
      let m' : Manager w = record m {
        storage =
            unwrap_or
              (create_transfer m.storage transfer_id f.message_id f.file_name f.file_size
                f.mime_type h.total_chunks chunk_size "send" (local_path_for_db f.source) now_unix)
              m.storage;
        outgoing_transfers =
            insert transfer_id (record { file_source = f.source; handle = h; accept_tx = true })
              m.outgoing_transfers;
      } in
      let (m'', sent) = send_to w m' peer (file_offer (offer_of transfer_id h f)) in
      (m'', sent >>= λ u. ok transfer_id)

  -- The task that waits for the decision: `none` is a timeout, or a sender that was dropped. True if
  -- the transfer starts.
  unfoldable pub accept_decision : Manager w → String → Option Bool → Manager w × Bool
  accept_decision m transfer_id (some true) = (m, true)
  accept_decision m transfer_id (some false) =
      (record m { outgoing_transfers = remove transfer_id m.outgoing_transfers }, false)
  accept_decision m transfer_id none =
      (record m { outgoing_transfers = remove transfer_id m.outgoing_transfers }, false)

  unfoldable pub prepare_to_receive : Manager w → String → ℕ → Manager w × String
  unfolding preallocate_file
  prepare_to_receive m transfer_id total_size =
      let dest = w.join_path m.downloads_dir transfer_id in
      (record m { disk = preallocate_file m.disk dest total_size }, dest)

  unfoldable pub accept_file : Manager w → String → FileOffer → ℕ → ℕ → Manager w × Result String
  unfolding prepare_to_receive send_to handle_for_offer
  accept_file m from offer now now_unix =
      let (m', dest) = prepare_to_receive m offer.transfer_id offer.file_size in
      let h = handle_for_offer offer (load_acked_chunks m'.storage offer.transfer_id) now in
      let (m'', sent) =
        send_to w
          (record m' {
            storage =
                unwrap_or
                  (create_transfer m'.storage offer.transfer_id offer.message_id offer.file_name
                    offer.file_size offer.mime_type offer.total_chunks offer.chunk_size "receive"
                    dest now_unix)
                  m'.storage;
            incoming_transfers =
                insert offer.transfer_id (record { dest_path = dest; handle = h })
                  m'.incoming_transfers;
          })
          from (file_accept offer.transfer_id) in
      (m'', sent >>= λ u. ok dest)

  unfoldable pub reject_file : Manager w → String → String → String → Manager w × Result (Unit {0})
  unfolding send_to
  reject_file m from transfer_id reason = send_to w m from (file_reject transfer_id reason)

  unfoldable pub accept_folder : Manager w → String → String → Manager w × Result (Unit {0})
  unfolding send_to
  accept_folder m from batch = send_to w m from (folder_accept batch)

  unfoldable pub reject_folder :
      Manager w → String → String → String → Manager w × Result (Unit {0})
  unfolding send_to
  reject_folder m from batch reason = send_to w m from (folder_reject batch reason)
