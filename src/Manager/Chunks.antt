-- ===== src/Manager/Chunks.antt =====
-- `handle_incoming_chunk` of core/src/connection_manager.rs. `now` is the instant that the handle
-- records, `now_unix` the time that the storage records.
pub mod Effects
pub mod Delivery
pub mod Whole
use zao_p2p.Prelude.{
  ℕ, String, Bool, true, false, not, ◌||◌, ◌&&◌, Option, none, some, List, [], ◌∷◌, length,
  if◌then◌else◌,
}
use zao_p2p.Prelude.Bytes.{bytes_eq}
use zao_p2p.Prelude.Maps.{Map, lookup, insert, remove}
use zao_p2p.CoreError.{Result, ok, err, unwrap_or}
use zao_p2p.Protocol.{FileChunkMessage, file_chunk_ack, file_transfer_complete}
use zao_p2p.Events
use zao_p2p.Transfer.{active, completed, as_str}
use zao_p2p.Transfer.ChunkFrame.{ChunkFrame, new_frame, verify}
use zao_p2p.Transfer.Files.{write_chunk_to_file}
use zao_p2p.Transfer.Handle
use zao_p2p.Transfer.Handle.{TransferHandle, pending_chunk_indices, progress}
use zao_p2p.Storage.Transfers.{update_transfer_state}
use zao_p2p.Storage.Transfers
use zao_p2p.Manager.{World, Manager, IncomingTransfer, try_send}

unfoldable pub is_empty : {A : Type 0} → List A → Bool
is_empty [] = true
is_empty (x ∷ xs) = false

module _ (w : World) where
  -- What follows the last chunk: the table, the manifest, the event and the message to the sender.
  unfoldable pub complete_incoming : Manager w → String → String → TransferHandle → ℕ → Manager w
  unfolding try_send update_transfer_state
  complete_incoming m from transfer_id h now_unix =
      try_send w
        (record m {
          incoming_transfers = remove transfer_id m.incoming_transfers;
          storage =
              update_transfer_state m.storage transfer_id (as_str completed)
                (progress w.float h completed).bytes_transferred now_unix;
          sink = Events.on_transfer_complete m.sink transfer_id;
        })
        from (file_transfer_complete transfer_id)

  -- The state once the chunk is on the disk.
  unfoldable pub ack_incoming :
      Manager w → String → FileChunkMessage → IncomingTransfer → TransferHandle → ℕ → Manager w
  unfolding try_send complete_incoming is_empty
  ack_incoming m from chunk_msg t h now_unix =
      let m' =
        try_send w
          (record m {
            incoming_transfers =
                insert chunk_msg.transfer_id (record t { handle = h }) m.incoming_transfers;
            storage =
                unwrap_or
                  (Transfers.mark_chunk_acked m.storage chunk_msg.transfer_id chunk_msg.chunk_index)
                  m.storage;
            sink = Events.on_transfer_progress m.sink (progress w.float h active);
          })
          from (file_chunk_ack chunk_msg.transfer_id chunk_msg.chunk_index) in
      if is_empty (pending_chunk_indices h)
      then complete_incoming m' from chunk_msg.transfer_id h now_unix
      else m'

  unfoldable pub write_incoming :
      Manager w → String → FileChunkMessage → IncomingTransfer → ℕ → ℕ → Manager w
  unfolding ack_incoming
  write_incoming m from chunk_msg t now now_unix =
      elim (write_chunk_to_file m.disk t.dest_path chunk_msg.chunk_index chunk_msg.payload) [
        | err e ↦ m
        | ok disk' ↦
            ack_incoming (record m { disk = disk' }) from chunk_msg t
              (Handle.mark_chunk_acked t.handle chunk_msg.chunk_index (length chunk_msg.payload)
                now)
              now_unix
      ]

  unfoldable pub handle_incoming_chunk : Manager w → String → FileChunkMessage → ℕ → ℕ → Manager w
  unfolding write_incoming
  handle_incoming_chunk m from chunk_msg now now_unix =
      let frame = new_frame w.crypto.sha256 chunk_msg.chunk_index chunk_msg.payload in
      if not (bytes_eq frame.checksum chunk_msg.checksum_sha256)
        || not (verify w.crypto.sha256 frame)
      then m
      else elim (lookup chunk_msg.transfer_id m.incoming_transfers) [
        | none ↦ m
        | some t ↦ write_incoming m from chunk_msg t now now_unix
      ]
