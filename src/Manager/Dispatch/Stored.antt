-- ===== src/Manager/Dispatch/Stored.antt =====
-- What the messages of a peer write to the database.
use zao_p2p.Prelude.{ℕ, ◌≡◌, refl, ap, ◌∙◌, String, Bool-cases, Option-cases, inl, inr, arith}
use zao_p2p.Prelude.Maps.{lookup}
use zao_p2p.CoreError.{unwrap_or, Result-cases}
use zao_p2p.Protocol.{
  ProtocolMessage, FileChunkMessage, file_chunk, file_chunk_ack, file_transfer_complete, ping, pong,
}
use zao_p2p.Storage.{Storage}
use zao_p2p.Storage.Transfers
use zao_p2p.Storage.Transfers.{update_transfer_state}
use zao_p2p.Transfer.Files.{write_chunk_to_file}
use zao_p2p.Transfer.Handle.{TransferHandle, pending_chunk_indices}
use zao_p2p.Manager.{World, Manager, IncomingTransfer}
use zao_p2p.Manager.Effects.{try_send-SameBut}
use zao_p2p.Manager.Transfers.{
  handle_file_accept, handle_file_reject, handle_folder_accept, handle_folder_reject,
  handle_file_transfer_cancelled, cancel_handles, on_outgoing, on_incoming,
}
use zao_p2p.Manager.Chunks.{
  is_empty, complete_incoming, ack_incoming, write_incoming, handle_incoming_chunk,
}
use zao_p2p.Manager.Dispatch.{dispatch_incoming}

messages-mark_chunk_acked :
    (s : Storage) (t : String) (i : ℕ)
    → (unwrap_or (Transfers.mark_chunk_acked s t i) s).messages ≡ s.messages
unfolding Transfers.mark_chunk_acked
messages-mark_chunk_acked s t i = ground arith

messages-complete_incoming :
    (w : World) (m : Manager w) (from id : String) (h : TransferHandle) (now_unix : ℕ)
    → (complete_incoming w m from id h now_unix).storage.messages ≡ m.storage.messages
unfolding complete_incoming update_transfer_state
messages-complete_incoming w m from id h now_unix =
    ap (λ s. s.messages) (try_send-SameBut w _ from (file_transfer_complete id)).storage

messages-ack_incoming :
    (w : World) (m : Manager w) (from : String) (c : FileChunkMessage) (t : IncomingTransfer)
    (h : TransferHandle) (now_unix : ℕ)
    → (ack_incoming w m from c t h now_unix).storage.messages ≡ m.storage.messages
unfolding ack_incoming
messages-ack_incoming w m from c t h now_unix =
    let acked =
      ap (λ s. s.messages)
        (try_send-SameBut w _ from (file_chunk_ack c.transfer_id c.chunk_index)).storage
      ∙ messages-mark_chunk_acked m.storage c.transfer_id c.chunk_index in
    elim (Bool-cases (is_empty (pending_chunk_indices h))) [
      | inl e ↦
          rw (ack_incoming, e)
            (messages-complete_incoming w _ from c.transfer_id h now_unix ∙ acked)
      | inr e ↦ rw (ack_incoming, e) acked
    ]

messages-write_incoming :
    (w : World) (m : Manager w) (from : String) (c : FileChunkMessage) (t : IncomingTransfer)
    (now now_unix : ℕ)
    → (write_incoming w m from c t now now_unix).storage.messages ≡ m.storage.messages
unfolding write_incoming
messages-write_incoming w m from c t now now_unix =
    elim (Result-cases (write_chunk_to_file m.disk t.dest_path c.chunk_index c.payload)) [
      | inl (disk', e) ↦ rw (write_incoming, e) (messages-ack_incoming w _ from c t _ now_unix)
      | inr (er, e) ↦ rw (write_incoming, e) refl
    ]

messages-handle_incoming_chunk :
    (w : World) (m : Manager w) (from : String) (c : FileChunkMessage) (now now_unix : ℕ)
    → (handle_incoming_chunk w m from c now now_unix).storage.messages ≡ m.storage.messages
unfolding handle_incoming_chunk
messages-handle_incoming_chunk w m from c now now_unix =
    elim (Option-cases (lookup c.transfer_id m.incoming_transfers)) [
      | inl u ↦ ground (arith, u)
      | inr (t, u) ↦ ground (arith, u, messages-write_incoming w m from c t now now_unix)
    ]

-- Whatever message a peer sends, the table of messages stays as it was: a text, a receipt and an
-- acknowledgement leave no trace in the history.
pub messages-dispatch_incoming :
    (w : World) (m : Manager w) (from : String) (msg : ProtocolMessage) (now now_unix : ℕ)
    → (dispatch_incoming w m from msg now now_unix).storage.messages ≡ m.storage.messages
unfolding dispatch_incoming handle_file_accept handle_file_reject handle_folder_accept
    handle_folder_reject handle_file_transfer_cancelled cancel_handles on_outgoing on_incoming
messages-dispatch_incoming w m from (file_chunk c) now now_unix =
    messages-handle_incoming_chunk w m from c now now_unix
messages-dispatch_incoming w m from ping now now_unix =
    ap (λ s. s.messages) (try_send-SameBut w m from pong).storage
messages-dispatch_incoming w m from msg now now_unix = ground arith
