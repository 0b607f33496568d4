-- ===== src/Manager/Authentic/Kept.antt =====
-- Receiving keeps every session under the id that its key shows.
use zao_p2p.Prelude.{ℕ, ◌≡◌, String, some, inl, inr, Bool-cases, Option-cases, arith}
use zao_p2p.Prelude.Bytes.{Bytes, bytes_eq, bytes_eq_refl}
use zao_p2p.Prelude.Maps.{lookup, insert}
use zao_p2p.CoreError.{Result-cases}
use zao_p2p.Protocol.{
  ProtocolMessage, FileChunkMessage, text, file_offer, file_accept, file_reject, folder_offer,
  folder_accept, folder_reject, file_chunk, file_chunk_ack, file_transfer_complete,
  file_transfer_cancelled, typing_indicator, read_receipt, delivery_ack, presence, ping, pong,
}
use zao_p2p.Noise.{decrypt}
use zao_p2p.Transfer.Handle.{TransferHandle, pending_chunk_indices}
use zao_p2p.Transfer.Handle
use zao_p2p.Transfer.ChunkFrame.{new_frame, verify}
use zao_p2p.Transfer.Files.{write_chunk_to_file}
use zao_p2p.Manager.{World, Manager, PeerSession, IncomingTransfer}
use zao_p2p.Manager.Chunks.{
  is_empty, complete_incoming, ack_incoming, write_incoming, handle_incoming_chunk,
}
use zao_p2p.Manager.Transfers.{
  handle_file_accept, handle_file_reject, handle_folder_accept, handle_folder_reject,
  handle_file_transfer_cancelled, cancel_handles, on_outgoing, on_incoming,
}
use zao_p2p.Manager.Dispatch.{dispatch_incoming, decrypt_and_dispatch}
use zao_p2p.Manager.Authentic.Sent.{try_send-AllAuthentic, found_shown, shown_after}
use zao_p2p.Manager.Authentic.{
  KeepsRemote, AllAuthentic, AllAuthentic-insert, peer_static_key-decrypt,
}

module _ (w : World) (keeps : KeepsRemote w.snow) where
  sessions-on_outgoing :
      (m : Manager w) (id : String) → (on_outgoing w Handle.cancel id m).sessions ≡ m.sessions
  unfolding on_outgoing
  sessions-on_outgoing m id = ground arith

  sessions-on_incoming :
      (m : Manager w) (id : String) → (on_incoming w Handle.cancel id m).sessions ≡ m.sessions
  unfolding on_incoming
  sessions-on_incoming m id = ground arith

  complete_incoming-AllAuthentic :
      (m : Manager w) (from transfer_id : String) (h : TransferHandle) (now_unix : ℕ)
      → AllAuthentic w m.sessions
      → AllAuthentic w (complete_incoming w m from transfer_id h now_unix).sessions
  unfolding complete_incoming
  complete_incoming-AllAuthentic m from transfer_id h now_unix all =
      try_send-AllAuthentic w keeps _ from (file_transfer_complete transfer_id) all

  ack_incoming-AllAuthentic :
      (m : Manager w) (from : String) (c : FileChunkMessage) (t : IncomingTransfer)
      (h : TransferHandle) (now_unix : ℕ)
      → AllAuthentic w m.sessions
      → AllAuthentic w (ack_incoming w m from c t h now_unix).sessions
  unfolding ack_incoming
  ack_incoming-AllAuthentic m from c t h now_unix all =
      elim (Bool-cases (is_empty (pending_chunk_indices h))) [
        | inl e ↦ rw e (
            complete_incoming-AllAuthentic _ from c.transfer_id h now_unix (
              try_send-AllAuthentic w keeps _ from (file_chunk_ack c.transfer_id c.chunk_index)
                all))
        | inr e ↦
            rw e (
              try_send-AllAuthentic w keeps _ from (file_chunk_ack c.transfer_id c.chunk_index) all)
      ]

  write_incoming-AllAuthentic :
      (m : Manager w) (from : String) (c : FileChunkMessage) (t : IncomingTransfer)
      (now now_unix : ℕ)
      → AllAuthentic w m.sessions
      → AllAuthentic w (write_incoming w m from c t now now_unix).sessions
  unfolding write_incoming
  write_incoming-AllAuthentic m from c t now now_unix all =
      elim (Result-cases (write_chunk_to_file m.disk t.dest_path c.chunk_index c.payload)) [
        | inr (e, wrote) ↦ rw (write_incoming, wrote) all
        | inl (disk', wrote) ↦
            rw (write_incoming, wrote) (ack_incoming-AllAuthentic _ from c t _ now_unix all)
      ]

  handle_incoming_chunk-AllAuthentic :
      (m : Manager w) (from : String) (c : FileChunkMessage) (now now_unix : ℕ)
      → AllAuthentic w m.sessions
      → AllAuthentic w (handle_incoming_chunk w m from c now now_unix).sessions
  unfolding handle_incoming_chunk new_frame verify
  handle_incoming_chunk-AllAuthentic m from c now now_unix all =
      elim (Bool-cases (bytes_eq (w.crypto.sha256 c.payload) c.checksum_sha256)) [
        | inr e ↦ rw (handle_incoming_chunk, e) all
        | inl e ↦ elim (Option-cases (lookup c.transfer_id m.incoming_transfers)) [
          | inl u ↦ rw (handle_incoming_chunk, e, bytes_eq_refl (w.crypto.sha256 c.payload), u) all
          | inr (t, u) ↦
              rw (handle_incoming_chunk, e, bytes_eq_refl (w.crypto.sha256 c.payload), u)
                (write_incoming-AllAuthentic m from c t now now_unix all)
        ]
      ]

  pub dispatch_incoming-AllAuthentic :
      (m : Manager w) (from : String) (msg : ProtocolMessage) (now now_unix : ℕ)
      → AllAuthentic w m.sessions
      → AllAuthentic w (dispatch_incoming w m from msg now now_unix).sessions
  unfolding dispatch_incoming handle_file_accept handle_file_reject handle_folder_accept
      handle_folder_reject handle_file_transfer_cancelled cancel_handles
  dispatch_incoming-AllAuthentic m from (file_chunk c) now now_unix all =
      handle_incoming_chunk-AllAuthentic m from c now now_unix all
  dispatch_incoming-AllAuthentic m from (file_transfer_cancelled id by) now now_unix all =
      rw (sessions-on_incoming (on_outgoing w Handle.cancel id m) id, sessions-on_outgoing m id) all
  dispatch_incoming-AllAuthentic m from ping now now_unix all =
      try_send-AllAuthentic w keeps m from pong all
  dispatch_incoming-AllAuthentic m from (text x) now now_unix all = all
  dispatch_incoming-AllAuthentic m from (file_offer x) now now_unix all = all
  dispatch_incoming-AllAuthentic m from (file_accept x) now now_unix all = all
  dispatch_incoming-AllAuthentic m from (file_reject x y) now now_unix all = all
  dispatch_incoming-AllAuthentic m from (folder_offer x) now now_unix all = all
  dispatch_incoming-AllAuthentic m from (folder_accept x) now now_unix all = all
  dispatch_incoming-AllAuthentic m from (folder_reject x y) now now_unix all = all
  dispatch_incoming-AllAuthentic m from (file_chunk_ack x y) now now_unix all = all
  dispatch_incoming-AllAuthentic m from (file_transfer_complete x) now now_unix all = all
  dispatch_incoming-AllAuthentic m from (typing_indicator x y) now now_unix all = all
  dispatch_incoming-AllAuthentic m from (read_receipt x y) now now_unix all = all
  dispatch_incoming-AllAuthentic m from (delivery_ack x y) now now_unix all = all
  dispatch_incoming-AllAuthentic m from (presence x y) now now_unix all = all
  dispatch_incoming-AllAuthentic m from pong now now_unix all = all

  pub decrypt_and_dispatch-AllAuthentic :
      (m : Manager w) (id : String) (session : PeerSession w) (ciphertext : Bytes)
      (now now_unix : ℕ)
      → lookup id m.sessions ≡ some session
      → AllAuthentic w m.sessions
      → AllAuthentic w (decrypt_and_dispatch w m session ciphertext now now_unix).0.sessions
  unfolding decrypt_and_dispatch
  decrypt_and_dispatch-AllAuthentic m id session ciphertext now now_unix there all =
      elim (Result-cases (decrypt w.snow session.noise ciphertext)) [
        | inr (e, d) ↦ rw (decrypt_and_dispatch, d) all
        | inl ((plaintext, noise'), d) ↦
            let all' : AllAuthentic w
                (insert session.device_id (record session { noise = noise' }) m.sessions) =
              AllAuthentic-insert w m.sessions (record session { noise = noise' }) all
                (shown_after w keeps session noise'
                  (peer_static_key-decrypt w.snow keeps session.noise noise' ciphertext plaintext d)
                  (found_shown w keeps m id session there all)) in
            elim (Result-cases (w.codec.decode_plaintext plaintext)) [
              | inr (e, p) ↦ rw (decrypt_and_dispatch, d, p) all'
              | inl (message, p) ↦
                  rw (decrypt_and_dispatch, d, p)
                    (dispatch_incoming-AllAuthentic _ session.device_id message now now_unix all')
            ]
      ]
