-- ===== src/Manager/Dispatch/Writes.antt =====
-- What a message of a peer can write to the disk, and that an encrypted message is dispatched.
use zao_p2p.Prelude.{ℕ, ◌≡◌, refl, ap, ◌∙◌, ◌⊎◌, inl, inr, String, true, arith}
use zao_p2p.Prelude.Bytes.{Bytes}
use zao_p2p.Prelude.Maps.{insert}
use zao_p2p.CoreError.{ok}
use zao_p2p.Protocol.{
  ProtocolMessage, FileChunkMessage, text, file_offer, file_accept, file_reject, folder_offer,
  folder_accept, folder_reject, file_chunk, file_chunk_ack, file_transfer_complete,
  file_transfer_cancelled, typing_indicator, read_receipt, delivery_ack, presence, ping, pong,
}
use zao_p2p.Transfer.Handle
use zao_p2p.Noise.{NoiseSession, decrypt}
use zao_p2p.Manager.{World, Manager, PeerSession, IncomingTransfer}
use zao_p2p.Manager.Effects.{try_send-SameBut}
use zao_p2p.Manager.Chunks.Effects.{Taken, handle_incoming_chunk_lem}
use zao_p2p.Manager.Transfers.{
  handle_file_accept, handle_file_reject, handle_folder_accept, handle_folder_reject,
  handle_file_transfer_cancelled, cancel_handles, on_outgoing, on_incoming,
}
use zao_p2p.Manager.Dispatch.{dispatch_incoming, decrypt_and_dispatch}

disk-on_outgoing :
    (w : World) (m : Manager w) (id : String) → (on_outgoing w Handle.cancel id m).disk ≡ m.disk
unfolding on_outgoing
disk-on_outgoing w m id = ground arith

disk-on_incoming :
    (w : World) (m : Manager w) (id : String) → (on_incoming w Handle.cancel id m).disk ≡ m.disk
unfolding on_incoming
disk-on_incoming w m id = ground arith

-- Whatever message a peer sends, the disk stays as it was, unless it is a chunk that is taken: one
-- with the right checksum, of a transfer that was accepted, written into that transfer's file.
pub disk-dispatch_incoming :
    (w : World) (m : Manager w) (from : String) (msg : ProtocolMessage) (now now_unix : ℕ)
    → ((dispatch_incoming w m from msg now now_unix).disk ≡ m.disk)
      ⊎ ((c : FileChunkMessage) × ((t : IncomingTransfer) × ((msg ≡ file_chunk c)
              × Taken w m c now t (dispatch_incoming w m from msg now now_unix))))
unfolding dispatch_incoming handle_file_accept handle_file_reject handle_folder_accept
    handle_folder_reject handle_file_transfer_cancelled cancel_handles
disk-dispatch_incoming w m from (file_chunk c) now now_unix =
    elim (handle_incoming_chunk_lem w m from c now now_unix) [
      | inl same ↦ inl (ap (λ x. x.disk) same)
      | inr (t, taken) ↦ inr (c, (t, (refl, taken)))
    ]
disk-dispatch_incoming w m from (file_transfer_cancelled id by) now now_unix =
    inl (disk-on_incoming w _ id ∙ disk-on_outgoing w m id)
disk-dispatch_incoming w m from ping now now_unix = inl (try_send-SameBut w m from pong).disk
disk-dispatch_incoming w m from (text x) now now_unix = inl refl
disk-dispatch_incoming w m from (file_offer x) now now_unix = inl refl
disk-dispatch_incoming w m from (file_accept x) now now_unix = inl refl
disk-dispatch_incoming w m from (file_reject x y) now now_unix = inl refl
disk-dispatch_incoming w m from (folder_offer x) now now_unix = inl refl
disk-dispatch_incoming w m from (folder_accept x) now now_unix = inl refl
disk-dispatch_incoming w m from (folder_reject x y) now now_unix = inl refl
disk-dispatch_incoming w m from (file_chunk_ack x y) now now_unix = inl refl
disk-dispatch_incoming w m from (file_transfer_complete x) now now_unix = inl refl
disk-dispatch_incoming w m from (typing_indicator x y) now now_unix = inl refl
disk-dispatch_incoming w m from (read_receipt x y) now now_unix = inl refl
disk-dispatch_incoming w m from (delivery_ack x y) now now_unix = inl refl
disk-dispatch_incoming w m from (presence x y) now now_unix = inl refl
disk-dispatch_incoming w m from pong now now_unix = inl refl

-- The message of a peer, encoded and encrypted so that the session can decrypt it, is dispatched as
-- that peer's, with the session's Noise state moved on; the reader goes on.
pub decrypt_and_dispatch-encode :
    (w : World) (m : Manager w) (session : PeerSession w) (msg : ProtocolMessage)
    (plaintext ciphertext : Bytes) (noise' : NoiseSession w.snow) (now now_unix : ℕ)
    → w.codec.encode_plaintext msg ≡ ok plaintext
    → decrypt w.snow session.noise ciphertext ≡ ok (plaintext, noise')
    → decrypt_and_dispatch w m session ciphertext now now_unix ≡ (
      dispatch_incoming w
          (record m {
            sessions = insert session.device_id (record session { noise = noise' }) m.sessions;
          })
          session.device_id
          msg
          now
          now_unix,
      true,
    )
unfolding decrypt_and_dispatch
decrypt_and_dispatch-encode w m session msg plaintext ciphertext noise' now now_unix encoded
      decrypted =
    rw (decrypt_and_dispatch, decrypted, w.codec.decode-encode msg plaintext encoded) refl
