-- ===== src/Manager/Dispatch.antt =====
-- `dispatch_incoming` and `decrypt_and_dispatch` of core/src/connection_manager.rs.
pub mod Writes
pub mod Stored
use zao_p2p.Prelude.{ℕ, String, Bool, true, false, Option, none, some}
use zao_p2p.Prelude.Bytes.{Bytes}
use zao_p2p.Prelude.Maps.{insert, remove}
use zao_p2p.CoreError.{Result, ok, err}
use zao_p2p.Protocol.{
  ProtocolMessage, text, file_offer, file_accept, file_reject, folder_offer, folder_accept,
  folder_reject, file_chunk, file_chunk_ack, file_transfer_complete, file_transfer_cancelled,
  typing_indicator, read_receipt, delivery_ack, presence, ping, pong,
}
use zao_p2p.Events
use zao_p2p.Noise.{NoiseSession, decrypt}
use zao_p2p.Manager.{World, Manager, PeerSession, try_send}
use zao_p2p.Manager.Transfers.{
  handle_file_accept, handle_file_reject, handle_folder_accept, handle_folder_reject,
  handle_file_transfer_cancelled,
}
use zao_p2p.Manager.Chunks.{handle_incoming_chunk}

module _ (w : World) where
  -- `now` and `now_unix` are the clocks.
  unfoldable pub dispatch_incoming : Manager w → String → ProtocolMessage → ℕ → ℕ → Manager w
  unfolding handle_file_accept handle_file_reject handle_folder_accept handle_folder_reject
      handle_incoming_chunk handle_file_transfer_cancelled try_send
  dispatch_incoming m from (text msg) now now_unix = record m {
    sink = Events.on_text_message m.sink from msg;
  }
  dispatch_incoming m from (file_offer offer) now now_unix = record m {
    sink = Events.on_file_offer m.sink from offer;
  }
  dispatch_incoming m from (file_accept transfer_id) now now_unix =
      handle_file_accept w m from transfer_id
  dispatch_incoming m from (file_reject transfer_id reason) now now_unix =
      handle_file_reject w m from transfer_id reason
  dispatch_incoming m from (folder_offer offer) now now_unix = record m {
    sink = Events.on_folder_offer m.sink from offer;
  }
  dispatch_incoming m from (folder_accept batch) now now_unix = handle_folder_accept w m from batch
  dispatch_incoming m from (folder_reject batch reason) now now_unix =
      handle_folder_reject w m from batch reason
  dispatch_incoming m from (file_chunk chunk_msg) now now_unix =
      handle_incoming_chunk w m from chunk_msg now now_unix
  dispatch_incoming m from (file_chunk_ack transfer_id chunk_index) now now_unix = m
  dispatch_incoming m from (file_transfer_complete transfer_id) now now_unix = record m {
    incoming_transfers = remove transfer_id m.incoming_transfers;
    sink = Events.on_transfer_complete m.sink transfer_id;
  }
  dispatch_incoming m from (file_transfer_cancelled transfer_id by_device) now now_unix =
      handle_file_transfer_cancelled w m transfer_id by_device
  dispatch_incoming m from (typing_indicator conversation is_typing) now now_unix = record m {
    sink = Events.on_typing m.sink conversation is_typing;
  }
  dispatch_incoming m from (read_receipt message at) now now_unix = record m {
    sink = Events.on_read_receipt m.sink message at;
  }
  dispatch_incoming m from (delivery_ack message at) now now_unix = record m {
    sink = Events.on_delivery_ack m.sink message at;
  }
  dispatch_incoming m from (presence online at) now now_unix = record m {
    sink = Events.on_presence m.sink from online;
  }
  dispatch_incoming m from ping now now_unix = try_send w m from pong
  dispatch_incoming m from pong now now_unix = m

  -- The session is the one that the table holds for its device, so that its Noise state, which the
  -- readers of a connection share, is written back there. False stops the reader.
  unfoldable pub decrypt_and_dispatch : Manager w → PeerSession w → Bytes → ℕ → ℕ → Manager w × Bool
  unfolding dispatch_incoming
  decrypt_and_dispatch m session ciphertext now now_unix =
      elim (decrypt w.snow session.noise ciphertext) [
        | err e ↦ (m, false)
        | ok (plaintext, noise') ↦
            (let m' : Manager w = record m {
              sessions = insert session.device_id (record session { noise = noise' }) m.sessions;
            } in
              elim (w.codec.decode_plaintext plaintext) [
                | err e ↦ (m', true)
                | ok message ↦ (dispatch_incoming m' session.device_id message now now_unix, true)
              ])
      ]
