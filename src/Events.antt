-- ===== src/Events.antt =====
-- The events of core/src/ffi.rs and its `QueueSink`: they wait in a queue until the user interface
-- polls.
pub mod Queue
use zao_p2p.Prelude.{ℕ, String, Bool, List, [], ◌∷◌, ◌++◌}
use zao_p2p.Float.{Float}
use zao_p2p.Protocol.{TextMessage, FileOffer, FolderOffer, FolderFileEntry}
use zao_p2p.Transfer.Handle.{TransferProgress}

pub data AppEvent (F32 F64 : Type 0) : Type 0 where
  -- from, message, conversation, body, time
  text_message : String → String → String → String → ℕ → AppEvent F32 F64
  -- from, transfer, file name, size, type
  file_offered : String → String → String → ℕ → String → AppEvent F32 F64
  file_accepted : String → String → AppEvent F32 F64
  file_rejected : String → String → String → AppEvent F32 F64
  -- from, batch, folder name, number of files, size, files
  folder_offered : String → String → String → ℕ → ℕ → List FolderFileEntry → AppEvent F32 F64
  folder_accepted : String → String → AppEvent F32 F64
  folder_rejected : String → String → String → AppEvent F32 F64
  transfer_progress : TransferProgress F32 F64 → AppEvent F32 F64
  transfer_complete : String → AppEvent F32 F64
  transfer_cancelled : String → String → AppEvent F32 F64
  typing : String → Bool → AppEvent F32 F64
  read_receipt_came : String → ℕ → AppEvent F32 F64
  delivery_ack_came : String → ℕ → AppEvent F32 F64
  presence_changed : String → Bool → AppEvent F32 F64
  peer_connected : String → AppEvent F32 F64
  peer_disconnected : String → AppEvent F32 F64

abbrev pub QueueSink : Type 0 → Type 0 → Type 0
QueueSink F32 F64 = List (AppEvent F32 F64)

module _ {F32 F64 : Type 0} where
  unfoldable pub new_queue : QueueSink F32 F64
  new_queue = []

  unfoldable pub push : QueueSink F32 F64 → AppEvent F32 F64 → QueueSink F32 F64
  push events event = events ++ (event ∷ [])

  -- What the poll returns, and the queue after it.
  unfoldable pub drain : QueueSink F32 F64 → QueueSink F32 F64 × QueueSink F32 F64
  drain events = (events, [])

  unfoldable pub on_text_message : QueueSink F32 F64 → String → TextMessage → QueueSink F32 F64
  unfolding push
  on_text_message q from msg =
      push q (text_message from msg.message_id msg.conversation_id msg.body msg.sent_at_unix)

  unfoldable pub on_file_offer : QueueSink F32 F64 → String → FileOffer → QueueSink F32 F64
  unfolding push
  on_file_offer q from offer =
      push q (file_offered from offer.transfer_id offer.file_name offer.file_size offer.mime_type)

  unfoldable pub on_file_accept : QueueSink F32 F64 → String → String → QueueSink F32 F64
  unfolding push
  on_file_accept q from transfer_id = push q (file_accepted from transfer_id)

  unfoldable pub on_file_reject : QueueSink F32 F64 → String → String → String → QueueSink F32 F64
  unfolding push
  on_file_reject q from transfer_id reason = push q (file_rejected from transfer_id reason)

  unfoldable pub on_folder_offer : QueueSink F32 F64 → String → FolderOffer → QueueSink F32 F64
  unfolding push
  on_folder_offer q from offer = push q (
      folder_offered from offer.folder_batch_id offer.folder_name offer.total_files offer.total_size
        offer.files)

  unfoldable pub on_folder_accept : QueueSink F32 F64 → String → String → QueueSink F32 F64
  unfolding push
  on_folder_accept q from batch = push q (folder_accepted from batch)

  unfoldable pub on_folder_reject : QueueSink F32 F64 → String → String → String → QueueSink F32 F64
  unfolding push
  on_folder_reject q from batch reason = push q (folder_rejected from batch reason)

  unfoldable pub on_transfer_progress :
      QueueSink F32 F64 → TransferProgress F32 F64 → QueueSink F32 F64
  unfolding push
  on_transfer_progress q p = push q (transfer_progress p)

  unfoldable pub on_transfer_complete : QueueSink F32 F64 → String → QueueSink F32 F64
  unfolding push
  on_transfer_complete q transfer_id = push q (transfer_complete transfer_id)

  unfoldable pub on_transfer_cancelled : QueueSink F32 F64 → String → String → QueueSink F32 F64
  unfolding push
  on_transfer_cancelled q transfer_id by_device = push q (transfer_cancelled transfer_id by_device)

  unfoldable pub on_typing : QueueSink F32 F64 → String → Bool → QueueSink F32 F64
  unfolding push
  on_typing q conversation is_typing = push q (typing conversation is_typing)

  unfoldable pub on_read_receipt : QueueSink F32 F64 → String → ℕ → QueueSink F32 F64
  unfolding push
  on_read_receipt q message at = push q (read_receipt_came message at)

  unfoldable pub on_delivery_ack : QueueSink F32 F64 → String → ℕ → QueueSink F32 F64
  unfolding push
  on_delivery_ack q message at = push q (delivery_ack_came message at)

  unfoldable pub on_presence : QueueSink F32 F64 → String → Bool → QueueSink F32 F64
  unfolding push
  on_presence q device online = push q (presence_changed device online)

  unfoldable pub on_peer_connected : QueueSink F32 F64 → String → QueueSink F32 F64
  unfolding push
  on_peer_connected q device = push q (peer_connected device)

  unfoldable pub on_peer_disconnected : QueueSink F32 F64 → String → QueueSink F32 F64
  unfolding push
  on_peer_disconnected q device = push q (peer_disconnected device)
