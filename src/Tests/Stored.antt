-- ===== src/Tests/Stored.antt =====
-- Identities and the storage.
use zao_p2p.Prelude.{ℕ, ◌≡◌, ◌≤◌, String, true, none, List, [], ◌∷◌, ◌++◌, length, min}
use zao_p2p.Identity.{DeviceIdentity, StoredIdentity}
use zao_p2p.Sql.{select}
use mathlib.Core.List.{Perm, Pairwise}
use zao_p2p.Storage.{Storage, StoredMessage, ChunkRow, in_conversation}
use zao_p2p.Storage.Messages.{load_conversation_history}
use zao_p2p.Storage.History.{load_conversation_history_lem}
use zao_p2p.Tests.Concrete

abbrev stored : StoredIdentity
stored = record { device_id = "other"; signing_key_bytes = 5 ∷ []; noise_static_bytes = [] }

abbrev identity : DeviceIdentity Concrete.crypto
identity = record { device_id = "other"; signing_key = 5 ∷ []; noise_static = [] }

abbrev message : String → ℕ → StoredMessage
message id at = record {
  message_id = id;
  conversation_id = "c";
  sender_device_id = "me";
  body = "";
  msg_type = "text";
  sent_at = at;
  delivered_at = none;
  read_at = none;
  status = "sent";
}

abbrev with_messages : Storage
with_messages = record Concrete.manager.storage {
  messages = message "a" 30 ∷ message "b" 10 ∷ message "d" 20 ∷ [];
}

load_conversation_history_lem_example :
    (left_out : List StoredMessage) × Perm
      (left_out ++ load_conversation_history with_messages "c" 2)
      (select (in_conversation "c") with_messages.messages)
    × Pairwise
        (λ a b. a.sent_at ≤ b.sent_at)
        (left_out ++ load_conversation_history with_messages "c" 2)
    × (length (load_conversation_history with_messages "c" 2)
        ≡ min 2 (length (select (in_conversation "c") with_messages.messages)))
load_conversation_history_lem_example = load_conversation_history_lem with_messages "c" 2

-- One transfer, one chunk of which is acked.
abbrev with_transfer : List ChunkRow → Storage
with_transfer rows = record Concrete.manager.storage {
  file_transfers =
      record {
        transfer_id = "t";
        message_id = "a";
        file_name = "f";
        file_size = 10_000_000;
        mime_type = "";
        total_chunks = 2;
        chunk_size = 8_388_608;
        direction = "receive";
        state = "active";
        bytes_transferred = 0;
        local_path = "";
        started_at = 0;
        updated_at = 0;
      }
      ∷ [];
  chunk_manifest = rows;
}

abbrev row : ℕ → ChunkRow
row i = record { transfer_id = "t"; chunk_index = i; acked = true }
