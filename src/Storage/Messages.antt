-- ===== src/Storage/Messages.antt =====
-- Conversations and messages.
use zao_p2p.Prelude.{ℕ, String, none, some, List, [], ◌∷◌, ◌++◌, reverse, take, if◌then◌else◌}
use zao_p2p.CoreError.{Result, ok, err, db}
use zao_p2p.Sql.{exists, select, update, order_by_desc}
use zao_p2p.Storage.{
  Storage, StoredMessage, ConversationRow, is_device, is_conversation, is_message, in_conversation,
}

-- `INSERT OR IGNORE` passes over a row that is there; a peer that is no known device still fails.
unfoldable pub get_or_create_conversation : Storage → String → ℕ → Result (String × Storage)
get_or_create_conversation s peer_device_id now =
    let conversation_id = peer_device_id in
    if exists (is_conversation conversation_id) s.conversations
    then ok (conversation_id, s)
    else if exists (is_device peer_device_id) s.devices
    then ok (
      conversation_id,
      record s {
        conversations =
            s.conversations
            ++ (record {
              conversation_id = conversation_id;
              peer_device_id = peer_device_id;
              created_at = now;
            }
                ∷ []);
      },
    )
    else err db

unfoldable pub insert_message :
    Storage → String → String → String → String → String → ℕ → String → Result Storage
insert_message s message_id conversation_id sender_device_id body msg_type sent_at_unix status =
    if exists (is_message message_id) s.messages
    then err db
    else if exists (is_conversation conversation_id) s.conversations
    then ok (record s {
      messages =
          s.messages
          ++ (record {
            message_id = message_id;
            conversation_id = conversation_id;
            sender_device_id = sender_device_id;
            body = body;
            msg_type = msg_type;
            sent_at = sent_at_unix;
            delivered_at = none;
            read_at = none;
            status = status;
          }
              ∷ []);
    })
    else err db

unfoldable pub mark_message_delivered : Storage → String → ℕ → Storage
mark_message_delivered s message_id delivered_at_unix = record s {
  messages =
      update (is_message message_id)
        (λ r. record r { delivered_at = some delivered_at_unix; status = "delivered" }) s.messages;
}

unfoldable pub mark_message_read : Storage → String → ℕ → Storage
mark_message_read s message_id read_at_unix = record s {
  messages =
      update (is_message message_id)
        (λ r. record r { read_at = some read_at_unix; status = "read" }) s.messages;
}

unfoldable pub load_conversation_history : Storage → String → ℕ → List StoredMessage
load_conversation_history s conversation_id limit = reverse (
    take limit
      (order_by_desc (λ r. r.sent_at) (select (in_conversation conversation_id) s.messages)))

pairs : List ConversationRow → List (String × String)
pairs [] = []
pairs (r ∷ rows) = (r.conversation_id, r.peer_device_id) ∷ pairs rows

unfoldable pub list_conversations : Storage → List (String × String)
unfolding pairs
list_conversations s = pairs (order_by_desc (λ r. r.created_at) s.conversations)
