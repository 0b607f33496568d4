-- ===== src/Ffi/Chat.antt =====
-- Messages and events of core/src/ffi.rs. The id of a message and the clock are arguments.
use zao_p2p.Prelude.{ℕ, String, Bool, List}
use zao_p2p.CoreError.{Result, ok, err, ◌>>=◌}
use zao_p2p.Events
use zao_p2p.Events.{QueueSink}
use zao_p2p.Protocol.{text, typing_indicator, read_receipt}
use zao_p2p.Storage.{Storage, StoredMessage}
use zao_p2p.Storage.Messages
use zao_p2p.Storage.Messages.{get_or_create_conversation, insert_message, load_conversation_history}
use zao_p2p.Manager.{World, Manager, send_to, try_send}
use zao_p2p.Ffi.{App, Reply, reply, failure, Texts, with_manager, to_reply}

module _ (w : World) (texts : Texts w.crypto.hex_encode) where
  -- The rows of a message that is being sent: its conversation, and then itself, as "pending".
  unfoldable pub store_outgoing :
      Storage → String → String → String → ℕ → ℕ → Result Storage × Storage
  unfolding get_or_create_conversation insert_message
  store_outgoing s peer body message_id now sent_at = elim (get_or_create_conversation s peer now) [
    | err e ↦ (err e, s)
    | ok (conversation_id, s') ↦
        elim (insert_message s' message_id conversation_id "self" body "text" sent_at "pending") [
          | err e ↦ (err e, s')
          | ok s'' ↦ (ok s'', s'')
        ]
  ]

  unfoldable pub send_text : Manager w → String → String → String → ℕ → Manager w × Reply String
  unfolding store_outgoing send_to
  send_text m peer body message_id now =
      let (stored, s) = store_outgoing m.storage peer body message_id now now in
      elim stored [
        | err e ↦ (record m { storage = s }, failure (texts.to_text e))
        | ok s' ↦
            (let (m', sent) =
                send_to w (record m { storage = s }) peer
                  (text (record {
                    message_id = message_id;
                    conversation_id = peer;
                    body = body;
                    sent_at_unix = now;
                  })) in
              (m', to_reply w texts (sent >>= λ u. ok message_id)))
      ]

  -- The reply is the id of the message.
  unfoldable pub send_text_message : App w → String → String → String → ℕ → App w × Reply String
  unfolding with_manager send_text
  send_text_message a peer body message_id now =
      with_manager w texts a (λ m. send_text m peer body message_id now)

  unfoldable pub poll_events : App w → App w × Reply (QueueSink w.float.F32 w.float.F64)
  unfolding with_manager Events.drain
  poll_events a =
      with_manager w texts a
        (λ m. let (events, left) = Events.drain m.sink in (record m { sink = left }, reply events))

  unfoldable pub get_conversation_history : App w → String → ℕ → App w × Reply (List StoredMessage)
  unfolding with_manager load_conversation_history
  get_conversation_history a peer limit =
      with_manager w texts a (λ m. (m, reply (load_conversation_history m.storage peer limit)))

  unfoldable pub send_typing_indicator : App w → String → String → Bool → App w × Reply String
  unfolding with_manager try_send
  send_typing_indicator a peer conversation_id is_typing =
      with_manager w texts a
        (λ m. (try_send w m peer (typing_indicator conversation_id is_typing), reply "ok"))

  unfoldable pub mark_message_read : App w → String → String → ℕ → App w × Reply String
  unfolding with_manager try_send Messages.mark_message_read
  mark_message_read a peer message_id now = with_manager w texts a (λ m. (
    try_send w (record m { storage = Messages.mark_message_read m.storage message_id now }) peer
        (read_receipt message_id now),
    reply "ok",
  ))
