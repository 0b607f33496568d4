-- ===== src/Ffi/Pending.antt =====
-- What `send_text_message` leaves in the database.
use zao_p2p.Prelude.{
  ℕ, ◌≡◌, refl, ap, ◌∙◌, String, Bool, true, false, eq_refl, ◌||◌, Bool-cases, inl, inr, none, some,
  List, [], ◌∷◌, ◌++◌, arith,
}
use zao_p2p.CoreError.{ok}
use zao_p2p.Protocol.{text}
use zao_p2p.Sql.{exists}
use zao_p2p.Storage.{Storage, StoredMessage, is_device, is_conversation, is_message}
use zao_p2p.Storage.Messages.{get_or_create_conversation, insert_message}
use zao_p2p.Manager.{World, Manager}
use zao_p2p.Manager.Effects.{send_to-SameBut}
use zao_p2p.Ffi.{App, Session, Reply, Texts, with_manager, opened_storage}
use zao_p2p.Ffi.Chat.{store_outgoing, send_text, send_text_message}

abbrev pub pending_row : String → String → String → ℕ → StoredMessage
pending_row peer body message_id now = record {
  message_id = message_id;
  conversation_id = peer;
  sender_device_id = "self";
  body = body;
  msg_type = "text";
  sent_at = now;
  delivered_at = none;
  read_at = none;
  status = "pending";
}

abbrev may_talk : Storage → String → Bool
may_talk s peer = exists (is_conversation peer) s.conversations || exists (is_device peer) s.devices

exists-last :
    {A : Type 0} (q : A → Bool) (rows : List A) (r : A)
    → q r ≡ true
    → exists q (rows ++ (r ∷ [])) ≡ true
unfolding exists
exists-last q [] r h = ground (arith, h)
exists-last q (x ∷ rows) r h = ground (arith, exists-last q rows r h)

-- Storage in which the peer has its conversation, and the messages are those of `s`.
record HasConversation (s s' : Storage) (peer : String) : Type 0 where
  pub there : exists (is_conversation peer) s'.conversations ≡ true
  pub messages_same : s'.messages ≡ s.messages

abbrev with_conversation : Storage → String → ℕ → Storage
with_conversation s peer now = record s {
  conversations =
      s.conversations
      ++ (record { conversation_id = peer; peer_device_id = peer; created_at = now } ∷ []);
}

conversation_of :
    (s : Storage) (peer : String) (now : ℕ)
    → may_talk s peer ≡ true
    → (s' : Storage) × ((get_or_create_conversation s peer now ≡ ok (peer, s'))
        × HasConversation s s' peer)
unfolding get_or_create_conversation
conversation_of s peer now talks =
    elim (Bool-cases (exists (is_conversation peer) s.conversations)) [
      | inl e ↦ (s, (rw e refl, record { there = e; messages_same = refl }))
      | inr e ↦
          let known : exists (is_device peer) s.devices ≡ true = ground (arith, talks, e) in
          (
            with_conversation s peer now,
            (
              rw (e, known) refl,
              record {
                there = exists-last (is_conversation peer) s.conversations _ (eq_refl peer);
                messages_same = refl;
              },
            ),
          )
    ]

insert_outgoing :
    (s s' : Storage) (peer body message_id : String) (now : ℕ)
    → HasConversation s s' peer
    → exists (is_message message_id) s.messages ≡ false
    → (s'' : Storage) × ((insert_message s' message_id peer "self" body "text" now "pending"
          ≡ ok s'')
        × (s''.messages ≡ s.messages ++ (pending_row peer body message_id now ∷ [])))
unfolding insert_message
insert_outgoing s s' peer body message_id now has fresh = (
  record s' { messages = s'.messages ++ (pending_row peer body message_id now ∷ []) },
  (
    rw (ap (exists (is_message message_id)) has.messages_same ∙ fresh, has.there) refl,
    ap (λ l. l ++ (pending_row peer body message_id now ∷ [])) has.messages_same,
  ),
)

store_outgoing_new :
    (w : World) (texts : Texts w.crypto.hex_encode) (s : Storage) (peer body message_id : String)
    (now : ℕ)
    → may_talk s peer ≡ true
    → exists (is_message message_id) s.messages ≡ false
    → (s' : Storage) × ((store_outgoing w texts s peer body message_id now now ≡ (ok s', s'))
        × (s'.messages ≡ s.messages ++ (pending_row peer body message_id now ∷ [])))
unfolding store_outgoing
store_outgoing_new w texts s peer body message_id now talks fresh =
    let (s1, (e1, has)) = conversation_of s peer now talks in
    let (s2, (e2, rows)) = insert_outgoing s s1 peer body message_id now has fresh in
    (s2, (rw (store_outgoing, e1, e2) refl, rows))

opened-with_manager :
    (w : World) (texts : Texts w.crypto.hex_encode) (a : App w) (sess : Session w) {A : Type 0}
    (f : Manager w → Manager w × Reply A)
    → a.session ≡ some sess
    → opened_storage w texts (with_manager w texts a f).0 ≡ (f sess.connection_manager).0.storage
unfolding with_manager opened_storage
opened-with_manager w texts a sess f runs = rw (with_manager, runs) refl

messages-send_text :
    (w : World) (texts : Texts w.crypto.hex_encode) (m : Manager w) (peer body message_id : String)
    (now : ℕ)
    → may_talk m.storage peer ≡ true
    → exists (is_message message_id) m.storage.messages ≡ false
    → (send_text w texts m peer body message_id now).0.storage.messages
      ≡ m.storage.messages ++ (pending_row peer body message_id now ∷ [])
unfolding send_text
messages-send_text w texts m peer body message_id now talks fresh =
    let (s, (e, rows)) =
      store_outgoing_new w texts m.storage peer body message_id now talks fresh in
    rw (send_text, e)
      (ap (λ t. t.messages)
          (send_to-SameBut w
            (record m {
              storage = (store_outgoing w texts m.storage peer body message_id now now).1;
            })
            peer
            (text (record {
              message_id = message_id;
              conversation_id = peer;
              body = body;
              sent_at_unix = now;
            }))).storage
        ∙ (ap (λ p. p.1.messages) e ∙ rows))

-- To a peer that is known or has a conversation, `send_text_message` with a new id adds just that
-- message to the table of messages, as "pending", whether or not it can be sent.
pub send_text_message_stores :
    (w : World) (texts : Texts w.crypto.hex_encode) (a : App w) (sess : Session w)
    (peer body message_id : String) (now : ℕ)
    → a.session ≡ some sess
    → may_talk sess.connection_manager.storage peer ≡ true
    → exists (is_message message_id) sess.connection_manager.storage.messages ≡ false
    → (opened_storage w texts (send_text_message w texts a peer body message_id now).0).messages
      ≡ sess.connection_manager.storage.messages ++ (pending_row peer body message_id now ∷ [])
unfolding send_text_message
send_text_message_stores w texts a sess peer body message_id now runs talks fresh =
    ap (λ s. s.messages) (opened-with_manager w texts a sess _ runs)
    ∙ messages-send_text w texts sess.connection_manager peer body message_id now talks fresh
