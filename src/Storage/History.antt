-- ===== src/Storage/History.antt =====
-- `load_conversation_history`: the newest messages of one conversation, the oldest first.
use mathlib.Core.List.{Pairwise, Perm, Pairwise-reverse, reverse-append, reverse_perm}
use mathlib.Core.List.Perm
use zao_p2p.Prelude.{
  ℕ, ◌≤◌, ◌≡◌, ap, sym, ◌∙◌, min, String, List, ◌++◌, length, length-take, take, drop, reverse,
  take-append-drop, length-reverse,
}
use native.Mathlib.Bridge.{le_prop}
use zao_p2p.Sql.{select, order_by_desc}
use zao_p2p.Sql.Order.{order_by_desc-perm, order_by_desc-IsDescending, length-order_by_desc}
use zao_p2p.Storage.{Storage, StoredMessage, in_conversation}
use zao_p2p.Storage.Messages.{load_conversation_history}

-- The messages of the conversation are some that are left out and then those loaded: together they
-- are in ascending order of their times, so that none left out is later than one loaded. As many
-- are loaded as the limit lets, or as there are.
pub load_conversation_history_lem :
    (s : Storage) (conversation_id : String) (limit : ℕ)
    → (left_out : List StoredMessage) × Perm
        (left_out ++ load_conversation_history s conversation_id limit)
        (select (in_conversation conversation_id) s.messages)
      × Pairwise
          (λ a b. a.sent_at ≤ b.sent_at)
          (left_out ++ load_conversation_history s conversation_id limit)
      × (length (load_conversation_history s conversation_id limit)
          ≡ min limit (length (select (in_conversation conversation_id) s.messages)))
unfolding load_conversation_history
load_conversation_history_lem s conversation_id limit = (
  reverse (drop limit sorted),
  rw joined (Perm.trans (reverse_perm sorted) (order_by_desc-perm (λ r. r.sent_at) rows)),
  rw joined (
      (Pairwise-reverse (λ a b. le_prop) {l = sorted}).1
        (order_by_desc-IsDescending (λ r. r.sent_at) rows)),
  rw (length-reverse (take limit sorted), length-take limit sorted)
      (ap (λ (n : ℕ). min limit n) (length-order_by_desc (λ r. r.sent_at) rows)),
)
  where
    rows : List StoredMessage
    rows = select (in_conversation conversation_id) s.messages

    sorted : List StoredMessage
    sorted = order_by_desc (λ r. r.sent_at) rows

    joined : reverse (drop limit sorted) ++ reverse (take limit sorted) ≡ reverse sorted
    joined =
        sym (reverse-append (take limit sorted) (drop limit sorted))
        ∙ ap reverse (take-append-drop limit sorted)
