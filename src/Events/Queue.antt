-- ===== src/Events/Queue.antt =====
-- No event is lost or repeated between two polls.
use zao_p2p.Prelude.{◌≡◌, sym, List, [], ◌∷◌, ◌++◌}
use mathlib.Core.List.{append_assoc, append-nil}
use zao_p2p.Events.{AppEvent, QueueSink, push, drain}

module _ {F32 F64 : Type 0} where
  unfoldable pub push_all : QueueSink F32 F64 → List (AppEvent F32 F64) → QueueSink F32 F64
  push_all q [] = q
  push_all q (e ∷ es) = push_all (push q e) es

  push_all-append : (q : QueueSink F32 F64) (es : List (AppEvent F32 F64)) → push_all q es ≡ q ++ es
  unfolding push_all push
  push_all-append q [] = sym (append-nil q)
  push_all-append q (e ∷ es) = rw (push_all-append (q ++ (e ∷ [])) es) (append_assoc q (e ∷ []) es)

  -- Polled after some events and again after some more, the queue gives each event once, in order.
  pub drain_twice :
      (q : QueueSink F32 F64) (first later : List (AppEvent F32 F64))
      → (drain (push_all q first)).0 ++ (drain (push_all (drain (push_all q first)).1 later)).0
        ≡ q ++ (first ++ later)
  unfolding drain
  drain_twice q first later =
      rw (push_all-append q first, push_all-append [] later) (append_assoc q first later)
