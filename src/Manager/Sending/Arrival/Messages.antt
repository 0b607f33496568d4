-- ===== src/Manager/Sending/Arrival/Messages.antt =====
-- The messages in a run's queue.
use zao_p2p.Prelude.{
  ℕ, suc, ◌≡◌, refl, ap, sym, ◌∙◌, String, Bool, true, not, ◌||◌, Bool-cases, inl, inr, some, List,
  [], ◌∷◌, ◌++◌, length, arith,
}
use zao_p2p.Prelude.Bytes.{Bytes}
use zao_p2p.Prelude.Maps.{lookup}
use zao_p2p.CoreError.{ok}
use zao_p2p.Protocol.{ProtocolMessage, file_chunk}
use zao_p2p.Transfer.Files.{Disk, path, read_chunk, read_chunk_from_source}
use zao_p2p.Transfer.Handle
use zao_p2p.Transfer.Handle.{TransferHandle, contains, mark_chunk_acked, record_speed_sample}
use zao_p2p.Manager.{World}
use zao_p2p.Manager.Chunks.Delivery.{chunk_of}
use zao_p2p.Manager.Sending.{
  Run, Stream, unopened, opened, closed, Phase, Move, loop, work, pause, resume, cancel,
  writer_ended, disconnect, spawn, with_stream, loop_at, chunk_read, work_on, move, run_moves,
  chunk_message,
}
use zao_p2p.Manager.Sending.Conservation.{sent, sent_append_chunk}
use zao_p2p.Manager.Sending.Ending.{no_worker}
use zao_p2p.Manager.Sending.Ending.Healthy.{is_joining}

abbrev pub chunk_messages : World → Bytes → String → List ℕ → List ProtocolMessage
chunk_messages w src id [] = []
chunk_messages w src id (i ∷ is) = file_chunk (chunk_of w src id i) ∷ chunk_messages w src id is

chunk_messages-append :
    (w : World) (src : Bytes) (id : String) (is js : List ℕ)
    → chunk_messages w src id (is ++ js) ≡ chunk_messages w src id is ++ chunk_messages w src id js
chunk_messages-append w src id [] js = refl
chunk_messages-append w src id (i ∷ is) js =
    ap (λ t. file_chunk (chunk_of w src id i) ∷ t) (chunk_messages-append w src id is js)

pub length-chunk_messages :
    (w : World) (src : Bytes) (id : String) (is : List ℕ)
    → length (chunk_messages w src id is) ≡ length is
length-chunk_messages w src id [] = refl
length-chunk_messages w src id (i ∷ is) = ap suc (length-chunk_messages w src id is)

-- One more message of a chunk.
messages_append :
    (w : World) (src : Bytes) (id t : String) (i : ℕ) (q : List ProtocolMessage)
    → t ≡ id
    → q ≡ chunk_messages w src id (sent q)
    → q ++ (file_chunk (chunk_message w t i (read_chunk src i)) ∷ [])
      ≡ chunk_messages w src id
          (sent (q ++ (file_chunk (chunk_message w t i (read_chunk src i)) ∷ [])))
messages_append w src id t i q same h =
    rw
      (
        sent_append_chunk w t i (read_chunk src i) q,
        chunk_messages-append w src id (sent q) (i ∷ []),
        same,
      )
      (ap (λ l. l ++ (file_chunk (chunk_of w src id i) ∷ [])) h)

module _ (w : World) (src : Bytes) (disk : Disk) (p id : String)
    (there : lookup p disk ≡ some src) where
  -- The queue holds the chunks of the file, as it stands on the disk.
  pub record IsReading (r : Run w) : Type 0 where
    pub disk_same : r.manager.disk ≡ disk
    pub source_same : r.source ≡ path p
    pub id_same : r.transfer_id ≡ id
    pub messages : r.queue ≡ chunk_messages w src id (sent r.queue)

  reads :
      (r : Run w) (i : ℕ)
      → IsReading r
      → read_chunk_from_source r.manager.disk r.source i ≡ ok (read_chunk src i)
  unfolding read_chunk_from_source
  reads r i v =
      ap (λ d. read_chunk_from_source d r.source i) v.disk_same
      ∙ (ap (λ s. read_chunk_from_source disk s i) v.source_same ∙ rw there refl)

  kept-IsReading :
      (r r' : Run w)
      → IsReading r
      → r'.manager.disk ≡ r.manager.disk
      → r'.source ≡ r.source
      → r'.transfer_id ≡ r.transfer_id
      → r'.queue ≡ r.queue
      → IsReading r'
  kept-IsReading r r' v disk source transfer_id queue = record {
    disk_same = disk ∙ v.disk_same;
    source_same = source ∙ v.source_same;
    id_same = transfer_id ∙ v.id_same;
    messages = queue ∙ (v.messages ∙ ap (λ q. chunk_messages w src id (sent q)) (sym queue));
  }

  chunk_read-IsReading :
      (r : Run w) (i now : ℕ) (st : Stream)
      → IsReading r
      → IsReading (chunk_read w r i now (read_chunk src i) st)
  unfolding chunk_read
  chunk_read-IsReading r i now opened v = record {
    disk_same = v.disk_same;
    source_same = v.source_same;
    id_same = v.id_same;
    messages = messages_append w src id r.transfer_id i r.queue v.id_same v.messages;
  }
  chunk_read-IsReading r i now unopened v = kept-IsReading r _ v refl refl refl refl
  chunk_read-IsReading r i now closed v = kept-IsReading r _ v refl refl refl refl

  loop_at-IsReading : (r : Run w) (ph : Phase) → IsReading r → IsReading (loop_at w r ph)
  unfolding loop_at with_stream spawn
  loop_at-IsReading r ph v = record {
    disk_same = ground (arith, v.disk_same);
    source_same = ground (arith, v.source_same);
    id_same = ground (arith, v.id_same);
    messages = ground (arith, v.messages);
  }

  move-IsReading : (r : Run w) (mv : Move) → IsReading r → IsReading (move w r mv)
  unfolding move work_on
  move-IsReading r loop v = loop_at-IsReading r r.phase v
  move-IsReading r (work i now) v = elim (Bool-cases (contains i r.running)) [
    | inl e ↦ rw (move, e, work_on, reads r i v) (chunk_read-IsReading r i now r.stream v)
    | inr e ↦ rw (move, e) v
  ]
  move-IsReading r pause v = kept-IsReading r _ v refl refl refl refl
  move-IsReading r resume v = kept-IsReading r _ v refl refl refl refl
  move-IsReading r cancel v = kept-IsReading r _ v refl refl refl refl
  move-IsReading r writer_ended v = kept-IsReading r _ v refl refl refl refl
  move-IsReading r disconnect v = kept-IsReading r _ v refl refl refl refl

  pub run_moves-IsReading :
      (mvs : List Move) (r : Run w) → IsReading r → IsReading (run_moves w r mvs)
  unfolding run_moves
  run_moves-IsReading [] r v = v
  run_moves-IsReading (mv ∷ mvs) r v = run_moves-IsReading mvs (move w r mv) (move-IsReading r mv v)

-- The loop ends with a chunk not started only if the transfer was cancelled.
abbrev pub all_started : (w : World) → Run w → Bool
all_started w r = not (is_joining r.phase) || no_worker r.pending || r.handle.cancelled

all_started-move :
    (w : World) (r : Run w) (mv : Move)
    → all_started w r ≡ true
    → all_started w (move w r mv) ≡ true
unfolding move loop_at with_stream spawn work_on chunk_read mark_chunk_acked record_speed_sample
    Handle.pause Handle.resume Handle.cancel
all_started-move w r (work i now) h = ground (arith, h)
all_started-move w r mv h = ground (arith, h)

pub all_started-run_moves :
    (w : World) (mvs : List Move) (r : Run w)
    → all_started w r ≡ true
    → all_started w (run_moves w r mvs) ≡ true
unfolding run_moves
all_started-run_moves w [] r h = h
all_started-run_moves w (mv ∷ mvs) r h =
    all_started-run_moves w mvs (move w r mv) (all_started-move w r mv h)
