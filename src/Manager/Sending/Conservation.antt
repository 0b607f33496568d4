-- ===== src/Manager/Sending/Conservation.antt =====
-- Every chunk of a run is at one place: not started, with its worker, lost, or in the queue.
use zao_p2p.Prelude.{
  ℕ, String, ◌+◌, ◌≤◌, ◌≡◌, refl, ◌∙◌, true, ◌||◌, Bool-cases, inl, inr, List, [], ◌∷◌, ◌++◌,
  length, count, count-append, arith,
}
use mathlib.Core.List.{append_assoc}
use zao_p2p.Prelude.Bytes.{Bytes}
use zao_p2p.CoreError.{Result-cases}
use zao_p2p.Protocol.{ProtocolMessage, file_chunk}
use zao_p2p.Transfer.{default_parallelism}
use zao_p2p.Transfer.Files.{read_chunk_from_source}
use zao_p2p.Transfer.Handle
use zao_p2p.Transfer.Handle.{TransferHandle, contains, pending_chunk_indices}
use zao_p2p.Transfer.Handle.Pending.{contains-append, contains-mark_chunk_acked}
use zao_p2p.Manager.{World}
use zao_p2p.Manager.Sending.{
  Run, Stream, unopened, opened, closed, Phase, Move, loop, work, pause, resume, cancel, disconnect,
  writer_ended, chunk_message, spawn, with_stream, loop_at, chunk_read, work_on, move, run_moves,
}
use zao_p2p.Manager.Sending.Counts.{count-remove_one, length-remove_one}

-- The chunks whose messages are in the queue.
abbrev pub index_of : ProtocolMessage → List ℕ
index_of (file_chunk c) = c.chunk_index ∷ []
index_of m = []

unfoldable pub sent : List ProtocolMessage → List ℕ
sent [] = []
sent (m ∷ q) = index_of m ++ sent q

pub sent_append_chunk :
    (w : World) (transfer_id : String) (i : ℕ) (payload : Bytes) (q : List ProtocolMessage)
    → sent (q ++ (file_chunk (chunk_message w transfer_id i payload) ∷ [])) ≡ sent q ++ (i ∷ [])
unfolding sent
sent_append_chunk w t i payload [] = refl
sent_append_chunk w t i payload (m ∷ q) = simp (sent_append_chunk w t i payload q, append_assoc)

module _ (w : World) where
  -- Where chunk `k` is, counted.
  abbrev pub places : ℕ → Run w → ℕ
  places k r = count k r.pending + count k r.running + (count k r.lost + count k (sent r.queue))

  places-loop_at : (k : ℕ) (r : Run w) (p : Phase) → places k (loop_at w r p) ≡ places k r
  unfolding loop_at with_stream spawn
  places-loop_at k r p = ground arith

  places-chunk_read :
      (k : ℕ) (r : Run w) (i now : ℕ) (payload : Bytes) (st : Stream)
      → contains i r.running ≡ true
      → places k (chunk_read w r i now payload st) ≡ places k r
  unfolding chunk_read
  places-chunk_read k r i now payload opened h = ground (
    arith,
    count-remove_one k i r.running,
    sent_append_chunk w r.transfer_id i payload r.queue,
    count-append k (sent r.queue) (i ∷ []),
    h,
  )
  places-chunk_read k r i now payload unopened h = ground (arith, count-remove_one k i r.running, h)
  places-chunk_read k r i now payload closed h = ground (arith, count-remove_one k i r.running, h)

  places-work_on :
      (k : ℕ) (r : Run w) (i now : ℕ)
      → contains i r.running ≡ true
      → places k (work_on w r i now) ≡ places k r
  unfolding work_on
  places-work_on k r i now h =
      elim (Result-cases (read_chunk_from_source r.manager.disk r.source i)) [
        | inl (payload, e) ↦ rw (work_on, e) (places-chunk_read k r i now payload r.stream h)
        | inr (er, e) ↦ rw (work_on, e) (ground (arith, count-remove_one k i r.running, h))
      ]

  places-move : (k : ℕ) (r : Run w) (mv : Move) → places k (move w r mv) ≡ places k r
  unfolding move
  places-move k r loop = places-loop_at k r r.phase
  places-move k r (work i now) = elim (Bool-cases (contains i r.running)) [
    | inl e ↦ rw (move, e) (places-work_on k r i now e)
    | inr e ↦ rw (move, e) refl
  ]
  places-move k r pause = refl
  places-move k r resume = refl
  places-move k r cancel = refl
  places-move k r writer_ended = refl
  places-move k r disconnect = refl

  pub places-run_moves :
      (k : ℕ) (mvs : List Move) (r : Run w) → places k (run_moves w r mvs) ≡ places k r
  unfolding run_moves
  places-run_moves k [] r = refl
  places-run_moves k (mv ∷ mvs) r = places-run_moves k mvs (move w r mv) ∙ places-move k r mv

  -- At most `default_parallelism` workers.
  permits-move :
      (r : Run w) (mv : Move)
      → length r.running ≤ default_parallelism
      → length (move w r mv).running ≤ default_parallelism
  unfolding move loop_at with_stream spawn work_on chunk_read
  permits-move r (work i now) h = ground (arith, length-remove_one i r.running)
  permits-move r mv h = ground arith

  pub permits-run_moves :
      (mvs : List Move) (r : Run w)
      → length r.running ≤ default_parallelism
      → length (run_moves w r mvs).running ≤ default_parallelism
  unfolding run_moves
  permits-run_moves [] r h = h
  permits-run_moves (mv ∷ mvs) r h = permits-run_moves mvs (move w r mv) (permits-move r mv h)

  -- What is acked: what was, and what is in the queue.
  abbrev pub AckedOrSent : ℕ → Run w → TransferHandle → Type 0
  AckedOrSent k r first =
      contains k r.handle.acked_chunks
      ≡ (contains k (sent r.queue) || contains k first.acked_chunks)

  acked-chunk_read :
      (k : ℕ) (first : TransferHandle) (r : Run w) (i now : ℕ) (payload : Bytes) (st : Stream)
      → AckedOrSent k r first
      → AckedOrSent k (chunk_read w r i now payload st) first
  unfolding chunk_read contains
  acked-chunk_read k first r i now payload opened h =
      rw
        (
          contains-mark_chunk_acked r.handle i (length payload) now k,
          sent_append_chunk w r.transfer_id i payload r.queue,
          contains-append k (sent r.queue) (i ∷ []),
          h,
        )
        (ground arith)
  acked-chunk_read k first r i now payload unopened h = h
  acked-chunk_read k first r i now payload closed h = h

  acked-move :
      (k : ℕ) (first : TransferHandle) (r : Run w) (mv : Move)
      → AckedOrSent k r first
      → AckedOrSent k (move w r mv) first
  unfolding move loop_at with_stream spawn Handle.pause Handle.resume Handle.cancel
  acked-move k first r loop h = ground (arith, h)
  acked-move k first r (work i now) h = elim (Bool-cases (contains i r.running)) [
    | inr e ↦ rw (move, e) h
    | inl e ↦
        rw (move, e)
          (elim (Result-cases (read_chunk_from_source r.manager.disk r.source i)) [
            | inl (payload, e') ↦
                rw (work_on, e') (acked-chunk_read k first r i now payload r.stream h)
            | inr (er, e') ↦ rw (work_on, e') h
          ])
  ]
  acked-move k first r pause h = h
  acked-move k first r resume h = h
  acked-move k first r cancel h = h
  acked-move k first r writer_ended h = h
  acked-move k first r disconnect h = h

  pub acked-run_moves :
      (k : ℕ) (first : TransferHandle) (mvs : List Move) (r : Run w)
      → AckedOrSent k r first
      → AckedOrSent k (run_moves w r mvs) first
  unfolding run_moves
  acked-run_moves k first [] r h = h
  acked-run_moves k first (mv ∷ mvs) r h =
      acked-run_moves k first mvs (move w r mv) (acked-move k first r mv h)
