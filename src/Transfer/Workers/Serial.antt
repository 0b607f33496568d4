-- ===== src/Transfer/Workers/Serial.antt =====
-- A schedule of `run_sender_workers` that serves a chunk at a time.
use zao_p2p.Prelude.{
  ℕ, ◌<◌, ◌≡◌, refl, sym, ap, ◌∙◌, String, true, false, some, List, [], ◌∷◌, ◌++◌, length, arith,
}
use mathlib.Core.List.{append_assoc, append-nil}
use zao_p2p.Prelude.Bytes.{Bytes}
use zao_p2p.Prelude.Maps.{lookup}
use zao_p2p.CoreError.{Result, ok}
use zao_p2p.Transfer.ChunkFrame.{ChunkFrame, new_frame}
use zao_p2p.Transfer.Files.{Disk, read_chunk, read_chunk_from_source, read_chunk_from_file}
use zao_p2p.Transfer.Handle.{
  TransferHandle, contains, pending_chunk_indices, mark_chunk_acked, record_speed_sample,
}
use zao_p2p.Transfer.Workers.Acked.{run_sender_workers-acked}
use zao_p2p.Transfer.Workers.{
  Workers, WorkersPhase, WorkerTask, running, succeeded, WorkersMove, loop, work, at_head,
  at_permit, permits, has_running, end_task, start_workers, awaited, workers_result, spawn_worker,
  workers_loop, send_chunk, run_worker, workers_move, run_sender_workers,
}

-- For each chunk the loop starts its task, which then ends.
unfoldable pub one_by_one : ℕ → List ℕ → List WorkersMove
one_by_one now [] = loop ∷ []
one_by_one now (i ∷ is) = loop ∷ (loop ∷ (work i now ∷ one_by_one now is))

-- The frames of the chunks of a file.
unfoldable pub frames : (Bytes → Bytes) → Bytes → List ℕ → List ChunkFrame
frames sha256 file [] = []
frames sha256 file (i ∷ is) = new_frame sha256 i (read_chunk file i) ∷ frames sha256 file is

unfoldable all_succeeded : List ℕ → List WorkerTask
all_succeeded [] = []
all_succeeded (i ∷ is) = succeeded i ∷ all_succeeded is

permits-all_succeeded : (is : List ℕ) → permits (all_succeeded is) ≡ 0
unfolding permits all_succeeded
permits-all_succeeded [] = refl
permits-all_succeeded (i ∷ is) = permits-all_succeeded is

awaited-all_succeeded : (is : List ℕ) → awaited (all_succeeded is) ≡ some (ok tt)
unfolding awaited all_succeeded
awaited-all_succeeded [] = refl
awaited-all_succeeded (i ∷ is) = awaited-all_succeeded is

has_running_last :
    (i : ℕ) (is : List ℕ) → has_running i (all_succeeded is ++ (running i ∷ [])) ≡ true
unfolding has_running all_succeeded
has_running_last i [] = ground arith
has_running_last i (j ∷ is) = has_running_last i is

end_task_last :
    (i : ℕ) (is : List ℕ)
    → end_task i (ok tt) (all_succeeded is ++ (running i ∷ [])) ≡ all_succeeded (is ++ (i ∷ []))
unfolding end_task all_succeeded
end_task_last i [] = ground arith
end_task_last i (j ∷ is) = ground (arith, end_task_last i is)

all_succeeded-append :
    (is : List ℕ) (i : ℕ) → all_succeeded is ++ (succeeded i ∷ []) ≡ all_succeeded (is ++ (i ∷ []))
unfolding all_succeeded
all_succeeded-append [] i = refl
all_succeeded-append (j ∷ is) i = ap (λ ts. succeeded j ∷ ts) (all_succeeded-append is i)

paused-mark_chunk_acked :
    (h : TransferHandle) (i len now : ℕ) → (mark_chunk_acked h i len now).paused ≡ h.paused
unfolding mark_chunk_acked record_speed_sample
paused-mark_chunk_acked h i len now = ground arith

cancelled-mark_chunk_acked :
    (h : TransferHandle) (i len now : ℕ) → (mark_chunk_acked h i len now).cancelled ≡ h.cancelled
unfolding mark_chunk_acked record_speed_sample
cancelled-mark_chunk_acked h i len now = ground arith

module _ (sha256 : Bytes → Bytes) (send_fn : ChunkFrame → Result (Unit {0})) (disk : Disk) where
  module _ (file_path : String) (parallelism : ℕ) (file : Bytes) where
    abbrev state :
        WorkersPhase → TransferHandle → List ℕ → List WorkerTask → List ChunkFrame → Workers
    state phase h pending tasks sent = record {
      handle = h;
      phase = phase;
      pending = pending;
      tasks = tasks;
      sent = sent;
    }

    module _ (h : TransferHandle) (i : ℕ) (rest is : List ℕ) (sent : List ChunkFrame) where
      head_round :
          h.paused ≡ false
          → h.cancelled ≡ false
          → workers_move sha256 send_fn disk file_path parallelism
              (state at_head h (i ∷ rest) (all_succeeded is) sent)
              loop
            ≡ state at_permit h (i ∷ rest) (all_succeeded is) sent
      unfolding workers_move workers_loop
      head_round p c = ground (arith, p, c)

      permit_round :
          0 < parallelism
          → workers_move sha256 send_fn disk file_path parallelism
              (state at_permit h (i ∷ rest) (all_succeeded is) sent)
              loop
            ≡ state at_head h rest (all_succeeded is ++ (running i ∷ [])) sent
      unfolding workers_move workers_loop spawn_worker
      permit_round lt = ground (arith, lt, permits-all_succeeded is)

      work_round :
          (now : ℕ)
          → send_chunk sha256 send_fn disk file_path parallelism i
            ≡ ok (new_frame sha256 i (read_chunk file i))
          → workers_move sha256 send_fn disk file_path parallelism
              (state at_head h rest (all_succeeded is ++ (running i ∷ [])) sent)
              (work i now)
            ≡ state at_head
                (mark_chunk_acked h i (length (read_chunk file i)) now)
                rest
                (all_succeeded (is ++ (i ∷ [])))
                (sent ++ (new_frame sha256 i (read_chunk file i) ∷ []))
      unfolding workers_move run_worker new_frame
      work_round now e =
          rw (workers_move, has_running_last i is, run_worker, e, end_task_last i is) refl

      one_by_one_round :
          (now : ℕ) (mvs : List WorkersMove)
          → h.paused ≡ false
          → h.cancelled ≡ false
          → 0 < parallelism
          → send_chunk sha256 send_fn disk file_path parallelism i
            ≡ ok (new_frame sha256 i (read_chunk file i))
          → run_sender_workers sha256 send_fn disk file_path parallelism
              (state at_head h (i ∷ rest) (all_succeeded is) sent)
              (loop ∷ (loop ∷ (work i now ∷ mvs)))
            ≡ run_sender_workers sha256 send_fn disk file_path parallelism
                (state at_head
                  (mark_chunk_acked h i (length (read_chunk file i)) now)
                  rest
                  (all_succeeded (is ++ (i ∷ [])))
                  (sent ++ (new_frame sha256 i (read_chunk file i) ∷ [])))
                mvs
      unfolding run_sender_workers
      one_by_one_round now mvs p c lt e =
          ap
            (λ r.
              run_sender_workers sha256 send_fn disk file_path parallelism
                (workers_move sha256 send_fn disk file_path parallelism
                  (workers_move sha256 send_fn disk file_path parallelism r loop) (work i now))
                mvs)
            (head_round p c)
          ∙ (ap
                (λ r.
                  run_sender_workers sha256 send_fn disk file_path parallelism
                    (workers_move sha256 send_fn disk file_path parallelism r (work i now)) mvs)
                (permit_round lt)
              ∙ ap (λ r. run_sender_workers sha256 send_fn disk file_path parallelism r mvs)
                  (work_round now e))

    send_chunk_read :
        (i : ℕ)
        → lookup file_path disk ≡ some file
        → ((f : ChunkFrame) → send_fn f ≡ ok tt)
        → send_chunk sha256 send_fn disk file_path parallelism i
          ≡ ok (new_frame sha256 i (read_chunk file i))
    unfolding send_chunk read_chunk_from_file read_chunk_from_source
    send_chunk_read i e s = rw (e, s (new_frame sha256 i (read_chunk file i))) refl

    one_by_one_run :
        (now : ℕ) (pending is : List ℕ) (h : TransferHandle) (sent : List ChunkFrame)
        → h.paused ≡ false
        → h.cancelled ≡ false
        → 0 < parallelism
        → lookup file_path disk ≡ some file
        → ((f : ChunkFrame) → send_fn f ≡ ok tt)
        → (workers_result (
              run_sender_workers sha256 send_fn disk file_path parallelism
                (state at_head h pending (all_succeeded is) sent)
                (one_by_one now pending))
            ≡ some (ok tt))
          × ((run_sender_workers sha256 send_fn disk file_path parallelism
                (state at_head h pending (all_succeeded is) sent)
                (one_by_one now pending)).sent
              ≡ sent ++ frames sha256 file pending)
    unfolding one_by_one frames run_sender_workers workers_move workers_loop workers_result
    one_by_one_run now [] is h sent p c lt e s = (awaited-all_succeeded is, sym (append-nil sent))
    one_by_one_run now (i ∷ rest) is h sent p c lt e s =
        rw
          (
            one_by_one_round h i rest is sent now (one_by_one now rest) p c lt
                (send_chunk_read i e s),
            ← append_assoc sent (new_frame sha256 i (read_chunk file i) ∷ [])
                (frames sha256 file rest),
          )
          (one_by_one_run now rest (is ++ (i ∷ []))
            (mark_chunk_acked h i (length (read_chunk file i)) now)
            (sent ++ (new_frame sha256 i (read_chunk file i) ∷ []))
            (paused-mark_chunk_acked h i _ now ∙ p) (cancelled-mark_chunk_acked h i _ now ∙ c) lt e
            s)

    -- On a file that can be read, and with a `send_fn` that does not fail, a transfer that is neither
    -- paused nor cancelled is sent a chunk at a time, with one permit or more: `run_sender_workers`
    -- returns with no error, the frames of the pending chunks were sent, each once and in order, and
    -- every chunk of the transfer is acked.
    pub run_sender_workers-one_by_one :
        (h : TransferHandle) (now k : ℕ)
        → h.paused ≡ false
        → h.cancelled ≡ false
        → 0 < parallelism
        → lookup file_path disk ≡ some file
        → ((f : ChunkFrame) → send_fn f ≡ ok tt)
        → k < h.total_chunks
        → (workers_result (
              run_sender_workers sha256 send_fn disk file_path parallelism
                (start_workers h)
                (one_by_one now (pending_chunk_indices h)))
            ≡ some (ok tt))
          × (((run_sender_workers sha256 send_fn disk file_path parallelism
                  (start_workers h)
                  (one_by_one now (pending_chunk_indices h))).sent
                ≡ frames sha256 file (pending_chunk_indices h))
              × (contains k
                    (run_sender_workers sha256 send_fn disk file_path parallelism
                      (start_workers h)
                      (one_by_one now (pending_chunk_indices h))).handle.acked_chunks
                  ≡ true))
    unfolding start_workers all_succeeded
    run_sender_workers-one_by_one h now k p c lt e s within =
        let both = one_by_one_run now (pending_chunk_indices h) [] h [] p c lt e s in
        (
          both.0,
          (
            both.1,
            run_sender_workers-acked sha256 send_fn disk file_path parallelism h
                (one_by_one now (pending_chunk_indices h)) k both.0 within,
          ),
        )
