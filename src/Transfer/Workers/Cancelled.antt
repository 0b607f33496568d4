-- ===== src/Transfer/Workers/Cancelled.antt =====
-- What `run_sender_workers` still starts once its transfer was cancelled.
use zao_p2p.Prelude.{
  ℕ, ◌+◌, ◌≤◌, ◌≡◌, refl, String, true, inl, inr, List, [], ◌∷◌, length, length-append, arith,
}
use zao_p2p.Prelude.Bytes.{Bytes}
use zao_p2p.CoreError.{Result, Result-cases, ok, err}
use zao_p2p.Transfer.ChunkFrame.{ChunkFrame}
use zao_p2p.Transfer.Files.{Disk}
use zao_p2p.Transfer.Handle
use zao_p2p.Transfer.Handle.{mark_chunk_acked, record_speed_sample}
use zao_p2p.Transfer.Workers.{
  Workers, WorkersPhase, WorkerTask, running, succeeded, failed, WorkersMove, loop, work,
  send_chunk, at_head, in_pause, at_permit, awaiting, returned, end_task, spawn_worker,
  workers_loop, run_worker, workers_move, run_sender_workers,
}

-- Whether the loop waits for a permit, past every test of the cancellation.
abbrev pub at_its_permit : WorkersPhase → ℕ
at_its_permit at_head = 0
at_its_permit in_pause = 0
at_its_permit at_permit = 1
at_its_permit awaiting = 0
at_its_permit returned = 0

length-end_task :
    (i : ℕ) (r : Result (Unit {0})) (ts : List WorkerTask) → length (end_task i r ts) ≡ length ts
unfolding end_task
length-end_task i r [] = refl
length-end_task i r (running j ∷ ts) = ground (arith, length-end_task i r ts)
length-end_task i r (succeeded j ∷ ts) = ground (arith, length-end_task i r ts)
length-end_task i r (failed j e ∷ ts) = ground (arith, length-end_task i r ts)

module _ (sha256 : Bytes → Bytes) (send_fn : ChunkFrame → Result (Unit {0})) (disk : Disk) where
  module _ (file_path : String) (parallelism : ℕ) where
    cancelled-workers_move :
        (r : Workers) (mv : WorkersMove)
        → r.handle.cancelled ≡ true
        → (workers_move sha256 send_fn disk file_path parallelism r mv).handle.cancelled ≡ true
    unfolding workers_move workers_loop spawn_worker run_worker mark_chunk_acked record_speed_sample
        Handle.pause Handle.resume Handle.cancel
    cancelled-workers_move r mv h = ground (arith, h)

    tasks-spawn_worker :
        (r : Workers) (is : List ℕ)
        → length (spawn_worker sha256 send_fn disk file_path parallelism r is).tasks
            + at_its_permit (spawn_worker sha256 send_fn disk file_path parallelism r is).phase
          ≤ length r.tasks + 1
    unfolding spawn_worker
    tasks-spawn_worker r [] = omega arith
    tasks-spawn_worker r (i ∷ is) = omega (arith, length-append r.tasks (running i ∷ []))

    tasks-workers_loop :
        (r : Workers) (p : WorkersPhase)
        → r.phase ≡ p
        → r.handle.cancelled ≡ true
        → length (workers_loop sha256 send_fn disk file_path parallelism r p).tasks
            + at_its_permit (workers_loop sha256 send_fn disk file_path parallelism r p).phase
          ≤ length r.tasks + at_its_permit p
    unfolding workers_loop
    tasks-workers_loop r at_permit q h = ground (arith, q, tasks-spawn_worker r r.pending)
    tasks-workers_loop r p q h = ground (arith, q, h)

    tasks-workers_move :
        (r : Workers) (mv : WorkersMove)
        → r.handle.cancelled ≡ true
        → length (workers_move sha256 send_fn disk file_path parallelism r mv).tasks
            + at_its_permit (workers_move sha256 send_fn disk file_path parallelism r mv).phase
          ≤ length r.tasks + at_its_permit r.phase
    unfolding workers_move run_worker
    tasks-workers_move r loop h = tasks-workers_loop r r.phase refl h
    tasks-workers_move r (work i now) h =
        elim (Result-cases (send_chunk sha256 send_fn disk file_path parallelism i)) [
          | inl (frame, e) ↦ ground (arith, e, length-end_task i (ok tt) r.tasks)
          | inr (er, e) ↦ ground (arith, e, length-end_task i (err er) r.tasks)
        ]
    tasks-workers_move r mv h = omega arith

    tasks-run_sender_workers :
        (mvs : List WorkersMove) (r : Workers)
        → r.handle.cancelled ≡ true
        → length (run_sender_workers sha256 send_fn disk file_path parallelism r mvs).tasks
          ≤ length r.tasks + at_its_permit r.phase
    unfolding run_sender_workers
    tasks-run_sender_workers [] r h = omega arith
    tasks-run_sender_workers (mv ∷ mvs) r h = omega (
      arith,
      tasks-workers_move r mv h,
      tasks-run_sender_workers mvs (workers_move sha256 send_fn disk file_path parallelism r mv)
          (cancelled-workers_move r mv h),
    )
