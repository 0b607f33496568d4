-- ===== src/Transfer/Workers/Acked.antt =====
-- What a result of `run_sender_workers` says, and what it still starts once it was cancelled.
use zao_p2p.Prelude.{
  ℕ, ◌<◌, ◌≡◌, refl, String, true, ◌||◌, Bool-cases, inl, inr, some, List, [], ◌∷◌, ◌++◌, length,
  arith, ◌==◌,
}
use zao_p2p.Prelude.Bytes.{Bytes}
use zao_p2p.CoreError.{CoreError, Result, ok, err, Result-cases}
use zao_p2p.Transfer.ChunkFrame.{ChunkFrame}
use zao_p2p.Transfer.Files.{Disk}
use zao_p2p.Transfer.Handle
use zao_p2p.Transfer.Handle.{TransferHandle, contains, mark_chunk_acked, record_speed_sample}
use zao_p2p.Transfer.Handle.Pending.{contains-mark_chunk_acked, contains-pending_chunk_indices}
use zao_p2p.Transfer.Workers.{
  Workers, WorkersPhase, WorkerTask, running, succeeded, failed, WorkersMove, loop, work, pause,
  resume, cancel, at_head, in_pause, at_permit, awaiting, returned, has_running, end_task,
  start_workers, awaited, workers_result, spawn_worker, workers_loop, send_chunk, run_worker,
  workers_move, run_sender_workers,
}

-- The chunks whose task has not succeeded.
unfoldable unsent : List WorkerTask → List ℕ
unsent [] = []
unsent (running i ∷ ts) = i ∷ unsent ts
unsent (succeeded i ∷ ts) = unsent ts
unsent (failed i e ∷ ts) = i ∷ unsent ts

contains-unsent_new :
    (k i : ℕ) (ts : List WorkerTask)
    → contains k (unsent (ts ++ (running i ∷ []))) ≡ (contains k (unsent ts) || k == i)
unfolding unsent contains
contains-unsent_new k i [] = ground arith
contains-unsent_new k i (running j ∷ ts) = ground (arith, contains-unsent_new k i ts)
contains-unsent_new k i (succeeded j ∷ ts) = contains-unsent_new k i ts
contains-unsent_new k i (failed j e ∷ ts) = ground (arith, contains-unsent_new k i ts)

contains-unsent_failed :
    (k i : ℕ) (e : CoreError) (ts : List WorkerTask)
    → contains k (unsent (end_task i (err e) ts)) ≡ contains k (unsent ts)
unfolding unsent contains end_task
contains-unsent_failed k i e [] = refl
contains-unsent_failed k i e (running j ∷ ts) = ground (arith, contains-unsent_failed k i e ts)
contains-unsent_failed k i e (succeeded j ∷ ts) = contains-unsent_failed k i e ts
contains-unsent_failed k i e (failed j e' ∷ ts) = ground (arith, contains-unsent_failed k i e ts)

contains-unsent_ok :
    (k i : ℕ) (ts : List WorkerTask)
    → (k == i || contains k (unsent (end_task i (ok tt) ts))) ≡ (k == i || contains k (unsent ts))
unfolding unsent contains end_task
contains-unsent_ok k i [] = refl
contains-unsent_ok k i (running j ∷ ts) = ground (arith, contains-unsent_ok k i ts)
contains-unsent_ok k i (succeeded j ∷ ts) = contains-unsent_ok k i ts
contains-unsent_ok k i (failed j e ∷ ts) = ground (arith, contains-unsent_ok k i ts)

-- The chunks that have no task yet.
abbrev unstarted : WorkersPhase → List ℕ → List ℕ
unstarted at_head is = is
unstarted in_pause is = is
unstarted at_permit is = is
unstarted awaiting is = []
unstarted returned is = is

module _ (sha256 : Bytes → Bytes) (send_fn : ChunkFrame → Result (Unit {0})) (disk : Disk) where
  module _ (file_path : String) (parallelism : ℕ) where
    -- A chunk is acked, or has no task yet, or its task has not succeeded.
    abbrev IsCovered : ℕ → Workers → Type 0
    IsCovered k r =
        (contains k r.handle.acked_chunks
          || (contains k (unstarted r.phase r.pending) || contains k (unsent r.tasks)))
        ≡ true

    spawn_worker-IsCovered :
        (k : ℕ) (r : Workers) (is : List ℕ)
        → (contains k r.handle.acked_chunks || (contains k is || contains k (unsent r.tasks)))
          ≡ true
        → IsCovered k (spawn_worker sha256 send_fn disk file_path parallelism r is)
    unfolding spawn_worker contains
    spawn_worker-IsCovered k r [] h = h
    spawn_worker-IsCovered k r (i ∷ is) h = rw (contains-unsent_new k i r.tasks) (ground (arith, h))

    loop-IsCovered :
        (k : ℕ) (r : Workers) (p : WorkersPhase)
        → r.phase ≡ p
        → IsCovered k r
        → IsCovered k (workers_loop sha256 send_fn disk file_path parallelism r p)
    unfolding workers_loop contains
    loop-IsCovered k r at_head q h = ground (arith, h, q)
    loop-IsCovered k r in_pause q h = ground (arith, h, q)
    loop-IsCovered k r at_permit q h = ground (arith, h, q, spawn_worker-IsCovered k r r.pending)
    loop-IsCovered k r awaiting q h = h
    loop-IsCovered k r returned q h = h

    run_worker-IsCovered :
        (k : ℕ) (r : Workers) (i now : ℕ)
        → IsCovered k r
        → IsCovered k (run_worker sha256 send_fn disk file_path parallelism r i now)
    unfolding run_worker
    run_worker-IsCovered k r i now h =
        elim (Result-cases (send_chunk sha256 send_fn disk file_path parallelism i)) [
          | inl (frame, e) ↦
              rw (run_worker, e)
                (rw (contains-mark_chunk_acked r.handle i (length frame.payload) now k)
                  (ground (arith, h, contains-unsent_ok k i r.tasks)))
          | inr (er, e) ↦ rw (run_worker, e) (rw (contains-unsent_failed k i er r.tasks) h)
        ]

    workers_move-IsCovered :
        (k : ℕ) (r : Workers) (mv : WorkersMove)
        → IsCovered k r
        → IsCovered k (workers_move sha256 send_fn disk file_path parallelism r mv)
    unfolding workers_move Handle.pause Handle.resume Handle.cancel
    workers_move-IsCovered k r loop h = loop-IsCovered k r r.phase refl h
    workers_move-IsCovered k r (work i now) h = elim (Bool-cases (has_running i r.tasks)) [
      | inl e ↦ rw (workers_move, e) (run_worker-IsCovered k r i now h)
      | inr e ↦ rw (workers_move, e) h
    ]
    workers_move-IsCovered k r pause h = h
    workers_move-IsCovered k r resume h = h
    workers_move-IsCovered k r cancel h = h

    run-IsCovered :
        (k : ℕ) (mvs : List WorkersMove) (r : Workers)
        → IsCovered k r
        → IsCovered k (run_sender_workers sha256 send_fn disk file_path parallelism r mvs)
    unfolding run_sender_workers
    run-IsCovered k [] r h = h
    run-IsCovered k (mv ∷ mvs) r h =
        run-IsCovered k mvs (workers_move sha256 send_fn disk file_path parallelism r mv)
          (workers_move-IsCovered k r mv h)

    unsent-awaited : (ts : List WorkerTask) → awaited ts ≡ some (ok tt) → unsent ts ≡ []
    unfolding awaited unsent
    unsent-awaited [] h = refl
    unsent-awaited (running i ∷ ts) h = absurd (ground (arith, h))
    unsent-awaited (succeeded i ∷ ts) h = unsent-awaited ts h
    unsent-awaited (failed i e ∷ ts) h = absurd (ground (arith, h))

    acked_of_result :
        (k : ℕ) (r : Workers) (p : WorkersPhase)
        → r.phase ≡ p
        → workers_result r ≡ some (ok tt)
        → IsCovered k r
        → contains k r.handle.acked_chunks ≡ true
    unfolding workers_result contains
    acked_of_result k r at_head q h c = absurd (ground (arith, h, q))
    acked_of_result k r in_pause q h c = absurd (ground (arith, h, q))
    acked_of_result k r at_permit q h c = absurd (ground (arith, h, q))
    acked_of_result k r awaiting q h c = ground (arith, c, q, h, unsent-awaited r.tasks)
    acked_of_result k r returned q h c = absurd (ground (arith, h, q))

    -- Whatever the schedule, when `run_sender_workers` returns with no error every chunk of the
    -- transfer is acked.
    pub run_sender_workers-acked :
        (handle : TransferHandle) (mvs : List WorkersMove) (k : ℕ)
        → workers_result (
            run_sender_workers sha256 send_fn disk file_path parallelism (start_workers handle) mvs)
          ≡ some (ok tt)
        → k < handle.total_chunks
        → contains k
            (run_sender_workers sha256 send_fn disk file_path parallelism
              (start_workers handle)
              mvs).handle.acked_chunks
          ≡ true
    unfolding start_workers contains unsent
    run_sender_workers-acked handle mvs k h lt = acked_of_result k _ _ refl h (
        run-IsCovered k mvs (start_workers handle)
          (ground (arith, contains-pending_chunk_indices k handle, lt)))
