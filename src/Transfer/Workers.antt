-- ===== src/Transfer/Workers.antt =====
-- `run_sender_workers` of core/src/transfer.rs, with the tasks that it spawns, on the file of a
-- path. `send_fn` is the caller's. A schedule is a list of moves; a move that is not possible changes
-- nothing. A task keeps its place in the list of those that are awaited, with its outcome once it
-- ended. `sent` are the frames that `send_fn` sent, in order. The semaphore is never closed.
pub mod Acked
pub mod Cancelled
pub mod Serial
use zao_p2p.Prelude.{
  ℕ, ◌+◌, String, Bool, true, false, ◌||◌, Option, none, some, List, [], ◌∷◌, ◌++◌, length, ltb,
  ◌==◌, if◌then◌else◌,
}
use zao_p2p.Prelude.Bytes.{Bytes}
use zao_p2p.CoreError.{CoreError, Result, ok, err, ◌>>=◌, invalid_state}
use zao_p2p.Transfer.ChunkFrame.{ChunkFrame, new_frame}
use zao_p2p.Transfer.Files.{Disk, read_chunk_from_file}
use zao_p2p.Transfer.Handle
use zao_p2p.Transfer.Handle.{TransferHandle, pending_chunk_indices}

-- At the head of a round, in the sleep of a pause, before the permit, awaiting the tasks, or out by
-- the cancellation.
pub data WorkersPhase : Type 0 where
  at_head in_pause at_permit awaiting returned : WorkersPhase

-- A chunk's task: at work, or ended, with what it returned.
pub data WorkerTask : Type 0 where
  running succeeded : ℕ → WorkerTask
  failed : ℕ → CoreError → WorkerTask

pub data WorkersMove : Type 0 where
  loop : WorkersMove
  -- the task of a chunk, at an instant
  work : ℕ → ℕ → WorkersMove
  pause resume cancel : WorkersMove

pub record Workers : Type 0 where
  pub handle : TransferHandle
  pub phase : WorkersPhase
  pub pending : List ℕ
  pub tasks : List WorkerTask
  pub sent : List ChunkFrame

-- The permits that are held.
unfoldable pub permits : List WorkerTask → ℕ
permits [] = 0
permits (running i ∷ ts) = permits ts + 1
permits (succeeded i ∷ ts) = permits ts
permits (failed i e ∷ ts) = permits ts

unfoldable pub has_running : ℕ → List WorkerTask → Bool
has_running i [] = false
has_running i (running j ∷ ts) = i == j || has_running i ts
has_running i (succeeded j ∷ ts) = has_running i ts
has_running i (failed j e ∷ ts) = has_running i ts

abbrev pub ended : ℕ → Result (Unit {0}) → WorkerTask
ended i (ok u) = succeeded i
ended i (err e) = failed i e

-- The running task of a chunk ends.
unfoldable pub end_task : ℕ → Result (Unit {0}) → List WorkerTask → List WorkerTask
end_task i r [] = []
end_task i r (running j ∷ ts) = if i == j then ended i r ∷ ts else running j ∷ end_task i r ts
end_task i r (succeeded j ∷ ts) = succeeded j ∷ end_task i r ts
end_task i r (failed j e ∷ ts) = failed j e ∷ end_task i r ts

unfoldable pub start_workers : TransferHandle → Workers
start_workers handle = record {
  handle = handle;
  phase = at_head;
  pending = pending_chunk_indices handle;
  tasks = [];
  sent = [];
}

-- The tasks are awaited in the order of their chunks, up to the first that failed.
unfoldable pub awaited : List WorkerTask → Option (Result (Unit {0}))
awaited [] = some (ok tt)
awaited (running i ∷ ts) = none
awaited (succeeded i ∷ ts) = awaited ts
awaited (failed i e ∷ ts) = some (err e)

-- What the call has returned, if it has.
unfoldable pub workers_result : Workers → Option (Result (Unit {0}))
unfolding awaited
workers_result r = elim r.phase [
  | awaiting ↦ awaited r.tasks
  | returned ↦ some (err (invalid_state "transfer cancelled"))
  | _ ↦ none
]

module _ (sha256 : Bytes → Bytes) (send_fn : ChunkFrame → Result (Unit {0})) (disk : Disk) where
  module _ (file_path : String) (parallelism : ℕ) where
    unfoldable pub spawn_worker : Workers → List ℕ → Workers
    spawn_worker r [] = record r { phase = awaiting }
    spawn_worker r (i ∷ rest) = record r {
      phase = at_head;
      pending = rest;
      tasks = r.tasks ++ (running i ∷ []);
    }

    unfoldable pub workers_loop : Workers → WorkersPhase → Workers
    unfolding spawn_worker permits
    workers_loop r at_head = elim r.pending [
      | [] ↦ record r { phase = awaiting }
      | i ∷ rest ↦
          (if r.handle.cancelled
            then record r { phase = returned }
            else if r.handle.paused
            then record r { phase = in_pause }
            else record r { phase = at_permit })
    ]
    workers_loop r in_pause =
        if r.handle.cancelled
        then record r { phase = returned }
        else if r.handle.paused
        then r
        else record r { phase = at_permit }
    workers_loop r at_permit =
        if ltb (permits r.tasks) parallelism then spawn_worker r r.pending else r
    workers_loop r awaiting = r
    workers_loop r returned = r

    -- The frame of a chunk, once `send_fn` sent it.
    unfoldable pub send_chunk : ℕ → Result ChunkFrame
    unfolding new_frame
    send_chunk i = do
      payload ← read_chunk_from_file disk file_path i
      done ← send_fn (new_frame sha256 i payload)
      ok (new_frame sha256 i payload)

    unfoldable pub run_worker : Workers → ℕ → ℕ → Workers
    unfolding send_chunk end_task
    run_worker r i now = elim (send_chunk i) [
      | err e ↦ record r { tasks = end_task i (err e) r.tasks }
      | ok frame ↦ record r {
        handle = Handle.mark_chunk_acked r.handle i (length frame.payload) now;
        tasks = end_task i (ok tt) r.tasks;
        sent = r.sent ++ (frame ∷ []);
      }
    ]

    unfoldable pub workers_move : Workers → WorkersMove → Workers
    unfolding workers_loop run_worker has_running
    workers_move r loop = workers_loop r r.phase
    workers_move r (work i now) = if has_running i r.tasks then run_worker r i now else r
    workers_move r pause = record r { handle = Handle.pause r.handle }
    workers_move r resume = record r { handle = Handle.resume r.handle }
    workers_move r cancel = record r { handle = Handle.cancel r.handle }

    unfoldable pub run_sender_workers : Workers → List WorkersMove → Workers
    unfolding workers_move
    run_sender_workers r [] = r
    run_sender_workers r (mv ∷ mvs) = run_sender_workers (workers_move r mv) mvs
