-- ===== src/Tests/Sending.antt =====
-- A run that sends a file of three bytes.
use zao_p2p.Prelude.{
  ◌⊎◌, ◌*◌, ◌≤◌, ◌+◌, ◌≡◌, refl, true, false, ◌||◌, List, [], ◌∷◌, length, count, arith,
}
use zao_p2p.Prelude.Bytes.{Bytes}
use zao_p2p.Prelude.Maps.{lookup, contains_key}
use zao_p2p.CoreError.{ok, invalid_state}
use zao_p2p.Noise.{transport}
use zao_p2p.Transfer.{default_parallelism}
use zao_p2p.Transfer.Files.{path}
use zao_p2p.Transfer.Handle.{TransferHandle, new, contains, pending_chunk_indices}
use zao_p2p.Manager.{Manager, PeerSession, quic}
use zao_p2p.Manager.Resume.{resume_row}
use zao_p2p.Manager.Resume.Failed.{failed_run_not_resumed}
use zao_p2p.Manager.Sending.{
  Run, Move, loop, work, pause, resume, cancel, disconnect, run_moves, start_run, fresh_run,
  end_run, finish_transfer,
}
use zao_p2p.Manager.Sending.Conservation.{sent}
use zao_p2p.Manager.Sending.Ending.{has_ended, drive, next_of}
use zao_p2p.Manager.Sending.Ending.Schedules.{work_done, is_possible, run_moves_ends}
use zao_p2p.Manager.Sending.Arrival.{
  HasCompleted, drive_completes, running_bounded, sent_once, acked_sent,
}
use zao_p2p.Manager.Sending.Cancelled.{in_hands, cancelled_starts_none}
use zao_p2p.Manager.Sending.Refinement.{Steps, chunks_of, run_moves-Steps}
use zao_p2p.Tests.Concrete

abbrev file : Bytes
file = 1 ∷ 2 ∷ 3 ∷ []

abbrev session : PeerSession Concrete.world
session = record {
  device_id = "peer";
  noise = transport 0;
  outbound = quic [];
  control_open = true;
}

abbrev sender : Manager Concrete.world
sender = record Concrete.manager {
  sessions = ("peer", session) ∷ [];
  disk = ("p", file) ∷ [];
  outgoing_transfers =
      ("t", record { file_source = path "p"; handle = new "t" "f" 3 0; accept_tx = false }) ∷ [];
}

abbrev fresh : Run Concrete.world
fresh = fresh_run Concrete.world sender "peer" "t" (path "p") (new "t" "f" 3 0)

-- The loop pauses and goes on, a worker is started, and it gives its chunk to the stream.
abbrev moves : List Move
moves = pause ∷ loop ∷ resume ∷ loop ∷ loop ∷ work 0 5 ∷ loop ∷ []

-- The connection is lost before the worker has its turn.
abbrev losing : List Move
losing = loop ∷ loop ∷ disconnect ∷ work 0 5 ∷ loop ∷ []

starts : start_run Concrete.world sender "peer" "t" (path "p") (new "t" "f" 3 0) ≡ ok fresh
unfolding start_run lookup
starts = refl

completes : HasCompleted Concrete.world (run_moves Concrete.world fresh moves)
unfolding run_moves contains pending_chunk_indices zao_p2p.Transfer.Handle.pending_below new
    zao_p2p.Transfer.div_ceil zao_p2p.Transfer.Handle.pause zao_p2p.Transfer.Handle.resume
    zao_p2p.Transfer.Files.read_chunk_from_source lookup zao_p2p.Transfer.Handle.mark_chunk_acked
completes = record { ended = refl; not_aborted = refl; none_lost = refl; uncancelled = refl }

drive_completes_example :
    HasCompleted Concrete.world (run_moves Concrete.world fresh (drive Concrete.world 9 fresh 5))
    × (end_run Concrete.world (run_moves Concrete.world fresh (drive Concrete.world 9 fresh 5)) 1
        ≡ (
          finish_transfer Concrete.world
              (run_moves Concrete.world fresh (drive Concrete.world 9 fresh 5))
              1,
          ok tt,
        ))
unfolding lookup new pending_chunk_indices zao_p2p.Transfer.Handle.pending_below
    zao_p2p.Transfer.div_ceil contains
drive_completes_example =
    drive_completes Concrete.world sender "peer" "t" "p" (new "t" "f" 3 0) file fresh 9 5 1 refl
      refl refl starts (omega arith)

running_bounded_example :
    length (run_moves Concrete.world fresh moves).running ≤ default_parallelism
running_bounded_example =
    running_bounded Concrete.world sender "peer" "t" (path "p") (new "t" "f" 3 0) fresh moves starts

sent_once_example :
    (count 0 (sent (run_moves Concrete.world fresh moves).queue) ≤ 1)
    × (count 0 (sent (run_moves Concrete.world fresh moves).queue)
        ≤ count 0 (pending_chunk_indices (new "t" "f" 3 0)))
sent_once_example =
    sent_once Concrete.world sender "peer" "t" (path "p") (new "t" "f" 3 0) fresh moves 0 starts

acked_sent_example : contains 0 (run_moves Concrete.world fresh moves).handle.acked_chunks ≡ (
    contains 0 (sent (run_moves Concrete.world fresh moves).queue)
    || contains 0 (new "t" "f" 3 0).acked_chunks)
acked_sent_example =
    acked_sent Concrete.world sender "peer" "t" (path "p") (new "t" "f" 3 0) fresh moves 0 starts

run_moves_ends_example :
    (work_done Concrete.world fresh moves
      ≤ 4 * length (pending_chunk_indices (new "t" "f" 3 0)) + 3)
    × ((has_ended Concrete.world (run_moves Concrete.world fresh moves) ≡ true)
        ⊎ (is_possible Concrete.world
              (run_moves Concrete.world fresh moves)
              (next_of (run_moves Concrete.world fresh moves).running 9)
            ≡ true))
unfolding run_moves new pending_chunk_indices zao_p2p.Transfer.Handle.pending_below
    zao_p2p.Transfer.div_ceil contains zao_p2p.Transfer.Handle.pause zao_p2p.Transfer.Handle.resume
    zao_p2p.Transfer.Files.read_chunk_from_source lookup zao_p2p.Transfer.Handle.mark_chunk_acked
run_moves_ends_example =
    run_moves_ends Concrete.world sender "peer" "t" (path "p") (new "t" "f" 3 0) fresh moves 9
      starts refl

run_moves-Steps_example :
    Steps
      (chunks_of Concrete.world fresh)
      (chunks_of Concrete.world (run_moves Concrete.world fresh moves))
run_moves-Steps_example = run_moves-Steps Concrete.world moves fresh

failed_run_not_resumed_example :
    resume_row Concrete.world
      (end_run Concrete.world (run_moves Concrete.world fresh losing) 1).0
      "peer"
      ("t", "peer", "send", "p")
      8
      moves
      2
    ≡ (end_run Concrete.world (run_moves Concrete.world fresh losing) 1).0
unfolding contains_key lookup end_run run_moves contains pending_chunk_indices
    zao_p2p.Transfer.Handle.pending_below new zao_p2p.Transfer.div_ceil
    zao_p2p.Transfer.Files.read_chunk_from_source
failed_run_not_resumed_example =
    failed_run_not_resumed Concrete.world sender "peer" "t" "peer" "send" "p" (path "p")
      (new "t" "f" 3 0) fresh losing moves 1 8 2 (invalid_state "chunk worker failed") starts refl
      refl

-- A transfer that was paused, and then cancelled in the wait of that pause.
abbrev cancelled_run : Run Concrete.world
cancelled_run = run_moves Concrete.world fresh (pause ∷ loop ∷ cancel ∷ [])

cancelled_starts_none_example :
    length cancelled_run.pending
    ≤ length (run_moves Concrete.world cancelled_run (loop ∷ loop ∷ loop ∷ [])).pending
      + in_hands cancelled_run.phase
unfolding run_moves zao_p2p.Transfer.Handle.cancel
cancelled_starts_none_example =
    cancelled_starts_none Concrete.world (loop ∷ loop ∷ loop ∷ []) cancelled_run refl
