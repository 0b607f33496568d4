-- ===== src/Manager/Sending/Arrival.antt =====
-- What a run gives to its stream, and what a receiver makes of it.
pub mod Messages
pub mod Whole
use mathlib.Core.Path.{subst}
use zao_p2p.Prelude.{
  ℕ, zero, suc, ◌+◌, ◌≤◌, ◌<◌, ◌^◌, ◌≡◌, refl, ap, sym, ◌∙◌, String, Bool, true, false, not, ◌&&◌,
  ◌||◌, Bool-cases, inl, inr, Option, none, some, List, [], ◌∷◌, ◌++◌, length, count, ltb, ◌==◌,
  ==_iff, if◌then◌else◌, arith, lt→ltb,
}
use zao_p2p.Prelude.Bytes.{Bytes}
use zao_p2p.Prelude.Maps.{lookup}
use zao_p2p.CoreError.{Result, ok, err}
use zao_p2p.Protocol.{ProtocolMessage, FileOffer}
use zao_p2p.Transfer.{chunk_size, div_ceil, default_parallelism}
use zao_p2p.Transfer.Files.{FileSource, path}
use zao_p2p.Transfer.Files.Reassembly.{AllInFile}
use zao_p2p.Transfer.Handle.{TransferHandle, contains, new, pending_chunk_indices}
use zao_p2p.Transfer.Handle.Pending.{contains-pending_chunk_indices}
use zao_p2p.Storage.Transfers.{load_acked_chunks}
use zao_p2p.Manager.{World, Manager}
use zao_p2p.Manager.Chunks.Delivery.{deliver_chunks, chunk_indices, without_clocks}
use zao_p2p.Manager.Offers.{accept_file}
use zao_p2p.Manager.Offers.Restart.{accept_file-deliver_chunks}
use zao_p2p.Manager.Sending.{
  Run, Phase, joining, Move, run_moves, start_run, fresh_run, end_run, finish_transfer,
}
use zao_p2p.Manager.Sending.Counts.{contains-count, count-pending_chunk_indices}
use zao_p2p.Manager.Sending.Conservation.{
  sent, places, places-run_moves, permits-run_moves, acked-run_moves,
}
use zao_p2p.Manager.Sending.Ending.{has_ended, no_worker, drive, measure, run_moves-drive}
use zao_p2p.Manager.Sending.Ending.Healthy.{Healthy, drive-Healthy, is_aborted, is_joining}
use zao_p2p.Manager.Sending.Arrival.Messages.{
  chunk_messages, IsReading, run_moves-IsReading, all_started, all_started-run_moves,
}

pub start_run_lem :
    (w : World) (m : Manager w) (peer id : String) (source : FileSource) (h : TransferHandle)
    (r : Run w)
    → start_run w m peer id source h ≡ ok r
    → fresh_run w m peer id source h ≡ r
unfolding start_run
start_run_lem w m peer id source h r e = ground (arith, e)

-- Whatever the schedule, at most `default_parallelism` chunks of a transfer have a worker.
pub running_bounded :
    (w : World) (m : Manager w) (peer id : String) (source : FileSource) (h : TransferHandle)
    (r : Run w) (mvs : List Move)
    → start_run w m peer id source h ≡ ok r
    → length (run_moves w r mvs).running ≤ default_parallelism
running_bounded w m peer id source h r mvs e =
    permits-run_moves w mvs r (rw (← start_run_lem w m peer id source h r e) (omega arith))

-- Whatever the schedule, a chunk is given to the stream at most once, and only if it was pending.
pub sent_once :
    (w : World) (m : Manager w) (peer id : String) (source : FileSource) (h : TransferHandle)
    (r : Run w) (mvs : List Move) (k : ℕ)
    → start_run w m peer id source h ≡ ok r
    → (count k (sent (run_moves w r mvs).queue) ≤ 1)
      × (count k (sent (run_moves w r mvs).queue) ≤ count k (pending_chunk_indices h))
unfolding sent
sent_once w m peer id source h r mvs k e =
    let start = start_run_lem w m peer id source h r e in
    let kept : places w k (run_moves w r mvs) ≡ count k (pending_chunk_indices h) =
      places-run_moves w k mvs r ∙ rw (← start) (omega arith) in
    let few = count-pending_chunk_indices k h in (ground (arith, kept, few), omega (arith, kept))

-- Whatever the schedule, exactly the chunks given to the stream are acked, besides those that were.
pub acked_sent :
    (w : World) (m : Manager w) (peer id : String) (source : FileSource) (h : TransferHandle)
    (r : Run w) (mvs : List Move) (k : ℕ)
    → start_run w m peer id source h ≡ ok r
    → contains k (run_moves w r mvs).handle.acked_chunks
      ≡ (contains k (sent (run_moves w r mvs).queue) || contains k h.acked_chunks)
unfolding sent contains
acked_sent w m peer id source h r mvs k e =
    acked-run_moves w k h mvs r (rw (← start_run_lem w m peer id source h r e) refl)

-- A run that ended with no error, not cancelled: `end_run` completes it.
pub record HasCompleted (w : World) (r : Run w) : Type 0 where
  pub ended : has_ended w r ≡ true
  pub not_aborted : is_aborted r.phase ≡ false
  pub none_lost : r.lost ≡ []
  pub uncancelled : r.handle.cancelled ≡ false

-- A completed run gave exactly the pending chunks to the stream.
pub completed_sent :
    (w : World) (m : Manager w) (peer id : String) (source : FileSource) (h : TransferHandle)
    (mvs : List Move) (k : ℕ)
    → HasCompleted w (run_moves w (fresh_run w m peer id source h) mvs)
    → contains k (sent (run_moves w (fresh_run w m peer id source h) mvs).queue)
      ≡ contains k (pending_chunk_indices h)
unfolding sent
completed_sent w m peer id source h mvs k done =
    let first = fresh_run w m peer id source h in
    let r' = run_moves w first mvs in
    let kept : places w k r' ≡ count k (pending_chunk_indices h) =
      places-run_moves w k mvs first ∙ omega arith in
    ground (
      arith,
      kept,
      all_started-run_moves w mvs first refl,
      done.ended,
      done.not_aborted,
      done.none_lost,
      done.uncancelled,
      contains-count k (sent r'.queue),
      contains-count k (pending_chunk_indices h),
    )

-- A run of a file that can be read, neither paused nor cancelled: the schedule that lets workers and
-- loop go on, with no loss of the connection, completes it after as many moves as its measure or
-- more, and `end_run` then ends with no error.
pub drive_completes :
    (w : World) (m : Manager w) (peer id p : String) (h : TransferHandle) (src : Bytes) (r : Run w)
    (n now now_unix : ℕ)
    → lookup p m.disk ≡ some src
    → h.paused ≡ false
    → h.cancelled ≡ false
    → start_run w m peer id (path p) h ≡ ok r
    → measure w r ≤ n
    → HasCompleted w (run_moves w r (drive w n r now))
      × (end_run w (run_moves w r (drive w n r now)) now_unix
          ≡ (finish_transfer w (run_moves w r (drive w n r now)) now_unix, ok tt))
unfolding end_run
drive_completes w m peer id p h src r n now now_unix there unpaused uncancelled starts few =
    let start = start_run_lem w m peer id (path p) h r starts in
    let healthy : Healthy w m.disk p (run_moves w r (drive w n r now)) =
      drive-Healthy w m.disk p src there n r now (
        subst (Healthy w m.disk p) start (record {
          disk_same = refl;
          source_same = refl;
          connected = refl;
          usable = refl;
          ready = refl;
          none_lost = refl;
          unpaused = unpaused;
          uncancelled = uncancelled;
          not_aborted = refl;
          all_started = refl;
        })) in
    let ends = run_moves-drive w n r now (rw (← start) unpaused) few in
    (
      record {
        ended = ends;
        not_aborted = healthy.not_aborted;
        none_lost = healthy.none_lost;
        uncancelled = healthy.uncancelled;
      },
      ground (arith, healthy.not_aborted, healthy.none_lost),
    )
