-- ===== src/Manager/Sending.antt =====
-- `run_outgoing_transfer` of core/src/connection_manager.rs, with the tasks that
-- it spawns: the loop over the pending chunks, a worker for each chunk, and what the user and the
-- connection do meanwhile. A schedule is a list of moves; a move that is not possible changes
-- nothing. `queue` are the messages given to the transfer's stream, in order. `lost` are the chunks
-- whose worker ended with an error.
-- To read, send and ack a chunk is one move of its worker: that a chunk was sent and is not yet acked
-- is no state of a run.
-- On a relayed session each chunk has a channel of its own, with a task that forwards its message:
-- such a run has no move `writer_ended` or `disconnect`, and `queue` are the messages of them all.
pub mod Counts
pub mod Conservation
pub mod Ending
pub mod Arrival
pub mod Refinement
pub mod Cancelled
use zao_p2p.Prelude.{
  ℕ, zero, suc, String, Bool, true, false, Option, none, some, List, [], ◌∷◌, ◌++◌, length, ltb,
  ◌==◌, if◌then◌else◌,
}
use zao_p2p.Prelude.Maps.{lookup, remove}
use zao_p2p.CoreError.{CoreError, Result, ok, err, unwrap_or, not_found, invalid_state}
use zao_p2p.Protocol.{ProtocolMessage, FileChunkMessage, file_chunk, file_transfer_cancelled}
use zao_p2p.Events
use zao_p2p.Transfer.{default_parallelism, TransferState, active, completed, cancelled, as_str}
use zao_p2p.Transfer.Files.{FileSource, read_chunk_from_source}
use zao_p2p.Transfer.Handle
use zao_p2p.Transfer.Handle.{TransferHandle, contains, pending_chunk_indices, progress}
use zao_p2p.Storage.Transfers.{update_transfer_state}
use zao_p2p.Storage.Transfers
use zao_p2p.Prelude.Bytes.{Bytes}
use zao_p2p.Manager.{World, Manager, PeerSession, try_send}

-- Where the loop stands: at the head of a round, in the `while` of a pause, before the permit, after
-- the last round, or out by the error of `transfer_stream_sender`.
pub data Phase : Type 0 where
  at_head waiting at_permit joining aborted : Phase

pub data Stream : Type 0 where
  unopened opened closed : Stream

pub data Move : Type 0 where
  -- the loop
  loop : Move
  -- the worker of a chunk, at an instant
  work : ℕ → ℕ → Move
  -- the user; the end of the stream's writer; the loss of the connection
  pause resume cancel writer_ended disconnect : Move

abbrev pub closed_after : Stream → Stream
closed_after unopened = unopened
closed_after opened = closed
closed_after closed = closed

-- One occurrence less.
unfoldable pub remove_one : ℕ → List ℕ → List ℕ
remove_one i [] = []
remove_one i (j ∷ js) = if i == j then js else j ∷ remove_one i js

-- `FileChunkMessage` of a chunk that was read.
abbrev pub chunk_message : World → String → ℕ → Bytes → FileChunkMessage
chunk_message w transfer_id i payload = record {
  transfer_id = transfer_id;
  chunk_index = i;
  payload = payload;
  checksum_sha256 = w.crypto.sha256 payload;
}

module _ (w : World) where
  pub record Run : Type 0 where
    pub manager : Manager w
    pub peer : String
    pub transfer_id : String
    pub source : FileSource
    pub handle : TransferHandle
    pub connected : Bool
    pub stream : Stream
    pub phase : Phase
    pub pending : List ℕ
    pub running : List ℕ
    pub queue : List ProtocolMessage
    pub lost : List ℕ

module _ (w : World) where
  abbrev pub fresh_run : Manager w → String → String → FileSource → TransferHandle → Run w
  fresh_run m peer transfer_id source handle = record {
    manager = m;
    peer = peer;
    transfer_id = transfer_id;
    source = source;
    handle = handle;
    connected = true;
    stream = unopened;
    phase = at_head;
    pending = pending_chunk_indices handle;
    running = [];
    queue = [];
    lost = [];
  }

  -- The beginning: the session of the peer, and the pending chunks.
  unfoldable pub start_run :
      Manager w → String → String → FileSource → TransferHandle → Result (Run w)
  start_run m peer transfer_id source handle = elim (lookup peer m.sessions) [
    | none ↦ err (not_found "peer not connected")
    | some session ↦ ok (fresh_run m peer transfer_id source handle)
  ]

  -- The next chunk gets a worker.
  unfoldable pub spawn : Run w → List ℕ → Run w
  spawn r [] = record r { phase = joining }
  spawn r (i ∷ rest) = record r { phase = at_head; pending = rest; running = i ∷ r.running }

  -- `transfer_stream_sender`, which keeps a stream that it has opened, also one that was lost.
  unfoldable pub with_stream : Run w → Stream → Run w
  unfolding spawn
  with_stream r unopened =
      if r.connected
      then spawn (record r { stream = opened }) r.pending
      else record r { phase = aborted }
  with_stream r opened = spawn r r.pending
  with_stream r closed = spawn r r.pending

  -- The `break` in the pause leaves the `while` only.
  unfoldable pub loop_at : Run w → Phase → Run w
  unfolding with_stream
  loop_at r at_head = elim r.pending [
    | [] ↦ record r { phase = joining }
    | i ∷ rest ↦
        (if r.handle.cancelled
          then record r { phase = joining }
          else if r.handle.paused
          then record r { phase = waiting }
          else record r { phase = at_permit })
  ]
  loop_at r waiting =
      if r.handle.paused
      then (if r.handle.cancelled then record r { phase = at_permit } else r)
      else record r { phase = at_permit }
  loop_at r at_permit =
      if ltb (length r.running) default_parallelism then with_stream r r.stream else r
  loop_at r joining = r
  loop_at r aborted = r

  -- A worker that read its chunk: the stream takes it, and then it counts as acked.
  unfoldable pub chunk_read : Run w → ℕ → ℕ → Bytes → Stream → Run w
  chunk_read r i now payload opened =
      let h = Handle.mark_chunk_acked r.handle i (length payload) now in
      record r {
        running = remove_one i r.running;
        queue = r.queue ++ (file_chunk (chunk_message w r.transfer_id i payload) ∷ []);
        handle = h;
        manager = record r.manager {
          storage =
              unwrap_or (Transfers.mark_chunk_acked r.manager.storage r.transfer_id i)
                r.manager.storage;
          sink = Events.on_transfer_progress r.manager.sink (progress w.float h active);
        };
      }
  chunk_read r i now payload unopened = record r {
    running = remove_one i r.running;
    lost = i ∷ r.lost;
  }
  chunk_read r i now payload closed = record r {
    running = remove_one i r.running;
    lost = i ∷ r.lost;
  }

  unfoldable pub work_on : Run w → ℕ → ℕ → Run w
  unfolding chunk_read remove_one
  work_on r i now = elim (read_chunk_from_source r.manager.disk r.source i) [
    | err e ↦ record r { running = remove_one i r.running; lost = i ∷ r.lost }
    | ok payload ↦ chunk_read r i now payload r.stream
  ]

  unfoldable pub move : Run w → Move → Run w
  unfolding loop_at work_on
  move r loop = loop_at r r.phase
  move r (work i now) = if contains i r.running then work_on r i now else r
  move r pause = record r { handle = Handle.pause r.handle }
  move r resume = record r { handle = Handle.resume r.handle }
  move r cancel = record r { handle = Handle.cancel r.handle }
  move r writer_ended = record r { stream = closed_after r.stream }
  move r disconnect = record r { connected = false; stream = closed_after r.stream }

  unfoldable pub run_moves : Run w → List Move → Run w
  unfolding move
  run_moves r [] = r
  run_moves r (mv ∷ mvs) = run_moves (move r mv) mvs

  -- After the last worker was awaited with no error.
  unfoldable pub finish_transfer : Run w → ℕ → Manager w
  unfolding try_send
  finish_transfer r now_unix =
      let m = r.manager in
      let m' : Manager w = record m {
        outgoing_transfers = remove r.transfer_id m.outgoing_transfers;
      } in
      let final_state = if r.handle.cancelled then cancelled else completed in
      let m'' =
        if r.handle.cancelled
        then try_send w m' r.peer (file_transfer_cancelled r.transfer_id m.identity.device_id)
        else m' in
      record m'' {
        storage =
            update_transfer_state m''.storage r.transfer_id (as_str final_state)
              (progress w.float r.handle final_state).bytes_transferred now_unix;
        sink = Events.on_transfer_progress m''.sink (progress w.float r.handle final_state);
      }

  -- The end of a run whose workers have ended: an error of a worker or of the stream ends it before
  -- anything is removed or stored.
  unfoldable pub end_run : Run w → ℕ → Manager w × Result (Unit {0})
  unfolding finish_transfer
  end_run r now_unix = elim r.phase [
    | aborted ↦ (r.manager, err (invalid_state "stream not opened"))
    | _ ↦ elim r.lost [
      | [] ↦ (finish_transfer r now_unix, ok tt)
      | i ∷ others ↦ (r.manager, err (invalid_state "chunk worker failed"))
    ]
  ]
