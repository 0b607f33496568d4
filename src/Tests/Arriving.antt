-- ===== src/Tests/Arriving.antt =====
-- A file of three bytes, from the disk of one device to the disk of another.
use mathlib.Core.Path.{subst}
use zao_p2p.Prelude.{
  ℕ, ◌<◌, ◌≤◌, ◌≡◌, refl, ap, sym, true, false, none, some, inl, inr, Bool-cases, List, [], ◌∷◌,
  length, if◌then◌else◌, arith,
}
use zao_p2p.Prelude.Bytes.{Bytes, bytes_eq}
use zao_p2p.Prelude.Maps.{lookup}
use zao_p2p.CoreError.{Result, ok, err, db}
use zao_p2p.Noise.{transport}
use zao_p2p.Protocol.{ProtocolMessage, file_chunk, FileOffer}
use zao_p2p.Transfer.{chunk_size, div_ceil}
use zao_p2p.Transfer.Files.{path}
use zao_p2p.Transfer.Handle.{new}
use zao_p2p.Manager.{World, Manager, quic}
use zao_p2p.Manager.Offers.{accept_file}
use zao_p2p.Manager.Sending.{Run, Move, loop, work, pause, resume, run_moves, start_run, fresh_run}
use zao_p2p.Manager.Sending.Arrival.{HasCompleted}
use zao_p2p.Manager.Sending.Arrival.Whole.{Arrived, transfer_arrives}
use zao_p2p.Manager.Streams.{write_stream, read_stream}
use zao_p2p.Manager.Streams.Paired.{Channel, IsPaired}
use zao_p2p.Manager.Streams.Arriving.{Fits}
use zao_p2p.Tests.Concrete
use zao_p2p.Tests.Streams.{file, the_chunk, is_the_chunk, the_chunk_only}

-- A world that encodes the message of the only chunk.
abbrev encode_chunk : ProtocolMessage → Result Bytes
encode_chunk (file_chunk c) = if is_the_chunk c then ok (9 ∷ []) else err db
encode_chunk m = err db

decode_chunk :
    (m : ProtocolMessage) (bytes : Bytes)
    → encode_chunk m ≡ ok bytes
    → ok (file_chunk the_chunk) ≡ ok m
decode_chunk (file_chunk c) bytes h = elim (Bool-cases (is_the_chunk c)) [
  | inl e ↦ ap (λ x. ok (file_chunk x)) (sym (the_chunk_only c e))
  | inr e ↦ absurd (ground (arith, e, h))
]
decode_chunk m bytes h = absurd (ground (arith, h))

abbrev chunk_world : World
chunk_world = record {
  crypto = Concrete.crypto;
  snow = Concrete.snow;
  codec = record {
    encode_plaintext = encode_chunk;
    decode_plaintext = λ b. ok (file_chunk the_chunk);
    decode-encode = decode_chunk;
  };
  float = Concrete.float;
  signaling_json = λ m. some "signal";
  join_path = λ dir name. name;
}

-- Two devices with a session with each other: the one has the file "p".
abbrev both : Manager chunk_world
both = record {
  identity = Concrete.device;
  local_addr = "";
  downloads_dir = "d/";
  sessions =
      (
        "peer",
        record { device_id = "peer"; noise = transport 0; outbound = quic []; control_open = true },
      )
      ∷ [];
  sink = [];
  outgoing_transfers = [];
  incoming_transfers = [];
  pending_folder_offers = [];
  decisions = [];
  storage = Concrete.manager.storage;
  disk = ("p", file) ∷ [];
  client = record { outbound = []; closed = false };
  signaling_set = false;
  signaling_sessions = [];
  relay_handshake_waiters = [];
  resumes = [];
  wire = [];
}

abbrev offer : FileOffer
offer = record {
  transfer_id = "t";
  message_id = "a";
  conversation_id = "c";
  file_name = "f";
  file_size = 3;
  mime_type = "";
  total_chunks = 1;
  chunk_size = 8_388_608;
  relative_path = "";
  folder_batch_id = none;
}

abbrev sending : Run chunk_world
sending = fresh_run chunk_world both "peer" "t" (path "p") (new "t" "f" 3 0)

-- The loop pauses and goes on, and the worker of the chunk has its turn.
abbrev its_moves : List Move
its_moves = pause ∷ loop ∷ resume ∷ loop ∷ loop ∷ work 0 5 ∷ loop ∷ []

starts : start_run chunk_world both "peer" "t" (path "p") (new "t" "f" 3 0) ≡ ok sending
unfolding start_run lookup
starts = refl

completes : HasCompleted chunk_world (run_moves chunk_world sending its_moves)
unfolding run_moves zao_p2p.Transfer.Handle.contains zao_p2p.Transfer.Handle.pending_chunk_indices
    zao_p2p.Transfer.Handle.pending_below new zao_p2p.Transfer.div_ceil
    zao_p2p.Transfer.Handle.pause zao_p2p.Transfer.Handle.resume
    zao_p2p.Transfer.Files.read_chunk_from_source lookup zao_p2p.Transfer.Handle.mark_chunk_acked
completes = record { ended = refl; not_aborted = refl; none_lost = refl; uncancelled = refl }

-- Its Noise states are numbers, any two of which are the ends of a session.
abbrev channel : Channel Concrete.snow
channel = record {
  paired = λ n a b. Unit;
  carries = λ n a b p u short. (p, (a, (b, (refl, (omega (arith, short), (refl, tt))))));
  answers = λ n a b b' p c u wrote. tt;
}

first_chunk : Fits chunk_world file "t" 0
unfolding bytes_eq zao_p2p.Transfer.Files.read_chunk zao_p2p.Prelude.take zao_p2p.Prelude.drop
first_chunk = (9 ∷ [], (refl, omega arith))

each_chunk : (i : ℕ) → i < div_ceil 3 chunk_size → Fits chunk_world file "t" i
unfolding div_ceil
each_chunk i lt =
    let first : 0 ≡ i = omega (arith, lt) in
    subst (λ (k : ℕ). Fits chunk_world file "t" k) first first_chunk

with_peer :
    IsPaired chunk_world channel "peer"
      (length (run_moves chunk_world sending its_moves).queue)
      0
      (accept_file chunk_world both "peer" offer 7 1).0.sessions
unfolding accept_file lookup
with_peer = record {
  session = record {
    device_id = "peer";
    noise = transport 0;
    outbound = quic [];
    control_open = true;
  };
  there = refl;
  named = refl;
  end = 0;
  in_transport = refl;
  ends = tt;
}

few : length (run_moves chunk_world sending its_moves).queue ≤ 4
unfolding run_moves zao_p2p.Transfer.Handle.contains zao_p2p.Transfer.Handle.pending_chunk_indices
    zao_p2p.Transfer.Handle.pending_below new zao_p2p.Transfer.div_ceil
    zao_p2p.Transfer.Handle.pause zao_p2p.Transfer.Handle.resume
    zao_p2p.Transfer.Files.read_chunk_from_source lookup zao_p2p.Transfer.Handle.mark_chunk_acked
few = omega arith

transfer_arrives_example :
    Arrived both
      (read_stream chunk_world 4
        (accept_file chunk_world both "peer" offer 7 1).0
        "peer"
        (write_stream chunk_world
          (transport 0)
          (run_moves chunk_world sending its_moves).queue
          []).1
        (λ n. (9, 1)))
      offer
      file
unfolding lookup zao_p2p.Storage.Transfers.load_acked_chunks
transfer_arrives_example =
    transfer_arrives chunk_world channel both "peer" "p" "f" offer file 0 its_moves sending both
      "peer" 7 1 0 4 (λ n. (9, 1)) refl starts completes refl (omega arith) (omega arith) refl
      each_chunk with_peer few
