-- ===== src/Tests/Streams.antt =====
-- The streams of a session.
use mathlib.Core.Path.{subst}
use zao_p2p.Prelude.{
  ℕ, ◌+◌, ◌<◌, ◌≡◌, refl, ap, sym, inl, inr, Bool-cases, length-replicate, true, false, none, some,
  Bool, str_eq, eq_iff, ◌&&◌, ◌==◌, ==_iff, [], ◌∷◌, length, replicate, ltb, if◌then◌else◌, arith,
}
use zao_p2p.Prelude.Bytes.{Bytes, bytes_eq, bytes_eq→eq}
use zao_p2p.Prelude.Maps.{lookup}
use zao_p2p.CoreError.{Result, ok_inj, ok, err, db}
use zao_p2p.Protocol.{ProtocolMessage, FileChunkMessage, ping, file_chunk}
use zao_p2p.Noise.{Snow, NoiseSession, transport}
use zao_p2p.Transfer.Files.{path}
use zao_p2p.Transfer.Handle.{TransferHandle, contains, pending_chunk_indices, new}
use zao_p2p.Manager.{World, Manager, quic}
use zao_p2p.Manager.Sending.{Run, start_run, run_moves, fresh_run, end_run, finish_transfer}
use zao_p2p.Manager.Sending.Ending.{drive}
use zao_p2p.Manager.Chunks.Delivery.{chunk_of}
use zao_p2p.Manager.Streams.{write_stream, read_stream}
use zao_p2p.Manager.Streams.Frames.{read_frames, ciphertexts, read_stream-write_stream}
use zao_p2p.Manager.Streams.Limit.{RefusesLong, AllLong, completed_unwritten}
use zao_p2p.Tests.Concrete

-- A peer with a session.
abbrev with_peer : Manager Concrete.world
with_peer = record Concrete.manager {
  sessions =
      (
        "peer",
        record { device_id = "peer"; noise = transport 0; outbound = quic []; control_open = true },
      )
      ∷ [];
}

read_stream-write_stream_example :
    read_stream Concrete.world 3 with_peer "peer"
      (write_stream Concrete.world (transport 0) (ping ∷ ping ∷ []) []).1
      (λ n. (5, 1))
    ≡ read_frames Concrete.world with_peer "peer"
        (ciphertexts Concrete.world (transport 0) (ping ∷ ping ∷ []))
        (λ n. (5, 1))
unfolding zao_p2p.Noise.encrypt
read_stream-write_stream_example =
    read_stream-write_stream Concrete.world 3 with_peer "peer" (transport 0) (ping ∷ ping ∷ [])
      (λ n. (5, 1)) (omega arith, (omega arith, tt)) (omega arith)

-- A world whose Noise messages are limited, and whose chunks are encoded to 70000 bytes.
abbrev limited : Snow
limited = record Concrete.snow {
  write_transport = λ s p. if ltb 65_535 (length p + 16) then none else some (p, s);
}

limited-RefusesLong : RefusesLong limited
limited-RefusesLong ts payload long = ground arith

abbrev pub file : Bytes
file = 1 ∷ 2 ∷ 3 ∷ []

abbrev pub the_chunk : FileChunkMessage
the_chunk = record { transfer_id = "t"; chunk_index = 0; payload = file; checksum_sha256 = file }

abbrev pub is_the_chunk : FileChunkMessage → Bool
is_the_chunk c =
    str_eq c.transfer_id "t"
    && ((c.chunk_index == 0) && (bytes_eq c.payload file && bytes_eq c.checksum_sha256 file))

pub the_chunk_only : (c : FileChunkMessage) → is_the_chunk c ≡ true → c ≡ the_chunk
the_chunk_only c h =
    let id : c.transfer_id ≡ "t" = (eq_iff c.transfer_id "t").0 (ground (arith, h)) in
    let index : c.chunk_index ≡ 0 = (==_iff c.chunk_index 0).0 (ground (arith, h)) in
    let bytes : c.payload ≡ file = bytes_eq→eq c.payload file (ground (arith, h)) in
    let sum : c.checksum_sha256 ≡ file = bytes_eq→eq c.checksum_sha256 file (ground (arith, h)) in
    λ i. record {
      transfer_id = id i;
      chunk_index = index i;
      payload = bytes i;
      checksum_sha256 = sum i;
    }

abbrev encode_long : ProtocolMessage → Result Bytes
encode_long (file_chunk c) = if is_the_chunk c then ok (replicate 70_000 0) else err db
encode_long m = err db

decode_long :
    (m : ProtocolMessage) (bytes : Bytes)
    → encode_long m ≡ ok bytes
    → ok (file_chunk the_chunk) ≡ ok m
decode_long (file_chunk c) bytes h = elim (Bool-cases (is_the_chunk c)) [
  | inl e ↦ ap (λ x. ok (file_chunk x)) (sym (the_chunk_only c e))
  | inr e ↦ absurd (ground (arith, e, h))
]
decode_long m bytes h = absurd (ground (arith, h))

abbrev world : World
world = record {
  crypto = Concrete.crypto;
  snow = limited;
  codec = record {
    encode_plaintext = encode_long;
    decode_plaintext = λ b. ok (file_chunk the_chunk);
    decode-encode = decode_long;
  };
  float = Concrete.float;
  signaling_json = λ m. some "signal";
  join_path = λ dir name. name;
}

abbrev encoded : Bytes
encoded = replicate 70_000 0

long : 65_535 < length encoded + 16
long = rw (length-replicate {A = ℕ} 70_000 0) (omega arith)

-- A device of that world, with the file.
abbrev device : Manager world
device = record {
  identity = Concrete.device;
  local_addr = "";
  downloads_dir = "d/";
  sessions =
      (
        "peer",
        record { device_id = "peer"; noise = transport 0; outbound = quic []; control_open = true },
      )
      ∷ [];
  sink = [];
  outgoing_transfers = [];
  incoming_transfers = [];
  pending_folder_offers = [];
  decisions = [];
  storage = Concrete.manager.storage;
  disk = ("p", file) ∷ [];
  client = record { outbound = []; closed = false };
  signaling_set = false;
  signaling_sessions = [];
  relay_handshake_waiters = [];
  resumes = [];
  wire = [];
}

abbrev handle : TransferHandle
handle = new "t" "f" 3 0

abbrev run : Run world
run = fresh_run world device "peer" "t" (path "p") handle

-- What is encoded takes 70000 bytes.
long_encoded :
    (m : ProtocolMessage) (plaintext : Bytes)
    → encode_long m ≡ ok plaintext
    → 65_535 < length plaintext + 16
long_encoded (file_chunk c) plaintext h = elim (Bool-cases (is_the_chunk c)) [
  | inl e ↦
      let same : ok encoded ≡ ok plaintext = rw e at h in
      subst (λ (b : Bytes). 65_535 < length b + 16) (ok_inj encoded same) long
  | inr e ↦ absurd (ground (arith, e, h))
]
long_encoded m plaintext h = absurd (ground (arith, h))

all_long : AllLong world file "t" 1
all_long i plaintext lt e = long_encoded (file_chunk (chunk_of world file "t" i)) plaintext e

starts : start_run world device "peer" "t" (path "p") handle ≡ ok run
unfolding start_run lookup
starts = refl

completed_unwritten_example :
    (end_run world (run_moves world run (drive world 9 run 5)) 1
      ≡ (finish_transfer world (run_moves world run (drive world 9 run 5)) 1, ok tt))
    × ((contains 0 (run_moves world run (drive world 9 run 5)).handle.acked_chunks ≡ true)
        × (write_stream world (transport 0) (run_moves world run (drive world 9 run 5)).queue []
            ≡ (transport 0, [])))
unfolding lookup new pending_chunk_indices zao_p2p.Transfer.Handle.pending_below
    zao_p2p.Transfer.div_ceil contains
completed_unwritten_example =
    completed_unwritten world device "peer" "t" "p" handle file run 9 5 1 0 (transport 0) []
      limited-RefusesLong all_long refl refl refl starts (omega arith) (omega arith)
