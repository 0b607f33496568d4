-- ===== src/Tests/Managed.antt =====
-- The connection manager.
use zao_p2p.Prelude.{
  ℕ, ◌≡◌, ◌≢◌, ◌<◌, ◌⊎◌, refl, eq_iff, String, true, false, Option, none, some, List, [], ◌∷◌, ◌++◌,
  length, replicate, str_eq, if◌then◌else◌, arith,
}
use zao_p2p.Prelude.Bytes.{Bytes}
use zao_p2p.Prelude.Maps.{ne_of_str, lookup, contains_key}
use zao_p2p.CoreError.{Result, ok, err, invalid_state}
use zao_p2p.Identity.{generate, noise_public}
use zao_p2p.Protocol.{FileOffer, FileChunkMessage, ProtocolMessage, file_chunk}
use zao_p2p.Stream.Frame.{write_framed, read_framed}
use zao_p2p.Noise.{handshaking, transport}
use zao_p2p.Storage.{Storage}
use zao_p2p.Transfer.Files.{path}
use zao_p2p.Transfer.Handle.{TransferHandle, new, contains, pending_chunk_indices}
use zao_p2p.Manager.{
  World, Manager, PeerSession, IncomingTransfer, OutgoingTransfer, quic, is_connected,
}
use zao_p2p.Manager.Chunks.Effects.{Taken}
use zao_p2p.Manager.Chunks.Delivery.{chunk_of, deliver_chunks}
use zao_p2p.Manager.Offers.{accept_file}
use zao_p2p.Manager.Offers.Restart.{accept_file-deliver_chunks, accept_file_forgets}
use zao_p2p.Manager.Dispatch.{dispatch_incoming}
use zao_p2p.Manager.Dispatch.Writes.{disk-dispatch_incoming}
use zao_p2p.Manager.Sessions.{connect_to_peer, try_candidates}
use zao_p2p.Manager.Sessions.Verified.{connect_to_peer_honest}
use zao_p2p.Manager.Transfers.{cancel_transfer}
use zao_p2p.Manager.Transfers.Decisions.{cancelled_out, cancelled_in, cancel_transfer_lem}
use zao_p2p.Tests.Concrete

abbrev file : Bytes
file = 1 ∷ 2 ∷ 3 ∷ []

-- The transfer "t" of a file of three bytes was accepted.
abbrev receiving : Manager Concrete.world
receiving = record Concrete.manager {
  incoming_transfers = ("t", record { dest_path = "d/t"; handle = new "t" "f" 3 0 }) ∷ [];
  disk = ("d/t", 0 ∷ 0 ∷ 0 ∷ []) ∷ [];
}

abbrev arrivals : List (ℕ × ℕ × ℕ)
arrivals = (0, 5, 1) ∷ (0, 6, 1) ∷ []

each_arrives : (i : ℕ) → i < 1 → contains i (0 ∷ 0 ∷ []) ≡ true
unfolding contains
each_arrives i lt = ground arith

abbrev three_bytes : FileOffer
three_bytes = record {
  transfer_id = "t";
  message_id = "a";
  conversation_id = "c";
  file_name = "f";
  file_size = 3;
  mime_type = "";
  total_chunks = 1;
  chunk_size = 8_388_608;
  relative_path = "f";
  folder_batch_id = none;
}

abbrev accepted : Manager Concrete.world
accepted = (accept_file Concrete.world Concrete.manager "peer" three_bytes 0 1).0

accept_file-deliver_chunks_example :
    (lookup
        (Concrete.world.join_path "d/" "t")
        (deliver_chunks Concrete.world file "peer" "t" accepted arrivals).disk
      ≡ some file)
    × (lookup "t"
          (deliver_chunks Concrete.world file "peer" "t" accepted arrivals).incoming_transfers
        ≡ none)
unfolding zao_p2p.Storage.Transfers.load_acked_chunks zao_p2p.Transfer.div_ceil
accept_file-deliver_chunks_example =
    accept_file-deliver_chunks Concrete.world Concrete.manager "peer" three_bytes 0 1 file arrivals
      refl (omega arith) (omega arith) refl (omega arith, (omega arith, tt)) each_arrives

abbrev chunk_message : ProtocolMessage
chunk_message = file_chunk (chunk_of Concrete.world file "t" 0)

disk-dispatch_incoming_example :
    ((dispatch_incoming Concrete.world receiving "peer" chunk_message 5 1).disk ≡ receiving.disk)
    ⊎ ((c : FileChunkMessage) × ((t : IncomingTransfer) × ((chunk_message ≡ file_chunk c)
            × Taken Concrete.world receiving c 5 t
                (dispatch_incoming Concrete.world receiving "peer" chunk_message 5 1))))
disk-dispatch_incoming_example =
    disk-dispatch_incoming Concrete.world receiving "peer" chunk_message 5 1

-- The peer's bytes: one handshake message.
abbrev incoming : Bytes
incoming = write_framed [] (4 ∷ [])

keys_differ : noise_public Concrete.crypto (generate Concrete.crypto []) ≢ 1 ∷ []
unfolding noise_public
keys_differ e = absurd (ground (arith, e))

connect_to_peer_honest_example :
    connect_to_peer Concrete.world Concrete.manager (ok incoming) "other" 1
    ≡ (Concrete.manager, err (invalid_state "peer identity mismatch"))
unfolding contains_key lookup zao_p2p.Manager.Sessions.initiator_handshake zao_p2p.Noise.new_session
    zao_p2p.Noise.write_handshake_message read_framed zao_p2p.Stream.read_exact write_framed
    zao_p2p.Prelude.Bytes.to_le_bytes zao_p2p.Prelude.Bytes.from_le_bytes zao_p2p.Prelude.take
    zao_p2p.Prelude.drop zao_p2p.Noise.read_handshake_message zao_p2p.Noise.peer_static_key
    noise_public generate
connect_to_peer_honest_example =
    connect_to_peer_honest Concrete.world Concrete.manager [] incoming
      (write_framed (write_framed [] []) []) (handshaking 0) 1 refl refl refl keys_differ
      (λ same. absurd (ne_of_str "zero" "other" refl same))

abbrev candidates : List (Option (Result Bytes))
candidates = none ∷ some (ok incoming) ∷ []

abbrev session : PeerSession Concrete.world
session = record {
  device_id = "peer";
  noise = transport 0;
  outbound = quic [];
  control_open = true;
}

abbrev connected : Manager Concrete.world
connected = record Concrete.manager { sessions = ("peer", session) ∷ [] }

abbrev sending : OutgoingTransfer
sending = record { file_source = path "f"; handle = new "t" "f" 3 0; accept_tx = true }

abbrev offering : Manager Concrete.world
offering = record connected { outgoing_transfers = ("t", sending) ∷ [] }

cancel_transfer_lem_example :
    (lookup "t" (cancel_transfer Concrete.world offering "peer" "t").0.outgoing_transfers ≡ (
      if str_eq "t" "t"
      then cancelled_out (lookup "t" offering.outgoing_transfers)
      else lookup "t" offering.outgoing_transfers))
    × (lookup "t" (cancel_transfer Concrete.world offering "peer" "t").0.incoming_transfers ≡ (
        if str_eq "t" "t"
        then cancelled_in (lookup "t" offering.incoming_transfers)
        else lookup "t" offering.incoming_transfers))
cancel_transfer_lem_example = cancel_transfer_lem Concrete.world offering "peer" "t" "t"

-- A device that has the chunk of the transfer in its manifest.
abbrev restarted : Manager Concrete.world
restarted = record Concrete.manager {
  storage = record Concrete.manager.storage {
    chunk_manifest = record { transfer_id = "t"; chunk_index = 0; acked = true } ∷ [];
  };
}

accept_file_forgets_example :
    (lookup
        (Concrete.world.join_path "d/" "t")
        (accept_file Concrete.world restarted "peer" three_bytes 0 1).0.disk
      ≡ some (replicate 3 0))
    × ((h : TransferHandle) × ((lookup "t"
              (accept_file Concrete.world restarted "peer" three_bytes 0 1).0.incoming_transfers
            ≡ some (record { dest_path = Concrete.world.join_path "d/" "t"; handle = h }))
          × (contains 0 (pending_chunk_indices h) ≡ false)))
unfolding contains zao_p2p.Storage.Transfers.load_acked_chunks
accept_file_forgets_example =
    accept_file_forgets Concrete.world restarted "peer" three_bytes 0 1 0 refl
