-- ===== src/Manager/Streams/Limit.antt =====
-- The size of a Noise message, and what a run makes of a chunk that is longer.
use mathlib.Core.Path.{subst}
use zao_p2p.Prelude.{
  ℕ, ◌+◌, ◌<◌, ◌≤◌, ◌≡◌, refl, ap, ◌∙◌, String, true, false, not, ◌&&◌, none, some, inl, inr, List,
  [], ◌∷◌, length, ltb, ==_iff, arith,
}
use zao_p2p.Prelude.Bytes.{Bytes}
use zao_p2p.Prelude.Maps.{lookup}
use zao_p2p.CoreError.{CoreError, Result-cases, ok, err, crypto, invalid_state}
use zao_p2p.Protocol.{ProtocolMessage, file_chunk}
use zao_p2p.Noise.{Snow, NoiseSession, handshaking, transport, encrypt}
use zao_p2p.Transfer.Files.{path}
use zao_p2p.Transfer.Handle.{TransferHandle, contains, pending_chunk_indices}
use zao_p2p.Transfer.Handle.Pending.{contains-pending_chunk_indices}
use zao_p2p.Manager.{World, Manager}
use zao_p2p.Manager.Chunks.Delivery.{chunk_of}
use zao_p2p.Manager.Sending.{Run, run_moves, start_run, end_run, finish_transfer}
use zao_p2p.Manager.Sending.Conservation.{sent}
use zao_p2p.Manager.Sending.Ending.{drive, measure}
use zao_p2p.Manager.Sending.Arrival.{
  HasCompleted, start_run_lem, drive_completes, completed_sent, acked_sent,
}
use zao_p2p.Manager.Sending.Arrival.Messages.{chunk_messages, IsReading, run_moves-IsReading}
use zao_p2p.Manager.Streams.{write_stream}

-- A Noise message, with its tag of 16 bytes, has at most 65535 bytes: `write_message` refuses more.
abbrev pub RefusesLong : Snow → Type 0
RefusesLong snow =
    (ts : snow.TransportState) (payload : Bytes)
    → 65_535 < length payload + 16
    → snow.write_transport ts payload ≡ none

module _ (w : World) where
  encrypt_long :
      (noise : NoiseSession w.snow) (plaintext : Bytes)
      → RefusesLong w.snow
      → 65_535 < length plaintext + 16
      → (e : CoreError) × (encrypt w.snow noise plaintext ≡ err e)
  unfolding encrypt
  encrypt_long (transport ts) plaintext limit long =
      (crypto "snow", rw (limit ts plaintext long) refl)
  encrypt_long (handshaking hs) plaintext limit long = (invalid_state "not in transport mode", refl)

  -- The writer ends at a message that is too long, and writes nothing of it nor of what follows.
  write_stream_long :
      (noise : NoiseSession w.snow) (msg : ProtocolMessage) (queue : List ProtocolMessage)
      (plaintext written : Bytes)
      → RefusesLong w.snow
      → w.codec.encode_plaintext msg ≡ ok plaintext
      → 65_535 < length plaintext + 16
      → write_stream w noise (msg ∷ queue) written ≡ (noise, written)
  unfolding write_stream
  write_stream_long noise msg queue plaintext written limit encoded long =
      let (e, refused) = encrypt_long noise plaintext limit long in
      rw (write_stream, encoded, refused) refl

  -- Nor does it write anything of messages of chunks that are all too long.
  write_stream_long_chunks :
      (src : Bytes) (id : String) (is : List ℕ) (noise : NoiseSession w.snow) (written : Bytes)
      → RefusesLong w.snow
      → ((i : ℕ) (plaintext : Bytes)
          → contains i is ≡ true
          → w.codec.encode_plaintext (file_chunk (chunk_of w src id i)) ≡ ok plaintext
          → 65_535 < length plaintext + 16)
      → write_stream w noise (chunk_messages w src id is) written ≡ (noise, written)
  unfolding write_stream contains
  write_stream_long_chunks src id [] noise written limit long = refl
  write_stream_long_chunks src id (i ∷ is) noise written limit long =
      elim (Result-cases (w.codec.encode_plaintext (file_chunk (chunk_of w src id i)))) [
        | inl (plaintext, e) ↦
            write_stream_long noise (file_chunk (chunk_of w src id i)) (chunk_messages w src id is)
              plaintext written limit e (long i plaintext (ground (arith, ==_iff i i)) e)
        | inr (er, e) ↦
            rw (write_stream, e)
              (write_stream_long_chunks src id is noise written limit
                (λ k plaintext here. long k plaintext (ground (arith, here))))
      ]

-- Each chunk of the file has a message that, if it can be encoded, takes more than 65519 bytes.
abbrev pub AllLong : World → Bytes → String → ℕ → Type 0
AllLong w src id total =
    (i : ℕ) (plaintext : Bytes)
    → i < total
    → w.codec.encode_plaintext (file_chunk (chunk_of w src id i)) ≡ ok plaintext
    → 65_535 < length plaintext + 16

-- With Noise messages limited as they are: a transfer of a file that can be read, neither paused nor
-- cancelled, each chunk of which is encoded to more than 65519 bytes. The run that lets workers and
-- loop go on completes: `end_run` has no error and does `finish_transfer`, and every chunk counts as
-- acked. But the writer of its stream writes not one byte of what the run gave to it.
pub completed_unwritten :
    (w : World) (m : Manager w) (peer id p : String) (h : TransferHandle) (src : Bytes) (r : Run w)
    (n now now_unix k : ℕ) (noise : NoiseSession w.snow) (written : Bytes)
    → RefusesLong w.snow
    → AllLong w src id h.total_chunks
    → lookup p m.disk ≡ some src
    → h.paused ≡ false
    → h.cancelled ≡ false
    → start_run w m peer id (path p) h ≡ ok r
    → measure w r ≤ n
    → k < h.total_chunks
    → (end_run w (run_moves w r (drive w n r now)) now_unix
        ≡ (finish_transfer w (run_moves w r (drive w n r now)) now_unix, ok tt))
      × ((contains k (run_moves w r (drive w n r now)).handle.acked_chunks ≡ true)
          × (write_stream w noise (run_moves w r (drive w n r now)).queue written
              ≡ (noise, written)))
unfolding sent contains
completed_unwritten w m peer id p h src r n now now_unix k noise written limit long there unpaused
      uncancelled starts few within =
    let mvs = drive w n r now in
    let (done, ends) =
      drive_completes w m peer id p h src r n now now_unix there unpaused uncancelled starts few in
    let start = start_run_lem w m peer id (path p) h r starts in
    let given : (j : ℕ)
        → contains j (sent (run_moves w r mvs).queue)
          ≡ (ltb j h.total_chunks && not (contains j h.acked_chunks)) =
      λ j.
        subst
          (λ (s : Run w).
            HasCompleted w (run_moves w s mvs)
            → contains j (sent (run_moves w s mvs).queue) ≡ contains j (pending_chunk_indices h))
          start (completed_sent w m peer id (path p) h mvs j) done
        ∙ contains-pending_chunk_indices j h in
    let reading : IsReading w src m.disk p id there r =
      subst (IsReading w src m.disk p id there) start
        (record { disk_same = refl; source_same = refl; id_same = refl; messages = refl }) in
    (
      ends,
      (
        ground (arith, acked_sent w m peer id (path p) h r mvs k starts, given k, within),
        ap (λ q. write_stream w noise q written)
              (run_moves-IsReading w src m.disk p id there mvs r reading).messages
            ∙ write_stream_long_chunks w src id (sent (run_moves w r mvs).queue) noise written limit
                (λ i plaintext here. long i plaintext (ground (arith, given i, here))),
      ),
    )
