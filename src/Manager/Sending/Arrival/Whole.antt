-- ===== src/Manager/Sending/Arrival/Whole.antt =====
-- What a receiver has once a run completed.
use mathlib.Core.Path.{subst}
use zao_p2p.Prelude.{
  ℕ, ◌<◌, ◌≤◌, ◌^◌, ◌≡◌, refl, ap, sym, ◌∙◌, String, none, some, true, List, [], length, ltb, arith,
  lt→ltb,
}
use zao_p2p.Prelude.Bytes.{Bytes}
use zao_p2p.Prelude.Maps.{lookup}
use zao_p2p.CoreError.{ok}
use zao_p2p.Protocol.{FileOffer}
use zao_p2p.Transfer.{chunk_size, div_ceil}
use zao_p2p.Transfer.Files.{path}
use zao_p2p.Transfer.Handle.{contains, new}
use zao_p2p.Transfer.Handle.Pending.{contains-pending_chunk_indices}
use zao_p2p.Storage.Transfers.{load_acked_chunks}
use zao_p2p.Manager.{World, Manager}
use zao_p2p.Manager.Offers.{accept_file}
use zao_p2p.Manager.Offers.Restart.{accept_file-Delivery}
use zao_p2p.Manager.Sending.{Run, Move, run_moves, start_run, fresh_run}
use zao_p2p.Manager.Sending.Conservation.{sent}
use zao_p2p.Manager.Sending.Arrival.Messages.{
  chunk_messages, length-chunk_messages, run_moves-IsReading,
}
use zao_p2p.Noise.{transport}
use zao_p2p.Protocol.{ProtocolMessage}
use zao_p2p.Manager.Chunks.Whole.{Delivery-whole}
use zao_p2p.Manager.Streams.{write_stream, read_stream}
use zao_p2p.Manager.Streams.Frames.{read_stream-write_stream}
use zao_p2p.Manager.Streams.Paired.{Channel, IsPaired}
use zao_p2p.Manager.Streams.Arriving.{Fits, chunks_arrive}
use zao_p2p.Manager.Sending.Arrival.{start_run_lem, HasCompleted, completed_sent}

-- The file is where a device in state `first` puts it, and the transfer is over.
abbrev pub Arrived : {w : World} → Manager w → Manager w → FileOffer → Bytes → Type 0
Arrived {w} first m offer src =
    (lookup (w.join_path first.downloads_dir offer.transfer_id) m.disk ≡ some src)
    × (lookup offer.transfer_id m.incoming_transfers ≡ none)

module _ (w : World) (m : Manager w) (peer p file_name : String) (offer : FileOffer) (src : Bytes)
    (started : ℕ) (there : lookup p m.disk ≡ some src) (mvs : List Move) where
  abbrev from_new : Run w
  from_new =
      fresh_run w m peer offer.transfer_id (path p)
        (new offer.transfer_id file_name (length src) started)

  abbrev last_sent : List ℕ
  last_sent = sent (run_moves w from_new mvs).queue

  sent_new :
      (k : ℕ)
      → HasCompleted w (run_moves w from_new mvs)
      → contains k last_sent ≡ ltb k (div_ceil (length src) chunk_size)
  unfolding new contains
  sent_new k done =
      completed_sent w m peer offer.transfer_id (path p)
        (new offer.transfer_id file_name (length src) started) mvs k done
      ∙ (contains-pending_chunk_indices k (new offer.transfer_id file_name (length src) started)
          ∙ ground arith)

  queue_new : (run_moves w from_new mvs).queue ≡ chunk_messages w src offer.transfer_id last_sent
  unfolding sent
  queue_new =
      (run_moves-IsReading w src m.disk p offer.transfer_id there mvs from_new
        (record { disk_same = refl; source_same = refl; id_same = refl; messages = refl })).messages

  module _ (channel : Channel w.snow) (receiver : Manager w) (from : String)
      (now now_unix : ℕ) where
    abbrev accepted : Manager w
    accepted = (accept_file w receiver from offer now now_unix).0

    arrives_new :
        (a : w.snow.TransportState) (fuel : ℕ) (times : ℕ → ℕ × ℕ)
        → offer.file_size ≡ length src
        → 0 < length src
        → length src < 2 ^ 64
        → load_acked_chunks receiver.storage offer.transfer_id ≡ []
        → HasCompleted w (run_moves w from_new mvs)
        → ((i : ℕ) → i < div_ceil (length src) chunk_size → Fits w src offer.transfer_id i)
        → IsPaired w channel from (length (run_moves w from_new mvs).queue) a accepted.sessions
        → length (run_moves w from_new mvs).queue ≤ fuel
        → Arrived receiver
            (read_stream w fuel accepted from
              (write_stream w (transport a) (run_moves w from_new mvs).queue []).1
              times)
            offer
            src
    arrives_new a fuel times size nonempty small fresh done fits paired enough =
        let many : length (run_moves w from_new mvs).queue ≡ length last_sent =
          ap (λ (q : List ProtocolMessage). length q) queue_new
          ∙ length-chunk_messages w src offer.transfer_id last_sent in
        let inside : (k : ℕ) → contains k last_sent ≡ true → k < div_ceil (length src) chunk_size =
          λ k e. ground (arith, sent_new k done, e) in
        let arriving =
          chunks_arrive w channel src from offer.transfer_id
            (w.join_path receiver.downloads_dir offer.transfer_id) last_sent a accepted [] times
            inside (λ k e. fits k (inside k e))
            (subst (λ (n : ℕ). IsPaired w channel from n a accepted.sessions) many paired)
            (accept_file-Delivery w receiver from offer now now_unix src size nonempty small
              fresh) in
        let read =
          read_stream-write_stream w fuel accepted from (transport a)
            (chunk_messages w src offer.transfer_id last_sent) times arriving.fits
            (omega (arith, arriving.many, many, enough)) in
        subst
          (λ (q : List ProtocolMessage).
            Arrived receiver
              (read_stream w fuel accepted from (write_stream w (transport a) q []).1 times) offer
              src)
          (sym queue_new)
          (subst (λ (n : Manager w). Arrived receiver n offer src) (sym read)
            (Delivery-whole w src offer.transfer_id _ arriving.all _
              (λ i lt. arriving.covers i (rw (sent_new i done ∙ lt→ltb _ _ lt) refl))
              arriving.delivery))

-- A device runs an outgoing transfer of a file on its disk, not empty and shorter than 2^64 bytes, with
-- nothing acked, to a receiver that accepted an offer of that size and id and has no chunk of it in
-- the manifest. Each chunk's message fits a Noise message with its tag, and the Noise states of the
-- two devices are the ends of one session, with messages left for the transfer's. Whatever the
-- schedule, if the run completes, then the receiver that reads what the writer of the stream made of
-- the run's queue, encoded, encrypted and framed, has the file byte for byte, and the transfer is
-- over there.
pub transfer_arrives :
    (w : World) (channel : Channel w.snow) (m : Manager w) (peer p file_name : String)
    (offer : FileOffer) (src : Bytes) (started : ℕ) (mvs : List Move) (r : Run w)
    (receiver : Manager w) (from : String) (now now_unix : ℕ) (a : w.snow.TransportState) (fuel : ℕ)
    (times : ℕ → ℕ × ℕ)
    → lookup p m.disk ≡ some src
    → start_run w m peer offer.transfer_id
        (path p)
        (new offer.transfer_id file_name (length src) started)
      ≡ ok r
    → HasCompleted w (run_moves w r mvs)
    → offer.file_size ≡ length src
    → 0 < length src
    → length src < 2 ^ 64
    → load_acked_chunks receiver.storage offer.transfer_id ≡ []
    → ((i : ℕ) → i < div_ceil (length src) chunk_size → Fits w src offer.transfer_id i)
    → IsPaired w channel from
        (length (run_moves w r mvs).queue)
        a
        (accept_file w receiver from offer now now_unix).0.sessions
    → length (run_moves w r mvs).queue ≤ fuel
    → Arrived receiver
        (read_stream w fuel
          (accept_file w receiver from offer now now_unix).0
          from
          (write_stream w (transport a) (run_moves w r mvs).queue []).1
          times)
        offer
        src
transfer_arrives w channel m peer p file_name offer src started mvs r receiver from now now_unix a
      fuel times there starts done size nonempty small fresh fits paired enough =
    subst
      (λ (s : Run w).
        HasCompleted w (run_moves w s mvs)
        → IsPaired w channel from (length (run_moves w s mvs).queue) a
            (accept_file w receiver from offer now now_unix).0.sessions
        → length (run_moves w s mvs).queue ≤ fuel
        → Arrived receiver
            (read_stream w fuel (accept_file w receiver from offer now now_unix).0 from
              (write_stream w (transport a) (run_moves w s mvs).queue []).1 times)
            offer src)
      (start_run_lem w m peer offer.transfer_id (path p) _ r starts)
      (λ d q f.
        arrives_new w m peer p file_name offer src started there mvs channel receiver from now
          now_unix a fuel times size nonempty small fresh d fits q f)
      done paired enough
