-- ===== src/Manager/Offers/Restart.antt =====
-- `accept_file`: a new file, and the handle that the manifest gives.
use zao_p2p.Prelude.{
  ℕ, ◌≡◌, refl, ◌∙◌, ◌<◌, ◌^◌, String, true, false, none, some, List, [], ◌∷◌, length, replicate,
  arith, eq_refl,
}
use zao_p2p.Prelude.Bytes.{Bytes}
use zao_p2p.Prelude.Maps.{lookup, lookup-insert}
use zao_p2p.Protocol.{FileOffer, file_accept}
use zao_p2p.Transfer.{chunk_size, div_ceil}
use zao_p2p.Transfer.Files.{preallocate_file}
use zao_p2p.Transfer.Files.Reassembly.{AllInFile}
use zao_p2p.Transfer.Handle.{TransferHandle, contains, pending_chunk_indices, resume_from_manifest}
use zao_p2p.Transfer.Handle.Pending.{contains-pending_chunk_indices}
use zao_p2p.Storage.Transfers.{load_acked_chunks}
use zao_p2p.Manager.{World, Manager}
use zao_p2p.Manager.Effects.{send_to-SameBut}
use zao_p2p.Manager.Chunks.Delivery.{
  Delivery, deliver_chunks, deliver_chunks-Delivery, chunk_indices, without_clocks,
}
use zao_p2p.Manager.Chunks.Whole.{accepted-Delivery, Delivery-whole}
use zao_p2p.Manager.Offers.{accept_file, prepare_to_receive, handle_for_offer}

module _ (w : World) (m : Manager w) (from : String) (offer : FileOffer) (now now_unix : ℕ) where
  abbrev dest_of : String
  dest_of = w.join_path m.downloads_dir offer.transfer_id

  pub disk-accept_file :
      lookup dest_of (accept_file w m from offer now now_unix).0.disk
      ≡ some (replicate offer.file_size 0)
  unfolding accept_file prepare_to_receive preallocate_file
  disk-accept_file =
      rw
        (
          (send_to-SameBut w _ from (file_accept offer.transfer_id)).disk,
          lookup-insert dest_of dest_of (replicate offer.file_size 0) m.disk,
          eq_refl dest_of,
        )
        refl

  pub entry-accept_file :
      lookup offer.transfer_id (accept_file w m from offer now now_unix).0.incoming_transfers
      ≡ some (record {
        dest_path = dest_of;
        handle = handle_for_offer offer (load_acked_chunks m.storage offer.transfer_id) now;
      })
  unfolding accept_file prepare_to_receive
  entry-accept_file =
      rw
        (
          (send_to-SameBut w _ from (file_accept offer.transfer_id)).incoming,
          lookup-insert offer.transfer_id offer.transfer_id
              (record {
                dest_path = dest_of;
                handle = handle_for_offer offer (load_acked_chunks m.storage offer.transfer_id) now;
              })
              m.incoming_transfers,
          eq_refl offer.transfer_id,
        )
        refl

pub accept_file-Delivery :
    (w : World) (m : Manager w) (from : String) (offer : FileOffer) (now now_unix : ℕ) (src : Bytes)
    → offer.file_size ≡ length src
    → 0 < length src
    → length src < 2 ^ 64
    → load_acked_chunks m.storage offer.transfer_id ≡ []
    → Delivery w src offer.transfer_id
        (w.join_path m.downloads_dir offer.transfer_id)
        []
        (accept_file w m from offer now now_unix).0
accept_file-Delivery w m from offer now now_unix src size nonempty small fresh =
    accepted-Delivery w src offer.transfer_id _ offer.file_name now _ nonempty small
      (disk-accept_file w m from offer now now_unix ∙ rw size refl)
      (entry-accept_file w m from offer now now_unix
        ∙ unfold handle_for_offer in rw (fresh, size) refl)

-- A file that was offered with its right size, and that has no chunk in the manifest, is accepted.
-- Once each of its chunks has been handled, in any order and with repetitions, the file that
-- `accept_file` made holds its bytes and the transfer is over; this holds also if the answer could
-- not be sent.
pub accept_file-deliver_chunks :
    (w : World) (m : Manager w) (from : String) (offer : FileOffer) (now now_unix : ℕ) (src : Bytes)
    (cs : List (ℕ × ℕ × ℕ))
    → offer.file_size ≡ length src
    → 0 < length src
    → length src < 2 ^ 64
    → load_acked_chunks m.storage offer.transfer_id ≡ []
    → AllInFile (length src) (without_clocks cs)
    → ((i : ℕ) → i < div_ceil (length src) chunk_size → contains i (chunk_indices cs) ≡ true)
    → (lookup
          (w.join_path m.downloads_dir offer.transfer_id)
          (deliver_chunks w src from offer.transfer_id
            (accept_file w m from offer now now_unix).0
            cs).disk
        ≡ some src)
      × (lookup offer.transfer_id
            (deliver_chunks w src from offer.transfer_id
              (accept_file w m from offer now now_unix).0
              cs).incoming_transfers
          ≡ none)
accept_file-deliver_chunks w m from offer now now_unix src cs size nonempty small fresh inside
      every =
    let (all, (covers, d)) =
      deliver_chunks-Delivery w src from offer.transfer_id _ _ cs [] inside
        (accept_file-Delivery w m from offer now now_unix src size nonempty small fresh) in
    Delivery-whole w src offer.transfer_id _ all _ (λ i lt. covers i (rw (every i lt) refl)) d

-- `accept_file` on an offer some of whose chunks the manifest has as acked: the file is emptied all
-- the same, and none of those chunks is pending in the handle that goes on with the transfer.
pub accept_file_forgets :
    (w : World) (m : Manager w) (from : String) (offer : FileOffer) (now now_unix i : ℕ)
    → contains i (load_acked_chunks m.storage offer.transfer_id) ≡ true
    → (lookup
          (w.join_path m.downloads_dir offer.transfer_id)
          (accept_file w m from offer now now_unix).0.disk
        ≡ some (replicate offer.file_size 0))
      × ((h : TransferHandle) × ((lookup offer.transfer_id
                (accept_file w m from offer now now_unix).0.incoming_transfers
              ≡ some (record {
                dest_path = w.join_path m.downloads_dir offer.transfer_id;
                handle = h;
              }))
            × (contains i (pending_chunk_indices h) ≡ false)))
accept_file_forgets w m from offer now now_unix i acked = (
  disk-accept_file w m from offer now now_unix,
  (
    _,
    (
      entry-accept_file w m from offer now now_unix,
      not_pending (load_acked_chunks m.storage offer.transfer_id) acked,
    ),
  ),
)
  where
    not_pending :
        (acked : List ℕ)
        → contains i acked ≡ true
        → contains i (pending_chunk_indices (handle_for_offer offer acked now)) ≡ false
    not_pending [] e = absurd (unfold contains in ground (arith, e))
    not_pending (j ∷ js) e =
        unfold handle_for_offer resume_from_manifest in
        ground (arith, contains-pending_chunk_indices i (handle_for_offer offer (j ∷ js) now), e)
