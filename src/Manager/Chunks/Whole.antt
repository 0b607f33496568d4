-- ===== src/Manager/Chunks/Whole.antt =====
-- A transfer that was accepted, once all of its chunks were handled.
use zao_p2p.Prelude.{
  ℕ, ◌≡◌, refl, ◌<◌, ◌^◌, String, Bool, true, false, none, some, List, [], length, replicate, arith,
}
use zao_p2p.Prelude.Bytes.{Bytes}
use zao_p2p.Prelude.Maps.{lookup}
use zao_p2p.Transfer.{chunk_size, div_ceil}
use zao_p2p.Transfer.Files.Reassembly.{new-Agrees}
use zao_p2p.Transfer.Handle.{TransferHandle, contains, new, pending_chunk_indices}
use zao_p2p.Transfer.Handle.Pending.{acked_of_no_pending, no_pending_of_acked}
use zao_p2p.Manager.{World, Manager}
use zao_p2p.Manager.Chunks.{is_empty}
use zao_p2p.Manager.Chunks.Delivery.{
  Delivery, over, under_way, empty_of_is_empty, is_empty_of_empty,
}

module _ (w : World) (src : Bytes) (transfer_id dest file_name : String) (started : ℕ) where
  h0 : TransferHandle
  h0 = new transfer_id file_name (length src) started

  begins :
      (b : Bool)
      → 0 < length src
      → is_empty (pending_chunk_indices h0) ≡ b
      → is_empty (pending_chunk_indices h0) ≡ false
  begins false nonempty e = e
  begins true nonempty e = absurd (
      unfold h0 new contains div_ceil in
      ground (arith, acked_of_no_pending 0 h0 (empty_of_is_empty _ e)))

  -- A transfer that was accepted: its entry has a new handle, and its file the right size.
  pub accepted-Delivery :
      (m : Manager w)
      → 0 < length src
      → length src < 2 ^ 64
      → lookup dest m.disk ≡ some (replicate (length src) 0)
      → lookup transfer_id m.incoming_transfers
        ≡ some
            (record { dest_path = dest; handle = new transfer_id file_name (length src) started })
      → Delivery w src transfer_id dest [] m
  accepted-Delivery m nonempty small there known =
      under_way (new transfer_id file_name (length src) started) (replicate (length src) 0) known
        there (new-Agrees src transfer_id file_name started small)
        (λ k d. absurd (unfold contains in ground (arith, d)))
        (unfold h0 in begins (is_empty (pending_chunk_indices h0)) nonempty refl)

-- With every chunk delivered the file is whole and the transfer over.
pub Delivery-whole :
    (w : World) (src : Bytes) (transfer_id dest : String) (all : List ℕ) (m : Manager w)
    → ((i : ℕ) → i < div_ceil (length src) chunk_size → contains i all ≡ true)
    → Delivery w src transfer_id dest all m
    → (lookup dest m.disk ≡ some src) × (lookup transfer_id m.incoming_transfers ≡ none)
Delivery-whole w src transfer_id dest all m every (over gone whole) = (whole, gone)
Delivery-whole w src transfer_id dest all m every (under_way h file k t v acks more) =
    let none_left : pending_chunk_indices h ≡ [] =
      unfold pending_chunk_indices in
      no_pending_of_acked h.total_chunks h.acked_chunks
        (λ i lt. acks i (every i (ground (arith, v.counted.chunks, v.total, lt)))) in
    absurd (ground (arith, more, is_empty_of_empty _ none_left))
