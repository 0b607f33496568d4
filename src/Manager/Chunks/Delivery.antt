-- ===== src/Manager/Chunks/Delivery.antt =====
-- The chunks of a file, handled one after the other, in any order.
use zao_p2p.Prelude.{
  ℕ, ◌≡◌, refl, ap, ◌<◌, ◌∙◌, String, true, false, Bool-cases, Option, none, some, List, [], ◌∷◌,
  inl, inr, length, ◌||◌, arith, eq_refl,
}
use zao_p2p.Prelude.Bytes.{Bytes}
use zao_p2p.Prelude.Maps.{Map, lookup, insert, lookup-insert}
use zao_p2p.CoreError.{ok, io, ok_or, ◌>>=◌, ok_inj}
use zao_p2p.Protocol.{FileChunkMessage}
use zao_p2p.Transfer.{chunk_size, div_ceil}
use zao_p2p.Transfer.Files.{read_chunk, write_at, write_chunk_to_file, chunk_offset}
use zao_p2p.Transfer.Files.Reassembly.{
  receive_chunk, Agrees, receive_chunk-Agrees, Agrees-complete, AllInFile,
}
use zao_p2p.Transfer.Handle
use zao_p2p.Transfer.Handle.{TransferHandle, contains, new, pending_chunk_indices}
use zao_p2p.Transfer.Handle.Pending.{contains-mark_chunk_acked}
use zao_p2p.Manager.{World, Manager, IncomingTransfer}
use zao_p2p.Manager.Chunks.{is_empty, handle_incoming_chunk}
use zao_p2p.Manager.Chunks.Effects.{
  Taken, entry_after, handle_incoming_chunk_lem, handle_incoming_chunk-Taken,
}

-- The message that a sender makes of a chunk of `src`.
abbrev pub chunk_of : (w : World) → Bytes → String → ℕ → FileChunkMessage
chunk_of w src transfer_id i = record {
  transfer_id = transfer_id;
  chunk_index = i;
  payload = read_chunk src i;
  checksum_sha256 = w.crypto.sha256 (read_chunk src i);
}

-- The state after the chunks of those indices, each at its two clocks.
unfoldable pub deliver_chunks :
    (w : World) → Bytes → String → String → Manager w → List (ℕ × ℕ × ℕ) → Manager w
unfolding handle_incoming_chunk
deliver_chunks w src from transfer_id m [] = m
deliver_chunks w src from transfer_id m ((i, now, now_unix) ∷ cs) =
    deliver_chunks w src from transfer_id
      (handle_incoming_chunk w m from (chunk_of w src transfer_id i) now now_unix) cs

-- The indices that were delivered, and the chunks as `Reassembly` takes them.
abbrev pub chunk_indices : List (ℕ × ℕ × ℕ) → List ℕ
chunk_indices [] = []
chunk_indices ((i, now, now_unix) ∷ cs) = i ∷ chunk_indices cs

abbrev pub without_clocks : List (ℕ × ℕ × ℕ) → List (ℕ × ℕ)
without_clocks [] = []
without_clocks ((i, now, now_unix) ∷ cs) = (i, now) ∷ without_clocks cs

-- A transfer of `src` into the file `dest` is over and the file whole, or under way, with the
-- `delivered` chunks acked.
pub data Delivery (w : World) (src : Bytes) (transfer_id dest : String) (delivered : List ℕ)
    (m : Manager w) : Type 0 where
  over :
      lookup transfer_id m.incoming_transfers ≡ none
      → lookup dest m.disk ≡ some src
      → Delivery w src transfer_id dest delivered m
  under_way :
      (h : TransferHandle) (file : Bytes)
      → lookup transfer_id m.incoming_transfers ≡ some (record { dest_path = dest; handle = h })
      → lookup dest m.disk ≡ some file
      → Agrees src (file, h)
      → ((k : ℕ) → contains k delivered ≡ true → contains k h.acked_chunks ≡ true)
      → is_empty (pending_chunk_indices h) ≡ false
      → Delivery w src transfer_id dest delivered m

pub empty_of_is_empty : {A : Type 0} (xs : List A) → is_empty xs ≡ true → xs ≡ []
unfolding is_empty
empty_of_is_empty [] h = refl
empty_of_is_empty (x ∷ xs) h = absurd (ground (arith, h))

pub is_empty_of_empty : {A : Type 0} (xs : List A) → xs ≡ [] → is_empty xs ≡ true
unfolding is_empty
is_empty_of_empty xs e = rw e refl

-- A chunk of a transfer that is over changes nothing.
handle_incoming_chunk_unknown :
    (w : World) (m : Manager w) (src : Bytes) (from transfer_id : String) (i now now_unix : ℕ)
    → lookup transfer_id m.incoming_transfers ≡ none
    → handle_incoming_chunk w m from (chunk_of w src transfer_id i) now now_unix ≡ m
handle_incoming_chunk_unknown w m src from transfer_id i now now_unix u =
    elim (handle_incoming_chunk_lem w m from (chunk_of w src transfer_id i) now now_unix) [
      | inl same ↦ same
      | inr (t, taken) ↦ absurd (ground (arith, taken.known, u))
    ]

entry_after_last :
    (t : IncomingTransfer) (h : TransferHandle)
    → is_empty (pending_chunk_indices h) ≡ true
    → entry_after t h ≡ none
entry_after_last t h e = rw e refl

entry_after_other :
    (t : IncomingTransfer) (h : TransferHandle)
    → is_empty (pending_chunk_indices h) ≡ false
    → entry_after t h ≡ some (record t { handle = h })
entry_after_other t h e = rw e refl

lookup-write_chunk_to_file :
    (disk disk' : Map Bytes) (dest : String) (i : ℕ) (payload file : Bytes)
    → write_chunk_to_file disk dest i payload ≡ ok disk'
    → lookup dest disk ≡ some file
    → lookup dest disk' ≡ some (write_at file (chunk_offset i) payload)
unfolding write_chunk_to_file
lookup-write_chunk_to_file disk disk' dest i payload file h there =
    rw
      (
        ← ok_inj disk (wrote (lookup dest disk) there h),
        lookup-insert dest dest (write_at file (chunk_offset i) payload) disk,
        eq_refl dest,
      )
      refl
  where
    wrote :
        (o : Option Bytes)
        → o ≡ some file
        → (ok_or o io >>= λ f. ok (insert dest (write_at f (chunk_offset i) payload) disk))
          ≡ ok disk'
        → ok (insert dest (write_at file (chunk_offset i) payload) disk) ≡ ok disk'
    wrote none e h = absurd (ground (arith, e))
    wrote (some f) e h = ground (arith, e, h)

module _ (w : World) (src : Bytes) (from transfer_id dest : String) where
  -- One more chunk taken while the transfer is under way.
  Taken-Delivery :
      (m : Manager w) (i now : ℕ) (delivered : List ℕ) (h : TransferHandle) (file : Bytes)
      (m' : Manager w)
      → i < div_ceil (length src) chunk_size
      → lookup dest m.disk ≡ some file
      → Agrees src (file, h)
      → ((k : ℕ) → contains k delivered ≡ true → contains k h.acked_chunks ≡ true)
      → Taken w m (chunk_of w src transfer_id i) now (record { dest_path = dest; handle = h }) m'
      → Delivery w src transfer_id dest (i ∷ delivered) m'
  unfolding receive_chunk
  Taken-Delivery m i now delivered h file m' lt there v acks taken =
      elim (Bool-cases (is_empty (pending_chunk_indices h'))) [
        | inl e ↦
            over (taken.entry ∙ entry_after_last (record { dest_path = dest; handle = h }) h' e)
              (on_disk ∙ ap some (Agrees-complete src _ h' v' (empty_of_is_empty _ e)))
        | inr e ↦
            under_way h' _
              (taken.entry ∙ entry_after_other (record { dest_path = dest; handle = h }) h' e)
              on_disk v' acks' e
      ]
    where
      payload : Bytes
      payload = read_chunk src i

      h' : TransferHandle
      h' = Handle.mark_chunk_acked h i (length payload) now

      v' : Agrees src (write_at file (chunk_offset i) payload, h')
      v' = receive_chunk-Agrees src file h i now lt v

      on_disk : lookup dest m'.disk ≡ some (write_at file (chunk_offset i) payload)
      on_disk = lookup-write_chunk_to_file m.disk m'.disk dest i payload file taken.written there

      acks' : (k : ℕ) → contains k (i ∷ delivered) ≡ true → contains k h'.acked_chunks ≡ true
      acks' k d =
          unfold contains in
          ground (arith, contains-mark_chunk_acked h i (length payload) now k, acks k, d)

  pub handle_incoming_chunk-Delivery :
      (m : Manager w) (i now now_unix : ℕ) (delivered : List ℕ)
      → i < div_ceil (length src) chunk_size
      → Delivery w src transfer_id dest delivered m
      → Delivery w src transfer_id dest
          (i ∷ delivered)
          (handle_incoming_chunk w m from (chunk_of w src transfer_id i) now now_unix)
  handle_incoming_chunk-Delivery m i now now_unix delivered lt (over gone whole) =
      rw (handle_incoming_chunk_unknown w m src from transfer_id i now now_unix gone)
        (over gone whole)
  handle_incoming_chunk-Delivery m i now now_unix delivered lt
        (under_way h file known there v acks more) =
      Taken-Delivery m i now delivered h file _ lt there v acks (
        handle_incoming_chunk-Taken w m from (chunk_of w src transfer_id i) now now_unix
          (record { dest_path = dest; handle = h }) file refl known there)

  pub deliver_chunks-Delivery :
      (m : Manager w) (cs : List (ℕ × ℕ × ℕ)) (delivered : List ℕ)
      → AllInFile (length src) (without_clocks cs)
      → Delivery w src transfer_id dest delivered m
      → (all : List ℕ) × (((k : ℕ)
            → (contains k (chunk_indices cs) || contains k delivered) ≡ true
            → contains k all ≡ true)
          × Delivery w src transfer_id dest all (deliver_chunks w src from transfer_id m cs))
  unfolding deliver_chunks contains
  deliver_chunks-Delivery m [] delivered inside d = (delivered, ((λ k h. h), d))
  deliver_chunks-Delivery m ((i, now, now_unix) ∷ cs) delivered (lt, inside) d =
      let (all, (covers, d')) =
        deliver_chunks-Delivery
          (handle_incoming_chunk w m from (chunk_of w src transfer_id i) now now_unix) cs
          (i ∷ delivered) inside (handle_incoming_chunk-Delivery m i now now_unix delivered lt d) in
      (all, ((λ k h. covers k (ground (arith, h))), d'))
