-- ===== src/Manager/Chunks/Effects.antt =====
-- What `handle_incoming_chunk` writes: which files, which handles, which tables.
use zao_p2p.Prelude.{
  ℕ, ◌≡◌, refl, ◌⊎◌, inl, inr, ◌∙◌, String, Bool-cases, Option, none, some, Option-cases, length,
  if◌then◌else◌, eq_refl,
}
use zao_p2p.Prelude.Bytes.{Bytes, bytes_eq, bytes_eq→eq, bytes_eq_refl}
use zao_p2p.Prelude.Maps.{lookup, lookup-insert, lookup-remove}
use zao_p2p.CoreError.{ok, Result-cases}
use zao_p2p.Protocol.{FileChunkMessage, file_chunk_ack, file_transfer_complete}
use zao_p2p.Transfer.ChunkFrame.{new_frame, verify}
use zao_p2p.Transfer.Files.{write_chunk_to_file}
use zao_p2p.Transfer.Handle
use zao_p2p.Transfer.Handle.{TransferHandle, pending_chunk_indices}
use zao_p2p.Manager.{World, Manager, IncomingTransfer}
use zao_p2p.Manager.Effects.{try_send-SameBut}
use zao_p2p.Manager.Chunks.{
  is_empty, complete_incoming, ack_incoming, write_incoming, handle_incoming_chunk,
}

disk-complete_incoming :
    (w : World) (m : Manager w) (from transfer_id : String) (h : TransferHandle) (now_unix : ℕ)
    → (complete_incoming w m from transfer_id h now_unix).disk ≡ m.disk
unfolding complete_incoming
disk-complete_incoming w m from transfer_id h now_unix =
    (try_send-SameBut w _ from (file_transfer_complete transfer_id)).disk

disk-ack_incoming :
    (w : World) (m : Manager w) (from : String) (c : FileChunkMessage) (t : IncomingTransfer)
    (h : TransferHandle) (now_unix : ℕ)
    → (ack_incoming w m from c t h now_unix).disk ≡ m.disk
unfolding ack_incoming
disk-ack_incoming w m from c t h now_unix = elim (Bool-cases (is_empty (pending_chunk_indices h))) [
  | inl e ↦ rw e (
      disk-complete_incoming w _ from c.transfer_id h now_unix
      ∙ (try_send-SameBut w _ from (file_chunk_ack c.transfer_id c.chunk_index)).disk)
  | inr e ↦ rw e ((try_send-SameBut w _ from (file_chunk_ack c.transfer_id c.chunk_index)).disk)
]

-- The entry of the transfer in the table, once the chunk is acked.
abbrev pub entry_after : IncomingTransfer → TransferHandle → Option IncomingTransfer
entry_after t h =
    if is_empty (pending_chunk_indices h) then none else some (record t { handle = h })

entry-complete_incoming :
    (w : World) (m : Manager w) (from transfer_id : String) (h : TransferHandle) (now_unix : ℕ)
    → lookup transfer_id (complete_incoming w m from transfer_id h now_unix).incoming_transfers
      ≡ none
unfolding complete_incoming
entry-complete_incoming w m from transfer_id h now_unix =
    rw
      (
        (try_send-SameBut w _ from (file_transfer_complete transfer_id)).incoming,
        lookup-remove transfer_id transfer_id m.incoming_transfers,
        eq_refl transfer_id,
      )
      refl

entry-ack_incoming :
    (w : World) (m : Manager w) (from : String) (c : FileChunkMessage) (t : IncomingTransfer)
    (h : TransferHandle) (now_unix : ℕ)
    → lookup c.transfer_id (ack_incoming w m from c t h now_unix).incoming_transfers
      ≡ entry_after t h
unfolding ack_incoming
entry-ack_incoming w m from c t h now_unix =
    elim (Bool-cases (is_empty (pending_chunk_indices h))) [
      | inl e ↦ rw e (entry-complete_incoming w _ from c.transfer_id h now_unix)
      | inr e ↦
          rw
            (
              e,
              (try_send-SameBut w _ from (file_chunk_ack c.transfer_id c.chunk_index)).incoming,
              lookup-insert c.transfer_id c.transfer_id (record t { handle = h })
                  m.incoming_transfers,
              eq_refl c.transfer_id,
            )
            refl
    ]

-- A chunk that was taken: `m'` is the state after it.
pub record Taken (w : World) (m : Manager w) (c : FileChunkMessage) (now : ℕ)
    (transfer : IncomingTransfer) (m' : Manager w) : Type 0 where
  pub known : lookup c.transfer_id m.incoming_transfers ≡ some transfer
  pub intact : w.crypto.sha256 c.payload ≡ c.checksum_sha256
  pub written : write_chunk_to_file m.disk transfer.dest_path c.chunk_index c.payload ≡ ok m'.disk
  pub entry :
      lookup c.transfer_id m'.incoming_transfers
      ≡ entry_after transfer
          (Handle.mark_chunk_acked transfer.handle c.chunk_index (length c.payload) now)

write_incoming_lem :
    (w : World) (m : Manager w) (from : String) (c : FileChunkMessage) (t : IncomingTransfer)
    (now now_unix : ℕ)
    → lookup c.transfer_id m.incoming_transfers ≡ some t
    → w.crypto.sha256 c.payload ≡ c.checksum_sha256
    → (write_incoming w m from c t now now_unix ≡ m)
      ⊎ Taken w m c now t (write_incoming w m from c t now now_unix)
unfolding write_incoming
write_incoming_lem w m from c t now now_unix known intact =
    elim (Result-cases (write_chunk_to_file m.disk t.dest_path c.chunk_index c.payload)) [
      | inl (disk', e) ↦
          rw (write_incoming, e)
            (inr (record {
              known = known;
              intact = intact;
              written = rw (disk-ack_incoming w _ from c t _ now_unix) e;
              entry = entry-ack_incoming w _ from c t _ now_unix;
            }))
      | inr (er, e) ↦ rw (write_incoming, e) (inl refl)
    ]

-- `handle_incoming_chunk` either drops the chunk and changes nothing, or takes it: then its transfer
-- is one that was accepted, its payload has the checksum that it came with, the disk is the one with
-- that payload written at the chunk's place in that transfer's file, and the transfer's entry has
-- the handle with the chunk acked, or is gone if that leaves no chunk pending.
pub handle_incoming_chunk_lem :
    (w : World) (m : Manager w) (from : String) (c : FileChunkMessage) (now now_unix : ℕ)
    → (handle_incoming_chunk w m from c now now_unix ≡ m)
      ⊎ ((t : IncomingTransfer) × Taken w m c now t (handle_incoming_chunk w m from c now now_unix))
unfolding handle_incoming_chunk new_frame verify
handle_incoming_chunk_lem w m from c now now_unix =
    elim (Bool-cases (bytes_eq (w.crypto.sha256 c.payload) c.checksum_sha256)) [
      | inr e ↦ rw (handle_incoming_chunk, e) (inl refl)
      | inl e ↦ elim (Option-cases (lookup c.transfer_id m.incoming_transfers)) [
        | inl u ↦
            rw (handle_incoming_chunk, e, bytes_eq_refl (w.crypto.sha256 c.payload), u) (inl refl)
        | inr (t, u) ↦
            rw (handle_incoming_chunk, e, bytes_eq_refl (w.crypto.sha256 c.payload), u)
              (elim (write_incoming_lem w m from c t now now_unix u (bytes_eq→eq _ _ e)) [
                | inl same ↦ inl same
                | inr taken ↦ inr (t, taken)
              ])
      ]
    ]

write_incoming-Taken :
    (w : World) (m : Manager w) (from : String) (c : FileChunkMessage) (t : IncomingTransfer)
    (file : Bytes) (now now_unix : ℕ)
    → lookup c.transfer_id m.incoming_transfers ≡ some t
    → w.crypto.sha256 c.payload ≡ c.checksum_sha256
    → lookup t.dest_path m.disk ≡ some file
    → Taken w m c now t (write_incoming w m from c t now now_unix)
unfolding write_incoming write_chunk_to_file
write_incoming-Taken w m from c t file now now_unix known intact there =
    rw (write_incoming, there)
      (record {
        known = known;
        intact = intact;
        written = rw (there, disk-ack_incoming w _ from c t _ now_unix) refl;
        entry = entry-ack_incoming w _ from c t _ now_unix;
      })

-- A chunk with the right checksum, of a transfer that was accepted and whose file is on the disk, is
-- taken.
pub handle_incoming_chunk-Taken :
    (w : World) (m : Manager w) (from : String) (c : FileChunkMessage) (now now_unix : ℕ)
    (t : IncomingTransfer) (file : Bytes)
    → w.crypto.sha256 c.payload ≡ c.checksum_sha256
    → lookup c.transfer_id m.incoming_transfers ≡ some t
    → lookup t.dest_path m.disk ≡ some file
    → Taken w m c now t (handle_incoming_chunk w m from c now now_unix)
unfolding handle_incoming_chunk new_frame verify
handle_incoming_chunk-Taken w m from c now now_unix t file intact known there =
    rw (handle_incoming_chunk, intact, bytes_eq_refl c.checksum_sha256, known)
      (write_incoming-Taken w m from c t file now now_unix known intact there)
