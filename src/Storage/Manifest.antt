-- ===== src/Storage/Manifest.antt =====
-- The chunk manifest: what `mark_chunk_acked` writes, `load_acked_chunks` reads, and what the foreign
-- keys refuse.
use zao_p2p.Prelude.{
  ℕ, ◌≡◌, refl, String, true, false, ◌&&◌, ◌||◌, List, [], ◌∷◌, ◌++◌, str_eq, ◌==◌, eq_iff, arith,
}
use zao_p2p.CoreError.{ok, err, db}
use zao_p2p.Sql.{exists, update}
use zao_p2p.Storage.{Storage, ChunkRow, is_transfer, is_message}
use zao_p2p.Storage.Transfers.{
  is_chunk, acked_indices, create_transfer, mark_chunk_acked, load_acked_chunks,
}
use zao_p2p.Transfer.Handle.{contains}

module _ (t u : String) (i j : ℕ) where
  contains-update :
      (rows : List ChunkRow)
      → contains j (acked_indices u (update (is_chunk t i) (λ r. record r { acked = true }) rows))
        ≡ ((exists (is_chunk t i) rows && (str_eq t u && i == j))
            || contains j (acked_indices u rows))
  unfolding acked_indices contains update exists
  contains-update [] = refl
  contains-update (r ∷ rows) =
      ground
        (arith, eq_iff t u, eq_iff r.transfer_id t, eq_iff r.transfer_id u, contains-update rows)

  contains-insert :
      (rows : List ChunkRow)
      → contains j (
          acked_indices u
            (rows ++ (record { transfer_id = t; chunk_index = i; acked = true } ∷ [])))
        ≡ ((str_eq t u && i == j) || contains j (acked_indices u rows))
  unfolding acked_indices contains
  contains-insert [] = ground (arith, eq_iff t u)
  contains-insert (r ∷ rows) = ground (arith, contains-insert rows)

-- What a successful `mark_chunk_acked` writes, a later `load_acked_chunks` reads: that one chunk of
-- that one transfer, besides those that were there.
pub load_acked_chunks-mark_chunk_acked :
    (s s' : Storage) (t u : String) (i j : ℕ)
    → mark_chunk_acked s t i ≡ ok s'
    → contains j (load_acked_chunks s' u)
      ≡ ((str_eq t u && i == j) || contains j (load_acked_chunks s u))
unfolding mark_chunk_acked load_acked_chunks
load_acked_chunks-mark_chunk_acked s s' t u i j h =
    ground
      (arith, contains-update t u i j s.chunk_manifest, contains-insert t u i j s.chunk_manifest)

-- Without the row of its message a transfer is refused, and then nothing can be acked in its
-- manifest.
pub create_transfer_orphan :
    (s : Storage) (t m name mime direction local_path : String) (size chunks chunk_size now i : ℕ)
    → exists (is_message m) s.messages ≡ false
    → exists (is_transfer t) s.file_transfers ≡ false
    → exists (is_chunk t i) s.chunk_manifest ≡ false
    → (create_transfer s t m name size mime chunks chunk_size direction local_path now ≡ err db)
      × (mark_chunk_acked s t i ≡ err db)
unfolding create_transfer mark_chunk_acked
create_transfer_orphan s t m name mime direction local_path size chunks chunk_size now i hm ht hc =
    (rw (ht, hm), rw (hc, ht))
