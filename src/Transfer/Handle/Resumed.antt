-- ===== src/Transfer/Handle/Resumed.antt =====
-- `resume_from_manifest` counts every acked chunk as a whole one, so a transfer whose shorter last
-- chunk was acked begins too high.
use zao_p2p.Prelude.{ℕ, ◌*◌, ◌≤◌, ◌<◌, ◌≡◌, refl, String, List, [], ◌∷◌, arith}
use zao_p2p.Transfer.{chunk_size, chunk_len}
use zao_p2p.Transfer.Handle.{contains, resume_from_manifest, mark_chunk_acked}

-- A resumed handle has exactly the chunks of the manifest, and a count within the file.
pub resume_from_manifest_lem :
    (transfer_id file_name : String) (total now : ℕ) (acked : List ℕ)
    → ((resume_from_manifest transfer_id file_name total acked now).acked_chunks ≡ acked)
      × ((resume_from_manifest transfer_id file_name total acked now).bytes_transferred ≤ total)
unfolding resume_from_manifest
resume_from_manifest_lem transfer_id file_name total now acked = (refl, omega arith)

-- For a file of two chunks, the second one shorter: if that one was acked before the restart, then
-- acking the first one passes the size of the file.
pub resumed_count_overflows :
    (transfer_id file_name : String) (total now later : ℕ)
    → chunk_size < total
    → total < 2 * chunk_size
    → let h = resume_from_manifest transfer_id file_name total (1 ∷ []) now in
      total < (mark_chunk_acked h 0 (chunk_len total 0) later).bytes_transferred
unfolding resume_from_manifest mark_chunk_acked contains chunk_len
resumed_count_overflows transfer_id file_name total now later big small = omega arith
