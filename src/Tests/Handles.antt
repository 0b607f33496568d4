-- ===== src/Tests/Handles.antt =====
-- Transfer handles, and the receipt of a file.
use zao_p2p.Prelude.{ℕ, ◌<◌, ◌≡◌, refl, some, true, List, [], ◌∷◌, arith}
use zao_p2p.Prelude.Bytes.{Bytes}
use zao_p2p.Transfer.{chunk_size, chunk_len}
use zao_p2p.CoreError.{ok}
use zao_p2p.Prelude.Maps.{lookup}
use zao_p2p.Transfer.Workers.{start_workers, run_sender_workers, workers_result}
use zao_p2p.Transfer.Workers.Serial.{one_by_one, frames, run_sender_workers-one_by_one}
use zao_p2p.Tests.Concrete
use zao_p2p.Transfer.Handle.{
  TransferHandle, pending_chunk_indices, new, contains, resume_from_manifest, mark_chunk_acked,
}
use zao_p2p.Transfer.Handle.Counting.{IsCounted, new-IsCounted, mark_chunk_acked-IsCounted}
use zao_p2p.Transfer.Handle.Resumed.{resumed_count_overflows}

-- A file of two chunks, the second one short.
abbrev two_chunks : TransferHandle
two_chunks = new "t" "f" 10_000_000 0

mark_chunk_acked-IsCounted_example :
    IsCounted (mark_chunk_acked two_chunks 1 (chunk_len two_chunks.total_bytes 1) 5)
unfolding new zao_p2p.Transfer.div_ceil
mark_chunk_acked-IsCounted_example =
    mark_chunk_acked-IsCounted two_chunks 1 5 (new-IsCounted "t" "f" 10_000_000 0 (omega arith))
      (omega arith)

abbrev one_chunk : TransferHandle
one_chunk = mark_chunk_acked (new "t" "f" 3 0) 0 (chunk_len (new "t" "f" 3 0).total_bytes 0) 5

resumed_count_overflows_example :
    10_000_000
    < (mark_chunk_acked
        (resume_from_manifest "t" "f" 10_000_000 (1 ∷ []) 0)
        0
        (chunk_len 10_000_000 0)
        5).bytes_transferred
resumed_count_overflows_example =
    resumed_count_overflows "t" "f" 10_000_000 0 5 (omega arith) (omega arith)

-- The only chunk of a file of three bytes, twice.
abbrev file : Bytes
file = 1 ∷ 2 ∷ 3 ∷ []

abbrev arrivals : List (ℕ × ℕ)
arrivals = (0, 5) ∷ (0, 6) ∷ []

only_chunk : (i : ℕ) → i < 1 → contains i (0 ∷ 0 ∷ []) ≡ true
unfolding contains
only_chunk i lt = ground arith

-- Its workers, with two permits.
run_sender_workers-one_by_one_example :
    (workers_result (
        run_sender_workers Concrete.world.crypto.sha256
          (λ f. ok tt)
          (("p", file) ∷ [])
          "p"
          2
          (start_workers (new "t" "f" 3 0))
          (one_by_one 5 (pending_chunk_indices (new "t" "f" 3 0))))
      ≡ some (ok tt))
    × (((run_sender_workers Concrete.world.crypto.sha256
            (λ f. ok tt)
            (("p", file) ∷ [])
            "p"
            2
            (start_workers (new "t" "f" 3 0))
            (one_by_one 5 (pending_chunk_indices (new "t" "f" 3 0)))).sent
          ≡ frames Concrete.world.crypto.sha256 file (pending_chunk_indices (new "t" "f" 3 0)))
        × (contains 0
              (run_sender_workers Concrete.world.crypto.sha256
                (λ f. ok tt)
                (("p", file) ∷ [])
                "p"
                2
                (start_workers (new "t" "f" 3 0))
                (one_by_one 5 (pending_chunk_indices (new "t" "f" 3 0)))).handle.acked_chunks
            ≡ true))
unfolding lookup new zao_p2p.Transfer.div_ceil
run_sender_workers-one_by_one_example =
    run_sender_workers-one_by_one Concrete.world.crypto.sha256 (λ f. ok tt) (("p", file) ∷ []) "p" 2
      file (new "t" "f" 3 0) 5 0 refl refl (omega arith) refl (λ f. refl) (omega arith)
