-- ===== src/Transfer/Handle/Counting.antt =====
-- What `bytes_transferred` counts: the lengths of the acked chunks, each once.
use zao_p2p.Prelude.{
  ℕ, zero, suc, ◌+◌, ◌*◌, ◌^◌, ◌≤◌, ◌<◌, ◌≡◌, refl, sym, ap, inl, inr, Bool-cases, String, true,
  false, List, [], ◌∷◌, arith, ltb, if◌then◌else◌, min,
}
use zao_p2p.Transfer.{chunk_size, chunk_len, div_ceil}
use zao_p2p.Transfer.Handle.{TransferHandle, contains, new, mark_chunk_acked, pending_chunk_indices}
use zao_p2p.Transfer.Handle.Pending.{acked_of_no_pending}

-- The bytes of the acked chunks among the first `n`.
unfoldable pub acked_bytes : ℕ → List ℕ → ℕ → ℕ
acked_bytes total acked zero = 0
acked_bytes total acked (suc n) =
    acked_bytes total acked n + (if contains n acked then chunk_len total n else 0)

acked_bytes-insert :
    (total i n : ℕ) (acked : List ℕ)
    → contains i acked ≡ false
    → acked_bytes total (i ∷ acked) n
      ≡ acked_bytes total acked n + (if ltb i n then chunk_len total i else 0)
unfolding acked_bytes contains
acked_bytes-insert total i zero acked h = ground arith
acked_bytes-insert total i (suc n) acked h = ground (arith, acked_bytes-insert total i n acked h)

pub acked_bytes-le :
    (total n : ℕ) (acked : List ℕ) → acked_bytes total acked n ≤ min total (n * chunk_size)
unfolding acked_bytes chunk_len
acked_bytes-le total zero acked = omega arith
acked_bytes-le total (suc n) acked = ground (arith, acked_bytes-le total n acked)

acked_bytes_all :
    (total n : ℕ) (acked : List ℕ)
    → ((i : ℕ) → i < n → contains i acked ≡ true)
    → acked_bytes total acked n ≡ min total (n * chunk_size)
unfolding acked_bytes chunk_len
acked_bytes_all total zero acked h = omega arith
acked_bytes_all total (suc n) acked h =
    ground (arith, h n (omega arith), acked_bytes_all total n acked (λ i lt. h i (omega arith)))

div_ceil_covers : (total : ℕ) → total ≤ div_ceil total chunk_size * chunk_size
unfolding div_ceil
div_ceil_covers total = ground arith

acked_bytes_none : (total n : ℕ) → acked_bytes total [] n ≡ 0
unfolding acked_bytes contains
acked_bytes_none total zero = refl
acked_bytes_none total (suc n) = ground (arith, acked_bytes_none total n)

-- The count of a transfer that began at zero.
pub record IsCounted (h : TransferHandle) : Type 0 where
  pub small : h.total_bytes < 2 ^ 64
  pub chunks : h.total_chunks ≡ div_ceil h.total_bytes chunk_size
  pub counted : h.bytes_transferred ≡ acked_bytes h.total_bytes h.acked_chunks h.total_chunks

pub new-IsCounted :
    (transfer_id file_name : String) (total now : ℕ)
    → total < 2 ^ 64
    → IsCounted (new transfer_id file_name total now)
unfolding new
new-IsCounted transfer_id file_name total now h = record {
  small = h;
  chunks = refl;
  counted = sym (acked_bytes_none _ _);
}

-- Acking a chunk of the file with its length, whether for the first time or again, keeps the count.
pub mark_chunk_acked-IsCounted :
    (h : TransferHandle) (i now : ℕ)
    → IsCounted h
    → i < h.total_chunks
    → IsCounted (mark_chunk_acked h i (chunk_len h.total_bytes i) now)
unfolding mark_chunk_acked
mark_chunk_acked-IsCounted h i now v lt = elim (Bool-cases (contains i h.acked_chunks)) [
  | inl old ↦ rw old v
  | inr fresh ↦ rw fresh (record {
    small = v.small;
    chunks = v.chunks;
    counted = ground (
      arith,
      v.counted,
      v.small,
      acked_bytes-insert h.total_bytes i h.total_chunks h.acked_chunks,
      acked_bytes-le h.total_bytes h.total_chunks (i ∷ h.acked_chunks),
    );
  })
]

-- The count never passes the size of the file.
pub bytes_transferred-le : (h : TransferHandle) → IsCounted h → h.bytes_transferred ≤ h.total_bytes
bytes_transferred-le h v = omega (arith, acked_bytes-le h.total_bytes h.total_chunks h.acked_chunks)

-- When no chunk is pending the count is the size of the file.
pub bytes_transferred_complete :
    (h : TransferHandle)
    → IsCounted h
    → pending_chunk_indices h ≡ []
    → h.bytes_transferred ≡ h.total_bytes
bytes_transferred_complete h v done = omega (
  arith,
  v.chunks,
  div_ceil_covers h.total_bytes,
  ap (λ (n : ℕ). n * chunk_size) v.chunks,
  acked_bytes_all h.total_bytes h.total_chunks h.acked_chunks
      (λ i lt. acked_of_no_pending i h done lt),
)
