-- ===== src/Transfer/Handle/Pending.antt =====
-- `pending_chunk_indices`: which chunks are left to transfer.
use zao_p2p.Prelude.{
  ℕ, zero, suc, ◌<◌, ◌≡◌, refl, true, not, ◌&&◌, ◌||◌, List, [], ◌∷◌, ◌++◌, arith, ltb, ◌==◌,
  if◌then◌else◌, inl, inr, Bool-cases, ==_iff,
}
use zao_p2p.Transfer.Handle.{
  TransferHandle, contains, pending_below, pending_chunk_indices, mark_chunk_acked,
}

pub contains-append : (i : ℕ) (s t : List ℕ) → contains i (s ++ t) ≡ (contains i s || contains i t)
unfolding contains
contains-append i [] t = refl
contains-append i (j ∷ s) t = ground (arith, contains-append i s t)

pub contains-pending_below :
    (i n : ℕ) (acked : List ℕ)
    → contains i (pending_below n acked) ≡ (ltb i n && not (contains i acked))
unfolding pending_below contains
contains-pending_below i zero acked = ground arith
contains-pending_below i (suc n) acked = ground (
  arith,
  contains-append i (pending_below n acked) (if contains n acked then [] else n ∷ []),
  contains-pending_below i n acked,
)

-- A chunk is pending exactly when its index lies in the file and it was not acked.
pub contains-pending_chunk_indices :
    (i : ℕ) (h : TransferHandle)
    → contains i (pending_chunk_indices h)
      ≡ (ltb i h.total_chunks && not (contains i h.acked_chunks))
unfolding pending_chunk_indices
contains-pending_chunk_indices i h = contains-pending_below i h.total_chunks h.acked_chunks

-- With nothing pending every chunk of the file was acked.
pub acked_of_no_pending :
    (i : ℕ) (h : TransferHandle)
    → pending_chunk_indices h ≡ []
    → i < h.total_chunks
    → contains i h.acked_chunks ≡ true
unfolding contains
acked_of_no_pending i h e lt = ground (arith, contains-pending_chunk_indices i h, e)

-- With every chunk acked nothing is pending.
pub no_pending_of_acked :
    (n : ℕ) (acked : List ℕ)
    → ((i : ℕ) → i < n → contains i acked ≡ true)
    → pending_below n acked ≡ []
unfolding pending_below
no_pending_of_acked zero acked h = refl
no_pending_of_acked (suc n) acked h =
    ground (arith, h n (omega arith), no_pending_of_acked n acked (λ i lt. h i (omega arith)))

-- Acking a chunk adds its index, and nothing else, to the acked ones.
pub contains-mark_chunk_acked :
    (h : TransferHandle) (i chunk_len now k : ℕ)
    → contains k (mark_chunk_acked h i chunk_len now).acked_chunks
      ≡ (k == i || contains k h.acked_chunks)
unfolding mark_chunk_acked contains
contains-mark_chunk_acked h i chunk_len now k = elim (Bool-cases (contains i h.acked_chunks)) [
  | inl old ↦
      rw old (elim (Bool-cases (k == i)) [ inl e ↦ rw (e, (==_iff k i).0 e) old | inr e ↦ rw e ])
  | inr fresh ↦ rw fresh
]

pub total_bytes-mark_chunk_acked :
    (h : TransferHandle) (i chunk_len now : ℕ)
    → (mark_chunk_acked h i chunk_len now).total_bytes ≡ h.total_bytes
unfolding mark_chunk_acked
total_bytes-mark_chunk_acked h i chunk_len now = ground arith
