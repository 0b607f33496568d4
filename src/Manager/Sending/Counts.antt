-- ===== src/Manager/Sending/Counts.antt =====
-- Occurrences in the lists of a run.
use zao_p2p.Prelude.{
  ℕ, zero, suc, ◌+◌, ◌≡◌, refl, true, not, ◌&&◌, Bool-cases, inl, inr, List, [], ◌∷◌, length, count,
  count-append, ltb, ◌==◌, ==_iff, if◌then◌else◌, arith,
}
use zao_p2p.Transfer.Handle.{TransferHandle, contains, pending_below, pending_chunk_indices}
use zao_p2p.Manager.Sending.{remove_one}

pub contains-count : (k : ℕ) (xs : List ℕ) → contains k xs ≡ ltb 0 (count k xs)
unfolding contains
contains-count k [] = refl
contains-count k (x ∷ xs) = ground (arith, contains-count k xs)

pub count-remove_one :
    (k i : ℕ) (xs : List ℕ)
    → contains i xs ≡ true
    → count k (remove_one i xs) + (if k == i then 1 else 0) ≡ count k xs
unfolding contains remove_one
count-remove_one k i [] h = absurd (ground (arith, h))
count-remove_one k i (x ∷ xs) h = ground (arith, h, count-remove_one k i xs)

pub length-remove_one :
    (i : ℕ) (xs : List ℕ) → contains i xs ≡ true → length (remove_one i xs) + 1 ≡ length xs
unfolding contains remove_one
length-remove_one i [] h = absurd (ground (arith, h))
length-remove_one i (x ∷ xs) h = ground (arith, h, length-remove_one i xs)

count-pending_below :
    (k n : ℕ) (acked : List ℕ)
    → count k (pending_below n acked) ≡ (if ltb k n && not (contains k acked) then 1 else 0)
unfolding pending_below
count-pending_below k zero acked = ground arith
count-pending_below k (suc n) acked = elim (Bool-cases (k == n)) [
  | inl e ↦
      rw (count-append k (pending_below n acked), (==_iff k n).0 e)
        (ground (arith, count-pending_below n n acked))
  | inr e ↦
      rw (count-append k (pending_below n acked)) (ground (arith, count-pending_below k n acked, e))
]

-- A pending chunk is pending once.
pub count-pending_chunk_indices :
    (k : ℕ) (h : TransferHandle)
    → count k (pending_chunk_indices h)
      ≡ (if ltb k h.total_chunks && not (contains k h.acked_chunks) then 1 else 0)
unfolding pending_chunk_indices
count-pending_chunk_indices k h = count-pending_below k h.total_chunks h.acked_chunks
