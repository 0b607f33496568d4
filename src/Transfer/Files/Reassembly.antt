-- ===== src/Transfer/Files/Reassembly.antt =====
-- The chunks of a file, written in any order into a file of its size, give the file back.
use zao_p2p.Prelude.{
  ℕ, ◌*◌, ◌/◌, ◌^◌, ◌<◌, ◌≡◌, refl, ◌∙◌, String, true, ◌||◌, List, [], ◌∷◌, arith, length,
  length-replicate, replicate, get_or, get_or_ext,
}
use zao_p2p.Prelude.Bytes.{Bytes}
use zao_p2p.Transfer.{chunk_size, chunk_len, div_ceil}
use zao_p2p.Transfer.Handle.{TransferHandle, contains, new, mark_chunk_acked, pending_chunk_indices}
use zao_p2p.Transfer.Handle.Pending.{
  acked_of_no_pending, no_pending_of_acked, contains-mark_chunk_acked, total_bytes-mark_chunk_acked,
}
use zao_p2p.Transfer.Handle.Counting.{
  IsCounted, new-IsCounted, mark_chunk_acked-IsCounted, bytes_transferred_complete,
}
use zao_p2p.Transfer.Files.{read_chunk, write_at, chunk_offset}
use zao_p2p.Transfer.Files.Copy.{
  chunk_starts_inside, length-read_chunk, get_or-copy_chunk, length-copy_chunk,
}

-- The receiver's file and handle, after one chunk of `src` was written and acked.
unfoldable pub receive_chunk : Bytes → Bytes × TransferHandle → ℕ × ℕ → Bytes × TransferHandle
receive_chunk src (file, h) (i, now) =
    let payload = read_chunk src i in
    (write_at file (chunk_offset i) payload, mark_chunk_acked h i (length payload) now)

-- The receiver's file and handle, after chunks in any order, with repetitions.
unfoldable pub receive_chunks :
    Bytes → Bytes × TransferHandle → List (ℕ × ℕ) → Bytes × TransferHandle
receive_chunks src s [] = s
receive_chunks src s (c ∷ cs) = receive_chunks src (receive_chunk src s c) cs

abbrev pub AllInFile : ℕ → List (ℕ × ℕ) → Type 0
AllInFile total [] = Unit
AllInFile total ((i, now) ∷ cs) = (i < div_ceil total chunk_size) × AllInFile total cs

-- The acked chunks of the file are those of `src`.
pub record Agrees (src : Bytes) (s : Bytes × TransferHandle) : Type 0 where
  pub size : length s.0 ≡ length src
  pub total : s.1.total_bytes ≡ length src
  pub counted : IsCounted s.1
  pub same :
      (j : ℕ)
      → j < length src
      → contains (j / chunk_size) s.1.acked_chunks ≡ true
      → get_or s.0 j 0 ≡ get_or src j 0

pub receive_chunk-Agrees :
    (src file : Bytes) (h : TransferHandle) (i now : ℕ)
    → i < div_ceil (length src) chunk_size
    → Agrees src (file, h)
    → Agrees src (receive_chunk src (file, h) (i, now))
unfolding receive_chunk
receive_chunk-Agrees src file h i now lt v = rw (length-read_chunk src i small inside) (record {
  size = length-copy_chunk src file i small inside v.size;
  total = total_bytes-mark_chunk_acked h i _ now ∙ v.total;
  counted =
      rw (← v.total)
        (mark_chunk_acked-IsCounted h i now v.counted (rw (v.counted.chunks, v.total) lt));
  same = λ j jlt acked. ground (
    arith,
    get_or-copy_chunk src file i j small inside v.size jlt,
    contains-mark_chunk_acked h i (chunk_len (length src) i) now (j / chunk_size),
    acked,
    v.same j jlt,
  );
})
  where
    small : length src < 2 ^ 64
    small = rw (← v.total) v.counted.small

    inside : i * chunk_size < length src
    inside = chunk_starts_inside (length src) i lt

receive_chunks-Agrees :
    (src : Bytes) (cs : List (ℕ × ℕ)) (s : Bytes × TransferHandle)
    → AllInFile (length src) cs
    → Agrees src s
    → Agrees src (receive_chunks src s cs)
unfolding receive_chunks
receive_chunks-Agrees src [] s inside v = v
receive_chunks-Agrees src ((i, now) ∷ cs) s (lt, inside) v =
    receive_chunks-Agrees src cs (receive_chunk src s (i, now)) inside
      (receive_chunk-Agrees src s.0 s.1 i now lt v)

-- An agreeing state with nothing pending holds the file.
pub Agrees-complete :
    (src file : Bytes) (h : TransferHandle)
    → Agrees src (file, h)
    → pending_chunk_indices h ≡ []
    → file ≡ src
unfolding div_ceil
Agrees-complete src file h v done = get_or_ext file src 0 v.size λ j lt.
    v.same j (omega (arith, v.size)) (
      acked_of_no_pending (j / chunk_size) h done
        (rw (v.counted.chunks, v.total) (ground (arith, v.size))))

-- The state of a receiver that began with an empty file of the right size.
abbrev pub received : Bytes → String → String → ℕ → List (ℕ × ℕ) → Bytes × TransferHandle
received src transfer_id file_name started cs =
    receive_chunks src (replicate (length src) 0, new transfer_id file_name (length src) started) cs

pub new-Agrees :
    (src : Bytes) (transfer_id file_name : String) (started : ℕ)
    → length src < 2 ^ 64
    → Agrees src (replicate (length src) 0, new transfer_id file_name (length src) started)
new-Agrees src transfer_id file_name started small = record {
  size = length-replicate (length src) 0;
  total = unfold new in refl;
  counted = new-IsCounted transfer_id file_name (length src) started small;
  same = λ j lt acked. absurd (unfold new contains in ground (arith, acked));
}

received-Agrees :
    (src : Bytes) (transfer_id file_name : String) (started : ℕ) (cs : List (ℕ × ℕ))
    → length src < 2 ^ 64
    → AllInFile (length src) cs
    → Agrees src (received src transfer_id file_name started cs)
received-Agrees src transfer_id file_name started cs small inside =
    receive_chunks-Agrees src cs _ inside (new-Agrees src transfer_id file_name started small)

-- Chunks of a file below 2^64 bytes are written, in any order and with repetitions, into a new file
-- of its size, and each is acked. When the handle has no chunk pending, the bytes are those of the
-- file sent, and the count of transferred bytes is its size.
pub received_complete :
    (src : Bytes) (transfer_id file_name : String) (started : ℕ) (cs : List (ℕ × ℕ))
    → length src < 2 ^ 64
    → AllInFile (length src) cs
    → pending_chunk_indices (received src transfer_id file_name started cs).1 ≡ []
    → ((received src transfer_id file_name started cs).0 ≡ src)
      × ((received src transfer_id file_name started cs).1.bytes_transferred ≡ length src)
received_complete src transfer_id file_name started cs small inside done =
    let v = received-Agrees src transfer_id file_name started cs small inside in
    (Agrees-complete src _ _ v done, bytes_transferred_complete _ v.counted done ∙ v.total)

abbrev indices : List (ℕ × ℕ) → List ℕ
indices [] = []
indices ((i, now) ∷ cs) = i ∷ indices cs

acked-receive_chunks :
    (src : Bytes) (cs : List (ℕ × ℕ)) (s : Bytes × TransferHandle) (k : ℕ)
    → (contains k (indices cs) || contains k s.1.acked_chunks) ≡ true
    → contains k (receive_chunks src s cs).1.acked_chunks ≡ true
unfolding receive_chunks contains
acked-receive_chunks src [] s k h = h
acked-receive_chunks src ((i, now) ∷ cs) s k h =
    acked-receive_chunks src cs (receive_chunk src s (i, now)) k (
      unfold receive_chunk in
      ground (arith, contains-mark_chunk_acked s.1 i (length (read_chunk src i)) now k))

-- Once every chunk of the file has arrived, in any order, nothing is pending and the file is whole.
pub received_total :
    (src : Bytes) (transfer_id file_name : String) (started : ℕ) (cs : List (ℕ × ℕ))
    → length src < 2 ^ 64
    → AllInFile (length src) cs
    → ((i : ℕ) → i < div_ceil (length src) chunk_size → contains i (indices cs) ≡ true)
    → (pending_chunk_indices (received src transfer_id file_name started cs).1 ≡ [])
      × ((received src transfer_id file_name started cs).0 ≡ src)
received_total src transfer_id file_name started cs small inside all =
    let v = received-Agrees src transfer_id file_name started cs small inside in
    let done : pending_chunk_indices (received src transfer_id file_name started cs).1 ≡ [] =
      unfold pending_chunk_indices in
      no_pending_of_acked _ _ (λ i lt.
        acked-receive_chunks src cs _ i
          (rw (all i (ground (arith, v.counted.chunks, v.total, lt))))) in
    (done, Agrees-complete src _ _ v done)
