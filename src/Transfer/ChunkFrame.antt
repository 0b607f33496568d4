-- ===== src/Transfer/ChunkFrame.antt =====
-- `ChunkFrame` of core/src/transfer.rs, over SHA-256, which comes from a crate.
-- Wire format: [chunk_index: u64 LE][chunk_len: u32 LE][sha256: 32 bytes][payload].
use zao_p2p.Prelude.{
  ℕ, ◌%◌, ◌^◌, ◌<◌, ◌≡◌, ◌≢◌, refl, Bool, true, false, ◌++◌, arith, length, length-append, take,
  drop, take-append, drop-append, take_all, inl, inr, Bool-cases,
}
use zao_p2p.Prelude.Bytes.{
  Bytes, to_le_bytes, from_le_bytes, length-to_le_bytes, from_le_bytes-to_le_bytes, bytes_eq,
  bytes_eq_refl, bytes_eq→eq,
}
use zao_p2p.CoreError.{Result, ok, ◌>>=◌}
use zao_p2p.Stream.{read_exact, read_exact-append}
use mathlib.Core.List.{append_assoc}

pub record ChunkFrame : Type 0 where
  pub chunk_index : ℕ
  pub payload : Bytes
  pub checksum : Bytes

unfoldable pub encode : ChunkFrame → Bytes
encode f =
    to_le_bytes 8 f.chunk_index
    ++ (to_le_bytes 4 (length f.payload % 2 ^ 32) ++ (f.checksum ++ f.payload))

read_payload : Bytes → Bytes → Result (ChunkFrame × Bytes)
read_payload header stream = do
  (payload, rest) ← read_exact (from_le_bytes (take 4 (drop 8 header))) stream
  ok (
    record {
      chunk_index = from_le_bytes (take 8 header);
      payload = payload;
      checksum = take 32 (drop 12 header);
    },
    rest,
  )

unfoldable pub read_from : Bytes → Result (ChunkFrame × Bytes)
unfolding read_payload
read_from stream = do (header, rest) ← read_exact 44 stream; read_payload header rest

module _ (sha256 : Bytes → Bytes) where
  unfoldable pub new_frame : ℕ → Bytes → ChunkFrame
  new_frame chunk_index payload = record {
    chunk_index = chunk_index;
    payload = payload;
    checksum = sha256 payload;
  }

  unfoldable pub verify : ChunkFrame → Bool
  verify f = bytes_eq (sha256 f.payload) f.checksum

take_exactly : (n : ℕ) (xs ys : Bytes) → length xs ≡ n → take n (xs ++ ys) ≡ xs
take_exactly n xs ys h = rw (← h) (take-append xs ys)

drop_exactly : (n : ℕ) (xs ys : Bytes) → length xs ≡ n → drop n (xs ++ ys) ≡ ys
drop_exactly n xs ys h = rw (← h) (drop-append xs ys)

-- The first 44 bytes of an encoded frame.
abbrev header_of : ℕ → ℕ → Bytes → Bytes
header_of i len checksum = to_le_bytes 8 i ++ (to_le_bytes 4 len ++ checksum)

length-header_of :
    (i len : ℕ) (checksum : Bytes) → length checksum ≡ 32 → length (header_of i len checksum) ≡ 44
length-header_of i len checksum h =
    rw (length-append, length-append, length-to_le_bytes, length-to_le_bytes) (omega arith)

encode-header_of :
    (f : ChunkFrame) (rest : Bytes)
    → encode f ++ rest
      ≡ header_of f.chunk_index (length f.payload % 2 ^ 32) f.checksum ++ (f.payload ++ rest)
unfolding encode
encode-header_of f rest = simp append_assoc

module _ (i len : ℕ) (checksum : Bytes) where
  index_field : take 8 (header_of i len checksum) ≡ to_le_bytes 8 i
  index_field = take_exactly 8 _ _ (length-to_le_bytes 8 i)

  length_field : take 4 (drop 8 (header_of i len checksum)) ≡ to_le_bytes 4 len
  length_field =
      rw (drop_exactly 8 (to_le_bytes 8 i) (to_le_bytes 4 len ++ checksum) (length-to_le_bytes 8 i))
        (take_exactly 4 _ _ (length-to_le_bytes 4 len))

  checksum_field : length checksum ≡ 32 → take 32 (drop 12 (header_of i len checksum)) ≡ checksum
  checksum_field h =
      rw
        (
          ← append_assoc (to_le_bytes 8 i) (to_le_bytes 4 len) checksum,
          drop_exactly 12 (to_le_bytes 8 i ++ to_le_bytes 4 len) checksum both,
        )
        (take_all 32 checksum (omega arith))
    where
      both : length (to_le_bytes 8 i ++ to_le_bytes 4 len) ≡ 12
      both = rw (length-append, length-to_le_bytes, length-to_le_bytes) (omega arith)

-- `encode` and then `read_from` give the frame back, and leave what follows it.
pub read_from-encode :
    (f : ChunkFrame) (rest : Bytes)
    → f.chunk_index < 2 ^ 64
    → length f.payload < 2 ^ 32
    → length f.checksum ≡ 32
    → read_from (encode f ++ rest) ≡ ok (f, rest)
unfolding read_from
read_from-encode f rest hi hp hc =
    let small : length f.payload % 2 ^ 32 ≡ length f.payload = omega arith in
    rw (
      encode-header_of f rest,
      small,
      read_exact-append 44 (header_of f.chunk_index (length f.payload) f.checksum)
          (f.payload ++ rest) (length-header_of f.chunk_index (length f.payload) f.checksum hc),
      length_field f.chunk_index (length f.payload) f.checksum,
      from_le_bytes-to_le_bytes 4 (length f.payload) hp,
      read_exact-append (length f.payload) f.payload rest refl,
      index_field f.chunk_index (length f.payload) f.checksum,
      checksum_field f.chunk_index (length f.payload) f.checksum hc,
      from_le_bytes-to_le_bytes 8 f.chunk_index hi,
    )

-- A frame made by `new_frame` verifies; one whose payload was replaced by bytes of another hash
-- does not.
pub verify-new_frame :
    (sha256 : Bytes → Bytes) (i : ℕ) (payload other : Bytes)
    → sha256 other ≢ sha256 payload
    → (verify sha256 (new_frame sha256 i payload) ≡ true)
      × (verify sha256 (record (new_frame sha256 i payload) { payload = other }) ≡ false)
unfolding new_frame verify
verify-new_frame sha256 i payload other differ =
    (bytes_eq_refl (sha256 payload), bytes_ne (sha256 other) (sha256 payload) differ)
  where
    bytes_ne : (xs ys : Bytes) → xs ≢ ys → bytes_eq xs ys ≡ false
    bytes_ne xs ys h = elim (Bool-cases (bytes_eq xs ys)) [
      | inl e ↦ absurd (h (bytes_eq→eq xs ys e))
      | inr e ↦ e
    ]
