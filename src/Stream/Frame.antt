-- ===== src/Stream/Frame.antt =====
-- `write_framed` and `read_framed` of core/src/connection_manager.rs: [u32 LE length][bytes].
-- The writer is the list of bytes that it has taken; it takes all of them.
use zao_p2p.Prelude.{
  ℕ, ◌+◌, ◌%◌, ◌^◌, ◌≤◌, ◌<◌, ◌≡◌, refl, ap, ◌∙◌, ◌++◌, [], ltb, if◌then◌else◌, length, arith,
}
use zao_p2p.Prelude.Bytes.{
  Bytes, to_le_bytes, from_le_bytes, length-to_le_bytes, from_le_bytes-to_le_bytes,
}
use mathlib.Core.List.{append_assoc}
use zao_p2p.CoreError.{Result, ok, err, io, invalid_state, ◌>>=◌}
use zao_p2p.Transfer.{chunk_size}
use zao_p2p.Stream.{read_exact, read_exact-append, read_exact_short}

abbrev pub max_frame : ℕ
max_frame = chunk_size + 4096

-- `data.len() as u32` keeps the low 32 bits.
unfoldable pub write_framed : Bytes → Bytes → Bytes
write_framed written payload = written ++ (to_le_bytes 4 (length payload % 2 ^ 32) ++ payload)

read_body : ℕ → Bytes → Result (Bytes × Bytes)
read_body len stream =
    if ltb max_frame len
    then err (invalid_state "frame length exceeds max")
    else read_exact len stream

unfoldable pub read_framed : Bytes → Result (Bytes × Bytes)
unfolding read_body
read_framed stream = do
  (len_buf, rest) ← read_exact 4 stream
  read_body (from_le_bytes len_buf) rest

-- The header of a frame of `len` bytes, read back.
read_framed_header :
    (len : ℕ) (rest : Bytes)
    → len < 2 ^ 32
    → read_framed (to_le_bytes 4 len ++ rest) ≡ read_body len rest
unfolding read_framed
read_framed_header len rest h =
    rw (read_exact-append 4 (to_le_bytes 4 len) rest (length-to_le_bytes 4 len))
      (ap (λ (n : ℕ). read_body n rest) (from_le_bytes-to_le_bytes 4 len h))

read_body_all :
    (payload rest : Bytes)
    → length payload ≤ max_frame
    → read_body (length payload) (payload ++ rest) ≡ ok (payload, rest)
unfolding read_body
read_body_all payload rest h = ground (arith, read_exact-append (length payload) payload rest refl)

-- A frame that is no longer than the limit is read back whole, and what follows it is left.
pub read_framed-write_framed :
    (payload rest : Bytes)
    → length payload ≤ max_frame
    → read_framed (write_framed [] payload ++ rest) ≡ ok (payload, rest)
unfolding write_framed
read_framed-write_framed payload rest h =
    let small : length payload % 2 ^ 32 ≡ length payload = omega arith in
    rw (small, append_assoc)
      (read_framed_header (length payload) (payload ++ rest) (omega arith)
        ∙ read_body_all payload rest h)

-- A header that claims more than the limit is refused, whatever follows it.
pub read_framed_too_long :
    (len : ℕ) (rest : Bytes)
    → max_frame < len
    → len < 2 ^ 32
    → read_framed (to_le_bytes 4 len ++ rest) ≡ err (invalid_state "frame length exceeds max")
unfolding read_body
read_framed_too_long len rest big h = rw (read_framed_header len rest h) (ground arith)

-- A header within the limit whose bytes do not all arrive is an I/O error.
pub read_framed_short :
    (len : ℕ) (rest : Bytes)
    → len ≤ max_frame
    → length rest < len
    → read_framed (to_le_bytes 4 len ++ rest) ≡ err io
unfolding read_body
read_framed_short len rest fits short =
    rw (read_framed_header len rest (omega arith)) (ground (arith, read_exact_short len rest short))
