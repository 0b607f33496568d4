-- ===== src/Transfer/Files.antt =====
-- Chunk reads and writes of core/src/transfer.rs, over the files of the disk: a path names the
-- bytes of a file. `tokio::fs` has the semantics of `std::fs`. An error that the operating system
-- reports on a file that can be opened (a full disk, an offset that it refuses) is not modelled.
mod Copy
pub mod Reassembly
use Prim.Native.String.{◌++◌ as str_append}
use zao_p2p.Prelude.{
  ℕ, ◌+◌, ◌-◌, ◌*◌, ◌%◌, ◌^◌, String, Option, none, some, List, [], ◌∷◌, ◌++◌, length, take, drop,
  replicate, min, ◌==◌, if◌then◌else◌,
}
use zao_p2p.Prelude.Bytes.{Bytes}
use zao_p2p.Prelude.Maps.{Map, lookup, insert}
use zao_p2p.CoreError.{Result, ok, err, io, ok_or, ◌>>=◌}
use zao_p2p.Transfer.{chunk_size}

abbrev pub Disk : Type 0
Disk = Map Bytes

-- A descriptor is the text of its number, as `format!` prints it.
pub data FileSource : Type 0 where
  path : String → FileSource
  fd : String → FileSource

-- `chunk_index * CHUNK_SIZE` on `u64`.
abbrev pub chunk_offset : ℕ → ℕ
chunk_offset chunk_index = chunk_index * chunk_size % 2 ^ 64

-- `seek`, `metadata` and `read_exact` on an open file.
unfoldable pub read_chunk : Bytes → ℕ → Bytes
read_chunk file chunk_index =
    let offset = chunk_offset chunk_index in
    let remaining = length file - offset in take (min remaining chunk_size) (drop offset file)

unfoldable pub read_chunk_from_source : Disk → FileSource → ℕ → Result Bytes
unfolding read_chunk
read_chunk_from_source disk (path p) chunk_index = do
  file ← ok_or (lookup p disk) io
  ok (read_chunk file chunk_index)
read_chunk_from_source disk (fd n) chunk_index = do
  file ← ok_or (lookup (str_append "/proc/self/fd/" n) disk) io
  ok (read_chunk file chunk_index)

unfoldable pub read_chunk_from_file : Disk → String → ℕ → Result Bytes
unfolding read_chunk_from_source
read_chunk_from_file disk p chunk_index = read_chunk_from_source disk (path p) chunk_index

-- `seek` and `write_all`: a write past the end fills the gap with zeros, an empty one does nothing.
unfoldable pub write_at : Bytes → ℕ → Bytes → Bytes
write_at file offset [] = file
write_at file offset (b ∷ bs) =
    take offset file
    ++ (replicate (offset - length file) 0 ++ ((b ∷ bs) ++ drop (offset + length (b ∷ bs)) file))

unfoldable pub write_chunk_to_file : Disk → String → ℕ → Bytes → Result Disk
unfolding write_at
write_chunk_to_file disk p chunk_index payload = do
  file ← ok_or (lookup p disk) io
  ok (insert p (write_at file (chunk_offset chunk_index) payload) disk)

-- `File::create` empties a file that is there, and `set_len` fills it with zeros.
unfoldable pub preallocate_file : Disk → String → ℕ → Disk
preallocate_file disk p total_size = insert p (replicate total_size 0) disk
