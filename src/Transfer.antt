-- ===== src/Transfer.antt =====
-- core/src/transfer.rs: the chunk size, the states of a transfer and the length of each chunk.
pub mod ChunkFrame
pub mod Handle
pub mod Files
pub mod Workers
use zao_p2p.Prelude.{ℕ, ◌+◌, ◌-◌, ◌*◌, ◌/◌, ◌%◌, ◌^◌, String, ltb, if◌then◌else◌, min}

abbrev pub chunk_size : ℕ
chunk_size = 8 * 1024 * 1024

abbrev pub default_parallelism : ℕ
default_parallelism = 6

pub data TransferState : Type 0 where
  queued active paused completed failed cancelled : TransferState

unfoldable pub as_str : TransferState → String
as_str queued = "queued"
as_str active = "active"
as_str paused = "paused"
as_str completed = "completed"
as_str failed = "failed"
as_str cancelled = "cancelled"

-- `u64::div_ceil`
unfoldable pub div_ceil : ℕ → ℕ → ℕ
div_ceil n d = if ltb 0 (n % d) then n / d + 1 else n / d

-- What `read_chunk_from_source` reads of a file of `total` bytes at a chunk.
unfoldable pub chunk_len : ℕ → ℕ → ℕ
chunk_len total i = min (total - i * chunk_size) chunk_size
