-- ===== src/Transfer/Handle.antt =====
-- `TransferHandle` of core/src/transfer.rs: the shared state of one transfer. A clone of a handle
-- is the same object, so a method returns the new state. Instants are numbers of nanoseconds, given
-- to the methods that read the clock. A `HashSet<u64>` is a list with no repetition.
pub mod Pending
pub mod Counting
pub mod Resumed
use zao_p2p.Prelude.{
  ℕ, zero, suc, ◌+◌, ◌-◌, ◌*◌, ◌%◌, ◌^◌, String, Bool, true, false, not, ◌||◌, Option, none, some,
  List, [], ◌∷◌, ◌++◌, length, ltb, ◌==◌, if◌then◌else◌, min,
}
use zao_p2p.Float.{Float}
use zao_p2p.Transfer.{chunk_size, TransferState, as_str, div_ceil}

unfoldable pub contains : ℕ → List ℕ → Bool
contains i [] = false
contains i (j ∷ s) = i == j || contains i s

pub record TransferHandle : Type 0 where
  pub transfer_id : String
  pub file_name : String
  pub total_bytes : ℕ
  pub total_chunks : ℕ
  pub bytes_transferred : ℕ
  pub paused : Bool
  pub cancelled : Bool
  pub started_at : ℕ
  pub speed_samples : List (ℕ × ℕ)
  pub acked_chunks : List ℕ

unfoldable pub new : String → String → ℕ → ℕ → TransferHandle
new transfer_id file_name total_bytes now = record {
  transfer_id = transfer_id;
  file_name = file_name;
  total_bytes = total_bytes;
  total_chunks = div_ceil total_bytes chunk_size;
  bytes_transferred = 0;
  paused = false;
  cancelled = false;
  started_at = now;
  speed_samples = [];
  acked_chunks = [];
}

unfoldable pub resume_from_manifest : String → String → ℕ → List ℕ → ℕ → TransferHandle
unfolding new
resume_from_manifest transfer_id file_name total_bytes already_acked now =
    let bytes_done = length already_acked * chunk_size % 2 ^ 64 in
    record (new transfer_id file_name total_bytes now) {
      bytes_transferred = min bytes_done total_bytes;
      acked_chunks = already_acked;
    }

unfoldable pub pause : TransferHandle → TransferHandle
pause h = record h { paused = true }

unfoldable pub resume : TransferHandle → TransferHandle
resume h = record h { paused = false }

unfoldable pub cancel : TransferHandle → TransferHandle
cancel h = record h { cancelled = true }

-- The indices of `(0..total)` that pass the filter, from the last one down.
unfoldable pub pending_below : ℕ → List ℕ → List ℕ
pending_below zero acked = []
pending_below (suc n) acked = pending_below n acked ++ (if contains n acked then [] else n ∷ [])

unfoldable pub pending_chunk_indices : TransferHandle → List ℕ
pending_chunk_indices h = pending_below h.total_chunks h.acked_chunks

-- The samples of the last five seconds.
unfoldable pub retain_recent : ℕ → List (ℕ × ℕ) → List (ℕ × ℕ)
retain_recent now [] = []
retain_recent now ((t, b) ∷ samples) =
    let rest = retain_recent now samples in
    if ltb (now - t) 5_000_000_000 then (t, b) ∷ rest else rest

unfoldable pub record_speed_sample : TransferHandle → ℕ → ℕ → TransferHandle
record_speed_sample h cumulative_bytes now = record h {
  speed_samples = retain_recent now (h.speed_samples ++ ((now, cumulative_bytes) ∷ []));
}

-- `fetch_add` wraps around, as does the sum after it in a release build.
unfoldable pub mark_chunk_acked : TransferHandle → ℕ → ℕ → ℕ → TransferHandle
unfolding record_speed_sample
mark_chunk_acked h chunk_index chunk_len now =
    if contains chunk_index h.acked_chunks
    then h
    else (let new_total = (h.bytes_transferred + chunk_len) % 2 ^ 64 in
        record_speed_sample
          (record h { acked_chunks = chunk_index ∷ h.acked_chunks; bytes_transferred = new_total })
          new_total now)

pub record TransferProgress (F32 F64 : Type 0) : Type 0 where
  pub transfer_id : String
  pub file_name : String
  pub total_bytes : ℕ
  pub bytes_transferred : ℕ
  pub percent : F32
  pub speed_bytes_per_sec : F64
  pub eta_seconds : Option F64
  pub state : String

last_sample : ℕ × ℕ → List (ℕ × ℕ) → ℕ × ℕ
last_sample s [] = s
last_sample s (t ∷ ts) = last_sample t ts

module _ (fl : Float) where
  unfoldable pub current_speed_bytes_per_sec : TransferHandle → fl.F64
  unfolding last_sample
  current_speed_bytes_per_sec h = elim h.speed_samples [
    | [] ↦ fl.of_u64 0
    | first ∷ [] ↦ fl.of_u64 0
    | first ∷ (second ∷ others) ↦
        (let last = last_sample second others in
          let elapsed = fl.as_secs_f64 (last.0 - first.0) in
          if fl.le elapsed (fl.of_u64 0)
          then fl.of_u64 0
          else fl.div (fl.sub (fl.of_u64 last.1) (fl.of_u64 first.1)) elapsed)
  ]

  unfoldable pub progress : TransferHandle → TransferState → TransferProgress fl.F32 fl.F64
  progress h state =
      let speed = current_speed_bytes_per_sec h in
      record {
        transfer_id = h.transfer_id;
        file_name = h.file_name;
        total_bytes = h.total_bytes;
        bytes_transferred = h.bytes_transferred;
        percent =
            if h.total_bytes == 0
            then fl.to_f32 (fl.of_u64 100)
            else fl.to_f32 (
                fl.mul (fl.div (fl.of_u64 h.bytes_transferred) (fl.of_u64 h.total_bytes))
                  (fl.of_u64 100));
        speed_bytes_per_sec = speed;
        eta_seconds =
            if fl.lt (fl.of_u64 0) speed
            then some (fl.div (fl.of_u64 (h.total_bytes - h.bytes_transferred)) speed)
            else none;
        state = as_str state;
      }
