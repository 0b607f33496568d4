-- ===== src/Stream.antt =====
-- What the source uses of a byte stream: `read_exact` takes the next bytes of what the peer wrote,
-- or fails at its end. The frames of core/src/connection_manager.rs stand on it.
pub mod Frame
use zao_p2p.Prelude.{
  ℕ, ◌≡◌, refl, ◌++◌, ltb, if◌then◌else◌, length, length-append, take, drop, take-append,
  drop-append, arith, ◌+◌, ◌<◌,
}
use zao_p2p.Prelude.Bytes.{Bytes}
use zao_p2p.CoreError.{Result, ok, err, io}

-- The bytes read, and what is left of the stream.
unfoldable pub read_exact : ℕ → Bytes → Result (Bytes × Bytes)
read_exact n stream = if ltb (length stream) n then err io else ok (take n stream, drop n stream)

read_exact_all : (bytes rest : Bytes) → read_exact (length bytes) (bytes ++ rest) ≡ ok (bytes, rest)
unfolding read_exact
read_exact_all bytes rest =
    ground (arith, length-append bytes rest, take-append bytes rest, drop-append bytes rest)

-- A stream that begins with `n` bytes gives them, and leaves the rest.
pub read_exact-append :
    (n : ℕ) (bytes rest : Bytes)
    → length bytes ≡ n
    → read_exact n (bytes ++ rest) ≡ ok (bytes, rest)
read_exact-append n bytes rest h = rw (← h) (read_exact_all bytes rest)

-- A stream that is too short is an error, whatever it holds.
pub read_exact_short : (n : ℕ) (stream : Bytes) → length stream < n → read_exact n stream ≡ err io
unfolding read_exact
read_exact_short n stream h = ground arith
