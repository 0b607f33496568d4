-- ===== src/Tests/Mesh.antt =====
-- A hex form that can be read back, and a world with it: a number is so many times `a`, then `b`.
use Prim.Native.Nat.{ℕ, zero, suc, ◌+◌}
use Prim.Native.Char.{Char, code}
use Prim.Native.String.{String, [], ◌∷◌}
use mathlib.Core.Path.{◌≡◌, refl, ap, ◌∙◌}
use mathlib.Core.Option.{some}
use mathlib.Core.List.{[], ◌∷◌}
use zao_p2p.Prelude.{◌==◌, if◌then◌else◌}
use native.Mathlib.Omega.{arith}
use zao_p2p.Prelude.Bytes.{Bytes}
use zao_p2p.Identity.{Crypto}
use zao_p2p.Manager.{World}
use zao_p2p.Ffi.{Texts}
use zao_p2p.Tests.Concrete

abbrev pub mark : Char
mark = "a"

abbrev pub stop : Char
stop = "b"

abbrev pub marks : ℕ → String → String
marks zero t = stop ∷ t
marks (suc n) t = mark ∷ marks n t

abbrev pub hex_encode : Bytes → String
hex_encode [] = []
hex_encode (b ∷ bytes) = marks b (hex_encode bytes)

abbrev read : ℕ → String → Bytes
read k [] = []
read k (c ∷ t) = if code c == 97 then read (suc k) t else k ∷ read 0 t

read-marks : (k n : ℕ) (t : String) → read k (marks n t) ≡ (k + n) ∷ read 0 t
read-marks k zero t = ap (λ j. j ∷ read 0 t) (omega arith)
read-marks k (suc n) t = read-marks (suc k) n t ∙ ap (λ j. j ∷ read 0 t) (omega arith)

pub read-encode : (bytes : Bytes) → read 0 (hex_encode bytes) ≡ bytes
read-encode [] = refl
read-encode (b ∷ bytes) =
    read-marks 0 b (hex_encode bytes)
    ∙ (ap (λ j. j ∷ read 0 (hex_encode bytes)) (omega arith) ∙ ap (λ l. b ∷ l) (read-encode bytes))

abbrev pub crypto : Crypto
crypto = record Concrete.crypto { hex_encode = hex_encode }

abbrev pub world : World
world = record {
  crypto = crypto;
  snow = Concrete.snow;
  codec = Concrete.codec;
  float = Concrete.float;
  signaling_json = λ m. some "signal";
  join_path = λ dir name. name;
}

abbrev pub texts : Texts world.crypto.hex_encode
texts = record {
  to_text = λ e. "error";
  hex_decode = λ t. some (read 0 t);
  decode-encode = λ bytes. ap some (read-encode bytes);
  as_bytes = λ t. 7 ∷ [];
  from_utf8 = λ b. some "hi";
}
