-- ===== src/Tests/Concrete.antt =====
-- Small models of the crates that the program uses, and a device that uses them.
use zao_p2p.Prelude.{
  ℕ, ◌≡◌, refl, sym, String, true, false, none, some, [], ◌∷◌, ◌==◌, if◌then◌else◌, arith,
}
use Prim.Native.String.{◌++◌ as str_append}
use zao_p2p.Prelude.Bytes.{Bytes}
use zao_p2p.CoreError.{Result, ok, err, db}
use zao_p2p.Float.{Float}
use zao_p2p.Identity.{Crypto, DeviceIdentity}
use zao_p2p.Noise.{Snow}
use zao_p2p.Protocol.{ProtocolMessage, Codec, ping}
use zao_p2p.Manager.{World, Manager}

abbrev pub zeros : Bytes
zeros =
    0 ∷ 0 ∷ 0 ∷ 0 ∷ 0 ∷ 0 ∷ 0 ∷ 0 ∷ 0 ∷ 0 ∷ 0 ∷ 0 ∷ 0 ∷ 0 ∷ 0 ∷ 0 ∷ 0 ∷ 0 ∷ 0 ∷ 0 ∷ 0 ∷ 0 ∷ 0 ∷ 0
    ∷ 0 ∷ 0 ∷ 0 ∷ 0 ∷ 0 ∷ 0 ∷ 0 ∷ 0 ∷ []

abbrev pub name_of : Bytes → String
name_of [] = "none"
name_of (b ∷ bs) = if b == 0 then "zero" else "other"

-- Keys are bytes, a hash is its input, and a cipher leaves its text as it is.
abbrev pub crypto : Crypto
crypto = record {
  SigningKey = Bytes;
  StaticSecret = Bytes;
  signing_from_bytes = λ b. b;
  signing_to_bytes = λ k. k;
  signing_from_to = λ k. refl;
  verifying_key = λ k. 1 ∷ k;
  sign_with = λ k b. b;
  secret_from_bytes = λ b. b;
  secret_to_bytes = λ s. s;
  secret_from_to = λ s. refl;
  public_key = λ s. zeros;
  length-public_key = λ s. refl;
  diffie_hellman = λ s b. b;
  diffie_hellman_comm = λ a b. refl;
  sha256 = λ b. b;
  sha512 = λ b. b;
  hex_encode = name_of;
  encrypt = λ key nonce p. some p;
  decrypt = λ key nonce p. some p;
  decrypt-encrypt = λ key nonce p c e. sym e;
}

abbrev pub float : Float
float = record {
  F64 = ℕ;
  F32 = ℕ;
  of_u64 = λ n. n;
  as_secs_f64 = λ n. n;
  to_f32 = λ n. n;
  div = λ a b. a;
  mul = λ a b. a;
  sub = λ a b. a;
  le = λ a b. true;
  lt = λ a b. false;
}

-- A handshake that always works and shows the key of zeros.
abbrev pub snow : Snow
snow = record {
  HandshakeState = ℕ;
  TransportState = ℕ;
  build = λ key role. some 0;
  write_handshake = λ s p. some (p, s);
  read_handshake = λ s p. some (p, s);
  finished = λ s. true;
  into_transport = λ s. some s;
  handshake_remote = λ s. some zeros;
  transport_remote = λ s. some zeros;
  write_transport = λ s p. some (p, s);
  read_transport = λ s p. some (p, s);
}

-- The only message that it encodes is a ping.
abbrev pub encode_ping : ProtocolMessage → Result Bytes
encode_ping ping = ok (7 ∷ [])
encode_ping m = err db

pub decode_ping : (m : ProtocolMessage) (bytes : Bytes) → encode_ping m ≡ ok bytes → ok ping ≡ ok m
decode_ping m bytes h = ground (arith, h)

abbrev pub codec : Codec
codec = record {
  encode_plaintext = encode_ping;
  decode_plaintext = λ b. ok ping;
  decode-encode = decode_ping;
}

abbrev pub world : World
world = record {
  crypto = crypto;
  snow = snow;
  codec = codec;
  float = float;
  signaling_json = λ m. some "signal";
  join_path = λ dir name. str_append dir name;
}

abbrev pub device : DeviceIdentity crypto
device = record { device_id = "me"; signing_key = []; noise_static = [] }

-- A device that has just started.
abbrev pub manager : Manager world
manager = record {
  identity = device;
  local_addr = "";
  downloads_dir = "d/";
  sessions = [];
  sink = [];
  outgoing_transfers = [];
  incoming_transfers = [];
  pending_folder_offers = [];
  decisions = [];
  storage = record {
    self_identity = none;
    devices = [];
    conversations = [];
    messages = [];
    file_transfers = [];
    chunk_manifest = [];
  };
  disk = [];
  client = record { outbound = []; closed = false };
  signaling_set = false;
  signaling_sessions = [];
  relay_handshake_waiters = [];
  resumes = [];
  wire = [];
}
