-- ===== src/Noise.antt =====
-- core/src/noise_session.rs: the two phases of a Noise_XX session. The protocol itself comes from
-- the crate `snow`: a record of its states and operations.
pub mod Phases
use zao_p2p.Prelude.{ℕ, String, Bool, true, false, Option, none, some}
use zao_p2p.Prelude.Bytes.{Bytes}
use zao_p2p.CoreError.{Result, ok, err, crypto, invalid_state, ok_or, ◌>>=◌}

pub data Role : Type 0 where
  initiator responder : Role

-- An operation that fails gives no new state.
pub record Snow : Type 1 where
  pub HandshakeState : Type 0
  pub TransportState : Type 0
  pub build : Bytes → Role → Option HandshakeState
  pub write_handshake : HandshakeState → Bytes → Option (Bytes × HandshakeState)
  pub read_handshake : HandshakeState → Bytes → Option (Bytes × HandshakeState)
  pub finished : HandshakeState → Bool
  pub into_transport : HandshakeState → Option TransportState
  pub handshake_remote : HandshakeState → Option Bytes
  pub transport_remote : TransportState → Option Bytes
  pub write_transport : TransportState → Bytes → Option (Bytes × TransportState)
  pub read_transport : TransportState → Bytes → Option (Bytes × TransportState)

module _ (snow : Snow) where
  pub data NoiseSession : Type 0 where
    handshaking : snow.HandshakeState → NoiseSession
    transport : snow.TransportState → NoiseSession

module _ (snow : Snow) where
  -- `Builder::new(..).local_private_key(..).build_..()`
  unfoldable pub new_session : Bytes → Role → Result (NoiseSession snow)
  new_session private_key role = do
    hs ← ok_or (snow.build private_key role) (crypto "snow")
    ok (handshaking hs)

  unfoldable pub write_handshake_message :
      NoiseSession snow → Bytes → Result (Bytes × NoiseSession snow)
  write_handshake_message (handshaking hs) payload = do
    (msg, hs') ← ok_or (snow.write_handshake hs payload) (crypto "snow")
    ok (msg, handshaking hs')
  write_handshake_message (transport ts) payload = err (invalid_state "handshake already complete")

  unfoldable pub read_handshake_message :
      NoiseSession snow → Bytes → Result (Bytes × NoiseSession snow)
  read_handshake_message (handshaking hs) msg = do
    (payload, hs') ← ok_or (snow.read_handshake hs msg) (crypto "snow")
    ok (payload, handshaking hs')
  read_handshake_message (transport ts) msg = err (invalid_state "handshake already complete")

  unfoldable pub into_transport_mode : NoiseSession snow → Result (NoiseSession snow)
  into_transport_mode (handshaking hs) = do
    ts ← ok_or (snow.into_transport hs) (crypto "snow")
    ok (transport ts)
  into_transport_mode (transport ts) = ok (transport ts)

  unfoldable pub is_handshake_finished : NoiseSession snow → Bool
  is_handshake_finished (handshaking hs) = snow.finished hs
  is_handshake_finished (transport ts) = true

  unfoldable pub peer_static_key : NoiseSession snow → Option Bytes
  peer_static_key (handshaking hs) = snow.handshake_remote hs
  peer_static_key (transport ts) = snow.transport_remote ts

  unfoldable pub encrypt : NoiseSession snow → Bytes → Result (Bytes × NoiseSession snow)
  encrypt (transport ts) plaintext = do
    (ciphertext, ts') ← ok_or (snow.write_transport ts plaintext) (crypto "snow")
    ok (ciphertext, transport ts')
  encrypt (handshaking hs) plaintext = err (invalid_state "not in transport mode")

  unfoldable pub decrypt : NoiseSession snow → Bytes → Result (Bytes × NoiseSession snow)
  decrypt (transport ts) ciphertext = do
    (plaintext, ts') ← ok_or (snow.read_transport ts ciphertext) (crypto "snow")
    ok (plaintext, transport ts')
  decrypt (handshaking hs) ciphertext = err (invalid_state "not in transport mode")
