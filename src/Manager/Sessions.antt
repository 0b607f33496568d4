-- ===== src/Manager/Sessions.antt =====
-- Connections of core/src/connection_manager.rs: the Noise_XX handshakes over QUIC and the sessions
-- that they register. `incoming` are the bytes that the peer sends on the control stream, from its
-- first one; a handshake returns the bytes that it
-- wrote, all of which the stream takes.
pub mod Verified
use zao_p2p.Prelude.{
  ℕ, String, Bool, true, false, not, Option, none, some, List, [], ◌∷◌, ◌++◌, if◌then◌else◌, str_eq,
}
use zao_p2p.Prelude.Bytes.{Bytes}
use zao_p2p.Prelude.Maps.{Map, insert, remove, contains_key}
use zao_p2p.CoreError.{CoreError, Result, ok, err, ◌>>=◌, ok_or, is_ok, invalid_state, crypto}
use zao_p2p.Identity.{DeviceIdentity, device_id_from_public_key}
use zao_p2p.Stream.Frame.{read_framed, write_framed}
use zao_p2p.Noise.{
  NoiseSession, Role, initiator, responder, new_session, write_handshake_message,
  read_handshake_message, into_transport_mode, peer_static_key,
}
use zao_p2p.Storage.Devices.{upsert_known_device}
use zao_p2p.Events
use zao_p2p.Manager.{World, Manager, PeerSession, OutboundPath, quic}

module _ (w : World) where
  -- Write e, read e/ee/s/es, write s/se.
  unfoldable pub initiator_handshake :
      DeviceIdentity w.crypto → Bytes → Result (NoiseSession w.snow × Bytes)
  initiator_handshake identity incoming = do
    noise0 ← new_session w.snow (w.crypto.secret_to_bytes identity.noise_static) initiator
    (msg1, noise1) ← write_handshake_message w.snow noise0 []
    (msg2, rest) ← read_framed incoming
    (payload2, noise2) ← read_handshake_message w.snow noise1 msg2
    (msg3, noise3) ← write_handshake_message w.snow noise2 []
    ok (noise3, write_framed (write_framed [] msg1) msg3)

  -- Read e, write e/ee/s/es, read s/se.
  unfoldable pub responder_handshake :
      DeviceIdentity w.crypto → Bytes → Result (NoiseSession w.snow × Bytes)
  responder_handshake identity incoming = do
    noise0 ← new_session w.snow (w.crypto.secret_to_bytes identity.noise_static) responder
    (msg1, rest1) ← read_framed incoming
    (payload1, noise1) ← read_handshake_message w.snow noise0 msg1
    (msg2, noise2) ← write_handshake_message w.snow noise1 []
    (msg3, rest3) ← read_framed rest1
    (payload3, noise3) ← read_handshake_message w.snow noise2 msg3
    ok (noise3, write_framed [] msg2)

  -- The state once the handshake has shown the peer's static key.
  unfoldable pub register_session : Manager w → String → Bytes → NoiseSession w.snow → ℕ → Manager w
  unfolding upsert_known_device
  register_session m device_id peer_static noise now_unix = record m {
    storage = upsert_known_device m.storage device_id device_id peer_static true now_unix;
    sessions =
        insert device_id
          (record { device_id = device_id; noise = noise; outbound = quic []; control_open = true })
          m.sessions;
    sink = Events.on_peer_connected m.sink device_id;
    resumes = m.resumes ++ (device_id ∷ []);
  }

  -- What `connect_to_peer` does with a handshake: the peer's id must be the expected one.
  unfoldable pub check_identity :
      String → NoiseSession w.snow → Result (Bytes × NoiseSession w.snow)
  check_identity expected noise = do
    peer_static ←
        ok_or (peer_static_key w.snow noise) (crypto "no remote static key after handshake")
    noise' ←
        if str_eq (device_id_from_public_key w.crypto peer_static) expected
        then into_transport_mode w.snow noise
        else err (invalid_state "peer identity mismatch")
    ok (peer_static, noise')

  unfoldable pub dial : Manager w → Result Bytes → String → Result (Bytes × NoiseSession w.snow)
  unfolding initiator_handshake check_identity
  dial m connection expected = do
    incoming ← connection
    (noise, sent) ← initiator_handshake m.identity incoming
    check_identity expected noise

  -- `connection` is what the transport makes of the address: an error, or the peer's bytes.
  unfoldable pub connect_to_peer :
      Manager w → Result Bytes → String → ℕ → Manager w × Result (Unit {0})
  unfolding dial register_session contains_key
  connect_to_peer m connection expected now_unix =
      if contains_key expected m.sessions then (m, ok tt) else elim (dial m connection expected) [
        | err e ↦ (m, err e)
        | ok (peer_static, noise) ↦ (
          register_session m (device_id_from_public_key w.crypto peer_static) peer_static noise
              now_unix,
          ok tt,
        )
      ]

  -- The peer's static key and the session, with no check of the id.
  unfoldable pub answer : Manager w → Result Bytes → Result (Bytes × NoiseSession w.snow)
  unfolding responder_handshake
  answer m connection = do
    incoming ← connection
    (noise, sent) ← responder_handshake m.identity incoming
    peer_static ←
        ok_or (peer_static_key w.snow noise) (crypto "no remote static key after handshake")
    noise' ← into_transport_mode w.snow noise
    ok (peer_static, noise')

  unfoldable pub handle_inbound_connection :
      Manager w → Result Bytes → ℕ → Manager w × Result (Unit {0})
  unfolding answer register_session
  handle_inbound_connection m connection now_unix = elim (answer m connection) [
    | err e ↦ (m, err e)
    | ok (peer_static, noise) ↦ (
      register_session m (device_id_from_public_key w.crypto peer_static) peer_static noise
          now_unix,
      ok tt,
    )
  ]

  -- The end of the control stream's reader.
  unfoldable pub reader_ended : Manager w → String → Manager w
  reader_ended m device_id = record m {
    sessions = remove device_id m.sessions;
    sink = Events.on_peer_disconnected m.sink device_id;
  }

  -- Each candidate with what the transport makes of it; `none` is one that does not parse.
  unfoldable pub try_candidates :
      Manager w → String → List (Option (Result Bytes)) → ℕ → Manager w × Result (Unit {0})
  unfolding connect_to_peer
  try_candidates m peer [] now_unix = (m, err (invalid_state "no candidate reachable for peer"))
  try_candidates m peer (none ∷ candidates) now_unix = try_candidates m peer candidates now_unix
  try_candidates m peer (some connection ∷ candidates) now_unix =
      let (m', r) = connect_to_peer m connection peer now_unix in
      let rest = try_candidates m' peer candidates now_unix in if is_ok r then (m', ok tt) else rest

  -- The loop of `spawn_accept_loop`: what `accept` gives until the endpoint closes, each connection
  -- with what its stream is. The tasks that it spawns end in this order.
  unfoldable pub accept_loop : Manager w → List (Result (Result Bytes) × ℕ) → Manager w
  unfolding handle_inbound_connection
  accept_loop m [] = m
  accept_loop m ((err e, now_unix) ∷ accepted) = accept_loop m accepted
  accept_loop m ((ok connection, now_unix) ∷ accepted) =
      accept_loop (handle_inbound_connection m connection now_unix).0 accepted
