-- ===== src/Manager/Relay.antt =====
-- Internet mode of core/src/connection_manager.rs: the Noise_XX handshake over a relay. `incoming` is
-- what the waiter of a handshake receives, after which it would receive no more.
pub mod Signals
pub mod Handshake
use Prim.Native.String.{compare}
use text.Mathlib.Text.{is_lt}
use zao_p2p.Prelude.{
  ℕ, String, Bool, true, false, not, Option, none, some, List, [], ◌∷◌, ◌++◌, if◌then◌else◌, str_eq,
}
use zao_p2p.Prelude.Bytes.{Bytes}
use zao_p2p.Prelude.Maps.{Map, lookup, insert, remove, contains_key}
use zao_p2p.CoreError.{
  CoreError, Result, ok, err, ◌>>=◌, ok_or, is_ok, unwrap_or, invalid_state, crypto,
}
use zao_p2p.Identity.{DeviceIdentity, device_id_from_public_key}
use zao_p2p.Noise.{
  NoiseSession, Role, initiator, responder, new_session, write_handshake_message,
  read_handshake_message, into_transport_mode, peer_static_key,
}
use zao_p2p.Storage.Devices.{upsert_known_device}
use zao_p2p.Signaling
use zao_p2p.Signaling.{
  SignalingClient, SignalingEvent, registered, register_failed, candidates_came, result_came,
  relay_is_ready, data_came, relay_was_closed, disconnected, candidate_result, peer_for_session,
}
use zao_p2p.Events
use zao_p2p.Manager.{World, Manager, PeerSession, relay}
use zao_p2p.Manager.Dispatch.{decrypt_and_dispatch}
use zao_p2p.Manager.Sessions.{try_candidates}

recv_next : List Bytes → Result (Bytes × List Bytes)
recv_next [] = err (invalid_state "relay closed during handshake")
recv_next (frame ∷ incoming) = ok (frame, incoming)

-- The device whose id sorts first leads.
abbrev pub is_initiator : String → String → Bool
is_initiator own peer = is_lt (compare own peer)

module _ (w : World) where
  -- The client after a part of the handshake, which leaves it as it was on an error.
  then_send :
      SignalingClient
      → Result (NoiseSession w.snow × SignalingClient)
      → (NoiseSession w.snow → SignalingClient → SignalingClient × Result (NoiseSession w.snow))
      → SignalingClient × Result (NoiseSession w.snow)
  then_send client (err e) f = (client, err e)
  then_send client (ok (noise, client')) f = f noise client'

  write_to_relay :
      SignalingClient
      → String
      → NoiseSession w.snow
      → Result (NoiseSession w.snow × SignalingClient)
  write_to_relay client session_id noise = do
    (msg, noise') ← write_handshake_message w.snow noise []
    client' ← Signaling.send_relay_data w.signaling_json client session_id msg
    ok (noise', client')

  -- Write e, read e/ee/s/es, write s/se.
  unfoldable pub relay_initiator :
      SignalingClient
      → String
      → NoiseSession w.snow
      → List Bytes
      → SignalingClient × Result (NoiseSession w.snow)
  unfolding then_send write_to_relay recv_next
  relay_initiator client session_id noise incoming =
      then_send client (write_to_relay client session_id noise) (λ noise1 client1.
        then_send client1
          (do
            (msg2, rest) ← recv_next incoming
            (payload2, noise2) ← read_handshake_message w.snow noise1 msg2
            write_to_relay client1 session_id noise2)
          (λ noise3 client2. (client2, ok noise3)))

  read_from_relay : NoiseSession w.snow → List Bytes → Result (NoiseSession w.snow × List Bytes)
  unfolding recv_next
  read_from_relay noise incoming = do
    (msg, rest) ← recv_next incoming
    (payload, noise') ← read_handshake_message w.snow noise msg
    ok (noise', rest)

  -- Read e, write e/ee/s/es, read s/se.
  unfoldable pub relay_responder :
      SignalingClient
      → String
      → NoiseSession w.snow
      → List Bytes
      → SignalingClient × Result (NoiseSession w.snow)
  unfolding then_send write_to_relay read_from_relay
  relay_responder client session_id noise incoming = elim (read_from_relay noise incoming) [
    | err e ↦ (client, err e)
    | ok (noise1, rest) ↦
        then_send client (write_to_relay client session_id noise1)
          (λ noise2 client1. (client1, do (noise3, rest') ← read_from_relay noise2 rest; ok noise3))
  ]

  unfoldable pub relay_messages :
      Manager w → String → Bool → List Bytes → SignalingClient × Result (NoiseSession w.snow)
  unfolding relay_initiator relay_responder
  relay_messages m session_id leads incoming =
      elim (new_session w.snow (w.crypto.secret_to_bytes m.identity.noise_static)
        (if leads then initiator else responder)) [
          | err e ↦ (m.client, err e)
          | ok noise ↦
              (if leads
                then relay_initiator m.client session_id noise incoming
                else relay_responder m.client session_id noise incoming)
        ]

  -- The peer's static key, whose id must be the one of the peer.
  unfoldable pub check_relay_peer :
      String → Result (NoiseSession w.snow) → Result (Bytes × NoiseSession w.snow)
  check_relay_peer peer r = do
    noise ← r
    peer_static ←
        ok_or (peer_static_key w.snow noise) (crypto "no remote static key after relay handshake")
    if str_eq (device_id_from_public_key w.crypto peer_static) peer
        then ok (peer_static, noise)
        else err (invalid_state "relay peer identity mismatch")

  unfoldable pub register_relay_session :
      Manager w → String → Bytes → NoiseSession w.snow → String → ℕ → Manager w
  unfolding upsert_known_device
  register_relay_session m device_id peer_static noise session_id now_unix = record m {
    storage = upsert_known_device m.storage device_id device_id peer_static true now_unix;
    sessions =
        insert device_id
          (record {
            device_id = device_id;
            noise = noise;
            outbound = relay session_id;
            control_open = true;
          })
          m.sessions;
    sink = Events.on_peer_connected m.sink device_id;
    resumes = m.resumes ++ (device_id ∷ []);
  }

  -- After the check: the waiter goes, and then the session enters transport mode.
  unfoldable pub finish_relay :
      Manager w → String → Result (Bytes × NoiseSession w.snow) → ℕ → Manager w × Result (Unit {0})
  unfolding register_relay_session
  finish_relay m session_id (err e) now_unix = (m, err e)
  finish_relay m session_id (ok (peer_static, noise)) now_unix =
      let m' : Manager w = record m {
        relay_handshake_waiters = remove session_id m.relay_handshake_waiters;
      } in
      elim (into_transport_mode w.snow noise) [
        | err e ↦ (m', err e)
        | ok noise' ↦ (
          register_relay_session m' (device_id_from_public_key w.crypto peer_static) peer_static
              noise' session_id now_unix,
          ok tt,
        )
      ]

  unfoldable pub run_relay_handshake :
      Manager w → String → String → Bool → List Bytes → ℕ → Manager w × Result (Unit {0})
  unfolding relay_messages check_relay_peer finish_relay
  run_relay_handshake m session_id peer leads incoming now_unix =
      let (client', r) = relay_messages m session_id leads incoming in
      finish_relay
        (record m {
          relay_handshake_waiters = insert session_id [] m.relay_handshake_waiters;
          client = client';
        })
        session_id (check_relay_peer peer r) now_unix
