-- ===== src/Manager/Authentic/Opened.antt =====
-- Every way to a session, over QUIC or over a relay, registers it under the id that its key shows.
use zao_p2p.Prelude.{
  ℕ, ◌≡◌, refl, String, Bool, Option, none, some, List, [], ◌∷◌, inl, inr, Bool-cases,
}
use zao_p2p.Prelude.Bytes.{Bytes}
use zao_p2p.Prelude.Maps.{insert, remove, contains_key}
use zao_p2p.CoreError.{Result, ok, err, Result-cases, is_ok}
use zao_p2p.Identity.{device_id_from_public_key}
use zao_p2p.Noise.{NoiseSession, peer_static_key, into_transport_mode}
use zao_p2p.Manager.{World, Manager}
use zao_p2p.Manager.Sessions.{
  register_session, dial, connect_to_peer, answer, handle_inbound_connection, reader_ended,
  try_candidates,
}
use zao_p2p.Manager.Relay.{
  relay_messages, check_relay_peer, finish_relay, register_relay_session, run_relay_handshake,
}
use zao_p2p.Manager.Authentic.Shown.{Has, entered, dial-Has, answer-Has, check_relay_peer-Has}
use zao_p2p.Manager.Authentic.{KeepsRemote, AllAuthentic, AllAuthentic-insert, AllAuthentic-remove}

module _ (w : World) (keeps : KeepsRemote w.snow) where
  register_session-AllAuthentic :
      (m : Manager w) (key : Bytes) (noise : NoiseSession w.snow) (now_unix : ℕ)
      → peer_static_key w.snow noise ≡ some key
      → AllAuthentic w m.sessions
      → AllAuthentic w
          (register_session w m
            (device_id_from_public_key w.crypto key)
            key
            noise
            now_unix).sessions
  unfolding register_session
  register_session-AllAuthentic m key noise now_unix there all =
      AllAuthentic-insert w m.sessions _ all (key, (there, refl))

  register_relay_session-AllAuthentic :
      (m : Manager w) (key : Bytes) (noise : NoiseSession w.snow) (session_id : String)
      (now_unix : ℕ)
      → peer_static_key w.snow noise ≡ some key
      → AllAuthentic w m.sessions
      → AllAuthentic w
          (register_relay_session w m
            (device_id_from_public_key w.crypto key)
            key
            noise
            session_id
            now_unix).sessions
  unfolding register_relay_session
  register_relay_session-AllAuthentic m key noise session_id now_unix there all =
      AllAuthentic-insert w m.sessions _ all (key, (there, refl))

  pub connect_to_peer-AllAuthentic :
      (m : Manager w) (connection : Result Bytes) (expected : String) (now_unix : ℕ)
      → AllAuthentic w m.sessions
      → AllAuthentic w (connect_to_peer w m connection expected now_unix).0.sessions
  unfolding connect_to_peer
  connect_to_peer-AllAuthentic m connection expected now_unix all =
      elim (Bool-cases (contains_key expected m.sessions)) [
        | inl e ↦ rw (connect_to_peer, e) all
        | inr e ↦ elim (Result-cases (dial w m connection expected)) [
          | inr (e', d) ↦ rw (connect_to_peer, e, d) all
          | inl ((key, noise), d) ↦
              rw (connect_to_peer, e, d)
                (register_session-AllAuthentic m key noise now_unix
                  (dial-Has w keeps m connection expected key noise d) all)
        ]
      ]

  pub handle_inbound_connection-AllAuthentic :
      (m : Manager w) (connection : Result Bytes) (now_unix : ℕ)
      → AllAuthentic w m.sessions
      → AllAuthentic w (handle_inbound_connection w m connection now_unix).0.sessions
  unfolding handle_inbound_connection
  handle_inbound_connection-AllAuthentic m connection now_unix all =
      elim (Result-cases (answer w m connection)) [
        | inr (e', d) ↦ rw (handle_inbound_connection, d) all
        | inl ((key, noise), d) ↦
            rw (handle_inbound_connection, d)
              (register_session-AllAuthentic m key noise now_unix
                (answer-Has w keeps m connection key noise d) all)
      ]

  pub try_candidates-AllAuthentic :
      (m : Manager w) (peer : String) (candidates : List (Option (Result Bytes))) (now_unix : ℕ)
      → AllAuthentic w m.sessions
      → AllAuthentic w (try_candidates w m peer candidates now_unix).0.sessions
  unfolding try_candidates
  try_candidates-AllAuthentic m peer [] now_unix all = all
  try_candidates-AllAuthentic m peer (none ∷ cs) now_unix all =
      try_candidates-AllAuthentic m peer cs now_unix all
  try_candidates-AllAuthentic m peer (some c ∷ cs) now_unix all =
      let all' = connect_to_peer-AllAuthentic m c peer now_unix all in
      elim (Bool-cases (is_ok (connect_to_peer w m c peer now_unix).1)) [
        | inl e ↦ rw e all'
        | inr e ↦ rw e (
            try_candidates-AllAuthentic (connect_to_peer w m c peer now_unix).0 peer cs now_unix
              all')
      ]

  finish_relay-AllAuthentic :
      (m : Manager w) (session_id : String) (r : Result (Bytes × NoiseSession w.snow))
      (now_unix : ℕ)
      → Has w keeps r
      → AllAuthentic w m.sessions
      → AllAuthentic w (finish_relay w m session_id r now_unix).0.sessions
  unfolding finish_relay
  finish_relay-AllAuthentic m session_id (err e) now_unix has all = all
  finish_relay-AllAuthentic m session_id (ok (key, noise)) now_unix has all =
      elim (Result-cases (into_transport_mode w.snow noise)) [
        | inr (e, t) ↦ rw (finish_relay, t) all
        | inl (noise', t) ↦
            rw (finish_relay, t)
              (register_relay_session-AllAuthentic
                (record m { relay_handshake_waiters = remove session_id m.relay_handshake_waiters })
                key noise' session_id now_unix
                (entered w keeps noise noise' key (has key noise refl) t) all)
      ]

  pub run_relay_handshake-AllAuthentic :
      (m : Manager w) (session_id peer : String) (leads : Bool) (incoming : List Bytes)
      (now_unix : ℕ)
      → AllAuthentic w m.sessions
      → AllAuthentic w (run_relay_handshake w m session_id peer leads incoming now_unix).0.sessions
  unfolding run_relay_handshake
  run_relay_handshake-AllAuthentic m session_id peer leads incoming now_unix all =
      let (client', r) = relay_messages w m session_id leads incoming in
      finish_relay-AllAuthentic
        (record m {
          relay_handshake_waiters = insert session_id [] m.relay_handshake_waiters;
          client = client';
        })
        session_id (check_relay_peer w peer r) now_unix (check_relay_peer-Has w keeps peer r) all

  pub reader_ended-AllAuthentic :
      (m : Manager w) (id : String)
      → AllAuthentic w m.sessions
      → AllAuthentic w (reader_ended w m id).sessions
  unfolding reader_ended
  reader_ended-AllAuthentic m id all = AllAuthentic-remove w m.sessions id all
