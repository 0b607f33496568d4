-- ===== src/Manager/Relay/Signals.antt =====
-- The events of the signaling server in core/src/connection_manager.rs, the frames of a relay, and the
-- offer of candidates. `network` is what parsing an address and the transport make of a candidate.
-- The client that an event comes from is the one of the state.
use zao_p2p.Prelude.{
  ℕ, String, Bool, true, false, Option, none, some, List, [], ◌∷◌, ◌++◌, if◌then◌else◌,
}
use zao_p2p.Prelude.Bytes.{Bytes}
use zao_p2p.Prelude.Maps.{lookup, insert, contains_key}
use zao_p2p.CoreError.{Result, ok, err, ◌>>=◌, is_ok, unwrap_or, invalid_state}
use zao_p2p.Signaling
use zao_p2p.Signaling.{
  SignalingClient, SignalingEvent, registered, register_failed, candidates_came, result_came,
  relay_is_ready, data_came, relay_was_closed, disconnected, candidate_result, peer_for_session,
}
use zao_p2p.Manager.{World, Manager}
use zao_p2p.Manager.Dispatch.{decrypt_and_dispatch}
use zao_p2p.Manager.Sessions.{try_candidates}
use zao_p2p.Manager.Relay.{is_initiator}

module _ (w : World) where
  -- The handshake that is spawned: its peer, and whether this device leads.
  unfoldable pub activate_relay_session : Manager w → String → Option (String × Bool)
  unfolding peer_for_session contains_key
  activate_relay_session m session_id = elim (peer_for_session m.signaling_sessions session_id) [
    | none ↦ none
    | some peer ↦
        (if contains_key peer m.sessions
          then none
          else some (peer, is_initiator m.identity.device_id peer))
  ]

  -- A frame for a peer that has a session.
  unfoldable pub relay_to_peer : Manager w → Option String → Bytes → ℕ → ℕ → Manager w
  unfolding decrypt_and_dispatch
  relay_to_peer m none frame now now_unix = m
  relay_to_peer m (some peer) frame now now_unix = elim (lookup peer m.sessions) [
    | none ↦ m
    | some session ↦ (decrypt_and_dispatch w m session frame now now_unix).0
  ]

  -- A waiter that is there takes the frame, whether or not its handshake still runs.
  unfoldable pub handle_relay_data : Manager w → String → Bytes → ℕ → ℕ → Manager w
  unfolding relay_to_peer peer_for_session
  handle_relay_data m session_id frame now now_unix =
      elim (lookup session_id m.relay_handshake_waiters) [
        | some received ↦ record m {
          relay_handshake_waiters =
              insert session_id (received ++ (frame ∷ [])) m.relay_handshake_waiters;
        }
        | none ↦
            relay_to_peer m (peer_for_session m.signaling_sessions session_id) frame now now_unix
      ]

  unfoldable pub candidate_connections :
      (String → Option (Result Bytes)) → List String → List (Option (Result Bytes))
  candidate_connections network [] = []
  candidate_connections network (c ∷ candidates) =
      network c ∷ candidate_connections network candidates

  -- The state, and the handshake that is spawned.
  unfoldable pub handle_signaling_event :
      Manager w
      → SignalingEvent
      → (String → Option (Result Bytes))
      → ℕ
      → ℕ
      → Manager w × Option (String × Bool)
  unfolding candidate_connections try_candidates activate_relay_session handle_relay_data
  handle_signaling_event m registered network now now_unix = (m, none)
  handle_signaling_event m (register_failed error) network now now_unix = (m, none)
  handle_signaling_event m (candidates_came from session_id candidates) network now now_unix =
      let (m', r) =
        try_candidates w
          (record m {
            signaling_sessions = Signaling.register_session m.signaling_sessions session_id from;
          })
          from (candidate_connections network candidates) now_unix in
      (
        record m' {
          client =
              unwrap_or
                (Signaling.send w.signaling_json m'.client (candidate_result session_id (is_ok r)))
                m'.client;
        },
        none,
      )
  handle_signaling_event m (result_came session_id likely) network now now_unix =
      if likely then (m, none) else (
        record m {
          client = unwrap_or (Signaling.ask_relay w.signaling_json m.client session_id) m.client;
        },
        none,
      )
  handle_signaling_event m (relay_is_ready session_id) network now now_unix =
      (m, activate_relay_session m session_id)
  handle_signaling_event m (data_came session_id frame) network now now_unix =
      (handle_relay_data m session_id frame now now_unix, none)
  handle_signaling_event m (relay_was_closed session_id) network now now_unix = (
    record m { signaling_sessions = Signaling.remove_session m.signaling_sessions session_id },
    none,
  )
  handle_signaling_event m disconnected network now now_unix =
      (record m { signaling_set = false }, none)

  -- The task of `connect_signaling_server`: an event after the other, each with its clocks. The relay
  -- handshakes that it spawns run on their own.
  unfoldable pub signaling_loop :
      Manager w → (String → Option (Result Bytes)) → List (SignalingEvent × (ℕ × ℕ)) → Manager w
  unfolding handle_signaling_event
  signaling_loop m network [] = m
  signaling_loop m network ((event, (now, now_unix)) ∷ events) =
      signaling_loop (handle_signaling_event m event network now now_unix).0 network events

  -- `socket` is what connecting the WebSocket gives.
  unfoldable pub connect_signaling_server :
      Manager w → Result (Unit {0}) → Manager w × Result (Unit {0})
  connect_signaling_server m socket =
      elim (socket >>= λ u. Signaling.connect w.signaling_json m.identity.device_id) [
        | err e ↦ (m, err e)
        | ok client ↦ (record m { client = client; signaling_set = true }, ok tt)
      ]

  -- `public_addr` is what the probe socket and STUN give.
  unfoldable pub connect_to_peer_via_internet :
      Manager w → String → Result String → String → Manager w × Result (Unit {0})
  connect_to_peer_via_internet m peer public_addr session_id =
      if m.signaling_set
      then elim public_addr [
        | err e ↦ (m, err e)
        | ok addr ↦
            (let m' : Manager w = record m {
              signaling_sessions = Signaling.register_session m.signaling_sessions session_id peer;
            } in
              elim (Signaling.offer w.signaling_json m.client peer session_id
                (addr ∷ (m.local_addr ∷ []))) [
                  | err e ↦ (m', err e)
                  | ok client' ↦ (record m' { client = client' }, ok tt)
                ])
      ]
      else (m, err (invalid_state "signaling server not connected"))
