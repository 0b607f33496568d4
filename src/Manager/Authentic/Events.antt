-- ===== src/Manager/Authentic/Events.antt =====
-- What the network brings to the manager, as a sequence of events, and the sessions after it.
use zao_p2p.Prelude.{
  ℕ, zero, suc, String, Bool, true, false, Option, none, some, List, [], ◌∷◌, length, inl, inr,
  Bool-cases, Option-cases,
}
use zao_p2p.Prelude.Bytes.{Bytes}
use zao_p2p.Prelude.Maps.{lookup}
use zao_p2p.CoreError.{Result, ok, err, Result-cases}
use zao_p2p.Stream.Frame.{read_framed}
use zao_p2p.Protocol.{ProtocolMessage}
use zao_p2p.Signaling
use zao_p2p.Signaling.{
  SignalingEvent, registered, register_failed, candidates_came, result_came, relay_is_ready,
  data_came, relay_was_closed, disconnected, peer_for_session,
}
use zao_p2p.Manager.{World, Manager, send_to}
use zao_p2p.Manager.Sessions.{connect_to_peer, handle_inbound_connection, accept_loop}
use zao_p2p.Manager.Streams.{read_frame, read_stream, read_control_stream}
use zao_p2p.Manager.Relay.{run_relay_handshake}
use zao_p2p.Manager.Relay.Signals.{
  handle_signaling_event, handle_relay_data, relay_to_peer, candidate_connections,
}
use zao_p2p.Manager.Authentic.{KeepsRemote, AllAuthentic}
use zao_p2p.Manager.Authentic.Sent.{send_to-AllAuthentic}
use zao_p2p.Manager.Authentic.Kept.{decrypt_and_dispatch-AllAuthentic}
use zao_p2p.Manager.Authentic.Opened.{
  connect_to_peer-AllAuthentic, handle_inbound_connection-AllAuthentic, try_candidates-AllAuthentic,
  run_relay_handshake-AllAuthentic, reader_ended-AllAuthentic,
}

-- A peer is dialled, connections come in, a relay handshake runs, the stream of a transfer or the
-- control stream of a device is read, the signaling server reports, a message is sent.
pub data NetEvent : Type 0 where
  dialled : Result Bytes → String → ℕ → NetEvent
  came_in : List (Result (Result Bytes) × ℕ) → NetEvent
  relayed : String → String → Bool → List Bytes → ℕ → NetEvent
  streamed controlled : ℕ → String → Bytes → (ℕ → ℕ × ℕ) → NetEvent
  signaled : SignalingEvent → (String → Option (Result Bytes)) → ℕ → ℕ → NetEvent
  message_sent : String → ProtocolMessage → NetEvent

module _ (w : World) where
  unfoldable pub on_net : Manager w → NetEvent → Manager w
  unfolding connect_to_peer accept_loop run_relay_handshake read_stream read_control_stream
      handle_signaling_event send_to
  on_net m (dialled connection expected now_unix) =
      (connect_to_peer w m connection expected now_unix).0
  on_net m (came_in accepted) = accept_loop w m accepted
  on_net m (relayed session_id peer leads incoming now_unix) =
      (run_relay_handshake w m session_id peer leads incoming now_unix).0
  on_net m (streamed fuel device_id incoming times) = read_stream w fuel m device_id incoming times
  on_net m (controlled fuel device_id incoming times) =
      read_control_stream w fuel m device_id incoming times
  on_net m (signaled event network now now_unix) =
      (handle_signaling_event w m event network now now_unix).0
  on_net m (message_sent device_id msg) = (send_to w m device_id msg).0

  unfoldable pub run_net : Manager w → List NetEvent → Manager w
  unfolding on_net
  run_net m [] = m
  run_net m (e ∷ events) = run_net (on_net m e) events

  module _ (keeps : KeepsRemote w.snow) where
    accept_loop-AllAuthentic :
        (m : Manager w) (accepted : List (Result (Result Bytes) × ℕ))
        → AllAuthentic w m.sessions
        → AllAuthentic w (accept_loop w m accepted).sessions
    unfolding accept_loop
    accept_loop-AllAuthentic m [] all = all
    accept_loop-AllAuthentic m ((err e, now_unix) ∷ accepted) all =
        accept_loop-AllAuthentic m accepted all
    accept_loop-AllAuthentic m ((ok connection, now_unix) ∷ accepted) all =
        accept_loop-AllAuthentic (handle_inbound_connection w m connection now_unix).0 accepted
          (handle_inbound_connection-AllAuthentic w keeps m connection now_unix all)

    read_frame-AllAuthentic :
        (m : Manager w) (id : String) (ciphertext : Bytes) (times : ℕ × ℕ)
        → AllAuthentic w m.sessions
        → AllAuthentic w (read_frame w m (lookup id m.sessions) ciphertext times).0.sessions
    unfolding read_frame
    read_frame-AllAuthentic m id ciphertext (now, now_unix) all =
        elim (Option-cases (lookup id m.sessions)) [
          | inl e ↦ rw e all
          | inr (session, e) ↦
              rw e (
                decrypt_and_dispatch-AllAuthentic w keeps m id session ciphertext now now_unix e
                  all)
        ]

    read_stream-AllAuthentic :
        (fuel : ℕ) (m : Manager w) (id : String) (incoming : Bytes) (times : ℕ → ℕ × ℕ)
        → AllAuthentic w m.sessions
        → AllAuthentic w (read_stream w fuel m id incoming times).sessions
    unfolding read_stream
    read_stream-AllAuthentic zero m id incoming times all = all
    read_stream-AllAuthentic (suc fuel) m id incoming times all =
        elim (Result-cases (read_framed incoming)) [
          | inr (e, f) ↦ rw (read_stream, f) all
          | inl ((ciphertext, rest), f) ↦
              let all' = read_frame-AllAuthentic m id ciphertext (times (length rest)) all in
              elim (Bool-cases
                (read_frame w m (lookup id m.sessions) ciphertext (times (length rest))).1) [
                  | inl goes_on ↦
                      rw (read_stream, f, goes_on)
                        (read_stream-AllAuthentic fuel _ id rest times all')
                  | inr stops ↦ rw (read_stream, f, stops) all'
                ]
        ]

    relay_to_peer-AllAuthentic :
        (m : Manager w) (peer : Option String) (frame : Bytes) (now now_unix : ℕ)
        → AllAuthentic w m.sessions
        → AllAuthentic w (relay_to_peer w m peer frame now now_unix).sessions
    unfolding relay_to_peer
    relay_to_peer-AllAuthentic m none frame now now_unix all = all
    relay_to_peer-AllAuthentic m (some peer) frame now now_unix all =
        elim (Option-cases (lookup peer m.sessions)) [
          | inl e ↦ rw (relay_to_peer, e) all
          | inr (session, e) ↦
              rw (relay_to_peer, e)
                (decrypt_and_dispatch-AllAuthentic w keeps m peer session frame now now_unix e all)
        ]

    handle_relay_data-AllAuthentic :
        (m : Manager w) (session_id : String) (frame : Bytes) (now now_unix : ℕ)
        → AllAuthentic w m.sessions
        → AllAuthentic w (handle_relay_data w m session_id frame now now_unix).sessions
    unfolding handle_relay_data
    handle_relay_data-AllAuthentic m session_id frame now now_unix all =
        elim (Option-cases (lookup session_id m.relay_handshake_waiters)) [
          | inl e ↦
              rw (handle_relay_data, e)
                (relay_to_peer-AllAuthentic m (peer_for_session m.signaling_sessions session_id)
                  frame now now_unix all)
          | inr (received, e) ↦ rw (handle_relay_data, e) all
        ]

    handle_signaling_event-AllAuthentic :
        (m : Manager w) (event : SignalingEvent) (network : String → Option (Result Bytes))
        (now now_unix : ℕ)
        → AllAuthentic w m.sessions
        → AllAuthentic w (handle_signaling_event w m event network now now_unix).0.sessions
    unfolding handle_signaling_event
    handle_signaling_event-AllAuthentic m registered network now now_unix all = all
    handle_signaling_event-AllAuthentic m (register_failed x) network now now_unix all = all
    handle_signaling_event-AllAuthentic m (candidates_came from session_id cs) network now now_unix
          all =
        try_candidates-AllAuthentic w keeps
          (record m {
            signaling_sessions = Signaling.register_session m.signaling_sessions session_id from;
          })
          from (candidate_connections w network cs) now_unix all
    handle_signaling_event-AllAuthentic m (result_came s true) network now now_unix all = all
    handle_signaling_event-AllAuthentic m (result_came s false) network now now_unix all = all
    handle_signaling_event-AllAuthentic m (relay_is_ready s) network now now_unix all = all
    handle_signaling_event-AllAuthentic m (data_came s frame) network now now_unix all =
        handle_relay_data-AllAuthentic m s frame now now_unix all
    handle_signaling_event-AllAuthentic m (relay_was_closed s) network now now_unix all = all
    handle_signaling_event-AllAuthentic m disconnected network now now_unix all = all

    on_net-AllAuthentic :
        (m : Manager w) (e : NetEvent)
        → AllAuthentic w m.sessions
        → AllAuthentic w (on_net m e).sessions
    unfolding on_net read_control_stream
    on_net-AllAuthentic m (dialled c expected now_unix) all =
        connect_to_peer-AllAuthentic w keeps m c expected now_unix all
    on_net-AllAuthentic m (came_in accepted) all = accept_loop-AllAuthentic m accepted all
    on_net-AllAuthentic m (relayed s peer leads incoming now_unix) all =
        run_relay_handshake-AllAuthentic w keeps m s peer leads incoming now_unix all
    on_net-AllAuthentic m (streamed fuel id incoming times) all =
        read_stream-AllAuthentic fuel m id incoming times all
    on_net-AllAuthentic m (controlled fuel id incoming times) all =
        reader_ended-AllAuthentic w keeps (read_stream w fuel m id incoming times) id
          (read_stream-AllAuthentic fuel m id incoming times all)
    on_net-AllAuthentic m (signaled event network now now_unix) all =
        handle_signaling_event-AllAuthentic m event network now now_unix all
    on_net-AllAuthentic m (message_sent id msg) all = send_to-AllAuthentic w keeps m id msg all

    -- Whatever the network brings and is sent, in any order: every session in the table stands under
    -- its device's id, and its Noise state shows a remote key that hashes to that id, if that was so
    -- at first. `snow` is taken to keep a session's remote key.
    pub run_net-AllAuthentic :
        (m : Manager w) (events : List NetEvent)
        → AllAuthentic w m.sessions
        → AllAuthentic w (run_net m events).sessions
    unfolding run_net
    run_net-AllAuthentic m [] all = all
    run_net-AllAuthentic m (e ∷ events) all =
        run_net-AllAuthentic (on_net m e) events (on_net-AllAuthentic m e all)
