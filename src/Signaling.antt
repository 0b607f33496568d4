-- ===== src/Signaling.antt =====
-- core/src/signaling.rs and core/src/signaling_client.rs: the messages of the signaling server, the
-- client that turns its frames into events, and the table of sessions. The JSON form of a message
-- comes from serde, the WebSocket from a crate.
pub mod Reader
use zao_p2p.Prelude.{
  ℕ, ◌≡◌, String, Bool, true, false, Option, none, some, List, [], ◌∷◌, ◌++◌, if◌then◌else◌,
}
use zao_p2p.Prelude.Bytes.{Bytes}
use zao_p2p.Prelude.Maps.{Map, lookup, insert, remove}
use zao_p2p.CoreError.{Result, ok, err, invalid_state, ◌>>=◌}

pub data SignalingMessage : Type 0 where
  register : String → SignalingMessage
  register_ack : Bool → Option String → SignalingMessage
  -- to whom or from whom, the session, and the addresses in order of priority
  offer_candidates : String → String → List String → SignalingMessage
  incoming_candidates : String → String → List String → SignalingMessage
  candidate_result : String → Bool → SignalingMessage
  request_relay : String → SignalingMessage
  relay_ready : String → SignalingMessage
  relay_data : String → Bytes → SignalingMessage
  relay_closed : String → SignalingMessage
  ping pong : SignalingMessage

pub data SignalingEvent : Type 0 where
  registered : SignalingEvent
  register_failed : String → SignalingEvent
  candidates_came : String → String → List String → SignalingEvent
  result_came : String → Bool → SignalingEvent
  relay_is_ready : String → SignalingEvent
  data_came : String → Bytes → SignalingEvent
  relay_was_closed : String → SignalingEvent
  disconnected : SignalingEvent

abbrev error_text : Option String → String
error_text none = "unknown error"
error_text (some e) = e

-- The `match` of the reader task; `none` is its `continue`.
unfoldable pub event_of : SignalingMessage → Option SignalingEvent
event_of (register_ack success error) =
    if success then some registered else some (register_failed (error_text error))
event_of (incoming_candidates from session candidates) =
    some (candidates_came from session candidates)
event_of (candidate_result session likely) = some (result_came session likely)
event_of (relay_ready session) = some (relay_is_ready session)
event_of (relay_data session bytes) = some (data_came session bytes)
event_of (relay_closed session) = some (relay_was_closed session)
event_of pong = none
event_of _ = none

-- What the reader task takes from the WebSocket.
pub data Frame : Type 0 where
  text_frame : String → Frame
  close_frame : Frame
  other_frame : Frame

module _ (from_json : String → Option SignalingMessage) where
  event_of_text : String → Option SignalingEvent
  unfolding event_of
  event_of_text t = elim (from_json t) [ none ↦ none | some m ↦ event_of m ]

  -- The reader task, until a close frame or the end of the stream. The channel stays open.
  unfoldable pub read_events : List Frame → List SignalingEvent
  unfolding event_of_text
  read_events [] = disconnected ∷ []
  read_events (text_frame t ∷ frames) =
      let rest = read_events frames in elim (event_of_text t) [ none ↦ rest | some e ↦ e ∷ rest ]
  read_events (close_frame ∷ frames) = disconnected ∷ []
  read_events (other_frame ∷ frames) = read_events frames

-- The client: the texts that the writer task has been given. `closed` is a writer task that ended.
pub record SignalingClient : Type 0 where
  pub outbound : List String
  pub closed : Bool

module _ (to_json : SignalingMessage → Option String) where
  unfoldable pub send : SignalingClient → SignalingMessage → Result SignalingClient
  send client msg = elim (to_json msg) [
    | none ↦ err (invalid_state "signaling encode failed")
    | some json ↦
        (if client.closed
          then err (invalid_state "signaling connection closed")
          else ok (record client { outbound = client.outbound ++ (json ∷ []) }))
  ]

  -- The first message registers the device.
  unfoldable pub connect : String → Result SignalingClient
  unfolding send
  connect device_id = send (record { outbound = []; closed = false }) (register device_id)

  unfoldable pub offer : SignalingClient → String → String → List String → Result SignalingClient
  unfolding send
  offer client to_device_id session_id candidates =
      send client (offer_candidates to_device_id session_id candidates)

  unfoldable pub ask_relay : SignalingClient → String → Result SignalingClient
  unfolding send
  ask_relay client session_id = send client (request_relay session_id)

  unfoldable pub send_relay_data : SignalingClient → String → Bytes → Result SignalingClient
  unfolding send
  send_relay_data client session_id bytes = send client (relay_data session_id bytes)

-- `SignalingSessionTracker`: session_id -> peer device_id.
abbrev pub Tracker : Type 0
Tracker = Map String

unfoldable pub register_session : Tracker → String → String → Tracker
register_session tracker session_id peer_device_id = insert session_id peer_device_id tracker

unfoldable pub peer_for_session : Tracker → String → Option String
peer_for_session tracker session_id = lookup session_id tracker

unfoldable pub remove_session : Tracker → String → Tracker
remove_session tracker session_id = remove session_id tracker
