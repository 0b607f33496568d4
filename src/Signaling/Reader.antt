-- ===== src/Signaling/Reader.antt =====
-- The reader task of core/src/signaling_client.rs: which events come of which frames.
use zao_p2p.Prelude.{◌≡◌, refl, String, Option, none, some, List, [], ◌∷◌, ◌++◌, arith}
use zao_p2p.Signaling.{
  SignalingMessage, SignalingEvent, Frame, text_frame, close_frame, other_frame, disconnected,
  event_of, read_events,
}

-- The frames before the first close frame.
abbrev pub before_close : List Frame → List Frame
before_close [] = []
before_close (text_frame t ∷ frames) = text_frame t ∷ before_close frames
before_close (close_frame ∷ frames) = []
before_close (other_frame ∷ frames) = other_frame ∷ before_close frames

module _ (from_json : String → Option SignalingMessage) where
  -- The event that the client makes of one frame, if any.
  abbrev pub event_of_frame : Frame → List SignalingEvent
  event_of_frame (text_frame t) = elim (from_json t) [
    | none ↦ []
    | some m ↦ elim (event_of m) [ none ↦ [] | some e ↦ e ∷ [] ]
  ]
  event_of_frame close_frame = []
  event_of_frame other_frame = []

  abbrev pub events_of_frames : List Frame → List SignalingEvent
  events_of_frames [] = []
  events_of_frames (f ∷ frames) = event_of_frame f ++ events_of_frames frames

  -- The events are those of the frames before the first close, in their order, and then exactly one
  -- `Disconnected`; frames that cannot be read are passed over.
  pub read_events_lem :
      (frames : List Frame)
      → read_events from_json frames ≡ events_of_frames (before_close frames) ++ (disconnected ∷ [])
  unfolding read_events
  read_events_lem [] = refl
  read_events_lem (text_frame t ∷ frames) = ground (arith, read_events_lem frames)
  read_events_lem (close_frame ∷ frames) = refl
  read_events_lem (other_frame ∷ frames) = read_events_lem frames
