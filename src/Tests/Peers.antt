-- ===== src/Tests/Peers.antt =====
-- Discovery, signaling, the phases of Noise and the queue of events.
use zao_p2p.Prelude.{
  ℕ, ◌≡◌, refl, String, Option, none, some, List, [], ◌∷◌, ◌++◌, str_eq, if◌then◌else◌, arith,
}
use zao_p2p.Prelude.Bytes.{Bytes}
use zao_p2p.Prelude.Maps.{lookup, ne_of_str}
use zao_p2p.Discovery.{
  DiscoveredPeer, Peers, BroadcastAnnouncement, mdns, udp_broadcast, announcement_packet,
  on_datagram,
}
use zao_p2p.Discovery.Laws.{broadcast_peer, on_datagram-announcement_packet}
use zao_p2p.Signaling.{
  SignalingMessage, Frame, text_frame, close_frame, other_frame, disconnected, read_events,
  relay_ready,
}
use zao_p2p.Signaling.Reader.{before_close, events_of_frames, read_events_lem}
use zao_p2p.Events.{AppEvent, peer_connected, peer_disconnected}

abbrev peer : String → ℕ → DiscoveredPeer
peer id seen = record {
  device_id = id;
  display_name = "";
  addr = "10.0.0.1:5000";
  via = udp_broadcast;
  last_seen_unix = seen;
}

abbrev peers : Peers
peers = ("a", peer "a" 100) ∷ ("b", peer "b" 60) ∷ []

abbrev announcement : BroadcastAnnouncement
announcement = record { device_id = "b"; display_name = "B"; port = 5000 }

abbrev addr_text : String → ℕ → String
addr_text ip port = ip

abbrev to_json : BroadcastAnnouncement → Bytes
to_json a = 1 ∷ []

abbrev from_json : Bytes → Option BroadcastAnnouncement
from_json b = some announcement

on_datagram-announcement_packet_example :
    lookup "b" (
      on_datagram addr_text from_json "me" peers
        (announcement_packet to_json announcement)
        "10.0.0.2"
        110)
    ≡ (if str_eq "b" "b"
        then elim (lookup "b" peers) [
          | none ↦ some (broadcast_peer addr_text "10.0.0.2" announcement 110)
          | some old ↦ elim old.via [
            | mdns ↦ some (record old { last_seen_unix = 110 })
            | udp_broadcast ↦ some (broadcast_peer addr_text "10.0.0.2" announcement 110)
          ]
        ]
        else lookup "b" peers)
unfolding announcement_packet
on_datagram-announcement_packet_example =
    on_datagram-announcement_packet addr_text to_json from_json "me" "10.0.0.2" "b" peers
      announcement 110 refl (omega arith) (omega arith) (ne_of_str "b" "me" refl)

abbrev read_text : String → Option SignalingMessage
read_text t = if str_eq t "ready" then some (relay_ready "s") else none

abbrev frames : List Frame
frames = text_frame "ready" ∷ other_frame ∷ text_frame "?" ∷ close_frame ∷ text_frame "ready" ∷ []

read_events_lem_example :
    read_events read_text frames
    ≡ events_of_frames read_text (before_close frames) ++ (disconnected ∷ [])
read_events_lem_example = read_events_lem read_text frames

abbrev first_events : List (AppEvent ℕ ℕ)
first_events = peer_connected "a" ∷ peer_connected "b" ∷ []

abbrev later_events : List (AppEvent ℕ ℕ)
later_events = peer_disconnected "a" ∷ []
