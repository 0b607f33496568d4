-- ===== src/Discovery/Laws.antt =====
-- What the table of peers holds after announcements, and what a snapshot keeps.
use zao_p2p.Prelude.{
  ℕ, ◌-◌, ◌<◌, ◌≡◌, refl, not, ◌||◌, ◌≢◌, String, false, Option, none, some, List, [], ◌∷◌, ◌++◌,
  length, take, drop, take_all, ◌≤◌, ltb, leb, if◌then◌else◌, str_eq, eq_iff, arith, inl, inr,
  Bool-cases, Option-cases,
}
use zao_p2p.Prelude.Bytes.{Bytes, bytes_eq}
use zao_p2p.Prelude.Maps.{lookup, lookup-insert}
use zao_p2p.Discovery.{
  udp_magic, mdns, udp_broadcast, DiscoveredPeer, Peers, BroadcastAnnouncement, retain_fresh,
  known_peers, announcement_packet, and_modify, record_announcement, announced_peer, on_datagram,
}

abbrev pub AllFresh : ℕ → List DiscoveredPeer → Type 0
AllFresh now [] = Unit
AllFresh now (p ∷ ps) = (now - p.last_seen_unix < 30) × AllFresh now ps

-- A snapshot lists only peers that were seen within the last 30 seconds.
pub known_peers-AllFresh : (peers : Peers) (now : ℕ) → AllFresh now (known_peers peers now).1
unfolding known_peers retain_fresh
known_peers-AllFresh [] now = tt
known_peers-AllFresh ((k, p) ∷ peers) now = elim (Bool-cases (ltb (now - p.last_seen_unix) 30)) [
  | inl e ↦ rw e (ground (arith, e), known_peers-AllFresh peers now)
  | inr e ↦ rw e (known_peers-AllFresh peers now)
]

-- A peer seen within the last 30 seconds stays in the table, unchanged.
pub known_peers_keep :
    (peers : Peers) (now : ℕ) (k : String) (p : DiscoveredPeer)
    → lookup k peers ≡ some p
    → now - p.last_seen_unix < 30
    → lookup k (known_peers peers now).0 ≡ some p
unfolding known_peers retain_fresh lookup
known_peers_keep [] now k p h fresh = h
known_peers_keep ((j, q) ∷ peers) now k p h fresh =
    ground (arith, eq_iff j k, known_peers_keep peers now k p)

pub lookup-record_announcement :
    (peers : Peers) (peer : DiscoveredPeer) (now : ℕ) (j : String)
    → lookup j (record_announcement peers peer now) ≡ (
        if str_eq peer.device_id j
        then elim (lookup peer.device_id peers) [
          | none ↦ some peer
          | some old ↦ some (and_modify old peer now)
        ]
        else lookup j peers)
unfolding record_announcement
lookup-record_announcement peers peer now j = elim (Option-cases (lookup peer.device_id peers)) [
  | inl e ↦ rw (e, record_announcement) (lookup-insert peer.device_id j peer peers)
  | inr (old, e) ↦
      rw (e, record_announcement) (lookup-insert peer.device_id j (and_modify old peer now) peers)
]

module _ (socket_addr : String → ℕ → String) where
  -- The entry that an announcement means.
  abbrev pub broadcast_peer : String → BroadcastAnnouncement → ℕ → DiscoveredPeer
  broadcast_peer src_ip a now = record {
    device_id = a.device_id;
    display_name = a.display_name;
    addr = socket_addr src_ip a.port;
    via = udp_broadcast;
    last_seen_unix = now;
  }

module _ (socket_addr : String → ℕ → String) (to_json : BroadcastAnnouncement → Bytes)
    (from_json : Bytes → Option BroadcastAnnouncement) where
  -- A datagram that the buffer holds is read whole.
  on_datagram_short :
      (self_id src_ip : String) (peers : Peers) (datagram : Bytes) (now : ℕ)
      → length datagram ≤ 2048
      → on_datagram socket_addr from_json self_id peers datagram src_ip now ≡ (
          if leb (length datagram) (length udp_magic) || not (bytes_eq (take 7 datagram) udp_magic)
          then peers
          else elim (from_json (drop 7 datagram)) [
            | none ↦ peers
            | some a ↦
                (if str_eq a.device_id self_id
                  then peers
                  else record_announcement peers (announced_peer socket_addr src_ip a now) now)
          ])
  unfolding on_datagram
  on_datagram_short self_id src_ip peers datagram now short =
      rw (on_datagram, take_all 2048 datagram short) refl

  -- Another device's announcement, as it is sent, if its datagram has at most 2048 bytes, makes that
  -- device known under its id: with its name, at the address that the datagram came from and the
  -- port that it announces, unless mDNS found the device, whose entry is kept; either way it is
  -- seen now, and no other entry changes.
  pub on_datagram-announcement_packet :
      (self_id src_ip j : String) (peers : Peers) (a : BroadcastAnnouncement) (now : ℕ)
      → from_json (to_json a) ≡ some a
      → 0 < length (to_json a)
      → length (announcement_packet to_json a) ≤ 2048
      → a.device_id ≢ self_id
      → lookup j (
          on_datagram socket_addr from_json self_id peers
            (announcement_packet to_json a)
            src_ip
            now)
        ≡ (if str_eq a.device_id j
            then elim (lookup a.device_id peers) [
              | none ↦ some (broadcast_peer socket_addr src_ip a now)
              | some old ↦ elim old.via [
                | mdns ↦ some (record old { last_seen_unix = now })
                | udp_broadcast ↦ some (broadcast_peer socket_addr src_ip a now)
              ]
            ]
            else lookup j peers)
  unfolding announcement_packet take drop bytes_eq announced_peer and_modify
  on_datagram-announcement_packet self_id src_ip j peers a now back long short other =
      elim (Bool-cases (str_eq a.device_id self_id)) [
        | inl same ↦ absurd (other ((eq_iff a.device_id self_id).0 same))
        | inr differ ↦
            rw
              (
                on_datagram_short self_id src_ip peers (announcement_packet to_json a) now short,
                longer,
                back,
                differ,
              )
              (ground (
                arith,
                lookup-record_announcement peers (announced_peer socket_addr src_ip a now) now j,
              ))
      ]
    where
      longer : leb (length (udp_magic ++ to_json a)) (length udp_magic) ≡ false
      longer = ground (arith, long)
