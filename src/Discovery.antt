-- ===== src/Discovery.antt =====
-- core/src/discovery.rs: the table of peers that mDNS and the UDP broadcast fill. The mDNS daemon,
-- the sockets, the JSON form of an announcement and the text of an address are other code's. Each
-- handler is given the time that it reads.
pub mod Laws
pub mod Service
pub mod Others
pub mod Displace
use zao_p2p.Prelude.{
  ℕ, ◌-◌, String, Bool, true, false, not, ◌||◌, Option, none, some, List, [], ◌∷◌, ◌++◌, length,
  take, drop, ltb, leb, if◌then◌else◌, str_eq,
}
use zao_p2p.Prelude.Bytes.{Bytes, bytes_eq}
use zao_p2p.Prelude.Maps.{Map, lookup, insert}

-- b"ZAOP2P1"
abbrev pub udp_magic : Bytes
udp_magic = 90 ∷ (65 ∷ (79 ∷ (80 ∷ (50 ∷ (80 ∷ (49 ∷ []))))))

pub data DiscoveryMethod : Type 0 where
  mdns udp_broadcast : DiscoveryMethod

pub record DiscoveredPeer : Type 0 where
  pub device_id : String
  pub display_name : String
  pub addr : String
  pub via : DiscoveryMethod
  pub last_seen_unix : ℕ

abbrev pub Peers : Type 0
Peers = Map DiscoveredPeer

-- What the source reads of a resolved service: two properties, the addresses and the port.
pub record ServiceInfo : Type 0 where
  pub property_device_id : Option String
  pub property_display_name : Option String
  pub addresses : List String
  pub port : ℕ

pub record BroadcastAnnouncement : Type 0 where
  pub device_id : String
  pub display_name : String
  pub port : ℕ

abbrev name_or_unknown : Option String → String
name_or_unknown none = "Unknown Device"
name_or_unknown (some n) = n

is_stale : ℕ → DiscoveredPeer → Bool
is_stale now p = not (ltb (now - p.last_seen_unix) 30)

-- `guard.retain(..)`
unfoldable pub retain_fresh : ℕ → Peers → Peers
unfolding is_stale
retain_fresh now [] = []
retain_fresh now ((k, p) ∷ peers) =
    let rest = retain_fresh now peers in if is_stale now p then rest else (k, p) ∷ rest

values : Peers → List DiscoveredPeer
values [] = []
values ((k, p) ∷ peers) = p ∷ values peers

-- The peers that are left, and their list.
unfoldable pub known_peers : Peers → ℕ → Peers × List DiscoveredPeer
unfolding values
known_peers peers now = let fresh = retain_fresh now peers in (fresh, values fresh)

module _ (socket_addr : String → ℕ → String) where
  unfoldable pub peer_from_service_info : ServiceInfo → DiscoveryMethod → ℕ → Option DiscoveredPeer
  peer_from_service_info info via now = elim info.property_device_id [
    | none ↦ none
    | some device_id ↦ elim info.addresses [
      | [] ↦ none
      | ip ∷ others ↦ some (record {
        device_id = device_id;
        display_name = name_or_unknown info.property_display_name;
        addr = socket_addr ip info.port;
        via = via;
        last_seen_unix = now;
      })
    ]
  ]

  -- The body of the browse loop, on a resolved service.
  unfoldable pub on_service_resolved : String → Peers → ServiceInfo → ℕ → Peers
  unfolding peer_from_service_info
  on_service_resolved self_device_id peers info now = elim (peer_from_service_info info mdns now) [
    | none ↦ peers
    | some peer ↦
        (if str_eq peer.device_id self_device_id then peers else insert peer.device_id peer peers)
  ]

-- `socket.send_to(&packet, ..)`
unfoldable pub announcement_packet : (BroadcastAnnouncement → Bytes) → BroadcastAnnouncement → Bytes
announcement_packet to_json announcement = udp_magic ++ to_json announcement

-- `.and_modify(..)`: an entry of mDNS keeps its address and is seen again.
unfoldable pub and_modify : DiscoveredPeer → DiscoveredPeer → ℕ → DiscoveredPeer
and_modify existing peer now = elim existing.via [
  | mdns ↦ record existing { last_seen_unix = now }
  | udp_broadcast ↦ peer
]

-- `.entry(..).and_modify(..).or_insert(..)`
unfoldable pub record_announcement : Peers → DiscoveredPeer → ℕ → Peers
unfolding and_modify
record_announcement peers peer now = elim (lookup peer.device_id peers) [
  | none ↦ insert peer.device_id peer peers
  | some existing ↦ insert peer.device_id (and_modify existing peer now) peers
]

module _ (socket_addr : String → ℕ → String) where
  unfoldable pub announced_peer : String → BroadcastAnnouncement → ℕ → DiscoveredPeer
  announced_peer src_ip announcement now = record {
    device_id = announcement.device_id;
    display_name = announcement.display_name;
    addr = socket_addr src_ip announcement.port;
    via = udp_broadcast;
    last_seen_unix = now;
  }

module _ (socket_addr : String → ℕ → String)
    (from_json : Bytes → Option BroadcastAnnouncement) where
  -- The body of the listener's loop, on a datagram: its buffer has 2048 bytes, and
  -- the rest of a longer one is lost.
  unfoldable pub on_datagram : String → Peers → Bytes → String → ℕ → Peers
  unfolding announced_peer record_announcement
  on_datagram self_id peers datagram src_ip now =
      let buf = take 2048 datagram in
      if leb (length buf) (length udp_magic) || not (bytes_eq (take 7 buf) udp_magic)
      then peers
      else elim (from_json (drop 7 buf)) [
        | none ↦ peers
        | some announcement ↦
            (if str_eq announcement.device_id self_id
              then peers
              else record_announcement peers (announced_peer socket_addr src_ip announcement now)
                  now)
      ]
