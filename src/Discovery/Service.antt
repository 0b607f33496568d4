-- ===== src/Discovery/Service.antt =====
-- `Discovery` of core/src/discovery.rs: its start and stop, and its threads, each a loop over what the
-- mDNS daemon or a socket gives. `mdns_sd` is a record of its calls; one that fails gives nothing.
use zao_p2p.Prelude.{ℕ, zero, suc, String, Bool, true, false, Option, none, some, List, [], ◌∷◌}
use Prim.Native.String.{◌++◌}
use zao_p2p.Prelude.Bytes.{Bytes}
use zao_p2p.CoreError.{Result, ok, ◌>>=◌, ok_or, invalid_state}
use zao_p2p.Discovery.{
  Peers, ServiceInfo, BroadcastAnnouncement, on_service_resolved, on_datagram, known_peers,
  announcement_packet,
}

abbrev pub service_type : String
service_type = "_zaop2p._tcp.local."

pub record Mdns : Type 1 where
  pub ServiceDaemon : Type 0
  pub Announced : Type 0
  pub new : Option ServiceDaemon
  -- The type, the instance, the host, the addresses, the port and the properties.
  pub service_info :
      String → String → String → String → ℕ → List (String × String) → Option Announced
  pub enable_addr_auto : Announced → Announced
  pub register : ServiceDaemon → Announced → Option ServiceDaemon
  pub browse : ServiceDaemon → String → Option ServiceDaemon
  pub shutdown : ServiceDaemon → Option ServiceDaemon

module _ (mdns : Mdns) where
  -- The table of peers is the threads' too.
  pub record Discovery : Type 0 where
    pub daemon : mdns.ServiceDaemon
    pub peers : Peers
    pub service_type : String

module _ (mdns : Mdns) where
  unfoldable pub start : String → String → ℕ → Result (Discovery mdns)
  start device_id display_name quic_port = do
    daemon ← ok_or mdns.new (invalid_state "mdns daemon start failed")
    service_info ←
        ok_or
          (mdns.service_info service_type device_id (device_id ++ ".local.") "" quic_port
            (("device_id", device_id) ∷ (("display_name", display_name) ∷ [])))
          (invalid_state "mdns service info failed")
    registered ←
        ok_or (mdns.register daemon (mdns.enable_addr_auto service_info))
          (invalid_state "mdns register failed")
    browsing ← ok_or (mdns.browse registered service_type) (invalid_state "mdns browse failed")
    ok (record { daemon = browsing; peers = []; service_type = service_type })

  unfoldable pub stop : Discovery mdns → Result (Unit {0})
  stop d = do daemon ← ok_or (mdns.shutdown d.daemon) (invalid_state "mdns shutdown failed"); ok tt

-- What the browse loop receives.
pub data ServiceEvent : Type 0 where
  service_resolved : ServiceInfo → ServiceEvent
  other_event : ServiceEvent

module _ (socket_addr : String → ℕ → String) where
  -- The browse loop: its events, each with the clock.
  unfoldable pub browse_loop : String → Peers → List (ServiceEvent × ℕ) → Peers
  unfolding on_service_resolved
  browse_loop self_device_id peers [] = peers
  browse_loop self_device_id peers ((service_resolved info, now) ∷ events) =
      browse_loop self_device_id (on_service_resolved socket_addr self_device_id peers info now)
        events
  browse_loop self_device_id peers ((other_event, now) ∷ events) =
      browse_loop self_device_id peers events

-- The packets of the announcer, one to a round; with no socket or no payload there are none.
unfoldable pub announce :
    Bool → (BroadcastAnnouncement → Option Bytes) → String → String → ℕ → ℕ → List Bytes
unfolding announcement_packet
announce false to_json device_id display_name quic_port rounds = []
announce true to_json device_id display_name quic_port zero = []
announce true to_json device_id display_name quic_port (suc rounds) =
    let announcement : BroadcastAnnouncement = record {
      device_id = device_id;
      display_name = display_name;
      port = quic_port;
    } in
    let later = announce true to_json device_id display_name quic_port rounds in
    elim (to_json announcement) [
      | none ↦ []
      | some payload ↦ announcement_packet (λ a. payload) announcement ∷ later
    ]

-- A datagram, the address it is from and the clock; `none` is a receive that fails.
abbrev pub Received : Type 0
Received = Option (Bytes × (String × ℕ))

module _ (socket_addr : String → ℕ → String)
    (from_json : Bytes → Option BroadcastAnnouncement) where
  -- The listener's loop, if its socket is bound.
  unfoldable pub listen : Bool → String → Peers → List Received → Peers
  unfolding on_datagram
  listen false self_id peers received = peers
  listen true self_id peers [] = peers
  listen true self_id peers (none ∷ received) = listen true self_id peers received
  listen true self_id peers (some (datagram, (src_ip, now)) ∷ received) =
      listen true self_id (on_datagram socket_addr from_json self_id peers datagram src_ip now)
        received

-- The threads and the callers share the table: what happens to it, in order.
pub data PeersEvent : Type 0 where
  browsed : ServiceEvent → ℕ → PeersEvent
  heard : Received → PeersEvent
  asked : ℕ → PeersEvent

module _ (socket_addr : String → ℕ → String)
    (from_json : Bytes → Option BroadcastAnnouncement) where
  unfoldable pub on_peers : String → Peers → PeersEvent → Peers
  unfolding browse_loop listen known_peers
  on_peers self_id peers (browsed event now) =
      browse_loop socket_addr self_id peers ((event, now) ∷ [])
  on_peers self_id peers (heard received) =
      listen socket_addr from_json true self_id peers (received ∷ [])
  on_peers self_id peers (asked now) = (known_peers peers now).0

  unfoldable pub run_peers : String → Peers → List PeersEvent → Peers
  unfolding on_peers
  run_peers self_id peers [] = peers
  run_peers self_id peers (e ∷ events) = run_peers self_id (on_peers self_id peers e) events
