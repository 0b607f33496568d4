-- ===== src/Tests/Network.antt =====
-- The network's events, discovery, and the transport.
use zao_p2p.Prelude.{ℕ, ◌≡◌, refl, String, true, Option, none, some, List, [], ◌∷◌}
use zao_p2p.Prelude.Bytes.{Bytes}
use zao_p2p.Prelude.Maps.{lookup}
use zao_p2p.CoreError.{ok, err, db}
use zao_p2p.Protocol.{ping}
use zao_p2p.Discovery.{DiscoveredPeer, mdns, BroadcastAnnouncement, ServiceInfo}
use zao_p2p.Discovery.Service.{browsed, heard, asked, service_resolved, listen, run_peers}
use zao_p2p.Discovery.Others.{AllOthers, run_peers-AllOthers}
use zao_p2p.Discovery.Displace.{lookup-listen}
use zao_p2p.Manager.Authentic.{KeepsRemote, AllAuthentic}
use zao_p2p.Manager.Authentic.Events.{
  NetEvent, dialled, came_in, message_sent, controlled, run_net, run_net-AllAuthentic,
}
use zao_p2p.Tests.Concrete

abbrev keeps : KeepsRemote Concrete.snow
keeps = record {
  into_transport = λ hs ts e. refl;
  write = λ ts ts' p c e. refl;
  read = λ ts ts' c p e. refl;
}

-- A connection in which the peer answers with one frame, and one that fails.
abbrev events : List NetEvent
events =
    dialled (ok (1 ∷ 0 ∷ 0 ∷ 0 ∷ 5 ∷ [])) "zero" 1
    ∷ (came_in ((err db, 2) ∷ [])
        ∷ (message_sent "zero" ping
            ∷ (controlled 1 "zero" (1 ∷ 0 ∷ 0 ∷ 0 ∷ 7 ∷ []) (λ n. (3, 3)) ∷ [])))

run_net-AllAuthentic_example :
    AllAuthentic Concrete.world (run_net Concrete.world Concrete.manager events).sessions
unfolding lookup
run_net-AllAuthentic_example =
    run_net-AllAuthentic Concrete.world keeps Concrete.manager events (λ k s h. absurd (cc h))

abbrev found : DiscoveredPeer
found = record {
  device_id = "b";
  display_name = "B";
  addr = "10.0.0.2:7";
  via = mdns;
  last_seen_unix = 1;
}

abbrev claimed : BroadcastAnnouncement
claimed = record { device_id = "b"; display_name = "not B"; port = 9 }

abbrev resolved : ServiceInfo
resolved = record {
  property_device_id = some "b";
  property_display_name = none;
  addresses = "10.0.0.2" ∷ [];
  port = 7;
}

abbrev datagram : Bytes
datagram = 90 ∷ 65 ∷ 79 ∷ 80 ∷ 50 ∷ 80 ∷ 49 ∷ 1 ∷ []

abbrev from_json : Bytes → Option BroadcastAnnouncement
from_json bytes = some claimed

abbrev at_port : String → ℕ → String
at_port ip port = ip

run_peers-AllOthers_example : AllOthers "a" (
    run_peers at_port from_json "a" [] (
      heard (some (datagram, ("10.0.0.3", 1)))
      ∷ (browsed (service_resolved resolved) 2 ∷ (asked 40 ∷ []))))
run_peers-AllOthers_example =
    run_peers-AllOthers at_port from_json "a" []
      (heard (some (datagram, ("10.0.0.3", 1)))
        ∷ (browsed (service_resolved resolved) 2 ∷ (asked 40 ∷ [])))
      tt

lookup-listen_example :
    (n : ℕ) × (lookup "b" (
        listen at_port from_json true "a"
          (("b", found) ∷ [])
          (some (datagram, ("10.0.0.3", 5)) ∷ []))
      ≡ some (record found { last_seen_unix = n }))
unfolding lookup
lookup-listen_example =
    lookup-listen at_port from_json "a" "b" (("b", found) ∷ []) found
      (some (datagram, ("10.0.0.3", 5)) ∷ []) refl refl
