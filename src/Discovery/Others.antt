-- ===== src/Discovery/Others.antt =====
-- The table of peers under any interleaving of its threads.
use zao_p2p.Prelude.{
  ℕ, ◌≡◌, refl, ◌≢◌, ◌⊎◌, inl, inr, String, true, Option, none, some, List, [], ◌∷◌, Bool-cases,
  Option-cases, str_eq, eq_iff, arith, length, leb, not, ◌||◌, take, drop,
}
use zao_p2p.Prelude.Bytes.{Bytes, bytes_eq}
use zao_p2p.Prelude.Maps.{lookup, insert, ne_of_str}
use zao_p2p.Discovery.{
  udp_magic, Peers, DiscoveredPeer, mdns, ServiceInfo, BroadcastAnnouncement, is_stale,
  retain_fresh, known_peers, peer_from_service_info, on_service_resolved, and_modify,
  record_announcement, announced_peer, on_datagram,
}
use zao_p2p.Discovery.Service.{
  service_resolved, other_event, browse_loop, Received, listen, PeersEvent, browsed, heard, asked,
  on_peers, run_peers,
}

-- Each entry stands under its device's id, and none is this device.
abbrev pub AllOthers : String → Peers → Type 0
AllOthers self_id [] = Unit
AllOthers self_id ((k, p) ∷ peers) = (p.device_id ≡ k) × ((k ≢ self_id) × AllOthers self_id peers)

insert-AllOthers :
    (self_id k : String) (peers : Peers) (p : DiscoveredPeer)
    → p.device_id ≡ k
    → k ≢ self_id
    → AllOthers self_id peers
    → AllOthers self_id (insert k p peers)
unfolding insert
insert-AllOthers self_id k [] p same other all = (same, (other, tt))
insert-AllOthers self_id k ((j, q) ∷ peers) p same other (here, (differs, all)) =
    elim (Bool-cases (str_eq j k)) [
      | inl e ↦ rw e (same, (other, all))
      | inr e ↦ rw e (here, (differs, insert-AllOthers self_id k peers p same other all))
    ]

lookup-AllOthers :
    (self_id k : String) (peers : Peers) (p : DiscoveredPeer)
    → AllOthers self_id peers
    → lookup k peers ≡ some p
    → p.device_id ≡ k
unfolding lookup
lookup-AllOthers self_id k [] p all h = absurd (cc h)
lookup-AllOthers self_id k ((j, q) ∷ peers) p (here, (differs, all)) h =
    elim (Bool-cases (str_eq j k)) [
      | inl e ↦
          let there : some q ≡ some p = rw e at h in
          let at : j ≡ k = (eq_iff j k).0 e in cc (here, at, there)
      | inr e ↦ lookup-AllOthers self_id k peers p all (rw e at h)
    ]

device_id-and_modify :
    (old p : DiscoveredPeer) (now : ℕ)
    → old.device_id ≡ p.device_id
    → (and_modify old p now).device_id ≡ p.device_id
unfolding and_modify
device_id-and_modify old p now same = ground (arith, same)

record_announcement-AllOthers :
    (self_id : String) (peers : Peers) (p : DiscoveredPeer) (now : ℕ)
    → p.device_id ≢ self_id
    → AllOthers self_id peers
    → AllOthers self_id (record_announcement peers p now)
unfolding record_announcement
record_announcement-AllOthers self_id peers p now other all =
    elim (Option-cases (lookup p.device_id peers)) [
      | inl e ↦
          rw (record_announcement, e) (insert-AllOthers self_id p.device_id peers p refl other all)
      | inr (old, e) ↦
          rw (record_announcement, e)
            (insert-AllOthers self_id p.device_id peers (and_modify old p now)
              (device_id-and_modify old p now
                (lookup-AllOthers self_id p.device_id peers old all e))
              other all)
    ]

retain_fresh-AllOthers :
    (self_id : String) (peers : Peers) (now : ℕ)
    → AllOthers self_id peers
    → AllOthers self_id (retain_fresh now peers)
unfolding retain_fresh
retain_fresh-AllOthers self_id [] now all = tt
retain_fresh-AllOthers self_id ((k, p) ∷ peers) now (here, (differs, all)) =
    elim (Bool-cases (is_stale now p)) [
      | inl e ↦ rw e (retain_fresh-AllOthers self_id peers now all)
      | inr e ↦ rw e (here, (differs, retain_fresh-AllOthers self_id peers now all))
    ]

module _ (socket_addr : String → ℕ → String)
    (from_json : Bytes → Option BroadcastAnnouncement) where
  -- A datagram changes nothing, or records another device's announcement.
  pub on_datagram_cases :
      (self_id : String) (peers : Peers) (datagram : Bytes) (src_ip : String) (now : ℕ)
      → (on_datagram socket_addr from_json self_id peers datagram src_ip now ≡ peers)
        ⊎ ((a : BroadcastAnnouncement) × ((a.device_id ≢ self_id)
              × (on_datagram socket_addr from_json self_id peers datagram src_ip now
                  ≡ record_announcement peers (announced_peer socket_addr src_ip a now) now)))
  unfolding on_datagram
  on_datagram_cases self_id peers datagram src_ip now =
      elim (Bool-cases (
        leb (length (take 2048 datagram)) (length udp_magic)
        || not (bytes_eq (take 7 (take 2048 datagram)) udp_magic))) [
          | inl e ↦ inl (rw (on_datagram, e) refl)
          | inr e ↦ elim (Option-cases (from_json (drop 7 (take 2048 datagram)))) [
            | inl bad ↦ inl (rw (on_datagram, e, bad) refl)
            | inr (a, parsed) ↦ elim (Bool-cases (str_eq a.device_id self_id)) [
              | inl own ↦ inl (rw (on_datagram, e, parsed, own) refl)
              | inr other ↦ inr (
                a,
                (ne_of_str a.device_id self_id other, rw (on_datagram, e, parsed, other) refl),
              )
            ]
          ]
        ]

  listen_one-AllOthers :
      (self_id : String) (peers : Peers) (received : Received)
      → AllOthers self_id peers
      → AllOthers self_id (listen socket_addr from_json true self_id peers (received ∷ []))
  unfolding listen announced_peer
  listen_one-AllOthers self_id peers none all = all
  listen_one-AllOthers self_id peers (some (datagram, (src_ip, now))) all =
      elim (on_datagram_cases self_id peers datagram src_ip now) [
        | inl same ↦ rw same all
        | inr (a, (other, recorded)) ↦ rw recorded (
            record_announcement-AllOthers self_id peers (announced_peer socket_addr src_ip a now)
              now other all)
      ]

  on_service_resolved-AllOthers :
      (self_id : String) (peers : Peers) (info : ServiceInfo) (now : ℕ)
      → AllOthers self_id peers
      → AllOthers self_id (on_service_resolved socket_addr self_id peers info now)
  unfolding on_service_resolved
  on_service_resolved-AllOthers self_id peers info now all =
      elim (Option-cases (peer_from_service_info socket_addr info mdns now)) [
        | inl e ↦ rw (on_service_resolved, e) all
        | inr (p, e) ↦ elim (Bool-cases (str_eq p.device_id self_id)) [
          | inl own ↦ rw (on_service_resolved, e, own) all
          | inr other ↦
              rw (on_service_resolved, e, other)
                (insert-AllOthers self_id p.device_id peers p refl
                  (ne_of_str p.device_id self_id other) all)
        ]
      ]

  on_peers-AllOthers :
      (self_id : String) (peers : Peers) (e : PeersEvent)
      → AllOthers self_id peers
      → AllOthers self_id (on_peers socket_addr from_json self_id peers e)
  unfolding on_peers browse_loop known_peers
  on_peers-AllOthers self_id peers (browsed (service_resolved info) now) all =
      on_service_resolved-AllOthers self_id peers info now all
  on_peers-AllOthers self_id peers (browsed other_event now) all = all
  on_peers-AllOthers self_id peers (heard received) all =
      listen_one-AllOthers self_id peers received all
  on_peers-AllOthers self_id peers (asked now) all = retain_fresh-AllOthers self_id peers now all

  -- However what mDNS resolves, datagrams and snapshots interleave, every peer of the table stands
  -- under its own device id and none of them is this device, if that was so at first.
  pub run_peers-AllOthers :
      (self_id : String) (peers : Peers) (events : List PeersEvent)
      → AllOthers self_id peers
      → AllOthers self_id (run_peers socket_addr from_json self_id peers events)
  unfolding run_peers
  run_peers-AllOthers self_id peers [] all = all
  run_peers-AllOthers self_id peers (e ∷ events) all =
      run_peers-AllOthers self_id (on_peers socket_addr from_json self_id peers e) events
        (on_peers-AllOthers self_id peers e all)
