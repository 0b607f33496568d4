-- ===== src/Discovery/Displace.antt =====
-- What datagrams can do to a peer that mDNS found.
use zao_p2p.Prelude.{
  ℕ, ◌≡◌, refl, ap, ◌∙◌, inl, inr, String, true, Option, none, some, List, [], ◌∷◌, Bool-cases,
  str_eq, eq_iff,
}
use zao_p2p.Prelude.Bytes.{Bytes}
use zao_p2p.Prelude.Maps.{lookup}
use zao_p2p.Discovery.{
  Peers, DiscoveredPeer, mdns, BroadcastAnnouncement, and_modify, announced_peer, on_datagram,
}
use zao_p2p.Discovery.Others.{on_datagram_cases}
use zao_p2p.Discovery.Laws.{lookup-record_announcement}
use zao_p2p.Discovery.Service.{Received, listen}

module _ (socket_addr : String → ℕ → String)
    (from_json : Bytes → Option BroadcastAnnouncement) where
  and_modify_mdns :
      (old p : DiscoveredPeer) (now : ℕ)
      → old.via ≡ mdns
      → and_modify old p now ≡ record old { last_seen_unix = now }
  unfolding and_modify
  and_modify_mdns old p now by_mdns = rw by_mdns refl

  one_more :
      (self_id k : String) (peers : Peers) (p : DiscoveredPeer) (datagram : Bytes) (src_ip : String)
      (now : ℕ)
      → lookup k peers ≡ some p
      → p.via ≡ mdns
      → (n : ℕ) × (lookup k (on_datagram socket_addr from_json self_id peers datagram src_ip now)
          ≡ some (record p { last_seen_unix = n }))
  unfolding announced_peer
  one_more self_id k peers p datagram src_ip now there by_mdns =
      elim (on_datagram_cases socket_addr from_json self_id peers datagram src_ip now) [
        | inl same ↦ (p.last_seen_unix, rw same there)
        | inr (a, (other, recorded)) ↦ elim (Bool-cases (str_eq a.device_id k)) [
          | inl e ↦ (
            now,
            rw recorded (
                lookup-record_announcement peers (announced_peer socket_addr src_ip a now) now k
                ∙ rw (e, (eq_iff a.device_id k).0 e, there)
                    (ap some
                      (and_modify_mdns p (announced_peer socket_addr src_ip a now) now by_mdns))),
          )
          | inr e ↦ (
            p.last_seen_unix,
            rw recorded (
                lookup-record_announcement peers (announced_peer socket_addr src_ip a now) now k
                ∙ rw e there),
          )
        ]
      ]

  -- Datagrams alone never displace what mDNS found: its entry keeps address and name, whatever is
  -- announced in that device's name, and is at most seen later.
  pub lookup-listen :
      (self_id k : String) (peers : Peers) (p : DiscoveredPeer) (received : List Received)
      → lookup k peers ≡ some p
      → p.via ≡ mdns
      → (n : ℕ) × (lookup k (listen socket_addr from_json true self_id peers received)
          ≡ some (record p { last_seen_unix = n }))
  unfolding listen
  lookup-listen self_id k peers p [] there by_mdns = (p.last_seen_unix, there)
  lookup-listen self_id k peers p (none ∷ received) there by_mdns =
      lookup-listen self_id k peers p received there by_mdns
  lookup-listen self_id k peers p (some (datagram, (src_ip, now)) ∷ received) there by_mdns =
      let (n, at) = one_more self_id k peers p datagram src_ip now there by_mdns in
      lookup-listen self_id k (on_datagram socket_addr from_json self_id peers datagram src_ip now)
        (record p { last_seen_unix = n }) received at by_mdns
