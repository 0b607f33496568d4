-- ===== src/Manager/Authentic.antt =====
-- The table of sessions in core/src/connection_manager.rs: each one stands under the id of the key
-- that its handshake showed.
pub mod Sent
pub mod Kept
pub mod Shown
pub mod Opened
pub mod Events
use zao_p2p.Prelude.{
  ◌≡◌, refl, sym, ◌∙◌, String, Bool, true, false, Option, none, some, inl, inr, Bool-cases,
  Option-cases, ap, str_eq, eq_iff, arith, if◌then◌else◌,
}
use mathlib.Core.Path.{subst}
use zao_p2p.Prelude.Bytes.{Bytes}
use zao_p2p.Prelude.Maps.{Map, lookup, insert, remove, lookup-insert, lookup-remove}
use zao_p2p.CoreError.{Result, ok, err, ok_inj, crypto}
use zao_p2p.Identity.{device_id_from_public_key}
use zao_p2p.Noise.{
  Snow, NoiseSession, handshaking, transport, peer_static_key, encrypt, decrypt,
  into_transport_mode,
}
use zao_p2p.Manager.{World, PeerSession}

-- `snow` gives the same `get_remote_static` once a handshake has become a transport, and after each
-- message that is written or read.
pub record KeepsRemote (snow : Snow) : Type 0 where
  pub into_transport :
      (hs : snow.HandshakeState) (ts : snow.TransportState)
      → snow.into_transport hs ≡ some ts
      → snow.transport_remote ts ≡ snow.handshake_remote hs
  pub write :
      (ts ts' : snow.TransportState) (plaintext ciphertext : Bytes)
      → snow.write_transport ts plaintext ≡ some (ciphertext, ts')
      → snow.transport_remote ts' ≡ snow.transport_remote ts
  pub read :
      (ts ts' : snow.TransportState) (ciphertext plaintext : Bytes)
      → snow.read_transport ts ciphertext ≡ some (plaintext, ts')
      → snow.transport_remote ts' ≡ snow.transport_remote ts

module _ (snow : Snow) (keeps : KeepsRemote snow) where
  pub peer_static_key-encrypt :
      (noise noise' : NoiseSession snow) (plaintext ciphertext : Bytes)
      → encrypt snow noise plaintext ≡ ok (ciphertext, noise')
      → peer_static_key snow noise' ≡ peer_static_key snow noise
  unfolding encrypt peer_static_key
  peer_static_key-encrypt (handshaking hs) noise' p c h = absurd (cc h)
  peer_static_key-encrypt (transport ts) noise' p c h =
      elim (Option-cases (snow.write_transport ts p)) [
        | inl e ↦ let bad : err (crypto "snow") ≡ ok (c, noise') = rw e at h in absurd (cc bad)
        | inr ((c', ts'), e) ↦
            let same : ok (c', transport ts') ≡ ok (c, noise') = rw e at h in
            subst (λ (n : NoiseSession snow). peer_static_key snow n ≡ snow.transport_remote ts)
              (ap (λ (r : Bytes × NoiseSession snow). r.1) (ok_inj (c', transport ts') same))
              (keeps.write ts ts' p c' e)
      ]

  pub peer_static_key-decrypt :
      (noise noise' : NoiseSession snow) (ciphertext plaintext : Bytes)
      → decrypt snow noise ciphertext ≡ ok (plaintext, noise')
      → peer_static_key snow noise' ≡ peer_static_key snow noise
  unfolding decrypt peer_static_key
  peer_static_key-decrypt (handshaking hs) noise' c p h = absurd (cc h)
  peer_static_key-decrypt (transport ts) noise' c p h =
      elim (Option-cases (snow.read_transport ts c)) [
        | inl e ↦ let bad : err (crypto "snow") ≡ ok (p, noise') = rw e at h in absurd (cc bad)
        | inr ((p', ts'), e) ↦
            let same : ok (p', transport ts') ≡ ok (p, noise') = rw e at h in
            subst (λ (n : NoiseSession snow). peer_static_key snow n ≡ snow.transport_remote ts)
              (ap (λ (r : Bytes × NoiseSession snow). r.1) (ok_inj (p', transport ts') same))
              (keeps.read ts ts' c p' e)
      ]

  pub peer_static_key-into_transport_mode :
      (noise noise' : NoiseSession snow)
      → into_transport_mode snow noise ≡ ok noise'
      → peer_static_key snow noise' ≡ peer_static_key snow noise
  unfolding into_transport_mode peer_static_key
  peer_static_key-into_transport_mode (transport ts) noise' h =
      subst (λ (n : NoiseSession snow). peer_static_key snow n ≡ snow.transport_remote ts)
        (ok_inj (transport ts) h) refl
  peer_static_key-into_transport_mode (handshaking hs) noise' h =
      elim (Option-cases (snow.into_transport hs)) [
        | inl e ↦ let bad : err (crypto "snow") ≡ ok noise' = rw e at h in absurd (cc bad)
        | inr (ts, e) ↦
            let same : ok (transport ts) ≡ ok noise' = rw e at h in
            subst (λ (n : NoiseSession snow). peer_static_key snow n ≡ snow.handshake_remote hs)
              (ok_inj (transport ts) same) (keeps.into_transport hs ts e)
      ]

some_inj : {A : Type 0} (x y : A) → some x ≡ some y → x ≡ y
some_inj x y h = ap (λ o. elim o [ none ↦ x | some z ↦ z ]) h

module _ (w : World) where
  -- The session's Noise state has a remote key, and that key hashes to the id.
  abbrev pub ShowsId : String → NoiseSession w.snow → Type 0
  ShowsId id noise =
      (key : Bytes) × ((peer_static_key w.snow noise ≡ some key)
        × (device_id_from_public_key w.crypto key ≡ id))

  abbrev pub AllAuthentic : Map (PeerSession w) → Type 0
  AllAuthentic sessions =
      (k : String) (s : PeerSession w)
      → lookup k sessions ≡ some s
      → (s.device_id ≡ k) × ShowsId k s.noise

  pub AllAuthentic-insert :
      (sessions : Map (PeerSession w)) (s : PeerSession w)
      → AllAuthentic sessions
      → ShowsId s.device_id s.noise
      → AllAuthentic (insert s.device_id s sessions)
  AllAuthentic-insert sessions s all shown k t h = elim (Bool-cases (str_eq s.device_id k)) [
    | inl same ↦
        let at_k : s.device_id ≡ k = (eq_iff s.device_id k).0 same in
        let there : some s ≡ some t = rw (lookup-insert s.device_id k s sessions, same) at h in
        subst (λ (x : PeerSession w). (x.device_id ≡ k) × ShowsId k x.noise) (some_inj s t there)
          (at_k, subst (λ (id : String). ShowsId id s.noise) (at_k) shown)
    | inr other ↦ all k t (rw (lookup-insert s.device_id k s sessions, other) at h)
  ]

  pub AllAuthentic-remove :
      (sessions : Map (PeerSession w)) (id : String)
      → AllAuthentic sessions
      → AllAuthentic (remove id sessions)
  AllAuthentic-remove sessions id all k t h = elim (Bool-cases (str_eq id k)) [
    | inl same ↦
        let gone : none ≡ some t = rw (lookup-remove id k sessions, same) at h in absurd (cc gone)
    | inr other ↦ all k t (rw (lookup-remove id k sessions, other) at h)
  ]
