-- ===== src/Manager/Sessions/Verified.antt =====
-- Which sessions `connect_to_peer` registers.
use mathlib.Core.Path.{subst}
use zao_p2p.Prelude.{
  ℕ, ◌≡◌, refl, ◌≢◌, inl, inr, String, Bool, true, false, Bool-cases, Option, none, some, List, [],
  ◌∷◌, eq_iff, str_eq, arith, if◌then◌else◌,
}
use zao_p2p.Prelude.Bytes.{Bytes}
use zao_p2p.Prelude.Maps.{contains_key, contains_key-insert, str_ne}
use zao_p2p.CoreError.{
  CoreError, Result, ok_of_bind, ok_or, ok_or-some, ok_inj, ok, err, Result-cases, invalid_state,
  is_ok,
}
use zao_p2p.Identity.{device_id_from_public_key, derive_device_id, generate, noise_public}
use zao_p2p.Noise.{NoiseSession, peer_static_key, into_transport_mode}
use zao_p2p.Manager.{World, Manager, is_connected}
use zao_p2p.Manager.Sessions.{
  initiator_handshake, check_identity, register_session, dial, connect_to_peer, try_candidates,
}

-- What a peer that is dialled shows: the transport connects; the handshake on its bytes ends, with a
-- static key in the Noise state that it leaves; the id of that key is the expected one; and that
-- state enters transport mode.
pub record Dialled (w : World) (m : Manager w) (connection : Result Bytes) (expected : String)
    (key : Bytes) (noise : NoiseSession w.snow) : Type 0 where
  pub incoming : Bytes
  pub connects : connection ≡ ok incoming
  pub shaken : NoiseSession w.snow
  pub written : Bytes
  pub handshake : initiator_handshake w m.identity incoming ≡ ok (shaken, written)
  pub static_key : peer_static_key w.snow shaken ≡ some key
  pub id_of_key : device_id_from_public_key w.crypto key ≡ expected
  pub enters : into_transport_mode w.snow shaken ≡ ok noise

module _ (w : World) (m : Manager w) (connection : Result Bytes) (expected : String) where
  -- A call that succeeds was shown the expected key, and one that is shown it succeeds.
  dial_shown :
      (key : Bytes) (noise : NoiseSession w.snow)
      → dial w m connection expected ≡ ok (key, noise)
      → Dialled w m connection expected key noise
  unfolding dial check_identity
  dial_shown key noise h =
      let (incoming, (connects, h1)) = ok_of_bind connection _ _ h in
      let ((shaken, written), (handshake, h2)) =
        ok_of_bind (initiator_handshake w m.identity incoming) _ _ h1 in
      let (key', (there, h3)) = ok_of_bind (ok_or (peer_static_key w.snow shaken) _) _ _ h2 in
      let (noise', (checked, h4)) =
        ok_of_bind
          (if str_eq (device_id_from_public_key w.crypto key') expected
            then into_transport_mode w.snow shaken
            else err (invalid_state "peer identity mismatch"))
          _ _ h3 in
      let (same_id, enters) =
        then_ok (str_eq (device_id_from_public_key w.crypto key') expected) _ _ noise' checked in
      subst (λ (p : Bytes × NoiseSession w.snow). Dialled w m connection expected p.0 p.1)
        (ok_inj (key', noise') h4)
        (record {
          incoming = incoming;
          connects = connects;
          shaken = shaken;
          written = written;
          handshake = handshake;
          static_key = ok_or-some (peer_static_key w.snow shaken) _ key' there;
          id_of_key = (eq_iff (device_id_from_public_key w.crypto key') expected).0 same_id;
          enters = enters;
        })
    where
      then_ok :
          (b : Bool) (r : Result (NoiseSession w.snow)) (e : CoreError) (n : NoiseSession w.snow)
          → (if b then r else err e) ≡ ok n
          → (b ≡ true) × (r ≡ ok n)
      then_ok true r e n c = (refl, c)
      then_ok false r e n c = absurd (ground (arith, c))

  dial_of_shown :
      (key : Bytes) (noise : NoiseSession w.snow)
      → Dialled w m connection expected key noise
      → dial w m connection expected ≡ ok (key, noise)
  unfolding dial check_identity
  dial_of_shown key noise d =
      rw
        (
          d.connects,
          d.handshake,
          d.static_key,
          (eq_iff (device_id_from_public_key w.crypto key) expected).1 d.id_of_key,
          d.enters,
        )
        refl

-- What `connect_to_peer` leaves, by what the peer shows.
pub data Connected (w : World) (m : Manager w) (connection : Result Bytes) (expected : String)
    (now_unix : ℕ) : Manager w → Result (Unit {0}) → Type 0 where
  already :
      contains_key expected m.sessions ≡ true → Connected w m connection expected now_unix m (ok tt)
  failed :
      (e : CoreError)
      → contains_key expected m.sessions ≡ false
      → ((key : Bytes) (noise : NoiseSession w.snow) → ¬ Dialled w m connection expected key noise)
      → Connected w m connection expected now_unix m (err e)
  registered :
      (key : Bytes) (noise : NoiseSession w.snow)
      → contains_key expected m.sessions ≡ false
      → Dialled w m connection expected key noise
      → Connected w m connection expected now_unix
          (register_session w m expected key noise now_unix)
          (ok tt)

pub connect_to_peer_lem :
    (w : World) (m : Manager w) (connection : Result Bytes) (expected : String) (now_unix : ℕ)
    → Connected w m connection expected now_unix
        (connect_to_peer w m connection expected now_unix).0
        (connect_to_peer w m connection expected now_unix).1
unfolding connect_to_peer
connect_to_peer_lem w m connection expected now_unix =
    elim (Bool-cases (contains_key expected m.sessions)) [
      | inl e ↦ rw (connect_to_peer, e) (already e)
      | inr e ↦ elim (Result-cases (dial w m connection expected)) [
        | inl ((key, noise), d) ↦
            let s = dial_shown w m connection expected key noise d in
            rw (connect_to_peer, e, d, s.id_of_key) (registered key noise e s)
        | inr (e', d) ↦
            rw (connect_to_peer, e, d)
              (failed e' e
                (λ key noise s. absurd (cc (d, dial_of_shown w m connection expected key noise s))))
      ]
    ]

Connected-ok :
    (w : World) (m : Manager w) (connection : Result Bytes) (expected : String) (now_unix : ℕ)
    (m' : Manager w) (r : Result (Unit {0}))
    → Connected w m connection expected now_unix m' r
    → is_ok r ≡ true
    → is_connected w m' expected ≡ true
unfolding is_connected
Connected-ok w m c expected now_unix m' r (already e) h = e
Connected-ok w m c expected now_unix m' r (failed e alone d) h = absurd (ground (arith, h))
Connected-ok w m c expected now_unix m' r (registered key noise alone d) h =
    unfold register_session in contains_key-insert expected _ m.sessions

-- If `try_candidates` succeeds, there is a session with that device.
pub try_candidates_ok :
    (w : World) (m : Manager w) (peer : String) (candidates : List (Option (Result Bytes)))
    (now_unix : ℕ)
    → is_ok (try_candidates w m peer candidates now_unix).1 ≡ true
    → is_connected w (try_candidates w m peer candidates now_unix).0 peer ≡ true
unfolding try_candidates
try_candidates_ok w m peer [] now_unix h = absurd (ground (arith, h))
try_candidates_ok w m peer (none ∷ cs) now_unix h = try_candidates_ok w m peer cs now_unix h
try_candidates_ok w m peer (some c ∷ cs) now_unix h =
    elim (Bool-cases (is_ok (connect_to_peer w m c peer now_unix).1)) [
      | inl e ↦
          rw e (Connected-ok w m c peer now_unix _ _ (connect_to_peer_lem w m c peer now_unix) e)
      | inr e ↦ rw e (
          try_candidates_ok w (connect_to_peer w m c peer now_unix).0 peer cs now_unix
            (later (is_ok (connect_to_peer w m c peer now_unix).1) _ _ e h))
    ]
  where
    later :
        (b : Bool) (x : Manager w) (y : Manager w × Result (Unit {0}))
        → b ≡ false
        → is_ok (if b then (x, ok tt) else y).1 ≡ true
        → is_ok y.1 ≡ true
    later true x y e h = absurd (ground (arith, e))
    later false x y e h = h

-- A peer that is who it says: its identity comes from `generate`, and its handshake shows that
-- identity's Noise key. If the peer's X25519 and Ed25519 public keys differ, and their hashes do not
-- collide, `connect_to_peer` refuses it as a mismatch, and nothing changes.
pub connect_to_peer_honest :
    (w : World) (m : Manager w) (signing_key : w.crypto.SigningKey) (incoming sent : Bytes)
    (noise : NoiseSession w.snow) (now_unix : ℕ)
    → contains_key (generate w.crypto signing_key).device_id m.sessions ≡ false
    → initiator_handshake w m.identity incoming ≡ ok (noise, sent)
    → peer_static_key w.snow noise ≡ some (noise_public w.crypto (generate w.crypto signing_key))
    → noise_public w.crypto (generate w.crypto signing_key) ≢ w.crypto.verifying_key signing_key
    → (w.crypto.hex_encode (w.crypto.sha256 (noise_public w.crypto (generate w.crypto signing_key)))
          ≡ w.crypto.hex_encode (w.crypto.sha256 (w.crypto.verifying_key signing_key))
        → noise_public w.crypto (generate w.crypto signing_key)
          ≡ w.crypto.verifying_key signing_key)
    → connect_to_peer w m (ok incoming) (generate w.crypto signing_key).device_id now_unix
      ≡ (m, err (invalid_state "peer identity mismatch"))
unfolding connect_to_peer dial check_identity generate device_id_from_public_key derive_device_id
connect_to_peer_honest w m signing_key incoming sent noise now_unix hs hh hk differ no_collision =
    rw (hs, hh, hk, str_ne _ _ (λ same. differ (no_collision same))) refl
