-- ===== src/Manager/Authentic/Shown.antt =====
-- What a handshake that succeeds gives: a key, and a session that has it as its remote one.
use zao_p2p.Prelude.{◌≡◌, ◌∙◌, String, Bool, true, false, some, if◌then◌else◌, str_eq}
use mathlib.Core.Path.{subst}
use zao_p2p.Prelude.Bytes.{Bytes}
use zao_p2p.CoreError.{
  CoreError, Result, ok, err, ok_or, ok_or-some, ok_of_bind, ok_inj, invalid_state, crypto,
}
use zao_p2p.Identity.{device_id_from_public_key}
use zao_p2p.Noise.{NoiseSession, peer_static_key, into_transport_mode}
use zao_p2p.Manager.{World, Manager}
use zao_p2p.Manager.Sessions.{
  initiator_handshake, responder_handshake, check_identity, dial, answer,
}
use zao_p2p.Manager.Relay.{check_relay_peer}
use zao_p2p.Manager.Authentic.{KeepsRemote, peer_static_key-into_transport_mode}

module _ (w : World) (keeps : KeepsRemote w.snow) where
  -- What a handshake gives: a key, and a transport that has it as its remote one.
  abbrev pub Has : Result (Bytes × NoiseSession w.snow) → Type 0
  Has r =
      (key : Bytes) (noise : NoiseSession w.snow)
      → r ≡ ok (key, noise)
      → peer_static_key w.snow noise ≡ some key

  pub entered :
      (noise noise' : NoiseSession w.snow) (key : Bytes)
      → peer_static_key w.snow noise ≡ some key
      → into_transport_mode w.snow noise ≡ ok noise'
      → peer_static_key w.snow noise' ≡ some key
  entered noise noise' key there into =
      peer_static_key-into_transport_mode w.snow keeps noise noise' into ∙ there

  -- The last steps of each handshake.
  shown_by :
      (noise n noise' : NoiseSession w.snow) (key' key : Bytes) (e : CoreError)
      → ok_or (peer_static_key w.snow noise) e ≡ ok key'
      → into_transport_mode w.snow noise ≡ ok n
      → ◌≡◌ {A = Result (Bytes × NoiseSession w.snow)} (ok (key', n)) (ok (key, noise'))
      → peer_static_key w.snow noise' ≡ some key
  shown_by noise n noise' key' key e there into same =
      let pair = ok_inj (key', n) same in
      subst (λ (r : Bytes × NoiseSession w.snow). peer_static_key w.snow r.1 ≡ some r.0) pair
        (entered noise n key' (ok_or-some (peer_static_key w.snow noise) e key' there) into)

  then_ok :
      (b : Bool) (r : Result (NoiseSession w.snow)) (e : CoreError) (n : NoiseSession w.snow)
      → (if b then r else err e) ≡ ok n
      → r ≡ ok n
  then_ok true r e n h = h
  then_ok false r e n h = absurd (cc h)

  then_ok_pair :
      (b : Bool) (p : Bytes × NoiseSession w.snow) (e : CoreError) (q : Bytes × NoiseSession w.snow)
      → (if b then ok p else err e) ≡ ok q
      → p ≡ q
  then_ok_pair true p e q h = ok_inj p h
  then_ok_pair false p e q h = absurd (cc h)

  check_identity-Has :
      (expected : String) (noise : NoiseSession w.snow) → Has (check_identity w expected noise)
  unfolding check_identity
  check_identity-Has expected noise key noise' h =
      let (key', (e, h1)) = ok_of_bind (ok_or (peer_static_key w.snow noise) _) _ _ h in
      let (n, (e2, h2)) =
        ok_of_bind
          (if str_eq (device_id_from_public_key w.crypto key') expected
            then into_transport_mode w.snow noise
            else err (invalid_state "peer identity mismatch"))
          _ _ h1 in
      shown_by noise n noise' key' key (crypto "no remote static key after handshake") e
        (then_ok (str_eq (device_id_from_public_key w.crypto key') expected) _ _ n e2) h2

  pub dial-Has :
      (m : Manager w) (connection : Result Bytes) (expected : String)
      → Has (dial w m connection expected)
  unfolding dial
  dial-Has m connection expected key noise' h =
      let (incoming, (e, h1)) = ok_of_bind connection _ _ h in
      let ((noise, sent), (e2, h2)) =
        ok_of_bind (initiator_handshake w m.identity incoming) _ _ h1 in
      check_identity-Has expected noise key noise' h2

  pub answer-Has : (m : Manager w) (connection : Result Bytes) → Has (answer w m connection)
  unfolding answer
  answer-Has m connection key noise' h =
      let (incoming, (e, h1)) = ok_of_bind connection _ _ h in
      let ((noise, sent), (e2, h2)) =
        ok_of_bind (responder_handshake w m.identity incoming) _ _ h1 in
      let (key', (e3, h3)) = ok_of_bind (ok_or (peer_static_key w.snow noise) _) _ _ h2 in
      let (n, (e4, h4)) = ok_of_bind (into_transport_mode w.snow noise) _ _ h3 in
      shown_by noise n noise' key' key (crypto "no remote static key after handshake") e3 e4 h4

  -- What a checked relay handshake shows, and that it is the peer's.
  pub check_relay_peer-Has :
      (peer : String) (r : Result (NoiseSession w.snow)) → Has (check_relay_peer w peer r)
  unfolding check_relay_peer
  check_relay_peer-Has peer r key noise' h =
      let (noise, (e, h1)) = ok_of_bind r _ _ h in
      let (key', (e2, h2)) = ok_of_bind (ok_or (peer_static_key w.snow noise) _) _ _ h1 in
      let same =
        then_ok_pair (str_eq (device_id_from_public_key w.crypto key') peer) (key', noise) _
          (key, noise') h2 in
      subst (λ (p : Bytes × NoiseSession w.snow). peer_static_key w.snow p.1 ≡ some p.0) same
        (ok_or-some (peer_static_key w.snow noise)
          (crypto "no remote static key after relay handshake") key' e2)
