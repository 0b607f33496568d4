-- ===== src/Noise/Phases.antt =====
-- The phases of a session: the handshake, then transport, and no way back.
use zao_p2p.Prelude.{◌≡◌, refl, Bool, true, false, arith}
use zao_p2p.Prelude.Bytes.{Bytes}
use zao_p2p.CoreError.{ok, err, invalid_state}
use zao_p2p.Noise.{
  Snow, NoiseSession, handshaking, transport, write_handshake_message, read_handshake_message,
  into_transport_mode, encrypt, decrypt,
}

module _ (snow : Snow) where
  -- One operation that succeeds.
  pub data Step : NoiseSession snow → NoiseSession snow → Type 0 where
    wrote :
        {s s' : NoiseSession snow} (payload msg : Bytes)
        → write_handshake_message snow s payload ≡ ok (msg, s')
        → Step s s'
    read :
        {s s' : NoiseSession snow} (msg payload : Bytes)
        → read_handshake_message snow s msg ≡ ok (payload, s')
        → Step s s'
    entered : {s s' : NoiseSession snow} → into_transport_mode snow s ≡ ok s' → Step s s'
    encrypted :
        {s s' : NoiseSession snow} (plaintext ciphertext : Bytes)
        → encrypt snow s plaintext ≡ ok (ciphertext, s')
        → Step s s'
    decrypted :
        {s s' : NoiseSession snow} (ciphertext plaintext : Bytes)
        → decrypt snow s ciphertext ≡ ok (plaintext, s')
        → Step s s'

  -- Any number of them.
  pub data Steps : NoiseSession snow → NoiseSession snow → Type 0 where
    stop : {s : NoiseSession snow} → Steps s s
    next : {s t u : NoiseSession snow} → Step s t → Steps t u → Steps s u

  abbrev pub in_transport : NoiseSession snow → Bool
  in_transport (handshaking hs) = false
  in_transport (transport ts) = true

  Step-stays :
      (s s' : NoiseSession snow) → Step s s' → in_transport s ≡ true → in_transport s' ≡ true
  unfolding write_handshake_message read_handshake_message into_transport_mode encrypt decrypt
  Step-stays (handshaking hs) s' st h = absurd (ground (arith, h))
  Step-stays (transport ts) (transport ts') st h = refl
  Step-stays (transport ts) (handshaking hs) (wrote p m e) h = absurd (ground (arith, e))
  Step-stays (transport ts) (handshaking hs) (read p m e) h = absurd (ground (arith, e))
  Step-stays (transport ts) (handshaking hs) (entered e) h = absurd (ground (arith, e))
  Step-stays (transport ts) (handshaking hs) (encrypted p c e) h = absurd (ground (arith, e))
  Step-stays (transport ts) (handshaking hs) (decrypted c p e) h = absurd (ground (arith, e))

  Steps-stay :
      (s s' : NoiseSession snow) → Steps s s' → in_transport s ≡ true → in_transport s' ≡ true
  Steps-stay s s' stop h = h
  Steps-stay s s' (next {t = t} st sts) h = Steps-stay t s' sts (Step-stays s t st h)

-- A session that is in transport mode stays in it, whatever operations follow: there every handshake
-- message is refused, and `into_transport_mode` changes nothing.
pub Steps-transport :
    (snow : Snow) (s s' : NoiseSession snow) (bytes : Bytes)
    → in_transport snow s ≡ true
    → Steps snow s s'
    → (write_handshake_message snow s' bytes ≡ err (invalid_state "handshake already complete"))
      × ((read_handshake_message snow s' bytes ≡ err (invalid_state "handshake already complete"))
          × (into_transport_mode snow s' ≡ ok s'))
unfolding write_handshake_message read_handshake_message into_transport_mode
Steps-transport snow s s' bytes h sts = go s' (Steps-stay snow s s' sts h)
  where
    go :
        (u : NoiseSession snow)
        → in_transport snow u ≡ true
        → (write_handshake_message snow u bytes ≡ err (invalid_state "handshake already complete"))
          × ((read_handshake_message snow u bytes
                ≡ err (invalid_state "handshake already complete"))
              × (into_transport_mode snow u ≡ ok u))
    go (handshaking hs) e = absurd (ground (arith, e))
    go (transport ts) e = (refl, (refl, refl))
