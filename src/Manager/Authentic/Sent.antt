-- ===== src/Manager/Authentic/Sent.antt =====
-- Sending keeps every session under the id that its key shows.
use zao_p2p.Prelude.{◌≡◌, sym, ◌∙◌, String, some, inl, inr, Option-cases, arith}
use mathlib.Core.Path.{subst}
use zao_p2p.Prelude.Bytes.{Bytes}
use zao_p2p.Prelude.Maps.{lookup}
use zao_p2p.CoreError.{Result-cases}
use zao_p2p.Protocol.{ProtocolMessage}
use zao_p2p.Noise.{NoiseSession, peer_static_key, encrypt}
use zao_p2p.Manager.{
  World, Manager, PeerSession, deliver, send_encrypted, send_message, send_to, try_send,
}
use zao_p2p.Manager.Authentic.{
  KeepsRemote, ShowsId, AllAuthentic, AllAuthentic-insert, peer_static_key-encrypt,
}

module _ (w : World) (keeps : KeepsRemote w.snow) where
  sessions-deliver :
      (m : Manager w) (session : PeerSession w) (ciphertext : Bytes)
      → (deliver w m session ciphertext).0.sessions ≡ m.sessions
  unfolding deliver
  sessions-deliver m session ciphertext = ground arith

  -- The session is authentic itself.
  abbrev pub IsShown : PeerSession w → Type 0
  IsShown session = ShowsId w session.device_id session.noise

  pub shown_after :
      (session : PeerSession w) (noise' : NoiseSession w.snow)
      → peer_static_key w.snow noise' ≡ peer_static_key w.snow session.noise
      → IsShown session
      → ShowsId w session.device_id noise'
  shown_after session noise' same (key, (there, hashes)) = (key, (same ∙ there, hashes))

  send_message-AllAuthentic :
      (m : Manager w) (session : PeerSession w) (msg : ProtocolMessage)
      → IsShown session
      → AllAuthentic w m.sessions
      → AllAuthentic w (send_message w m session msg).0.sessions
  unfolding send_message send_encrypted
  send_message-AllAuthentic m session msg shown all =
      elim (Result-cases (w.codec.encode_plaintext msg)) [
        | inr (e, p) ↦ rw (send_message, p) all
        | inl (plaintext, p) ↦ elim (Result-cases (encrypt w.snow session.noise plaintext)) [
          | inr (e, q) ↦ rw (send_message, p, q) all
          | inl ((ciphertext, noise'), q) ↦
              rw (send_message, p, q, sessions-deliver _ session ciphertext)
                (AllAuthentic-insert w m.sessions (record session { noise = noise' }) all
                  (shown_after session noise'
                    (peer_static_key-encrypt w.snow keeps session.noise noise' plaintext ciphertext
                      q)
                    shown))
        ]
      ]

  -- A session of the table.
  abbrev pub found_shown :
      (m : Manager w) (id : String) (session : PeerSession w)
      → lookup id m.sessions ≡ some session
      → AllAuthentic w m.sessions
      → IsShown session
  found_shown m id session there all =
      let (same, shown) = all id session there in
      subst (λ (k : String). ShowsId w k session.noise) (sym same) shown

  pub send_to-AllAuthentic :
      (m : Manager w) (id : String) (msg : ProtocolMessage)
      → AllAuthentic w m.sessions
      → AllAuthentic w (send_to w m id msg).0.sessions
  unfolding send_to
  send_to-AllAuthentic m id msg all = elim (Option-cases (lookup id m.sessions)) [
    | inl e ↦ rw (send_to, e) all
    | inr (session, e) ↦
        rw (send_to, e)
          (send_message-AllAuthentic m session msg (found_shown m id session e all) all)
  ]

  pub try_send-AllAuthentic :
      (m : Manager w) (id : String) (msg : ProtocolMessage)
      → AllAuthentic w m.sessions
      → AllAuthentic w (try_send w m id msg).sessions
  unfolding try_send
  try_send-AllAuthentic m id msg all = send_to-AllAuthentic m id msg all
