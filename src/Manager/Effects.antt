-- ===== src/Manager/Effects.antt =====
-- What sending a message leaves as it was: everything but the sessions, the frames and the client.
use zao_p2p.Prelude.{arith, ◌≡◌, refl, String, Option-cases, inl, inr}
use zao_p2p.Prelude.Bytes.{Bytes}
use zao_p2p.Prelude.Maps.{lookup}
use zao_p2p.Protocol.{ProtocolMessage}
use zao_p2p.Manager.{
  World, Manager, PeerSession, deliver, send_encrypted, send_message, send_to, try_send,
}

-- The parts of the state that sending does not touch.
pub record SameBut (w : World) (m m' : Manager w) : Type 0 where
  pub disk : m'.disk ≡ m.disk
  pub storage : m'.storage ≡ m.storage
  pub incoming : m'.incoming_transfers ≡ m.incoming_transfers
  pub outgoing : m'.outgoing_transfers ≡ m.outgoing_transfers
  pub decisions : m'.decisions ≡ m.decisions
  pub sink : m'.sink ≡ m.sink

abbrev unchanged : (w : World) (m : Manager w) → SameBut w m m
unchanged w m = record {
  disk = refl;
  storage = refl;
  incoming = refl;
  outgoing = refl;
  decisions = refl;
  sink = refl;
}

deliver-SameBut :
    (w : World) (m : Manager w) (session : PeerSession w) (ciphertext : Bytes)
    → SameBut w m (deliver w m session ciphertext).0
unfolding deliver
deliver-SameBut w m session ciphertext = record {
  disk = ground arith;
  storage = ground arith;
  incoming = ground arith;
  outgoing = ground arith;
  decisions = ground arith;
  sink = ground arith;
}

send_message-SameBut :
    (w : World) (m : Manager w) (session : PeerSession w) (msg : ProtocolMessage)
    → SameBut w m (send_message w m session msg).0
unfolding send_message send_encrypted deliver
send_message-SameBut w m session msg = record {
  disk = ground arith;
  storage = ground arith;
  incoming = ground arith;
  outgoing = ground arith;
  decisions = ground arith;
  sink = ground arith;
}

pub send_to-SameBut :
    (w : World) (m : Manager w) (device_id : String) (msg : ProtocolMessage)
    → SameBut w m (send_to w m device_id msg).0
unfolding send_to
send_to-SameBut w m device_id msg = elim (Option-cases (lookup device_id m.sessions)) [
  | inl e ↦ rw (send_to, e) (unchanged w m)
  | inr (session, e) ↦ rw (send_to, e) (send_message-SameBut w m session msg)
]

pub try_send-SameBut :
    (w : World) (m : Manager w) (device_id : String) (msg : ProtocolMessage)
    → SameBut w m (try_send w m device_id msg)
unfolding try_send
try_send-SameBut w m device_id msg = send_to-SameBut w m device_id msg
