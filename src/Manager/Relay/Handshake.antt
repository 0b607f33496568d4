-- ===== src/Manager/Relay/Handshake.antt =====
-- What the handshake over a relay registers, and which side of it leads.
use zao_p2p.Prelude.Texts.{is_lt_swap}
use zao_p2p.Prelude.{ℕ, ◌≡◌, ◌≢◌, String, not, some, []}
use zao_p2p.Prelude.Bytes.{Bytes}
use zao_p2p.Prelude.Maps.{insert, remove}
use zao_p2p.CoreError.{CoreError, Result, ok, err}
use zao_p2p.Identity.{device_id_from_public_key}
use zao_p2p.Noise.{NoiseSession, peer_static_key, into_transport_mode}
use zao_p2p.Signaling.{SignalingClient}
use zao_p2p.Manager.{World, Manager}
use zao_p2p.Manager.Relay.{is_initiator, register_relay_session}

-- What the handshake of a peer over a relay shows: the messages end, with a static key in the Noise
-- state that they leave; its id is the peer's; and that state enters transport mode.
pub record Shows (w : World) (r : Result (NoiseSession w.snow)) (peer : String) (key : Bytes)
    (noise : NoiseSession w.snow) : Type 0 where
  pub shaken : NoiseSession w.snow
  pub messages : r ≡ ok shaken
  pub static_key : peer_static_key w.snow shaken ≡ some key
  pub id_of_key : device_id_from_public_key w.crypto key ≡ peer
  pub enters : into_transport_mode w.snow shaken ≡ ok noise

-- What a handshake over a relay may leave of the state, of the table of waiters and of the client.
pub data Relayed (w : World) (m : Manager w) (session_id peer : String)
    (sent : SignalingClient × Result (NoiseSession w.snow)) (now_unix : ℕ)
    : Manager w → Result (Unit {0}) → Type 0 where
  refused :
      (e : CoreError)
      → ((key : Bytes) (noise : NoiseSession w.snow) → ¬ Shows w sent.1 peer key noise)
      → Relayed w m session_id peer sent now_unix
          (record m {
            client = sent.0;
            relay_handshake_waiters = insert session_id [] m.relay_handshake_waiters;
          })
          (err e)
  not_transport :
      (e : CoreError)
      → ((key : Bytes) (noise : NoiseSession w.snow) → ¬ Shows w sent.1 peer key noise)
      → Relayed w m session_id peer sent now_unix
          (record m {
            client = sent.0;
            relay_handshake_waiters =
                remove session_id (insert session_id [] m.relay_handshake_waiters);
          })
          (err e)
  joined :
      (key : Bytes) (noise : NoiseSession w.snow)
      → Shows w sent.1 peer key noise
      → Relayed w m session_id peer sent now_unix
          (register_relay_session w
            (record m {
              client = sent.0;
              relay_handshake_waiters =
                  remove session_id (insert session_id [] m.relay_handshake_waiters);
            })
            peer
            key
            noise
            session_id
            now_unix)
          (ok tt)

-- Of two devices with different ids exactly one leads the handshake over a relay.
pub is_initiator_other :
    (own peer : String) → own ≢ peer → is_initiator peer own ≡ not (is_initiator own peer)
is_initiator_other own peer differ = is_lt_swap own peer differ
