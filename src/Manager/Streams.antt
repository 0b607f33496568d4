-- ===== src/Manager/Streams.antt =====
-- The tasks of core/src/connection_manager.rs that write and read a QUIC stream of a session, each
-- on its own: nothing else uses the Noise state meanwhile. The stream takes every byte. `times`
-- gives a reader its clocks, by the length of what is left of the stream. A reader takes its session
-- from the table at each frame, where the source keeps a reference to it: what a reader does whose
-- session was removed or replaced meanwhile is not modelled.
pub mod Limit
pub mod Frames
pub mod Paired
pub mod Arriving
use zao_p2p.Prelude.{
  ℕ, zero, suc, String, Bool, true, false, Option, none, some, List, [], ◌∷◌, length, if◌then◌else◌,
}
use zao_p2p.Prelude.Bytes.{Bytes}
use zao_p2p.Prelude.Maps.{lookup}
use zao_p2p.CoreError.{Result, ok, err, unwrap_or}
use zao_p2p.Protocol.{ProtocolMessage}
use zao_p2p.Stream.Frame.{write_framed, read_framed}
use zao_p2p.Signaling
use zao_p2p.Signaling.{SignalingClient}
use zao_p2p.Noise.{NoiseSession, encrypt}
use zao_p2p.Manager.{World, Manager, PeerSession}
use zao_p2p.Manager.Dispatch.{decrypt_and_dispatch}
use zao_p2p.Manager.Sessions.{reader_ended}

module _ (w : World) where
  -- The writer of a transfer's stream: the messages of its queue, the Noise state, and what it has
  -- written. A message that cannot be encoded is passed over, one that cannot be encrypted ends it.
  unfoldable pub write_stream :
      NoiseSession w.snow → List ProtocolMessage → Bytes → NoiseSession w.snow × Bytes
  write_stream noise [] written = (noise, written)
  write_stream noise (msg ∷ queue) written = elim (w.codec.encode_plaintext msg) [
    | err e ↦ write_stream noise queue written
    | ok plaintext ↦ elim (encrypt w.snow noise plaintext) [
      | err e ↦ (noise, written)
      | ok (ciphertext, noise') ↦ write_stream noise' queue (write_framed written ciphertext)
    ]
  ]

  -- The task that forwards one message over a relay: each call of `transfer_stream_sender` makes a
  -- channel and a task of its own, and gets one message. It goes to the signaling client, unless it
  -- cannot be encoded, encrypted or sent.
  unfoldable pub write_relay :
      String
      → NoiseSession w.snow
      → ProtocolMessage
      → SignalingClient
      → NoiseSession w.snow × SignalingClient
  unfolding Signaling.send_relay_data
  write_relay session_id noise msg client = elim (w.codec.encode_plaintext msg) [
    | err e ↦ (noise, client)
    | ok plaintext ↦ elim (encrypt w.snow noise plaintext) [
      | err e ↦ (noise, client)
      | ok (ciphertext, noise') ↦ (
        noise',
        unwrap_or (Signaling.send_relay_data w.signaling_json client session_id ciphertext) client,
      )
    ]
  ]

  -- `decrypt_and_dispatch` with the session of the table; false ends the reader.
  unfoldable pub read_frame : Manager w → Option (PeerSession w) → Bytes → ℕ × ℕ → Manager w × Bool
  unfolding decrypt_and_dispatch
  read_frame m none ciphertext (now, now_unix) = (m, false)
  read_frame m (some session) ciphertext (now, now_unix) =
      decrypt_and_dispatch w m session ciphertext now now_unix

  -- The loop of a reader, with fuel for its frames.
  unfoldable pub read_stream : ℕ → Manager w → String → Bytes → (ℕ → ℕ × ℕ) → Manager w
  unfolding read_frame
  read_stream zero m device_id incoming times = m
  read_stream (suc fuel) m device_id incoming times = elim (read_framed incoming) [
    | err e ↦ m
    | ok (ciphertext, rest) ↦
        (let (m', goes_on) =
            read_frame m (lookup device_id m.sessions) ciphertext (times (length rest)) in
          let later = read_stream fuel m' device_id rest times in if goes_on then later else m')
  ]

  -- The reader of the control stream takes the session out of the table.
  unfoldable pub read_control_stream : ℕ → Manager w → String → Bytes → (ℕ → ℕ × ℕ) → Manager w
  unfolding read_stream reader_ended
  read_control_stream fuel m device_id incoming times =
      reader_ended w (read_stream fuel m device_id incoming times) device_id
