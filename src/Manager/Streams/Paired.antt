-- ===== src/Manager/Streams/Paired.antt =====
-- The two ends of a Noise session, and a device that answers on its end while it receives.
use zao_p2p.Prelude.{
  ℕ, suc, ◌+◌, ◌≤◌, ◌≡◌, refl, ap, sym, ◌∙◌, String, some, inl, inr, Bool-cases, Option-cases,
  length, eq_refl, arith,
}
use zao_p2p.Prelude.Bytes.{Bytes, bytes_eq, bytes_eq_refl}
use zao_p2p.Prelude.Maps.{Map, lookup, insert, lookup-insert}
use zao_p2p.CoreError.{ok, err, crypto, ok_inj, Result-cases}
use zao_p2p.Protocol.{ProtocolMessage, FileChunkMessage, file_chunk_ack, file_transfer_complete}
use zao_p2p.Noise.{Snow, NoiseSession, transport, encrypt}
use zao_p2p.Transfer.Handle.{TransferHandle, pending_chunk_indices}
use zao_p2p.Transfer.ChunkFrame.{new_frame, verify}
use zao_p2p.Transfer.Files.{write_chunk_to_file}
use zao_p2p.Manager.{
  World, Manager, PeerSession, IncomingTransfer, deliver, send_encrypted, send_message, send_to,
  try_send,
}
use zao_p2p.Manager.Chunks.{
  is_empty, complete_incoming, ack_incoming, write_incoming, handle_incoming_chunk,
}

-- Two transport states of `snow` of which the first may write some more messages that the second has
-- not read: a payload that, with the tag of 16 bytes, fits a Noise message is encrypted to one of at
-- most 65535 bytes, and the other end reads it. The directions have keys and nonces of their own, so that the second may write meanwhile.
pub record Channel (snow : Snow) : Type 1 where
  pub paired : ℕ → snow.TransportState → snow.TransportState → Type 0
  pub carries :
      (n : ℕ) (a b : snow.TransportState) (payload : Bytes)
      → paired (suc n) a b
      → length payload + 16 ≤ 65_535
      → (c : Bytes) × ((a' : snow.TransportState) × ((b' : snow.TransportState)
            × ((snow.write_transport a payload ≡ some (c, a'))
                × ((length c ≤ 65_535)
                    × ((snow.read_transport b c ≡ some (payload, b')) × paired n a' b')))))
  pub answers :
      (n : ℕ) (a b b' : snow.TransportState) (payload c : Bytes)
      → paired n a b
      → snow.write_transport b payload ≡ some (c, b')
      → paired n a b'

module _ (w : World) (channel : Channel w.snow) (from : String) (n : ℕ)
    (a : w.snow.TransportState) where
  -- The session with the sender, whose end is `a`.
  pub record IsPaired (sessions : Map (PeerSession w)) : Type 0 where
    pub session : PeerSession w
    pub there : lookup from sessions ≡ some session
    pub named : session.device_id ≡ from
    pub end : w.snow.TransportState
    pub in_transport : session.noise ≡ transport end
    pub ends : channel.paired n a end

module _ (w : World) (channel : Channel w.snow) (from : String) (n : ℕ)
    (a : w.snow.TransportState) where
  -- The session with another state.
  pub insert-IsPaired :
      (sessions : Map (PeerSession w)) (s : PeerSession w) (b : w.snow.TransportState)
      → s.device_id ≡ from
      → channel.paired n a b
      → IsPaired w channel from n a (insert s.device_id (record s { noise = transport b }) sessions)
  insert-IsPaired sessions s b named ends = record {
    session = record s { noise = transport b };
    there =
        rw
          (
            lookup-insert s.device_id from (record s { noise = transport b }) sessions,
            named,
            eq_refl from,
          )
          refl;
    named = named;
    end = b;
    in_transport = refl;
    ends = ends;
  }

  encrypted :
      (noise noise' : NoiseSession w.snow) (b : w.snow.TransportState) (p c : Bytes)
      → noise ≡ transport b
      → encrypt w.snow noise p ≡ ok (c, noise')
      → (b' : w.snow.TransportState) × ((noise' ≡ transport b')
          × (w.snow.write_transport b p ≡ some (c, b')))
  unfolding encrypt
  encrypted noise noise' b p c is h = elim (Option-cases (w.snow.write_transport b p)) [
    | inl e ↦ let bad : err (crypto "snow") ≡ ok (c, noise') = rw (is, e) at h in absurd (cc bad)
    | inr ((c', b'), e) ↦
        let same : ok (c', transport b') ≡ ok (c, noise') = rw (is, e) at h in
        let pair = ok_inj (c', transport b') same in
        (
          b',
          (
            sym (ap (λ (q : Bytes × NoiseSession w.snow). q.1) pair),
            e ∙ ap (λ (q : Bytes × NoiseSession w.snow). some (q.0, b')) pair,
          ),
        )
  ]

  sessions-deliver :
      (m : Manager w) (session : PeerSession w) (ciphertext : Bytes)
      → (deliver w m session ciphertext).0.sessions ≡ m.sessions
  unfolding deliver
  sessions-deliver m session ciphertext = ground arith

  send_message-IsPaired :
      (m : Manager w) (msg : ProtocolMessage) (p : IsPaired w channel from n a m.sessions)
      → IsPaired w channel from n a (send_message w m p.session msg).0.sessions
  unfolding send_message send_encrypted
  send_message-IsPaired m msg p = elim (Result-cases (w.codec.encode_plaintext msg)) [
    | inr (e, q) ↦ rw (send_message, q) p
    | inl (plaintext, q) ↦ elim (Result-cases (encrypt w.snow p.session.noise plaintext)) [
      | inr (e, q') ↦ rw (send_message, q, q') p
      | inl ((c, noise'), q') ↦
          let (b', (into, wrote)) =
            encrypted p.session.noise noise' p.end plaintext c p.in_transport q' in
          rw (send_message, q, q', sessions-deliver _ p.session c, into)
            (insert-IsPaired m.sessions p.session b' p.named
              (channel.answers n a p.end b' plaintext c p.ends wrote))
    ]
  ]

  try_send-IsPaired :
      (m : Manager w) (msg : ProtocolMessage)
      → IsPaired w channel from n a m.sessions
      → IsPaired w channel from n a (try_send w m from msg).sessions
  unfolding try_send send_to
  try_send-IsPaired m msg p = rw (try_send, send_to, p.there) (send_message-IsPaired m msg p)

  complete_incoming-IsPaired :
      (m : Manager w) (transfer_id : String) (h : TransferHandle) (now_unix : ℕ)
      → IsPaired w channel from n a m.sessions
      → IsPaired w channel from n a (complete_incoming w m from transfer_id h now_unix).sessions
  unfolding complete_incoming
  complete_incoming-IsPaired m transfer_id h now_unix p =
      try_send-IsPaired _ (file_transfer_complete transfer_id) p

  ack_incoming-IsPaired :
      (m : Manager w) (c : FileChunkMessage) (t : IncomingTransfer) (h : TransferHandle)
      (now_unix : ℕ)
      → IsPaired w channel from n a m.sessions
      → IsPaired w channel from n a (ack_incoming w m from c t h now_unix).sessions
  unfolding ack_incoming
  ack_incoming-IsPaired m c t h now_unix p =
      elim (Bool-cases (is_empty (pending_chunk_indices h))) [
        | inl e ↦ rw e (
            complete_incoming-IsPaired _ c.transfer_id h now_unix
              (try_send-IsPaired _ (file_chunk_ack c.transfer_id c.chunk_index) p))
        | inr e ↦ rw e (try_send-IsPaired _ (file_chunk_ack c.transfer_id c.chunk_index) p)
      ]

  write_incoming-IsPaired :
      (m : Manager w) (c : FileChunkMessage) (t : IncomingTransfer) (now now_unix : ℕ)
      → IsPaired w channel from n a m.sessions
      → IsPaired w channel from n a (write_incoming w m from c t now now_unix).sessions
  unfolding write_incoming
  write_incoming-IsPaired m c t now now_unix p =
      elim (Result-cases (write_chunk_to_file m.disk t.dest_path c.chunk_index c.payload)) [
        | inr (e, wrote) ↦ rw (write_incoming, wrote) p
        | inl (disk', wrote) ↦ rw (write_incoming, wrote) (ack_incoming-IsPaired _ c t _ now_unix p)
      ]

  -- Handling a chunk and answering leaves the ends paired.
  pub handle_incoming_chunk-IsPaired :
      (m : Manager w) (c : FileChunkMessage) (now now_unix : ℕ)
      → IsPaired w channel from n a m.sessions
      → IsPaired w channel from n a (handle_incoming_chunk w m from c now now_unix).sessions
  unfolding handle_incoming_chunk new_frame verify
  handle_incoming_chunk-IsPaired m c now now_unix p =
      elim (Bool-cases (bytes_eq (w.crypto.sha256 c.payload) c.checksum_sha256)) [
        | inr e ↦ rw (handle_incoming_chunk, e) p
        | inl e ↦ elim (Option-cases (lookup c.transfer_id m.incoming_transfers)) [
          | inl u ↦ rw (handle_incoming_chunk, e, bytes_eq_refl (w.crypto.sha256 c.payload), u) p
          | inr (t, u) ↦
              rw (handle_incoming_chunk, e, bytes_eq_refl (w.crypto.sha256 c.payload), u)
                (write_incoming-IsPaired m c t now now_unix p)
        ]
      ]
