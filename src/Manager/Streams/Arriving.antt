-- ===== src/Manager/Streams/Arriving.antt =====
-- The chunks of a file on their way: written, encrypted and framed, by a stream, and read by the
-- other end of its session.
use mathlib.Core.Path.{subst}
use zao_p2p.Prelude.{
  ℕ, suc, ◌+◌, ◌<◌, ◌≤◌, ◌≡◌, refl, ap, sym, String, true, ◌||◌, some, List, [], ◌∷◌, length,
  ==_iff, arith,
}
use zao_p2p.Prelude.Bytes.{Bytes}
use zao_p2p.Prelude.Maps.{lookup, insert}
use zao_p2p.CoreError.{ok}
use zao_p2p.Protocol.{file_chunk}
use zao_p2p.Transfer.{chunk_size, div_ceil}
use zao_p2p.Transfer.Handle.{contains}
use zao_p2p.Noise.{transport, encrypt, decrypt}
use zao_p2p.Manager.{World, Manager, PeerSession}
use zao_p2p.Manager.Chunks.{handle_incoming_chunk}
use zao_p2p.Manager.Chunks.Delivery.{
  chunk_of, Delivery, over, under_way, handle_incoming_chunk-Delivery,
}
use zao_p2p.Manager.Dispatch.{dispatch_incoming, decrypt_and_dispatch}
use zao_p2p.Manager.Sending.Arrival.Messages.{chunk_messages}
use zao_p2p.Manager.Streams.{read_frame}
use zao_p2p.Manager.Streams.Frames.{AllFit, ciphertexts, read_frames, framed}
use zao_p2p.Manager.Streams.Paired.{
  Channel, IsPaired, insert-IsPaired, handle_incoming_chunk-IsPaired,
}

module _ (w : World) (src : Bytes) (id : String) where
  -- A chunk's message is encoded, and fits a Noise message with its tag.
  abbrev pub Fits : ℕ → Type 0
  Fits i =
      (plaintext : Bytes) × ((w.codec.encode_plaintext (file_chunk (chunk_of w src id i))
          ≡ ok plaintext)
        × (length plaintext + 16 ≤ 65_535))

module _ (w : World) (channel : Channel w.snow) (src : Bytes) (from id dest : String) where
  -- The state once a frame was decrypted.
  abbrev with_noise : Manager w → PeerSession w → w.snow.TransportState → Manager w
  with_noise m s b = record m {
    sessions = insert s.device_id (record s { noise = transport b }) m.sessions;
  }

  read_chunk_frame :
      (m : Manager w) (s : PeerSession w) (b b' : w.snow.TransportState) (c plaintext : Bytes)
      (i now now_unix : ℕ)
      → s.device_id ≡ from
      → s.noise ≡ transport b
      → w.snow.read_transport b c ≡ some (plaintext, b')
      → w.codec.encode_plaintext (file_chunk (chunk_of w src id i)) ≡ ok plaintext
      → read_frame w m (some s) c (now, now_unix) ≡ (
        handle_incoming_chunk w (with_noise m s b') from (chunk_of w src id i) now now_unix,
        true,
      )
  unfolding read_frame decrypt_and_dispatch decrypt dispatch_incoming
  read_chunk_frame m s b b' c plaintext i now now_unix named is read encoded =
      rw
        (
          decrypt_and_dispatch,
          is,
          read,
          w.codec.decode-encode (file_chunk (chunk_of w src id i)) plaintext encoded,
        )
        (ap
          (λ (f : String). (
            handle_incoming_chunk w (with_noise m s b') f (chunk_of w src id i) now now_unix,
            true,
          ))
          named)

  ciphertexts_chunk :
      (a a' : w.snow.TransportState) (i : ℕ) (is : List ℕ) (plaintext c : Bytes)
      → w.codec.encode_plaintext (file_chunk (chunk_of w src id i)) ≡ ok plaintext
      → w.snow.write_transport a plaintext ≡ some (c, a')
      → ciphertexts w (transport a) (chunk_messages w src id (i ∷ is))
        ≡ c ∷ ciphertexts w (transport a') (chunk_messages w src id is)
  unfolding encrypt
  ciphertexts_chunk a a' i is plaintext c encoded wrote = rw (encoded, wrote) refl

  read_frames_chunk :
      (m : Manager w) (s : PeerSession w) (b b' : w.snow.TransportState) (c plaintext : Bytes)
      (cs : List Bytes) (i : ℕ) (times : ℕ → ℕ × ℕ)
      → lookup from m.sessions ≡ some s
      → s.device_id ≡ from
      → s.noise ≡ transport b
      → w.snow.read_transport b c ≡ some (plaintext, b')
      → w.codec.encode_plaintext (file_chunk (chunk_of w src id i)) ≡ ok plaintext
      → read_frames w m from (c ∷ cs) times
        ≡ read_frames w
            (handle_incoming_chunk w
              (with_noise m s b')
              from
              (chunk_of w src id i)
              (times (length (framed cs))).0
              (times (length (framed cs))).1)
            from
            cs
            times
  unfolding read_frames
  read_frames_chunk m s b b' c plaintext cs i times there named is read encoded =
      rw
        (
          there,
          read_chunk_frame m s b b' c plaintext i (times (length (framed cs))).0
              (times (length (framed cs))).1 named is read encoded,
        )
        refl

  Delivery-with_noise :
      (m : Manager w) (s : PeerSession w) (b : w.snow.TransportState) (delivered : List ℕ)
      → Delivery w src id dest delivered m
      → Delivery w src id dest delivered (with_noise m s b)
  Delivery-with_noise m s b delivered (over gone whole) = over gone whole
  Delivery-with_noise m s b delivered (under_way h file known there v acks more) =
      under_way h file known there v acks more

  -- What a reader makes of the ciphertexts of chunks.
  pub record Arriving (m : Manager w) (delivered is : List ℕ) (cs : List Bytes) (times : ℕ → ℕ × ℕ)
      : Type 0 where
    pub fits : AllFit cs
    pub many : length cs ≡ length is
    pub all : List ℕ
    pub covers : (k : ℕ) → (contains k is || contains k delivered) ≡ true → contains k all ≡ true
    pub delivery : Delivery w src id dest all (read_frames w m from cs times)

  pub chunks_arrive :
      (is : List ℕ) (a : w.snow.TransportState) (m : Manager w) (delivered : List ℕ)
      (times : ℕ → ℕ × ℕ)
      → ((i : ℕ) → contains i is ≡ true → i < div_ceil (length src) chunk_size)
      → ((i : ℕ) → contains i is ≡ true → Fits w src id i)
      → IsPaired w channel from (length is) a m.sessions
      → Delivery w src id dest delivered m
      → Arriving m delivered is (ciphertexts w (transport a) (chunk_messages w src id is)) times
  unfolding read_frames contains encrypt
  chunks_arrive [] a m delivered times inside fits p d = record {
    fits = tt;
    many = refl;
    all = delivered;
    covers = λ k h. h;
    delivery = d;
  }
  chunks_arrive (i ∷ is) a m delivered times inside fits p d =
      let (plaintext, (encoded, short)) = fits i (ground (arith, ==_iff i i)) in
      let (c, (a', (b', (wrote, (size, (read, ends)))))) =
        channel.carries (length is) a p.end plaintext p.ends short in
      let cs = ciphertexts w (transport a') (chunk_messages w src id is) in
      let clocks = times (length (framed cs)) in
      let rest =
        chunks_arrive is a'
          (handle_incoming_chunk w (with_noise m p.session b') from (chunk_of w src id i) clocks.0
            clocks.1)
          (i ∷ delivered) times (λ k h. inside k (ground (arith, h)))
          (λ k h. fits k (ground (arith, h)))
          (handle_incoming_chunk-IsPaired w channel from (length is) a' _ (chunk_of w src id i)
            clocks.0 clocks.1
            (insert-IsPaired w channel from (length is) a' m.sessions p.session b' p.named ends))
          (handle_incoming_chunk-Delivery w src from id dest _ i clocks.0 clocks.1 delivered
            (inside i (ground (arith, ==_iff i i)))
            (Delivery-with_noise m p.session b' delivered d)) in
      subst (λ (x : List Bytes). Arriving m delivered (i ∷ is) x times)
        (sym (ciphertexts_chunk a a' i is plaintext c encoded wrote))
        (record {
          fits = (omega (arith, size, short), rest.fits);
          many = ap suc rest.many;
          all = rest.all;
          covers = λ k h. rest.covers k (ground (arith, h));
          delivery =
              subst (λ (x : Manager w). Delivery w src id dest rest.all x)
                (sym (
                  read_frames_chunk m p.session p.end b' c plaintext cs i times p.there p.named
                    p.in_transport read encoded))
                rest.delivery;
        })
