-- ===== src/Manager/Streams/Frames.antt =====
-- A reader, frame by frame.
use zao_p2p.Prelude.{
  ℕ, zero, suc, ◌≤◌, ◌≡◌, refl, ap, sym, ◌∙◌, String, inl, inr, List, [], ◌∷◌, ◌++◌, length, arith,
  if◌then◌else◌,
}
use mathlib.Core.List.{append_assoc, append-nil}
use zao_p2p.Prelude.Bytes.{Bytes}
use zao_p2p.Prelude.Maps.{lookup}
use zao_p2p.CoreError.{ok, err, Result-cases}
use zao_p2p.Stream.{read_exact}
use zao_p2p.Stream.Frame.{write_framed, read_framed, max_frame, read_framed-write_framed}
use zao_p2p.Protocol.{ProtocolMessage}
use zao_p2p.Noise.{NoiseSession, encrypt}
use zao_p2p.Manager.{World, Manager}
use zao_p2p.Manager.Streams.{write_stream, read_frame, read_stream}

-- What a writer makes of ciphertexts, and that each of them is within the limit.
abbrev pub framed : List Bytes → Bytes
framed [] = []
framed (c ∷ cs) = write_framed [] c ++ framed cs

abbrev pub AllFit : List Bytes → Type 0
AllFit [] = Unit
AllFit (c ∷ cs) = (length c ≤ max_frame) × AllFit cs

module _ (w : World) where
  -- Ciphertexts handled one after the other, until one stops the reader.
  unfoldable pub read_frames : Manager w → String → List Bytes → (ℕ → ℕ × ℕ) → Manager w
  unfolding read_frame
  read_frames m device_id [] times = m
  read_frames m device_id (c ∷ cs) times =
      let (m', goes_on) =
        read_frame w m (lookup device_id m.sessions) c (times (length (framed cs))) in
      let later = read_frames m' device_id cs times in if goes_on then later else m'

  -- The ciphertexts of the messages of a queue, up to the first that cannot be encrypted.
  abbrev pub ciphertexts : NoiseSession w.snow → List ProtocolMessage → List Bytes
  ciphertexts noise [] = []
  ciphertexts noise (msg ∷ queue) = elim (w.codec.encode_plaintext msg) [
    | err e ↦ ciphertexts noise queue
    | ok plaintext ↦ elim (encrypt w.snow noise plaintext) [
      | err e ↦ []
      | ok (c, noise') ↦ c ∷ ciphertexts noise' queue
    ]
  ]

  write_stream-framed :
      (noise : NoiseSession w.snow) (queue : List ProtocolMessage) (written : Bytes)
      → (write_stream w noise queue written).1 ≡ written ++ framed (ciphertexts noise queue)
  unfolding write_stream write_framed
  write_stream-framed noise [] written = sym (append-nil written)
  write_stream-framed noise (msg ∷ queue) written =
      elim (Result-cases (w.codec.encode_plaintext msg)) [
        | inr (e, u) ↦ rw (write_stream, ciphertexts, u) (write_stream-framed noise queue written)
        | inl (plaintext, u) ↦ elim (Result-cases (encrypt w.snow noise plaintext)) [
          | inr (e, v) ↦ rw (write_stream, ciphertexts, u, v) (sym (append-nil written))
          | inl ((c, noise'), v) ↦
              rw (write_stream, ciphertexts, u, v)
                (write_stream-framed noise' queue (write_framed written c)
                  ∙ append_assoc written (write_framed [] c) (framed (ciphertexts noise' queue)))
        ]
      ]

  read_stream-framed :
      (fuel : ℕ) (m : Manager w) (device_id : String) (cs : List Bytes) (times : ℕ → ℕ × ℕ)
      → AllFit cs
      → length cs ≤ fuel
      → read_stream w fuel m device_id (framed cs) times ≡ read_frames m device_id cs times
  unfolding read_stream read_frames read_framed read_exact
  read_stream-framed zero m device_id [] times fits enough = refl
  read_stream-framed (suc fuel) m device_id [] times fits enough = refl
  read_stream-framed zero m device_id (c ∷ cs) times fits enough = absurd (omega arith)
  read_stream-framed (suc fuel) m device_id (c ∷ cs) times (fit, fits) enough =
      rw (read_stream, read_framed-write_framed c (framed cs) fit)
        (ap
          (λ later.
            if (read_frame w m (lookup device_id m.sessions) c (times (length (framed cs)))).1
            then later
            else (read_frame w m (lookup device_id m.sessions) c (times (length (framed cs)))).0)
          (read_stream-framed fuel _ device_id cs times fits (omega arith)))

  -- What the writer of a stream wrote of its queue, and then the end of the stream, if each
  -- ciphertext is within the limit of a frame: the reader handles the ciphertexts of the messages
  -- one after the other in order, until one stops it. It needs fuel for each of them once.
  pub read_stream-write_stream :
      (fuel : ℕ) (m : Manager w) (device_id : String) (noise : NoiseSession w.snow)
      (queue : List ProtocolMessage) (times : ℕ → ℕ × ℕ)
      → AllFit (ciphertexts noise queue)
      → length (ciphertexts noise queue) ≤ fuel
      → read_stream w fuel m device_id (write_stream w noise queue []).1 times
        ≡ read_frames m device_id (ciphertexts noise queue) times
  read_stream-write_stream fuel m device_id noise queue times fits enough =
      ap (λ bytes. read_stream w fuel m device_id bytes times) (write_stream-framed noise queue [])
      ∙ read_stream-framed fuel m device_id (ciphertexts noise queue) times fits enough
