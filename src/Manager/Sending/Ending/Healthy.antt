-- ===== src/Manager/Sending/Ending/Healthy.antt =====
-- A run on a connection that holds, of a file that can be read, that is neither paused nor cancelled.
use zao_p2p.Prelude.{
  ℕ, zero, suc, ◌≡◌, refl, ap, ◌∙◌, String, Bool, true, false, not, ◌||◌, some, List, [], ◌∷◌,
  ==_iff, arith,
}
use zao_p2p.Prelude.Bytes.{Bytes}
use zao_p2p.Prelude.Maps.{lookup}
use zao_p2p.CoreError.{ok}
use zao_p2p.Transfer.Files.{Disk, path, read_chunk, read_chunk_from_source}
use zao_p2p.Transfer.Handle.{contains, mark_chunk_acked, record_speed_sample}
use zao_p2p.Manager.{World}
use zao_p2p.Manager.Sending.{
  Run, Stream, opened, closed, Phase, joining, aborted, spawn, with_stream, loop_at, chunk_read,
  work_on, move, run_moves,
}
use zao_p2p.Manager.Sending.Ending.{no_worker, next_of, drive}

abbrev pub is_opened : Stream → Bool
is_opened opened = true
is_opened st = false

abbrev pub is_closed : Stream → Bool
is_closed closed = true
is_closed st = false

abbrev pub is_aborted : Phase → Bool
is_aborted aborted = true
is_aborted p = false

abbrev pub is_joining : Phase → Bool
is_joining joining = true
is_joining p = false

module _ (w : World) (disk : Disk) (p : String) where
  pub record Healthy (r : Run w) : Type 0 where
    pub disk_same : r.manager.disk ≡ disk
    pub source_same : r.source ≡ path p
    pub connected : r.connected ≡ true
    pub usable : is_closed r.stream ≡ false
    pub ready : (no_worker r.running || is_opened r.stream) ≡ true
    pub none_lost : r.lost ≡ []
    pub unpaused : r.handle.paused ≡ false
    pub uncancelled : r.handle.cancelled ≡ false
    pub not_aborted : is_aborted r.phase ≡ false
    pub all_started : (not (is_joining r.phase) || no_worker r.pending) ≡ true

module _ (w : World) (disk : Disk) (p : String) (src : Bytes)
    (there : lookup p disk ≡ some src) where
  readable : (i : ℕ) → read_chunk_from_source disk (path p) i ≡ ok (read_chunk src i)
  unfolding read_chunk_from_source
  readable i = rw there refl

  work_on_readable :
      (r : Run w) (i now : ℕ)
      → Healthy w disk p r
      → work_on w r i now ≡ chunk_read w r i now (read_chunk src i) r.stream
  unfolding work_on
  work_on_readable r i now h =
      let reads : read_chunk_from_source r.manager.disk r.source i ≡ ok (read_chunk src i) =
        ap (λ d. read_chunk_from_source d r.source i) h.disk_same
        ∙ (ap (λ s. read_chunk_from_source disk s i) h.source_same ∙ readable i) in
      rw (work_on, reads) refl

  loop_at-Healthy :
      (r : Run w) → Healthy w disk p r → r.running ≡ [] → Healthy w disk p (loop_at w r r.phase)
  unfolding loop_at with_stream spawn
  loop_at-Healthy r h idle = record {
    disk_same = ground (arith, h.disk_same);
    source_same = ground (arith, h.source_same);
    connected = ground (arith, h.connected);
    usable = ground (arith, h.usable, h.connected);
    ready = ground (arith, h.ready, h.usable, idle);
    none_lost = ground (arith, h.none_lost);
    unpaused = ground (arith, h.unpaused);
    uncancelled = ground (arith, h.uncancelled);
    not_aborted = ground (arith, h.not_aborted, h.connected);
    all_started = ground (arith, h.all_started, h.uncancelled);
  }

  chunk_read-Healthy :
      (r : Run w) (i now : ℕ)
      → Healthy w disk p r
      → contains i r.running ≡ true
      → Healthy w disk p (chunk_read w r i now (read_chunk src i) r.stream)
  unfolding chunk_read contains mark_chunk_acked record_speed_sample
  chunk_read-Healthy r i now h here = record {
    disk_same = ground (arith, h.disk_same);
    source_same = ground (arith, h.source_same);
    connected = ground (arith, h.connected);
    usable = ground (arith, h.usable);
    ready = ground (arith, h.ready, h.usable, here);
    none_lost = ground (arith, h.none_lost, h.ready, here);
    unpaused = ground (arith, h.unpaused);
    uncancelled = ground (arith, h.uncancelled);
    not_aborted = ground (arith, h.not_aborted);
    all_started = ground (arith, h.all_started);
  }

  next-Healthy :
      (r : Run w) (now : ℕ)
      → Healthy w disk p r
      → Healthy w disk p (move w r (next_of r.running now))
  unfolding move contains
  next-Healthy r now h = go r.running refl
    where
      go : (xs : List ℕ) → r.running ≡ xs → Healthy w disk p (move w r (next_of xs now))
      go [] e = loop_at-Healthy r h e
      go (i ∷ is) e =
          let here : contains i r.running ≡ true = rw e (ground (arith, ==_iff i i)) in
          rw (move, here, work_on_readable r i now h) (chunk_read-Healthy r i now h here)

  pub drive-Healthy :
      (n : ℕ) (r : Run w) (now : ℕ)
      → Healthy w disk p r
      → Healthy w disk p (run_moves w r (drive w n r now))
  unfolding run_moves drive
  drive-Healthy zero r now h = h
  drive-Healthy (suc n) r now h =
      drive-Healthy n (move w r (next_of r.running now)) now (next-Healthy r now h)
