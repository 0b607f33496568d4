-- ===== src/Manager/Sending/Ending.antt =====
-- Every run ends: a measure that each move of the loop or of a worker lowers.
pub mod Healthy
pub mod Schedules
use zao_p2p.Prelude.{
  ℕ, zero, suc, ◌+◌, ◌*◌, ◌≤◌, ◌<◌, ◌≡◌, refl, ap, ◌∙◌, String, Bool, true, false, not, ◌&&◌, ◌||◌,
  Bool-cases, inl, inr, ◌⊎◌, List, [], ◌∷◌, ◌++◌, length, ◌==◌, ==_iff, if◌then◌else◌, arith, ltb,
}
use zao_p2p.CoreError.{Result, ok, err, Result-cases}
use zao_p2p.Transfer.Files.{FileSource, read_chunk_from_source}
use zao_p2p.Transfer.Handle
use zao_p2p.Transfer.Handle.{TransferHandle, contains, mark_chunk_acked, record_speed_sample}
use zao_p2p.Manager.{World, Manager}
use zao_p2p.Manager.Sending.{
  Run, Stream, unopened, opened, closed, Phase, at_head, waiting, at_permit, joining, aborted, Move,
  loop, work, pause, resume, cancel, disconnect, writer_ended, remove_one, spawn, with_stream,
  loop_at, chunk_read, work_on, move, run_moves,
}
use zao_p2p.Manager.Sending.Counts.{length-remove_one}

abbrev pub phase_weight : Phase → ℕ
phase_weight at_head = 3
phase_weight waiting = 2
phase_weight at_permit = 1
phase_weight joining = 0
phase_weight aborted = 0

abbrev pub over : Phase → Bool
over joining = true
over aborted = true
over p = false

abbrev pub no_worker : List ℕ → Bool
no_worker [] = true
no_worker (i ∷ is) = false

-- A worker goes first, and else the loop.
abbrev pub next_of : List ℕ → ℕ → Move
next_of [] now = loop
next_of (i ∷ is) now = work i now

module _ (w : World) where
  abbrev pub measure : Run w → ℕ
  measure r = 4 * length r.pending + length r.running + phase_weight r.phase

  -- The loop is over, and no worker runs.
  abbrev pub has_ended : Run w → Bool
  has_ended r = over r.phase && no_worker r.running

  -- The schedule of so many moves, at one instant.
  unfoldable pub drive : ℕ → Run w → ℕ → List Move
  unfolding move
  drive zero r now = []
  drive (suc n) r now = next_of r.running now ∷ drive n (move w r (next_of r.running now)) now

  pub measure-work_on :
      (r : Run w) (i now : ℕ)
      → contains i r.running ≡ true
      → measure (work_on w r i now) + 1 ≡ measure r
  unfolding work_on chunk_read
  measure-work_on r i now h = ground (arith, length-remove_one i r.running)

  -- With no worker the loop moves on, unless the transfer is paused.
  measure-loop_at :
      (r : Run w)
      → r.running ≡ []
      → over r.phase ≡ false
      → r.handle.paused ≡ false
      → measure (loop_at w r r.phase) < measure r
  unfolding loop_at with_stream spawn
  measure-loop_at r idle going unpaused = ground (arith, idle, going, unpaused)

  measure-next :
      (r : Run w) (now : ℕ)
      → r.handle.paused ≡ false
      → has_ended r ≡ false
      → measure (move w r (next_of r.running now)) < measure r
  unfolding move contains
  measure-next r now unpaused going = elim_running r.running refl
    where
      elim_running :
          (xs : List ℕ) → r.running ≡ xs → measure (move w r (next_of xs now)) < measure r
      elim_running [] e = measure-loop_at r e (ground (arith, going, e)) unpaused
      elim_running (i ∷ is) e =
          let here : contains i r.running ≡ true = rw e (ground (arith, ==_iff i i)) in
          rw (move, here) (omega (arith, measure-work_on r i now here))

  -- A run that has ended stays as it is.
  next-has_ended : (r : Run w) (now : ℕ) → has_ended r ≡ true → move w r (next_of r.running now) ≡ r
  unfolding move loop_at
  next-has_ended r now h = go r.running refl
    where
      go : (xs : List ℕ) → r.running ≡ xs → move w r (next_of xs now) ≡ r
      go [] e = ground (arith, e, h)
      go (i ∷ is) e = absurd (ground (arith, e, h))

  pub paused-next :
      (r : Run w) (now : ℕ) → (move w r (next_of r.running now)).handle.paused ≡ r.handle.paused
  unfolding move loop_at with_stream spawn work_on chunk_read mark_chunk_acked record_speed_sample
  paused-next r now = ground arith

  ended_stays :
      (n : ℕ) (r : Run w) (now : ℕ) → has_ended r ≡ true → run_moves w r (drive n r now) ≡ r
  unfolding run_moves drive
  ended_stays zero r now h = refl
  ended_stays (suc n) r now h =
      ap (λ s. run_moves w s (drive n s now)) (next-has_ended r now h) ∙ ended_stays n r now h

  -- A run that is not paused ends after as many moves as its measure, each by a worker if there is
  -- one and by the loop if there is none: whatever fails, is lost or was cancelled.
  pub run_moves-drive :
      (n : ℕ) (r : Run w) (now : ℕ)
      → r.handle.paused ≡ false
      → measure r ≤ n
      → has_ended (run_moves w r (drive n r now)) ≡ true
  unfolding run_moves drive
  run_moves-drive zero r now unpaused few = elim (Bool-cases (has_ended r)) [
    | inl e ↦ e
    | inr e ↦ absurd (omega (arith, measure-next r now unpaused e))
  ]
  run_moves-drive (suc n) r now unpaused few = elim (Bool-cases (has_ended r)) [
    | inl e ↦ ap has_ended (ended_stays (suc n) r now e) ∙ e
    | inr e ↦
        run_moves-drive n (move w r (next_of r.running now)) now (rw (paused-next r now) unpaused)
          (omega (arith, measure-next r now unpaused e))
  ]
