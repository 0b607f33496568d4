-- ===== src/Manager/Sending/Ending/Schedules.antt =====
-- Every schedule of a run: how many moves of the loop and of the workers it has room for, and that
-- one is possible until the run has ended.
use zao_p2p.Prelude.{
  ℕ, ◌+◌, ◌*◌, ◌≤◌, ◌≡◌, refl, ap, ◌⊎◌, String, Bool, true, false, not, ◌||◌, Bool-cases, inl, inr,
  List, [], ◌∷◌, length, ==_iff, if◌then◌else◌, arith, ltb,
}
use zao_p2p.CoreError.{ok}
use zao_p2p.Transfer.{default_parallelism}
use zao_p2p.Transfer.Files.{FileSource}
use zao_p2p.Transfer.Handle.{TransferHandle, contains, pending_chunk_indices}
use zao_p2p.Manager.{World, Manager}
use zao_p2p.Manager.Sending.{
  Run, Phase, at_head, waiting, at_permit, joining, aborted, Move, loop, work, pause, resume,
  cancel, disconnect, writer_ended, spawn, with_stream, loop_at, move, run_moves, start_run,
  fresh_run,
}
use zao_p2p.Manager.Sending.Ending.{measure, has_ended, next_of, measure-work_on}

module _ (w : World) where
  -- Whether the loop can go on: not in the sleep of a pause, not at a permit with all of them taken.
  abbrev pub goes_on : Run w → Phase → Bool
  goes_on r at_head = true
  goes_on r waiting = not r.handle.paused || r.handle.cancelled
  goes_on r at_permit = ltb (length r.running) default_parallelism
  goes_on r joining = false
  goes_on r aborted = false

  -- Whether a move of the loop or of a worker is possible; the others do no part of the work.
  abbrev pub is_possible : Run w → Move → Bool
  is_possible r loop = goes_on r r.phase
  is_possible r (work i now) = contains i r.running
  is_possible r mv = false

  -- How many possible moves of the loop and of workers a schedule makes.
  unfoldable pub work_done : Run w → List Move → ℕ
  unfolding move
  work_done r [] = 0
  work_done r (mv ∷ mvs) = (if is_possible r mv then 1 else 0) + work_done (move w r mv) mvs

  measure-loop :
      (r : Run w) (p : Phase)
      → r.phase ≡ p
      → (if goes_on r p then 1 else 0) + measure w (loop_at w r p) ≤ measure w r
  unfolding loop_at with_stream spawn
  measure-loop r at_head e = ground (arith, e)
  measure-loop r waiting e = ground (arith, e)
  measure-loop r at_permit e = ground (arith, e)
  measure-loop r joining e = ground (arith, e)
  measure-loop r aborted e = ground (arith, e)

  measure-move :
      (r : Run w) (mv : Move)
      → (if is_possible r mv then 1 else 0) + measure w (move w r mv) ≤ measure w r
  unfolding move
  measure-move r loop = measure-loop r r.phase refl
  measure-move r (work i now) = elim (Bool-cases (contains i r.running)) [
    | inl e ↦ rw (move, e) (omega (arith, measure-work_on w r i now e))
    | inr e ↦ rw (move, e) (omega arith)
  ]
  measure-move r pause = omega arith
  measure-move r resume = omega arith
  measure-move r cancel = omega arith
  measure-move r writer_ended = omega arith
  measure-move r disconnect = omega arith

  work_done-measure :
      (mvs : List Move) (r : Run w) → work_done r mvs + measure w (run_moves w r mvs) ≤ measure w r
  unfolding work_done run_moves
  work_done-measure [] r = omega arith
  work_done-measure (mv ∷ mvs) r =
      omega (arith, measure-move r mv, work_done-measure mvs (move w r mv))

  possible_next :
      (r : Run w) (now : ℕ) (running : List ℕ)
      → r.running ≡ running
      → r.handle.paused ≡ false
      → (has_ended w r ≡ true) ⊎ (is_possible r (next_of running now) ≡ true)
  unfolding contains
  possible_next r now [] e unpaused = elim_phase r.phase refl
    where
      elim_phase : (p : Phase) → r.phase ≡ p → (has_ended w r ≡ true) ⊎ (goes_on r r.phase ≡ true)
      elim_phase at_head q = inr (ground (arith, q))
      elim_phase waiting q = inr (ground (arith, q, unpaused))
      elim_phase at_permit q = inr (ground (arith, q, e))
      elim_phase joining q = inl (ground (arith, q, e))
      elim_phase aborted q = inl (ground (arith, q, e))
  possible_next r now (i ∷ is) e unpaused = inr (rw e (ground (arith, ==_iff i i)))

-- A run that has started, and any schedule, of the loop, the workers, the user and the connection:
-- it makes at most four possible moves of the loop and of workers for each pending chunk, and three
-- more. If the transfer is not paused after it, the run has ended, or another such move is possible.
pub run_moves_ends :
    (w : World) (m : Manager w) (peer id : String) (source : FileSource) (h : TransferHandle)
    (r : Run w) (mvs : List Move) (now : ℕ)
    → start_run w m peer id source h ≡ ok r
    → (run_moves w r mvs).handle.paused ≡ false
    → (work_done w r mvs ≤ 4 * length (pending_chunk_indices h) + 3)
      × ((has_ended w (run_moves w r mvs) ≡ true)
          ⊎ (is_possible w (run_moves w r mvs) (next_of (run_moves w r mvs).running now) ≡ true))
unfolding start_run
run_moves_ends w m peer id source h r mvs now starts unpaused =
    let start : fresh_run w m peer id source h ≡ r = ground (arith, starts) in
    (
      (let total : 4 * length (pending_chunk_indices h) + 0 + 3 ≡ measure w r =
            ap (measure w) start in
          omega (arith, total, work_done-measure w mvs r)),
      possible_next w (run_moves w r mvs) now (run_moves w r mvs).running refl unpaused,
    )
