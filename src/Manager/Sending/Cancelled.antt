-- ===== src/Manager/Sending/Cancelled.antt =====
-- What a run still starts once its transfer was cancelled.
use zao_p2p.Prelude.{ℕ, ◌+◌, ◌≤◌, ◌≡◌, true, List, [], ◌∷◌, length, arith}
use zao_p2p.Transfer.Handle
use zao_p2p.Transfer.Handle.{mark_chunk_acked, record_speed_sample}
use zao_p2p.Manager.{World}
use zao_p2p.Manager.Sending.{
  Run, Phase, at_head, waiting, at_permit, joining, aborted, Move, spawn, with_stream, loop_at,
  work_on, chunk_read, move, run_moves,
}

-- Whether the loop has a chunk in its hands: past the test at the head of its round.
abbrev pub in_hands : Phase → ℕ
in_hands at_head = 0
in_hands waiting = 1
in_hands at_permit = 1
in_hands joining = 0
in_hands aborted = 0

module _ (w : World) where
  cancelled-move :
      (r : Run w) (mv : Move) → r.handle.cancelled ≡ true → (move w r mv).handle.cancelled ≡ true
  unfolding move loop_at with_stream spawn work_on chunk_read mark_chunk_acked record_speed_sample
      Handle.pause Handle.resume Handle.cancel
  cancelled-move r mv h = ground (arith, h)

  started-move :
      (r : Run w) (mv : Move)
      → r.handle.cancelled ≡ true
      → length r.pending + in_hands (move w r mv).phase
        ≤ length (move w r mv).pending + in_hands r.phase
  unfolding move loop_at with_stream spawn work_on chunk_read
  started-move r mv h = ground (arith, h)

  started-run_moves :
      (mvs : List Move) (r : Run w)
      → r.handle.cancelled ≡ true
      → length r.pending + in_hands (run_moves w r mvs).phase
        ≤ length (run_moves w r mvs).pending + in_hands r.phase
  unfolding run_moves
  started-run_moves [] r h = omega arith
  started-run_moves (mv ∷ mvs) r h =
      omega
        (arith, started-move r mv h, started-run_moves mvs (move w r mv) (cancelled-move r mv h))

  -- Once a transfer was cancelled, whatever the schedule, no chunk gets a worker but the one that
  -- the loop has in its hands, in the wait of a pause or at the permit.
  pub cancelled_starts_none :
      (mvs : List Move) (r : Run w)
      → r.handle.cancelled ≡ true
      → length r.pending ≤ length (run_moves w r mvs).pending + in_hands r.phase
  cancelled_starts_none mvs r h = omega (arith, started-run_moves mvs r h)
