-- ===== src/Manager/Resume/Failed.antt =====
-- What a run that failed leaves in the table of outgoing transfers.
use zao_p2p.Prelude.{
  ℕ, ◌≡◌, refl, ap, sym, ◌∙◌, String, true, not, ◌||◌, Bool-cases, inl, inr, List, [], ◌∷◌, str_eq,
  arith,
}
use zao_p2p.Prelude.Maps.{contains_key}
use zao_p2p.CoreError.{CoreError, ok, err}
use zao_p2p.Transfer.Files.{FileSource}
use zao_p2p.Transfer.Handle.{TransferHandle}
use zao_p2p.Manager.{World, Manager}
use zao_p2p.Manager.Sending.{
  Run, Move, loop_at, with_stream, spawn, work_on, chunk_read, move, start_run, run_moves, end_run,
}
use zao_p2p.Manager.Sending.Arrival.{start_run_lem}
use zao_p2p.Manager.Resume.{resumed_handle, resume_row}

module _ (w : World) where
  outgoing-move :
      (r : Run w) (mv : Move)
      → (move w r mv).manager.outgoing_transfers ≡ r.manager.outgoing_transfers
  unfolding move loop_at with_stream spawn work_on chunk_read
  outgoing-move r mv = ground arith

  pub outgoing-run_moves :
      (mvs : List Move) (r : Run w)
      → (run_moves w r mvs).manager.outgoing_transfers ≡ r.manager.outgoing_transfers
  unfolding run_moves
  outgoing-run_moves [] r = refl
  outgoing-run_moves (mv ∷ mvs) r = outgoing-run_moves mvs (move w r mv) ∙ outgoing-move r mv

  end_run-err :
      (r : Run w) (now_unix : ℕ) (e : CoreError)
      → (end_run w r now_unix).1 ≡ err e
      → (end_run w r now_unix).0 ≡ r.manager
  unfolding end_run
  end_run-err r now_unix e failed = ground (arith, failed)

  resume_row_known :
      (m : Manager w) (device_id transfer_id peer direction local_path : String) (now now_unix : ℕ)
      (mvs : List Move)
      → contains_key transfer_id m.outgoing_transfers ≡ true
      → resume_row w m device_id (transfer_id, peer, direction, local_path) now mvs now_unix ≡ m
  unfolding resume_row resumed_handle
  resume_row_known m device_id transfer_id peer direction local_path now now_unix mvs known =
      elim (Bool-cases (not (str_eq peer device_id) || not (str_eq direction "send"))) [
        | inl e ↦ rw (resume_row, resumed_handle, e) refl
        | inr e ↦ rw (resume_row, resumed_handle, e, known) refl
      ]

-- A transfer in the table of outgoing ones whose run fails, because of a chunk or of the stream,
-- stays in that table, so that an auto-resume after it passes the transfer over.
pub failed_run_not_resumed :
    (w : World) (m : Manager w) (device_id transfer_id peer direction local_path : String)
    (source : FileSource) (h : TransferHandle) (r : Run w) (mvs later : List Move)
    (now_unix now later_unix : ℕ) (e : CoreError)
    → start_run w m device_id transfer_id source h ≡ ok r
    → contains_key transfer_id m.outgoing_transfers ≡ true
    → (end_run w (run_moves w r mvs) now_unix).1 ≡ err e
    → resume_row w
        (end_run w (run_moves w r mvs) now_unix).0
        device_id
        (transfer_id, peer, direction, local_path)
        now
        later
        later_unix
      ≡ (end_run w (run_moves w r mvs) now_unix).0
failed_run_not_resumed w m device_id transfer_id peer direction local_path source h r mvs later
      now_unix now later_unix e starts known failed =
    resume_row_known w (end_run w (run_moves w r mvs) now_unix).0 device_id transfer_id peer
      direction local_path now later_unix later
      (ap (λ n. contains_key transfer_id n.outgoing_transfers)
          (end_run-err w (run_moves w r mvs) now_unix e failed)
        ∙ (ap (contains_key transfer_id) (outgoing-run_moves w mvs r)
            ∙ (ap (λ s. contains_key transfer_id s.manager.outgoing_transfers)
                  (sym (start_run_lem w m device_id transfer_id source h r starts))
                ∙ known)))
