-- ===== src/Manager/Resume.antt =====
-- `auto_resume_transfers_to_peer` of core/src/connection_manager.rs: the transfers to a device that
-- the database has as unfinished, one after the other. `plan` gives each run its schedule, up to its
-- end, and the clock at its end; `now` is the clock of the new handles.
pub mod Failed
use text.Mathlib.Text.{starts_with}
use zao_p2p.Prelude.{
  ℕ, String, Bool, true, false, not, ◌||◌, Option, none, some, List, [], ◌∷◌, if◌then◌else◌, str_eq,
}
use zao_p2p.Prelude.Maps.{insert, contains_key}
use zao_p2p.CoreError.{Result, ok, err}
use zao_p2p.Transfer.Files.{path}
use zao_p2p.Transfer.Handle.{TransferHandle, resume_from_manifest}
use zao_p2p.Storage.Transfers.{
  list_resumable_transfers_with_peer, load_transfer_meta, load_acked_chunks,
}
use zao_p2p.Manager.{World, Manager, OutgoingTransfer}
use zao_p2p.Manager.Sending.{Move, start_run, run_moves, end_run}

module _ (w : World) where
  -- The handle of a transfer that is resumed; `none` is a `continue`.
  unfoldable pub resumed_handle :
      Manager w → String → String × String × String × String → ℕ → Option TransferHandle
  unfolding contains_key load_transfer_meta
  resumed_handle m device_id (transfer_id, peer, direction, local_path) now =
      if not (str_eq peer device_id) || not (str_eq direction "send")
      then none
      else if contains_key transfer_id m.outgoing_transfers
      then none
      else if starts_with local_path "fd:"
      then none
      else elim (load_transfer_meta m.storage transfer_id) [
        | none ↦ none
        | some (file_name, total_bytes, p) ↦ some (
            resume_from_manifest transfer_id file_name total_bytes
              (load_acked_chunks m.storage transfer_id) now)
      ]

  -- `run_outgoing_transfer`, awaited; its error is only printed.
  unfoldable pub run_resumed :
      Manager w → String → String → String → TransferHandle → List Move → ℕ → Manager w
  unfolding start_run run_moves end_run
  run_resumed m device_id transfer_id local_path h mvs now_unix =
      elim (start_run w m device_id transfer_id (path local_path) h) [
        | err e ↦ m
        | ok r ↦ (end_run w (run_moves w r mvs) now_unix).0
      ]

  unfoldable pub resume_row :
      Manager w → String → String × String × String × String → ℕ → List Move → ℕ → Manager w
  unfolding resumed_handle run_resumed
  resume_row m device_id (transfer_id, peer, direction, local_path) now mvs now_unix =
      elim (resumed_handle m device_id (transfer_id, peer, direction, local_path) now) [
        | none ↦ m
        | some h ↦
            run_resumed
              (record m {
                outgoing_transfers =
                    insert transfer_id
                      (record { file_source = path local_path; handle = h; accept_tx = false })
                      m.outgoing_transfers;
              })
              device_id transfer_id local_path h mvs now_unix
      ]

  unfoldable pub resume_rows :
      Manager w
      → String
      → List (String × String × String × String)
      → ℕ
      → (String → List Move × ℕ)
      → Manager w
  unfolding resume_row
  resume_rows m device_id [] now plan = m
  resume_rows m device_id (row ∷ rows) now plan =
      resume_rows (resume_row m device_id row now (plan row.0).0 (plan row.0).1) device_id rows now
        plan

  unfoldable pub auto_resume_transfers_to_peer :
      Manager w → String → ℕ → (String → List Move × ℕ) → Manager w
  unfolding resume_rows list_resumable_transfers_with_peer
  auto_resume_transfers_to_peer m device_id now plan =
      resume_rows m device_id (list_resumable_transfers_with_peer m.storage) now plan
