-- ===== src/Manager/Transfers.antt =====
-- The tables of transfers of core/src/connection_manager.rs: the decisions of a peer on an offer,
-- and cancelling, pausing and resuming. `take` empties a one-shot sender, so that it is used once.
pub mod Decisions
use zao_p2p.Prelude.{
  String, Bool, true, false, Option, none, some, List, [], ◌∷◌, ◌++◌, if◌then◌else◌,
}
use zao_p2p.Prelude.Maps.{Map, lookup, insert, remove}
use zao_p2p.CoreError.{Result}
use zao_p2p.Protocol.{ProtocolMessage, file_transfer_cancelled}
use zao_p2p.Events
use zao_p2p.Transfer.Handle
use zao_p2p.Transfer.Handle.{TransferHandle}
use zao_p2p.Manager.{
  World, Manager, OutgoingTransfer, IncomingTransfer, PendingFolderOffer, send_to,
}

-- The table after `get_mut(id).and_then(|t| t.accept_tx.take())`, and whether a sender was taken.
unfoldable pub take_file_offer : String → Map OutgoingTransfer → Map OutgoingTransfer × Bool
take_file_offer transfer_id outgoing = elim (lookup transfer_id outgoing) [
  | none ↦ (outgoing, false)
  | some t ↦ (insert transfer_id (record t { accept_tx = false }) outgoing, t.accept_tx)
]

unfoldable pub take_folder_offer : String → Map PendingFolderOffer → Map PendingFolderOffer × Bool
take_folder_offer batch pending = elim (lookup batch pending) [
  | none ↦ (pending, false)
  | some p ↦ (insert batch (record p { accept_tx = false }) pending, p.accept_tx)
]

-- `if let Some(tx) = accept_tx { let _ = tx.send(decision); }`
unfoldable pub decide : Bool → String → Bool → List (String × Bool) → List (String × Bool)
decide taken id decision decisions = if taken then decisions ++ ((id, decision) ∷ []) else decisions

module _ (w : World) where
  unfoldable pub handle_file_accept : Manager w → String → String → Manager w
  unfolding take_file_offer decide
  handle_file_accept m from transfer_id =
      let (outgoing, taken) = take_file_offer transfer_id m.outgoing_transfers in
      record m {
        outgoing_transfers = outgoing;
        decisions = decide taken transfer_id true m.decisions;
        sink = Events.on_file_accept m.sink from transfer_id;
      }

  unfoldable pub handle_file_reject : Manager w → String → String → String → Manager w
  unfolding take_file_offer decide
  handle_file_reject m from transfer_id reason =
      let (outgoing, taken) = take_file_offer transfer_id m.outgoing_transfers in
      record m {
        outgoing_transfers = remove transfer_id outgoing;
        decisions = decide taken transfer_id false m.decisions;
        sink = Events.on_file_reject m.sink from transfer_id reason;
      }

  unfoldable pub handle_folder_accept : Manager w → String → String → Manager w
  unfolding take_folder_offer decide
  handle_folder_accept m from batch =
      let (pending, taken) = take_folder_offer batch m.pending_folder_offers in
      record m {
        pending_folder_offers = pending;
        decisions = decide taken batch true m.decisions;
        sink = Events.on_folder_accept m.sink from batch;
      }

  unfoldable pub handle_folder_reject : Manager w → String → String → String → Manager w
  unfolding take_folder_offer decide
  handle_folder_reject m from batch reason =
      let (pending, taken) = take_folder_offer batch m.pending_folder_offers in
      record m {
        pending_folder_offers = remove batch pending;
        decisions = decide taken batch false m.decisions;
        sink = Events.on_folder_reject m.sink from batch reason;
      }

  -- `if let Some(t) = outgoing_transfers.get(id)` and a method of its handle.
  unfoldable pub on_outgoing : (TransferHandle → TransferHandle) → String → Manager w → Manager w
  on_outgoing f transfer_id m = elim (lookup transfer_id m.outgoing_transfers) [
    | none ↦ m
    | some t ↦ record m {
      outgoing_transfers =
          insert transfer_id (record t { handle = f t.handle }) m.outgoing_transfers;
    }
  ]

  unfoldable pub on_incoming : (TransferHandle → TransferHandle) → String → Manager w → Manager w
  on_incoming f transfer_id m = elim (lookup transfer_id m.incoming_transfers) [
    | none ↦ m
    | some t ↦ record m {
      incoming_transfers =
          insert transfer_id (record t { handle = f t.handle }) m.incoming_transfers;
    }
  ]

  unfoldable pub cancel_handles : Manager w → String → Manager w
  unfolding on_outgoing on_incoming Handle.cancel
  cancel_handles m transfer_id =
      on_incoming Handle.cancel transfer_id (on_outgoing Handle.cancel transfer_id m)

  unfoldable pub handle_file_transfer_cancelled : Manager w → String → String → Manager w
  unfolding cancel_handles
  handle_file_transfer_cancelled m transfer_id by_device =
      let m' = cancel_handles m transfer_id in
      record m' { sink = Events.on_transfer_cancelled m'.sink transfer_id by_device }

  unfoldable pub cancel_transfer : Manager w → String → String → Manager w × Result (Unit {0})
  unfolding cancel_handles send_to
  cancel_transfer m peer transfer_id =
      send_to w (cancel_handles m transfer_id) peer
        (file_transfer_cancelled transfer_id m.identity.device_id)

  unfoldable pub pause_outgoing_transfer : Manager w → String → Manager w
  unfolding on_outgoing
  pause_outgoing_transfer m transfer_id = on_outgoing Handle.pause transfer_id m

  unfoldable pub resume_outgoing_transfer : Manager w → String → Manager w
  unfolding on_outgoing
  resume_outgoing_transfer m transfer_id = on_outgoing Handle.resume transfer_id m
