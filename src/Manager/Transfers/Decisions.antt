-- ===== src/Manager/Transfers/Decisions.antt =====
-- One decision for each offer, and what a cancelled transfer's tables hold.
use zao_p2p.Prelude.{
  ◌≡◌, refl, ap, ◌∙◌, String, Bool, true, false, Option, none, some, Option-cases, List, [], ◌∷◌,
  ◌++◌, inl, inr, arith, eq_refl, eq_iff, str_eq, if◌then◌else◌,
}
use zao_p2p.Prelude.Maps.{Map, lookup, lookup-insert, lookup-remove}
use zao_p2p.Protocol.{file_transfer_cancelled}
use zao_p2p.Transfer.Handle
use zao_p2p.Transfer.Handle.{TransferHandle}
use zao_p2p.Manager.{World, Manager, OutgoingTransfer, IncomingTransfer}
use zao_p2p.Manager.Effects.{send_to-SameBut}
use zao_p2p.Manager.Transfers.{
  take_file_offer, decide, handle_file_accept, handle_file_reject, on_outgoing, on_incoming,
  cancel_handles, cancel_transfer,
}

-- A second `take` finds no sender.
take_file_offer_again :
    (id : String) (outgoing : Map OutgoingTransfer)
    → (take_file_offer id (take_file_offer id outgoing).0).1 ≡ false
unfolding take_file_offer
take_file_offer_again id outgoing = elim (Option-cases (lookup id outgoing)) [
  | inl e ↦ rw (take_file_offer, e, take_file_offer, e) refl
  | inr (t, e) ↦
      rw
        (
          take_file_offer,
          e,
          take_file_offer,
          lookup-insert id id (record t { accept_tx = false }) outgoing,
          eq_refl id,
        )
        refl
]

-- Nothing is taken for an id that is not in the table.
taken_of_gone :
    (id : String) (outgoing : Map OutgoingTransfer)
    → lookup id outgoing ≡ none
    → (take_file_offer id outgoing).1 ≡ false
unfolding take_file_offer
taken_of_gone id outgoing e = rw (take_file_offer, e) refl

decide_not :
    (id : String) (d : Bool) (taken : Bool) (ds : List (String × Bool))
    → taken ≡ false
    → decide taken id d ds ≡ ds
unfolding decide
decide_not id d taken ds e = rw e refl

-- An offer that was accepted is decided: a second accept, or a reject, gives no decision to the task
-- that waits for it.
pub handle_file_accept_once :
    (w : World) (m : Manager w) (from from' id reason : String)
    → ((handle_file_accept w (handle_file_accept w m from id) from' id).decisions
        ≡ (handle_file_accept w m from id).decisions)
      × ((handle_file_reject w (handle_file_accept w m from id) from' id reason).decisions
          ≡ (handle_file_accept w m from id).decisions)
unfolding handle_file_accept handle_file_reject
handle_file_accept_once w m from from' id reason = (
  decide_not id true _ _ (take_file_offer_again id m.outgoing_transfers),
  decide_not id false _ _ (take_file_offer_again id m.outgoing_transfers),
)

-- A rejected transfer is gone, its waiting task was given `false` if it still waited, and a late
-- accept gives no decision.
pub handle_file_reject_lem :
    (w : World) (m : Manager w) (from id reason : String) (t : OutgoingTransfer)
    → lookup id m.outgoing_transfers ≡ some t
    → (lookup id (handle_file_reject w m from id reason).outgoing_transfers ≡ none)
      × (((handle_file_reject w m from id reason).decisions
            ≡ (if t.accept_tx then m.decisions ++ ((id, false) ∷ []) else m.decisions))
          × ((handle_file_accept w (handle_file_reject w m from id reason) from id).decisions
              ≡ (handle_file_reject w m from id reason).decisions))
unfolding handle_file_reject handle_file_accept decide
handle_file_reject_lem w m from id reason t e = (
  rw (lookup-remove id id (take_file_offer id m.outgoing_transfers).0, eq_refl id) refl,
  (
    rw (take_file_offer, e) refl,
    decide_not id true _ _ (
        taken_of_gone id _
          (rw (lookup-remove id id (take_file_offer id m.outgoing_transfers).0, eq_refl id) refl)),
  ),
)

-- What `cancel` does to an entry.
abbrev pub cancelled_out : Option OutgoingTransfer → Option OutgoingTransfer
cancelled_out none = none
cancelled_out (some t) = some (record t { handle = record t.handle { cancelled = true } })

abbrev pub cancelled_in : Option IncomingTransfer → Option IncomingTransfer
cancelled_in none = none
cancelled_in (some t) = some (record t { handle = record t.handle { cancelled = true } })

outgoing-on_outgoing :
    (w : World) (m : Manager w) (id k : String)
    → lookup k (on_outgoing w Handle.cancel id m).outgoing_transfers ≡ (
        if str_eq id k
        then cancelled_out (lookup k m.outgoing_transfers)
        else lookup k m.outgoing_transfers)
unfolding on_outgoing Handle.cancel
outgoing-on_outgoing w m id k = elim (Option-cases (lookup id m.outgoing_transfers)) [
  | inl e ↦ rw (on_outgoing, e) (ground (arith, eq_iff id k, e))
  | inr (t, e) ↦
      rw (on_outgoing, e)
        (ground (
          arith,
          eq_iff id k,
          e,
          lookup-insert id k (record t { handle = record t.handle { cancelled = true } })
              m.outgoing_transfers,
        ))
]

incoming-on_incoming :
    (w : World) (m : Manager w) (id k : String)
    → lookup k (on_incoming w Handle.cancel id m).incoming_transfers ≡ (
        if str_eq id k
        then cancelled_in (lookup k m.incoming_transfers)
        else lookup k m.incoming_transfers)
unfolding on_incoming Handle.cancel
incoming-on_incoming w m id k = elim (Option-cases (lookup id m.incoming_transfers)) [
  | inl e ↦ rw (on_incoming, e) (ground (arith, eq_iff id k, e))
  | inr (t, e) ↦
      rw (on_incoming, e)
        (ground (
          arith,
          eq_iff id k,
          e,
          lookup-insert id k (record t { handle = record t.handle { cancelled = true } })
              m.incoming_transfers,
        ))
]

tables-on_incoming :
    (w : World) (m : Manager w) (id : String)
    → (on_incoming w Handle.cancel id m).outgoing_transfers ≡ m.outgoing_transfers
unfolding on_incoming
tables-on_incoming w m id = ground arith

tables-on_outgoing :
    (w : World) (m : Manager w) (id : String)
    → (on_outgoing w Handle.cancel id m).incoming_transfers ≡ m.incoming_transfers
unfolding on_outgoing
tables-on_outgoing w m id = ground arith

-- `cancel_transfer` cancels the handles of that transfer, sent or received, and touches no other
-- transfer's; this holds also if the message to the peer could not be sent.
pub cancel_transfer_lem :
    (w : World) (m : Manager w) (peer id k : String)
    → (lookup k (cancel_transfer w m peer id).0.outgoing_transfers ≡ (
        if str_eq id k
        then cancelled_out (lookup k m.outgoing_transfers)
        else lookup k m.outgoing_transfers))
      × (lookup k (cancel_transfer w m peer id).0.incoming_transfers ≡ (
          if str_eq id k
          then cancelled_in (lookup k m.incoming_transfers)
          else lookup k m.incoming_transfers))
unfolding cancel_transfer cancel_handles
cancel_transfer_lem w m peer id k =
    let sent =
      send_to-SameBut w (cancel_handles w m id) peer
        (file_transfer_cancelled id m.identity.device_id) in
    (
      ap (λ o. lookup k o) (sent.outgoing ∙ tables-on_incoming w _ id)
          ∙ outgoing-on_outgoing w m id k,
      ap (λ o. lookup k o) sent.incoming
          ∙ (incoming-on_incoming w _ id k ∙ rw (tables-on_outgoing w m id) refl),
    )
