-- ===== src/Storage/Transfers.antt =====
-- File transfers and their chunk manifest.
use zao_p2p.Prelude.{
  ℕ, String, Bool, true, ◌&&◌, ◌||◌, Option, none, some, List, [], ◌∷◌, ◌++◌, if◌then◌else◌, str_eq,
  ◌==◌,
}
use zao_p2p.CoreError.{Result, ok, err, db}
use zao_p2p.Sql.{find, exists, select, update}
use zao_p2p.Storage.{Storage, StoredMessage, TransferRow, ChunkRow, is_message, is_transfer}

unfoldable pub create_transfer :
    Storage → String → String → String → ℕ → String → ℕ → ℕ → String → String → ℕ → Result Storage
create_transfer s transfer_id message_id file_name file_size mime_type total_chunks chunk_size
      direction local_path now =
    if exists (is_transfer transfer_id) s.file_transfers
    then err db
    else if exists (is_message message_id) s.messages
    then ok (record s {
      file_transfers =
          s.file_transfers
          ++ (record {
            transfer_id = transfer_id;
            message_id = message_id;
            file_name = file_name;
            file_size = file_size;
            mime_type = mime_type;
            total_chunks = total_chunks;
            chunk_size = chunk_size;
            direction = direction;
            state = "queued";
            bytes_transferred = 0;
            local_path = local_path;
            started_at = now;
            updated_at = now;
          }
              ∷ []);
    })
    else err db

unfoldable pub update_transfer_state : Storage → String → String → ℕ → ℕ → Storage
update_transfer_state s transfer_id state bytes_transferred now = record s {
  file_transfers =
      update (is_transfer transfer_id)
        (λ r. record r { state = state; bytes_transferred = bytes_transferred; updated_at = now })
        s.file_transfers;
}

abbrev pub is_chunk : String → ℕ → ChunkRow → Bool
is_chunk transfer_id chunk_index r =
    str_eq r.transfer_id transfer_id && r.chunk_index == chunk_index

-- A row that is there is set to acked; a new one needs the row of its transfer.
unfoldable pub mark_chunk_acked : Storage → String → ℕ → Result Storage
mark_chunk_acked s transfer_id chunk_index =
    if exists (is_chunk transfer_id chunk_index) s.chunk_manifest
    then ok (record s {
      chunk_manifest =
          update (is_chunk transfer_id chunk_index) (λ r. record r { acked = true })
            s.chunk_manifest;
    })
    else if exists (is_transfer transfer_id) s.file_transfers
    then ok (record s {
      chunk_manifest =
          s.chunk_manifest
          ++ (record { transfer_id = transfer_id; chunk_index = chunk_index; acked = true } ∷ []);
    })
    else err db

-- The primary key makes the indices of one transfer distinct: the list is a set.
unfoldable pub acked_indices : String → List ChunkRow → List ℕ
acked_indices transfer_id [] = []
acked_indices transfer_id (r ∷ rows) =
    let rest = acked_indices transfer_id rows in
    if str_eq r.transfer_id transfer_id && r.acked then r.chunk_index ∷ rest else rest

unfoldable pub load_acked_chunks : Storage → String → List ℕ
unfolding acked_indices
load_acked_chunks s transfer_id = acked_indices transfer_id s.chunk_manifest

unfoldable pub load_transfer_meta : Storage → String → Option (String × ℕ × String)
load_transfer_meta s transfer_id = elim (find (is_transfer transfer_id) s.file_transfers) [
  | none ↦ none
  | some r ↦ some (r.file_name, r.file_size, r.local_path)
]

unfoldable pub is_resumable : TransferRow → Bool
is_resumable r = str_eq r.state "active" || str_eq r.state "paused" || str_eq r.state "queued"

-- The join: each transfer with the message of its id, if that is there.
resumable_rows : List StoredMessage → List TransferRow → List (String × String × String × String)
resumable_rows messages [] = []
resumable_rows messages (r ∷ rows) =
    let rest = resumable_rows messages rows in
    if is_resumable r
    then elim (find (is_message r.message_id) messages) [
      | none ↦ rest
      | some m ↦ (r.transfer_id, m.conversation_id, r.direction, r.local_path) ∷ rest
    ]
    else rest

unfoldable pub list_resumable_transfers_with_peer :
    Storage → List (String × String × String × String)
unfolding resumable_rows
list_resumable_transfers_with_peer s = resumable_rows s.messages s.file_transfers

transfer_ids : List TransferRow → List String
transfer_ids [] = []
transfer_ids (r ∷ rows) = r.transfer_id ∷ transfer_ids rows

unfoldable pub list_resumable_transfers : Storage → List String
unfolding transfer_ids is_resumable
list_resumable_transfers s = transfer_ids (select is_resumable s.file_transfers)
