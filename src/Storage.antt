-- ===== src/Storage.antt =====
-- core/src/storage.rs: the tables of the schema, with `foreign_keys` on. SQLite itself comes from a
-- crate: a statement does what SQL says, and fails where a primary or a foreign key forbids it; a
-- failing disk and a wrong database key are not modelled. `strftime('%s','now')` is an argument. The
-- casts between u64 and i64 keep the 64 bits, and times are below 2^63, so that their order is that
-- of the numbers.
pub mod Messages
pub mod Transfers
pub mod Devices
pub mod History
pub mod Manifest
use zao_p2p.Prelude.{ℕ, String, Bool, true, false, Option, none, some, List, [], ◌∷◌, str_eq}
use zao_p2p.Prelude.Bytes.{Bytes}
use zao_p2p.Identity.{StoredIdentity}

pub record DeviceRow : Type 0 where
  pub device_id : String
  pub display_name : String
  pub public_key : Bytes
  pub last_seen_at : ℕ
  pub trusted : Bool

pub record ConversationRow : Type 0 where
  pub conversation_id : String
  pub peer_device_id : String
  pub created_at : ℕ

-- A row of `messages`, and what `load_conversation_history` makes of one.
pub record StoredMessage : Type 0 where
  pub message_id : String
  pub conversation_id : String
  pub sender_device_id : String
  pub body : String
  pub msg_type : String
  pub sent_at : ℕ
  pub delivered_at : Option ℕ
  pub read_at : Option ℕ
  pub status : String

pub record TransferRow : Type 0 where
  pub transfer_id : String
  pub message_id : String
  pub file_name : String
  pub file_size : ℕ
  pub mime_type : String
  pub total_chunks : ℕ
  pub chunk_size : ℕ
  pub direction : String
  pub state : String
  pub bytes_transferred : ℕ
  pub local_path : String
  pub started_at : ℕ
  pub updated_at : ℕ

pub record ChunkRow : Type 0 where
  pub transfer_id : String
  pub chunk_index : ℕ
  pub acked : Bool

pub record Storage : Type 0 where
  pub self_identity : Option StoredIdentity
  pub devices : List DeviceRow
  pub conversations : List ConversationRow
  pub messages : List StoredMessage
  pub file_transfers : List TransferRow
  pub chunk_manifest : List ChunkRow

-- `CREATE TABLE IF NOT EXISTS` on a new file; on a file that is there it changes nothing.
unfoldable pub open_storage : Option Storage → Storage
open_storage none = record {
  self_identity = none;
  devices = [];
  conversations = [];
  messages = [];
  file_transfers = [];
  chunk_manifest = [];
}
open_storage (some db) = db

abbrev pub is_device : String → DeviceRow → Bool
is_device device_id r = str_eq r.device_id device_id

abbrev pub is_conversation : String → ConversationRow → Bool
is_conversation conversation_id r = str_eq r.conversation_id conversation_id

abbrev pub is_message : String → StoredMessage → Bool
is_message message_id r = str_eq r.message_id message_id

abbrev pub in_conversation : String → StoredMessage → Bool
in_conversation conversation_id r = str_eq r.conversation_id conversation_id

abbrev pub is_transfer : String → TransferRow → Bool
is_transfer transfer_id r = str_eq r.transfer_id transfer_id
