-- ===== src/Protocol.antt =====
-- core/src/protocol.rs: the messages that two devices exchange. Their JSON form comes from serde.
use zao_p2p.Prelude.{ℕ, ◌≡◌, String, Bool, Option, List}
use zao_p2p.Prelude.Bytes.{Bytes}
use zao_p2p.CoreError.{Result, ok}

pub record TextMessage : Type 0 where
  pub message_id : String
  pub conversation_id : String
  pub body : String
  pub sent_at_unix : ℕ

pub record FolderFileEntry : Type 0 where
  pub relative_path : String
  pub file_size : ℕ
  pub mime_type : String

pub record FolderOffer : Type 0 where
  pub folder_batch_id : String
  pub conversation_id : String
  pub folder_name : String
  pub total_files : ℕ
  pub total_size : ℕ
  pub files : List FolderFileEntry

pub record FileOffer : Type 0 where
  pub transfer_id : String
  pub message_id : String
  pub conversation_id : String
  pub file_name : String
  pub file_size : ℕ
  pub mime_type : String
  pub total_chunks : ℕ
  pub chunk_size : ℕ
  pub relative_path : String
  pub folder_batch_id : Option String

pub record FileChunkMessage : Type 0 where
  pub transfer_id : String
  pub chunk_index : ℕ
  pub payload : Bytes
  pub checksum_sha256 : Bytes

pub data ProtocolMessage : Type 0 where
  text : TextMessage → ProtocolMessage
  file_offer : FileOffer → ProtocolMessage
  -- the id of the transfer, and why it was rejected
  file_accept : String → ProtocolMessage
  file_reject : String → String → ProtocolMessage
  folder_offer : FolderOffer → ProtocolMessage
  folder_accept : String → ProtocolMessage
  folder_reject : String → String → ProtocolMessage
  file_chunk : FileChunkMessage → ProtocolMessage
  file_chunk_ack : String → ℕ → ProtocolMessage
  file_transfer_complete : String → ProtocolMessage
  -- the id of the transfer, and the device that cancelled it
  file_transfer_cancelled : String → String → ProtocolMessage
  typing_indicator : String → Bool → ProtocolMessage
  read_receipt : String → ℕ → ProtocolMessage
  delivery_ack : String → ℕ → ProtocolMessage
  presence : Bool → ℕ → ProtocolMessage
  ping pong : ProtocolMessage

-- `encode_plaintext` and `decode_plaintext`; serde reads back what it wrote.
pub record Codec : Type 0 where
  pub encode_plaintext : ProtocolMessage → Result Bytes
  pub decode_plaintext : Bytes → Result ProtocolMessage
  pub decode-encode :
      (m : ProtocolMessage) (bytes : Bytes)
      → encode_plaintext m ≡ ok bytes
      → decode_plaintext bytes ≡ ok m
