-- ===== src/Tests/Shells.antt =====
-- The relay, folders, and the functions that the shells call.

use zao_p2p.Prelude.{◌≡◌, refl, String, true, false, none, some, List, [], ◌∷◌, ◌++◌, str_eq, arith}
use zao_p2p.Prelude.Bytes.{Bytes}
use zao_p2p.CoreError.{Result, ok, err, db}
use zao_p2p.Protocol.{TextMessage, text, FolderFileEntry}
use zao_p2p.Identity.{DeviceIdentity, generate, noise_public}
use zao_p2p.Manager.Dispatch.{dispatch_incoming}
use zao_p2p.Manager.Dispatch.Stored.{messages-dispatch_incoming}
use zao_p2p.Manager.Folder.{Paths, FileType, collect_files_recursive, send_folder_decided}
use zao_p2p.Manager.Folder.Walk.{
  Folder, nothing, file_then, link_then, dir_then, all_files, listing, collect_files_recursive_lem,
}
use zao_p2p.Manager.Folder.Unstored.{send_folder_decided_unstored}
use zao_p2p.Ffi.{App, Session, reply, opened_storage, init_app, identity_info}
use zao_p2p.Ffi.Network.{new_manager}
use zao_p2p.Ffi.Chat.{send_text_message}
use zao_p2p.Ffi.Pending.{pending_row, send_text_message_stores}
use zao_p2p.Ffi.Mesh.{ble_seal_message, ble_open_message, ble_open_message-ble_seal_message}
use zao_p2p.Ffi.Starting.Lasting.{
  IdentityCall, initialise, get, start, AllShow, identity_calls, identity_lasts,
}
use zao_p2p.Tests.Concrete
use zao_p2p.Tests.Concrete.{zeros}
use zao_p2p.Tests.Mesh
use zao_p2p.Identity.{to_stored}
use zao_p2p.Storage.Devices.{load_identity}

-- A folder with a file, a link, and a folder with a file.
abbrev tree : Folder
tree = file_then "d/a" (link_then "d/l" (dir_then "d/e" (file_then "d/e/b" nothing) nothing))

abbrev read_dir : String → Result (List (String × FileType))
read_dir p = elim (str_eq p "d") [
  | true ↦ ok (listing tree)
  | false ↦ ok (listing (file_then "d/e/b" nothing))
]

collect_files_recursive_lem_example :
    collect_files_recursive read_dir 2 "d" ≡ some (ok (all_files tree))
collect_files_recursive_lem_example =
    collect_files_recursive_lem read_dir 2 "d" tree refl (refl, (tt, tt)) (omega arith)

abbrev paths : Paths
paths = record {
  file_name = λ p. some p;
  strip_prefix = λ p root. none;
  lower_extension = λ p. "";
  replace = λ p. p;
}

abbrev entry : FolderFileEntry
entry = record { relative_path = "a"; file_size = 3; mime_type = "text/plain" }

send_folder_decided_unstored_example :
    (send_folder_decided Concrete.world Concrete.manager paths "peer" "c" "b"
      ("d/a" ∷ [])
      (entry ∷ [])
      (some true)
      (λ i. ("t", "new"))
      5
      1).0.storage
    ≡ Concrete.manager.storage
unfolding zao_p2p.Sql.exists
send_folder_decided_unstored_example =
    send_folder_decided_unstored Concrete.world Concrete.manager paths "peer" "c" "b" ("d/a" ∷ [])
      (entry ∷ []) (some true) (λ i. ("t", "new")) 5 1 (λ i. refl)

abbrev hello : TextMessage
hello = record { message_id = "m"; conversation_id = "peer"; body = "hello"; sent_at_unix = 1 }

messages-dispatch_incoming_example :
    (dispatch_incoming Concrete.world Concrete.manager "peer" (text hello) 5 1).storage.messages
    ≡ Concrete.manager.storage.messages
messages-dispatch_incoming_example =
    messages-dispatch_incoming Concrete.world Concrete.manager "peer" (text hello) 5 1

abbrev pub nonce : Bytes
nonce = 0 ∷ 0 ∷ 0 ∷ 0 ∷ 0 ∷ 0 ∷ 0 ∷ 0 ∷ 0 ∷ 0 ∷ 0 ∷ 0 ∷ []

-- A device with an identity, and no session.
abbrev pub app : App Mesh.world
app = record {
  database = some (record Concrete.manager.storage {
    self_identity = some (to_stored Mesh.crypto (generate Mesh.crypto []));
  });
  session = none;
}

pub opening :
    load_identity Mesh.crypto (opened_storage Mesh.world Mesh.texts app)
    ≡ ok (some (generate Mesh.crypto []))
unfolding load_identity opened_storage zao_p2p.Identity.from_stored to_stored generate
opening = refl

-- What `ble_seal_message` makes of "hi".
abbrev pub sealed_hex : String
sealed_hex = Mesh.hex_encode (zeros ++ (nonce ++ (7 ∷ [])))

ble_open_message-ble_seal_message_example :
    (ble_open_message Mesh.world Mesh.texts app sealed_hex).1 ≡ reply "hi"
unfolding ble_seal_message noise_public
ble_open_message-ble_seal_message_example =
    ble_open_message-ble_seal_message Mesh.world Mesh.texts app (generate Mesh.crypto []) [] nonce
      "hi" sealed_hex opening refl refl refl

abbrev empty_app : App Mesh.world
empty_app = record { database = none; session = none }

-- A start that fails, `init_app` with another key, and `get_identity`.
abbrev later_calls : List (IdentityCall Mesh.world)
later_calls = start (4 ∷ []) "d/" [] (ok tt) (err db) (ok tt) ∷ (initialise (5 ∷ []) ∷ (get ∷ []))

identity_lasts_example :
    ((init_app Mesh.world Mesh.texts empty_app (3 ∷ [])).1
      ≡ reply (identity_info Mesh.world Mesh.texts (generate Mesh.crypto (3 ∷ []))))
    × AllShow Mesh.world Mesh.texts (generate Mesh.crypto (3 ∷ [])) (
        identity_calls Mesh.world Mesh.texts
          (init_app Mesh.world Mesh.texts empty_app (3 ∷ [])).0
          later_calls)
unfolding opened_storage
identity_lasts_example = identity_lasts Mesh.world Mesh.texts empty_app (3 ∷ []) later_calls refl

-- A session that knows a device with which it is not connected.
abbrev running : Session Mesh.world
running = record {
  discovery = [];
  connection_manager =
      new_manager Mesh.world Mesh.texts (generate Mesh.crypto []) "" "d/"
        (record Concrete.manager.storage {
          devices =
              record {
                device_id = "peer";
                display_name = "peer";
                public_key = zeros;
                last_seen_at = 0;
                trusted = true;
              }
              ∷ [];
        })
        [];
}

abbrev running_app : App Mesh.world
running_app = record { database = none; session = some running }

send_text_message_stores_example :
    (opened_storage Mesh.world Mesh.texts
      (send_text_message Mesh.world Mesh.texts running_app "peer" "hello" "m" 1).0).messages
    ≡ pending_row "peer" "hello" "m" 1 ∷ []
unfolding zao_p2p.Sql.exists new_manager
send_text_message_stores_example =
    send_text_message_stores Mesh.world Mesh.texts running_app running "peer" "hello" "m" 1 refl
      refl refl
