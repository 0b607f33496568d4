-- ===== src/Tests/Answers.antt =====
-- The answers of the shells, and a start that is tried again.
use Prim.Native.Nat.{ℕ, zero, suc}
use Prim.Native.String.compare
use Prim.Native.String.{String}
use zao_p2p.Prelude.{◌≡◌, refl, false, none, some, List, length, str_eq, eq_refl, arith}
use zao_p2p.Prelude.Bytes.{Bytes}
use zao_p2p.CoreError.{ok, err, db}
use zao_p2p.Identity.{generate}
use zao_p2p.Transport.{Quinn, QuicTransport, bind, bound_at}
use zao_p2p.Ffi.{App, Texts, reply, failure}
use zao_p2p.Ffi.{started}
use zao_p2p.Ffi.Network.{start_networking}
use zao_p2p.Ffi.Starting.{start_networking_retry}
use zao_p2p.Ffi.NativeBridge.{answer_text, error_json, replace_quotes}
use zao_p2p.Ffi.NativeBridge.Replies.{read_error, read_error-error_json}
use zao_p2p.Ffi.NativeBridge.Disguise.{ble_open_message-error_json}
use zao_p2p.Windows.{Shelled, persisted, failed}
use zao_p2p.Windows.Calls.{Json, Call, init_app_call, get_identity_call}
use zao_p2p.Windows.Invoke.{invoke_all, shell, Answers}
use zao_p2p.Windows.Database.{invoke_all-Answers}
use zao_p2p.Tests.Concrete.{zeros}
use zao_p2p.Tests.Mesh
use zao_p2p.Tests.Shells
use zao_p2p.Ffi.NativeBridge.Calls
use zao_p2p.Ffi.Mesh.{ble_seal_message}
use zao_p2p.Identity.{noise_public}

read_error-error_json_example :
    read_error (error_json "no \"x\"") ≡ some (replace_quotes "no \"x\"")
read_error-error_json_example = read_error-error_json "no \"x\"" (omega arith)

abbrev system : Shelled Mesh.crypto.hex_encode
system = record { trim = λ t. t; opens = λ made key. str_eq made key }

encode_some : (bytes : Bytes) → length bytes ≡ 32 → str_eq (Mesh.crypto.hex_encode bytes) "" ≡ false
encode_some List.[] size = absurd (omega (arith, size))
encode_some (List.◌∷◌ zero bytes) size =
    rw (compare.cons-nil Mesh.stop (Mesh.crypto.hex_encode bytes)) refl
encode_some (List.◌∷◌ (suc b) bytes) size =
    rw (compare.cons-nil Mesh.mark (Mesh.marks b (Mesh.crypto.hex_encode bytes))) refl

abbrev json : Json Mesh.world
json = record {
  identity = λ i. i.device_id;
  start = λ s. "started";
  peers = λ p. "peers";
  status = λ s. "status";
  events = λ e. "events";
  messages = λ m. "messages";
  names = λ n. "names";
  transfer = λ t. t.transfer_id;
  offered = λ o. o.transfer_id;
  results = λ r. "results";
  named = λ name value. value;
}

abbrev empty_app : App Mesh.world
empty_app = record { database = none; session = none }

abbrev calls : List (Call Mesh.world)
calls =
    List.◌∷◌ (init_app_call zeros (failed none) List.[])
      (List.◌∷◌ (init_app_call zeros persisted List.[]) List.[])

invoke_all-Answers_example :
    Answers Mesh.world Mesh.texts json system
      (invoke_all Mesh.world Mesh.texts json system (shell Mesh.world empty_app none none) calls)
      (get_identity_call zeros persisted)
invoke_all-Answers_example =
    invoke_all-Answers Mesh.world Mesh.texts json system (λ bytes. refl) encode_some
      (λ key. eq_refl key) empty_app none calls (get_identity_call zeros persisted)
      (refl, (refl, tt)) refl

-- A reader of UTF-8 that finds the text of a failure.
abbrev texts : Texts Mesh.world.crypto.hex_encode
texts = record Mesh.texts { from_utf8 = λ b. some (error_json "bad") }

ble_open_message-error_json_example :
    (Calls.ble_open_message Mesh.world texts Shells.app Shells.sealed_hex).1
    ≡ answer_text (λ (plaintext : String). plaintext) (failure "bad")
unfolding ble_seal_message noise_public error_json zao_p2p.Ffi.opened_storage
ble_open_message-error_json_example =
    ble_open_message-error_json Mesh.world texts Shells.app (generate Mesh.crypto List.[]) List.[]
      Shells.nonce "bad" Shells.sealed_hex Shells.opening refl refl refl

-- An endpoint is its port, and so is an address.
abbrev quinn : Quinn
quinn = record {
  SocketAddr = ℕ;
  Endpoint = ℕ;
  Connecting = ℕ;
  Incoming = ℕ;
  Connection = ℕ;
  CertifiedKey = Bytes;
  Certificate = Bytes;
  PrivateKey = Bytes;
  Signature = Bytes;
  ServerConfig = Bytes;
  QuicClientConfig = ℕ;
  parse_addr = λ t. some 7;
  addr_text = λ a. "0.0.0.0:7";
  port = λ a. a;
  generate_simple_self_signed = λ names. some zeros;
  cert = λ k. k;
  der = λ c. c;
  serialize_der = λ k. k;
  private_key = λ b. some b;
  with_single_cert = λ chain key. some key;
  client_config = λ verifier alpn. some 0;
  server = λ config a. some a;
  set_default_client_config = λ e c. e;
  local_addr = λ e. some e;
  connect = λ e a name. some a;
  connected = λ c. some c;
  accept = λ e. none;
  accepted = λ i. some i;
  open_bi = λ c. some zeros;
  accept_bi = λ c. some zeros;
}

abbrev endpoint : QuicTransport quinn
endpoint = record { endpoint = 7; local_addr = 7 }

start_networking_retry_example :
    ((start_networking Mesh.world Mesh.texts empty_app
        (List.◌∷◌ 3 List.[])
        "d/"
        List.[]
        (ok tt)
        (bound_at quinn (err db))
        (ok tt)).0.session
      ≡ none)
    × (((start_networking Mesh.world Mesh.texts empty_app
            (List.◌∷◌ 3 List.[])
            "d/"
            List.[]
            (ok tt)
            (bound_at quinn (err db))
            (ok tt)).1
          ≡ failure "error")
        × ((start_networking Mesh.world Mesh.texts
              (start_networking Mesh.world Mesh.texts empty_app
                (List.◌∷◌ 3 List.[])
                "d/"
                List.[]
                (ok tt)
                (bound_at quinn (err db))
                (ok tt)).0
              (List.◌∷◌ 4 List.[])
              "d/"
              List.[]
              (ok tt)
              (bound_at quinn (bind quinn "0.0.0.0:0"))
              (ok tt)).1
            ≡ reply (
                started (record {
                  quic_port = 7;
                  device_id = (generate Mesh.crypto (List.◌∷◌ 3 List.[])).device_id;
                }))))
unfolding zao_p2p.Storage.open_storage bound_at bind
start_networking_retry_example =
    start_networking_retry Mesh.world Mesh.texts quinn none (List.◌∷◌ 3 List.[])
      (List.◌∷◌ 4 List.[]) "d/" List.[] (err db) (ok tt) db endpoint refl refl refl
