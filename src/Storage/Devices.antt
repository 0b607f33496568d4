-- ===== src/Storage/Devices.antt =====
-- This device's identity, and the devices it knows.
use zao_p2p.Prelude.{ℕ, ◌≡◌, String, Bool, Option, none, some, [], ◌∷◌, ◌++◌, if◌then◌else◌}
use zao_p2p.Prelude.Bytes.{Bytes}
use zao_p2p.CoreError.{Result, ok, ◌>>=◌}
use zao_p2p.Identity.{Crypto, DeviceIdentity, generate, to_stored, from_stored}
use zao_p2p.Identity.Laws.{from_stored-to_stored}
use zao_p2p.Sql.{find, exists, update}
use zao_p2p.Storage.{Storage, is_device}

module _ (c : Crypto) where
  unfoldable pub load_identity : Storage → Result (Option (DeviceIdentity c))
  load_identity s = elim s.self_identity [
    | none ↦ ok none
    | some stored ↦ from_stored c stored >>= λ id. ok (some id)
  ]

  unfoldable pub save_identity : Storage → DeviceIdentity c → Storage
  save_identity s id = record s { self_identity = some (to_stored c id) }

  keep_or_create : Storage → c.SigningKey → Option (DeviceIdentity c) → DeviceIdentity c × Storage
  unfolding save_identity
  keep_or_create s drawn none = (generate c drawn, save_identity s (generate c drawn))
  keep_or_create s drawn (some existing) = (existing, s)

  -- The drawn key is used only where there is no identity yet.
  unfoldable pub load_or_create_identity :
      Storage → c.SigningKey → Result (DeviceIdentity c × Storage)
  unfolding load_identity keep_or_create
  load_or_create_identity s drawn = do
    existing ← load_identity s
    ok (keep_or_create s drawn existing)

  -- After the first start every start loads the identity that it made, whatever key is drawn.
  pub load_or_create_identity_again :
      (s : Storage) (first later : c.SigningKey)
      → s.self_identity ≡ none
      → (load_or_create_identity s first >>= λ r. load_or_create_identity r.1 later)
        ≡ load_or_create_identity s first
  unfolding load_or_create_identity
  load_or_create_identity_again s first later h = rw (h, from_stored-to_stored c first)

-- A known device keeps its key and its trust; a new one is added.
unfoldable pub upsert_known_device : Storage → String → String → Bytes → Bool → ℕ → Storage
upsert_known_device s device_id display_name public_key trusted now =
    if exists (is_device device_id) s.devices
    then record s {
      devices =
          update (is_device device_id)
            (λ r. record r { display_name = display_name; last_seen_at = now }) s.devices;
    }
    else record s {
      devices =
          s.devices
          ++ (record {
            device_id = device_id;
            display_name = display_name;
            public_key = public_key;
            last_seen_at = now;
            trusted = trusted;
          }
              ∷ []);
    }

unfoldable pub load_device_public_key : Storage → String → Option Bytes
load_device_public_key s device_id = elim (find (is_device device_id) s.devices) [
  | none ↦ none
  | some r ↦ some r.public_key
]
