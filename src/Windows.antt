-- ===== src/Windows.antt =====
-- windows/src-tauri/src/main.rs: the Windows shell. Its commands hand on to the core what the window
-- sends; three of them open the database, with a key that the shell keeps in the file `zao.key`. Its
-- directories are taken to be there; `trim` and what the key of a database opens are other code's.
pub mod Commands
pub mod Calls
pub mod Invoke
pub mod Opened
pub mod Database
use zao_p2p.Prelude.{ℕ, String, Bool, true, false, Option, none, some, if◌then◌else◌, str_eq}
use zao_p2p.Prelude.Bytes.{Bytes}
use zao_p2p.CoreError.{Result, db}
use zao_p2p.Transfer.Files.{Disk}
use zao_p2p.Manager.{World}
use zao_p2p.Ffi.{
  App, Reply, reply, failure, Texts, StartReply, IdentityInfo, init_app, get_identity,
}
use zao_p2p.Ffi.Network.{start_networking}

-- What `fs::write` did: `failed` has the content that it left in the file.
pub data Write : Type 0 where
  persisted : Write
  failed : Option String → Write

-- A command returns, or stops at an `expect`.
pub data Outcome {ℓ} (A : Type ℓ) : Type ℓ where
  returned : Reply A → Outcome A
  panicked : Outcome A

-- What the shell relies on. `opens` is whether a database that was made with the first key opens
-- with the second.
pub record Shelled (hex_encode : Bytes → String) : Type 0 where
  pub trim : String → String
  pub opens : String → String → Bool

module _ (w : World) where
  -- `zao_key` is what can be read of the file, and `made_with` the key of the database, if there
  -- is one.
  pub record Shell : Type 0 where
    pub app : App w
    pub zao_key : Option String
    pub made_with : Option String

unfoldable pub map_reply {ℓ} : {A : Type ℓ} → (A → String) → Reply A → Reply String
map_reply to_json (reply a) = reply (to_json a)
map_reply to_json (failure e) = failure e

module _ (w : World) where
  -- A call of the core that opens nothing.
  unfoldable pub forward {ℓ} :
      {A : Type ℓ} → Shell w → (A → String) → App w × Reply A → Shell w × Outcome String
  unfolding map_reply
  forward sh to_json (a, r) = (record sh { app = a }, returned (map_reply to_json r))

module _ (w : World) (texts : Texts w.crypto.hex_encode)
    (system : Shelled w.crypto.hex_encode) where
  -- The key in the file, if it is more than white space.
  unfoldable pub existing_key : Option String → Option String
  existing_key none = none
  existing_key (some existing) =
      if str_eq (system.trim existing) "" then none else some (system.trim existing)

  -- The key, and the file after it; with no key the shell has stopped. `bytes` are drawn.
  unfoldable pub get_or_create_db_key :
      Option String → Bytes → Write → Option String × Option String
  unfolding existing_key
  get_or_create_db_key file bytes write = elim (existing_key file) [
    | some key ↦ (some key, file)
    | none ↦ elim write [
      | persisted ↦ (some (w.crypto.hex_encode bytes), some (w.crypto.hex_encode bytes))
      | failed left ↦ (none, left)
    ]
  ]

  -- Whether `Storage::open` takes the key.
  unfoldable pub unlocks : Option String → String → Bool
  unlocks none key = true
  unlocks (some made_with) key = system.opens made_with key

  abbrev keep : Option String → String → Option String
  keep none key = some key
  keep (some made_with) key = some made_with

  -- A call of the core that opens the database with the key.
  unfoldable pub open_with {ℓ} :
      {A : Type ℓ}
      → Shell w
      → String
      → (A → String)
      → (App w → App w × Reply A)
      → Shell w × Outcome String
  unfolding unlocks map_reply
  open_with sh key to_json f =
      if unlocks sh.made_with key
      then (let (a, r) = f sh.app in
          (
            record sh { app = a; made_with = keep sh.made_with key },
            returned (map_reply to_json r),
          ))
      else (sh, returned (failure (texts.to_text db)))

  -- With the key that there is, or a new one.
  unfoldable pub with_key :
      Shell w
      → Bytes
      → Write
      → (Shell w → String → Shell w × Outcome String)
      → Shell w × Outcome String
  unfolding get_or_create_db_key
  with_key sh bytes write f =
      let (key, file) = get_or_create_db_key sh.zao_key bytes write in
      elim key [
        | none ↦ (record sh { zao_key = file }, panicked)
        | some k ↦ f (record sh { zao_key = file }) k
      ]

  unfoldable pub init_app_cmd :
      (IdentityInfo → String)
      → Shell w
      → Bytes
      → Write
      → w.crypto.SigningKey
      → Shell w × Outcome String
  unfolding with_key open_with init_app
  init_app_cmd to_json sh bytes write drawn =
      with_key sh bytes write (λ s key. open_with s key to_json (λ a. init_app w texts a drawn))

  unfoldable pub get_identity_cmd :
      (IdentityInfo → String) → Shell w → Bytes → Write → Shell w × Outcome String
  unfolding with_key open_with get_identity
  get_identity_cmd to_json sh bytes write =
      with_key sh bytes write (λ s key. open_with s key to_json (λ a. get_identity w texts a))

  -- A session that runs already opens nothing. `made`, `bound` and `discovering` are what the
  -- directory, the transport and the discovery make of the start.
  unfoldable pub start_networking_cmd :
      (StartReply → String)
      → Shell w
      → Bytes
      → Write
      → w.crypto.SigningKey
      → String
      → Disk
      → Result (Unit {0})
      → Result (String × ℕ)
      → Result (Unit {0})
      → Shell w × Outcome String
  unfolding with_key open_with forward start_networking
  start_networking_cmd to_json sh bytes write drawn downloads_dir disk made bound discovering =
      let start =
        λ (a : App w). start_networking w texts a drawn downloads_dir disk made bound discovering in
      with_key sh bytes write (λ s key. elim s.app.session [
        | none ↦ open_with s key to_json start
        | some running ↦ forward w s to_json (start s.app)
      ])
