-- ===== src/Ffi/Starting/Lasting.antt =====
-- The identity of a device over any sequence of the calls of core/src/ffi.rs that read or make it.
use zao_p2p.Prelude.{ℕ, ◌≡◌, refl, String, none, some, inl, inr, List, [], ◌∷◌, Option-cases}
use zao_p2p.CoreError.{Result, Result-cases, ok, ◌>>=◌}
use zao_p2p.Identity.{DeviceIdentity, generate}
use zao_p2p.Storage.{Storage}
use zao_p2p.Storage.Devices.{load_identity, load_or_create_identity, save_identity}
use zao_p2p.Transfer.Files.{Disk}
use zao_p2p.Manager.{World}
use zao_p2p.Ffi.{
  App, Reply, reply, failure, StartReply, started, already_started, IdentityInfo, Texts,
  opened_storage, store, identity_info, init_app, get_identity,
}
use zao_p2p.Ffi.Network.{start_session, start_networking, new_manager}
use zao_p2p.Ffi.Starting.{opened-store, load_first, init_first}

-- A call with the key that it draws, if it needs one; a start with its directory, the files there,
-- and what the making of the directory, the transport and the discovery give.
pub data IdentityCall (w : World) : Type 0 where
  initialise : w.crypto.SigningKey → IdentityCall w
  get : IdentityCall w
  start :
      w.crypto.SigningKey
      → String
      → Disk
      → Result (Unit {0})
      → Result (String × ℕ)
      → Result (Unit {0})
      → IdentityCall w

pub data Answered : Type 0 where
  identity : Reply IdentityInfo → Answered
  networking : Reply StartReply → Answered

module _ (w : World) (texts : Texts w.crypto.hex_encode) where
  unfoldable pub identity_call : App w → IdentityCall w → App w × Answered
  identity_call a (initialise drawn) =
      ((init_app w texts a drawn).0, identity (init_app w texts a drawn).1)
  identity_call a get = ((get_identity w texts a).0, identity (get_identity w texts a).1)
  identity_call a (start drawn downloads_dir disk made bound discovering) =
      let r = start_networking w texts a drawn downloads_dir disk made bound discovering in
      (r.0, networking r.1)

  unfoldable pub identity_calls : App w → List (IdentityCall w) → List Answered
  unfolding identity_call init_app load_identity get_identity start_networking
  identity_calls a [] = []
  identity_calls a (c ∷ cs) = (identity_call a c).1 ∷ identity_calls (identity_call a c).0 cs

  -- An answer that shows an identity shows this one, and a call for the identity shows it.
  abbrev pub ShowsIdentity : DeviceIdentity w.crypto → Answered → Type 0
  ShowsIdentity id (identity r) = r ≡ reply (identity_info w texts id)
  ShowsIdentity id (networking (reply (started s))) = s.device_id ≡ id.device_id
  ShowsIdentity id (networking (reply already_started)) = Unit
  ShowsIdentity id (networking (failure t)) = Unit

  abbrev pub AllShow : DeviceIdentity w.crypto → List Answered → Type 0
  AllShow id [] = Unit
  AllShow id (r ∷ rs) = ShowsIdentity id r × AllShow id rs

  -- The database has this identity.
  abbrev Keeps : DeviceIdentity w.crypto → Storage → Type 0
  Keeps id s = load_identity w.crypto s ≡ ok (some id)

  loads :
      (id : DeviceIdentity w.crypto) (s : Storage) (drawn : w.crypto.SigningKey)
      → Keeps id s
      → load_or_create_identity w.crypto s drawn ≡ ok (id, s)
  unfolding load_or_create_identity
  loads id s drawn kept = rw (load_or_create_identity, kept) refl

  start_session-Keeps :
      (id : DeviceIdentity w.crypto) (a : App w) (s : Storage) (downloads_dir : String)
      (disk : Disk) (made : Result (Unit {0})) (bound : Result (String × ℕ))
      (discovering : Result (Unit {0}))
      → Keeps id s
      → let r = start_session w texts a downloads_dir disk made bound discovering id s in
        Keeps id (opened_storage w texts r.0) × ShowsIdentity id (networking r.1)
  unfolding start_session new_manager opened_storage
  start_session-Keeps id a s downloads_dir disk made bound discovering kept =
      elim (Result-cases (made >>= λ u. (bound >>= λ b. (discovering >>= λ v. ok b)))) [
        | inl ((addr, port), e) ↦ rw (start_session, e) (kept, refl)
        | inr (er, e) ↦ rw (start_session, e, opened-store w texts a s) (kept, tt)
      ]

  identity_call-Keeps :
      (id : DeviceIdentity w.crypto) (a : App w) (c : IdentityCall w)
      → Keeps id (opened_storage w texts a)
      → Keeps id (opened_storage w texts (identity_call a c).0)
        × ShowsIdentity id (identity_call a c).1
  unfolding identity_call init_app load_identity get_identity start_networking
  identity_call-Keeps id a (initialise drawn) kept =
      rw
        (
          init_app,
          loads id (opened_storage w texts a) drawn kept,
          opened-store w texts a (opened_storage w texts a),
        )
        (kept, refl)
  identity_call-Keeps id a get kept =
      rw (get_identity, kept, opened-store w texts a (opened_storage w texts a)) (kept, refl)
  identity_call-Keeps id a (start drawn downloads_dir disk made bound discovering) kept =
      elim (Option-cases a.session) [
        | inr (s, e) ↦ rw (start_networking, e) (kept, tt)
        | inl e ↦
            rw (start_networking, e, loads id (opened_storage w texts a) drawn kept)
              (start_session-Keeps id a (opened_storage w texts a) downloads_dir disk made bound
                discovering kept)
      ]

  identity_calls-AllShow :
      (id : DeviceIdentity w.crypto) (cs : List (IdentityCall w)) (a : App w)
      → Keeps id (opened_storage w texts a)
      → AllShow id (identity_calls a cs)
  unfolding identity_calls
  identity_calls-AllShow id [] a kept = tt
  identity_calls-AllShow id (c ∷ cs) a kept =
      let (kept', shown) = identity_call-Keeps id a c kept in
      (shown, identity_calls-AllShow id cs (identity_call a c).0 kept')

  -- A device with no identity gets one from `init_app`, in a session or not. In any sequence of
  -- calls of `init_app`, `get_identity` and `start_networking` after it, whatever keys they draw and
  -- whether the starts fail or not, each `init_app` and `get_identity` gives that identity, and each
  -- start that answers with an id gives its id.
  pub identity_lasts :
      (a : App w) (first : w.crypto.SigningKey) (cs : List (IdentityCall w))
      → (opened_storage w texts a).self_identity ≡ none
      → ((init_app w texts a first).1 ≡ reply (identity_info w texts (generate w.crypto first)))
        × AllShow (generate w.crypto first) (identity_calls (init_app w texts a first).0 cs)
  identity_lasts a first cs none_yet =
      let s = opened_storage w texts a in
      let kept = save_identity w.crypto s (generate w.crypto first) in
      rw (init_first w texts a first none_yet) (
        refl,
        identity_calls-AllShow (generate w.crypto first) cs (store w texts a kept)
            (rw (opened-store w texts a kept) (load_first w texts s first)),
      )
