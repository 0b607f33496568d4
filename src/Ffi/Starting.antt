-- ===== src/Ffi/Starting.antt =====
-- The identity of a device, from its first start on.
pub mod Lasting
use zao_p2p.Prelude.{ℕ, ◌≡◌, refl, String, Option, none, some, arith}
use zao_p2p.CoreError.{CoreError, Result, ok, err, ◌>>=◌}
use zao_p2p.Identity.{generate}
use zao_p2p.Identity.Laws.{from_stored-to_stored}
use zao_p2p.Storage.{Storage, open_storage}
use zao_p2p.Storage.Devices.{load_identity, load_or_create_identity, save_identity}
use zao_p2p.Transfer.Files.{Disk}
use zao_p2p.Transport.{Quinn, QuicTransport, bind, bound_at}
use zao_p2p.Manager.{World}
use zao_p2p.Ffi.{
  App, reply, failure, started, Texts, opened_storage, store, identity_info, init_app, get_identity,
}
use zao_p2p.Ffi.Network.{start_session, start_networking}

module _ (w : World) (texts : Texts w.crypto.hex_encode) where
  pub opened-store : (a : App w) (s : Storage) → opened_storage w texts (store w texts a s) ≡ s
  unfolding opened_storage store open_storage
  opened-store a s = ground arith

  pub load_first :
      (s : Storage) (first : w.crypto.SigningKey)
      → load_identity w.crypto (save_identity w.crypto s (generate w.crypto first))
        ≡ ok (some (generate w.crypto first))
  unfolding load_identity save_identity
  load_first s first = rw (from_stored-to_stored w.crypto first) refl

  create_first :
      (s : Storage) (first : w.crypto.SigningKey)
      → s.self_identity ≡ none
      → load_or_create_identity w.crypto s first
        ≡ ok (generate w.crypto first, save_identity w.crypto s (generate w.crypto first))
  unfolding load_or_create_identity load_identity
  create_first s first none_yet = rw none_yet refl

  create_later :
      (s : Storage) (first later : w.crypto.SigningKey)
      → load_or_create_identity w.crypto (save_identity w.crypto s (generate w.crypto first)) later
        ≡ ok (generate w.crypto first, save_identity w.crypto s (generate w.crypto first))
  unfolding load_or_create_identity
  create_later s first later = rw (load_first s first) refl

  -- The app after a first `init_app`.
  pub init_first :
      (a : App w) (first : w.crypto.SigningKey)
      → (opened_storage w texts a).self_identity ≡ none
      → init_app w texts a first ≡ (
        store w texts a
            (save_identity w.crypto (opened_storage w texts a) (generate w.crypto first)),
        reply (identity_info w texts (generate w.crypto first)),
      )
  unfolding init_app
  init_first a first none_yet =
      rw (init_app, create_first (opened_storage w texts a) first none_yet) refl

  -- While no session runs.
  abbrev stopped : Option Storage → App w
  stopped database = record { database = database; session = none }

  -- A start that fails once the identity is there.
  start_failed :
      (database : Option Storage) (first : w.crypto.SigningKey) (downloads_dir : String)
      (disk : Disk) (bound : Result (String × ℕ)) (discovering : Result (Unit {0})) (e : CoreError)
      → (open_storage database).self_identity ≡ none
      → (bound >>= λ b. (discovering >>= λ v. ok b)) ≡ err e
      → start_networking w texts
          (stopped database)
          first
          downloads_dir
          disk
          (ok tt)
          bound
          discovering
        ≡ (
          stopped (some (save_identity w.crypto (open_storage database) (generate w.crypto first))),
          failure (texts.to_text e),
        )
  unfolding start_networking start_session store opened_storage
  start_failed database first downloads_dir disk bound discovering e none_yet failed =
      rw
        (
          start_networking,
          create_first (open_storage database) first none_yet,
          start_session,
          failed,
        )
        refl

  -- A start with the identity there and nothing that fails.
  start_later :
      (s : Storage) (first later : w.crypto.SigningKey) (downloads_dir : String) (disk : Disk)
      (addr : String) (port : ℕ)
      → (start_networking w texts
          (stopped (some (save_identity w.crypto s (generate w.crypto first))))
          later
          downloads_dir
          disk
          (ok tt)
          (ok (addr, port))
          (ok tt)).1
        ≡ reply
            (started (record { quic_port = port; device_id = (generate w.crypto first).device_id }))
  unfolding start_networking start_session store opened_storage open_storage
  start_later s first later downloads_dir disk addr port =
      rw (start_networking, create_later s first later, start_session) refl

  module _ (q : Quinn) where
    -- On a device with no identity, a start whose transport or discovery fails answers with that
    -- error and starts no session, but the identity is made: a later start, whose transport is
    -- bound and whose discovery runs, gives the first one's id, whatever key it draws, and the
    -- port of its own endpoint. The directory is made in both.
    pub start_networking_retry :
        (database : Option Storage) (first later : w.crypto.SigningKey) (downloads_dir : String)
        (disk : Disk) (bound : Result (QuicTransport q)) (discovering : Result (Unit {0}))
        (e : CoreError) (t : QuicTransport q)
        → (open_storage database).self_identity ≡ none
        → (bound_at q bound >>= λ b. (discovering >>= λ v. ok b)) ≡ err e
        → bind q "0.0.0.0:0" ≡ ok t
        → let (a, r) =
            start_networking w texts
              (stopped database)
              first
              downloads_dir
              disk
              (ok tt)
              (bound_at q bound)
              discovering in
          (a.session ≡ none)
          × ((r ≡ failure (texts.to_text e))
              × ((start_networking w texts a later downloads_dir disk
                    (ok tt)
                    (bound_at q (bind q "0.0.0.0:0"))
                    (ok tt)).1
                  ≡ reply (
                      started (record {
                        quic_port = q.port t.local_addr;
                        device_id = (generate w.crypto first).device_id;
                      }))))
    unfolding bound_at
    start_networking_retry database first later downloads_dir disk bound discovering e t none_yet
          failed again =
        rw
          (
            start_failed database first downloads_dir disk (bound_at q bound) discovering e none_yet
                failed,
            again,
          )
          (
            refl,
            (
              refl,
              start_later (open_storage database) first later downloads_dir disk
                  (q.addr_text t.local_addr) (q.port t.local_addr),
            ),
          )
