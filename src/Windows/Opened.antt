-- ===== src/Windows/Opened.antt =====
-- A command of the Windows shell that takes the key: it leaves the key in its file.
use zao_p2p.Prelude.{
  ◌≡◌, refl, sym, ◌∙◌, ◌⊎◌, inl, inr, String, true, false, Option, none, some, length, str_eq,
  Option-cases,
}
use zao_p2p.Prelude.Bytes.{Bytes}
use zao_p2p.Manager.{World}
use zao_p2p.Ffi.{App, Reply, Texts}
use zao_p2p.Windows.Calls.{Json}
use zao_p2p.Windows.Invoke.{shell, IsKeyed}
use zao_p2p.Windows.{
  Write, persisted, failed, Outcome, returned, panicked, Shelled, Shell, map_reply, existing_key,
  get_or_create_db_key, unlocks, open_with, with_key, forward,
}

module _ (w : World) (texts : Texts w.crypto.hex_encode) (json : Json w)
    (system : Shelled w.crypto.hex_encode)
    (trim-encode : (bytes : Bytes)
      → system.trim (w.crypto.hex_encode bytes) ≡ w.crypto.hex_encode bytes)
    (encode_some : (bytes : Bytes)
      → length bytes ≡ 32
      → str_eq (w.crypto.hex_encode bytes) "" ≡ false)
    (opens_own : (key : String) → system.opens key key ≡ true) where
  module _ {A : Type 0} (to_json : A → String) (f : App w → App w × Reply A) where
    -- What a call that opens the database leaves.
    abbrev pub Opened : Shell w → Shell w × Outcome String → Type 0
    Opened sh (sh', r) =
        IsKeyed w texts json system sh'
        × (((sh'.app ≡ (f sh.app).0) × (r ≡ returned (map_reply to_json (f sh.app).1)))
            ⊎ ((sh.made_with ≡ none) × ((sh'.app ≡ sh.app) × (r ≡ panicked))))

    abbrev pub opens_call : Shell w → Bytes → Write → Shell w × Outcome String
    opens_call sh bytes write =
        with_key w texts system sh bytes write (λ s key. open_with w texts system s key to_json f)

    -- With a key in the file.
    found-Opened :
        (a : App w) (file made : Option String) (bytes : Bytes) (write : Write) (key : String)
        → IsKeyed w texts json system (shell w a file made)
        → existing_key w texts system file ≡ some key
        → Opened (shell w a file made) (opens_call (shell w a file made) bytes write)
    unfolding with_key open_with get_or_create_db_key unlocks
    found-Opened a file none bytes write key keyed found =
        rw found (λ m e. rw (get_or_create_db_key, found) (found ∙ e), inl (refl, refl))
    found-Opened a file (some made) bytes write key keyed found =
        rw (keyed made refl, opens_own made)
          (
            λ m e. rw (get_or_create_db_key, keyed made refl) (keyed made refl ∙ e),
            inl (refl, refl),
          )

    -- With none, and so no database either.
    unfound-Opened :
        (a : App w) (file : Option String) (bytes : Bytes) (write : Write)
        → length bytes ≡ 32
        → existing_key w texts system file ≡ none
        → Opened (shell w a file none) (opens_call (shell w a file none) bytes write)
    unfolding with_key open_with get_or_create_db_key unlocks existing_key
    unfound-Opened a file bytes persisted size found = rw found (
      λ m e.
          rw (get_or_create_db_key, found, existing_key, trim-encode bytes, encode_some bytes size)
            e,
      inl (refl, refl),
    )
    unfound-Opened a file bytes (failed left) size found =
        rw found (λ m e. absurd (cc e), inr (refl, (refl, refl)))

    pub open-Opened :
        (a : App w) (file made : Option String) (bytes : Bytes) (write : Write)
        → IsKeyed w texts json system (shell w a file made)
        → length bytes ≡ 32
        → Opened (shell w a file made) (opens_call (shell w a file made) bytes write)
    open-Opened a file made bytes write keyed size =
        elim (Option-cases (existing_key w texts system file)) [
          | inr (key, found) ↦ found-Opened a file made bytes write key keyed found
          | inl unfound ↦ elim (Option-cases made) [
            | inl none_yet ↦ rw none_yet (unfound-Opened a file bytes write size unfound)
            | inr (m, there) ↦
                let bad : none ≡ some m = sym unfound ∙ keyed m there in absurd (cc bad)
          ]
        ]

    -- A call that opens nothing, behind the key.
    abbrev pub plain_call : Shell w → Bytes → Write → Shell w × Outcome String
    plain_call sh bytes write =
        with_key w texts system sh bytes write (λ s key. forward w s to_json (f s.app))

    plain_unfound-Opened :
        (a : App w) (file : Option String) (bytes : Bytes) (write : Write)
        → existing_key w texts system file ≡ none
        → Opened (shell w a file none) (plain_call (shell w a file none) bytes write)
    unfolding with_key forward get_or_create_db_key
    plain_unfound-Opened a file bytes persisted unfound =
        rw unfound (λ m e. absurd (cc e), inl (refl, refl))
    plain_unfound-Opened a file bytes (failed left) unfound =
        rw unfound (λ m e. absurd (cc e), inr (refl, (refl, refl)))

    pub plain-Opened :
        (a : App w) (file made : Option String) (bytes : Bytes) (write : Write)
        → IsKeyed w texts json system (shell w a file made)
        → Opened (shell w a file made) (plain_call (shell w a file made) bytes write)
    unfolding with_key forward get_or_create_db_key
    plain-Opened a file none bytes write keyed =
        elim (Option-cases (existing_key w texts system file)) [
          | inr (key, found) ↦
              rw found (λ m e. rw (get_or_create_db_key, found) (keyed m e), inl (refl, refl))
          | inl unfound ↦ plain_unfound-Opened a file bytes write unfound
        ]
    plain-Opened a file (some m) bytes write keyed =
        rw (keyed m refl)
          (λ n e. rw (get_or_create_db_key, keyed m refl) (keyed m refl ∙ e), inl (refl, refl))
