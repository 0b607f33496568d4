-- ===== src/CoreError.antt =====
-- core/src/error.rs: the error type of the crate and its `Result`. A message that interpolates
-- values keeps its fixed part only; what an error wraps (`rusqlite::Error`, ...) is not kept.
use zao_p2p.Prelude.{
  String, Bool, true, false, Option, none, some, ◌≡◌, refl, if◌then◌else◌, ap, ◌⊎◌, inl, inr, arith,
}

pub data CoreError : Type 0 where
  db : CoreError
  crypto : String → CoreError
  io : CoreError
  serde : CoreError
  not_found : String → CoreError
  invalid_state : String → CoreError

pub data Result {ℓ} (A : Type ℓ) : Type ℓ where
  ok : A → Result A
  err : CoreError → Result A

-- The `?` operator.
infixl 5 ◌>>=◌ ◌>>◌
abbrev pub ◌>>=◌ {ℓ κ} : {A : Type ℓ} {B : Type κ} → Result A → (A → Result B) → Result B
ok a >>= f = f a
err e >>= f = err e

abbrev pub ◌>>◌ {ℓ κ} : {A : Type ℓ} {B : Type κ} → Result A → Result B → Result B
m >> k = m >>= λ _. k

abbrev pub is_ok {ℓ} : {A : Type ℓ} → Result A → Bool
is_ok (ok a) = true
is_ok (err e) = false

-- `ok_or_else`
abbrev pub ok_or {ℓ} : {A : Type ℓ} → Option A → CoreError → Result A
ok_or none e = err e
ok_or (some a) e = ok a

-- `unwrap_or_default` and the like.
abbrev pub unwrap_or {ℓ} : {A : Type ℓ} → Result A → A → A
unwrap_or (ok a) d = a
unwrap_or (err e) d = d

-- To split on a computed result and keep the equation.
pub Result-cases {ℓ} :
    {A : Type ℓ} (r : Result A) → ((a : A) × (r ≡ ok a)) ⊎ ((e : CoreError) × (r ≡ err e))
Result-cases (ok a) = inl (a, refl)
Result-cases (err e) = inr (e, refl)

pub ok_inj {ℓ} : {A : Type ℓ} (a : A) {x y : A} → ok x ≡ ok y → x ≡ y
ok_inj a h = ap (λ r. unwrap_or r a) h

pub ok_or-some {ℓ} :
    {A : Type ℓ} (o : Option A) (e : CoreError) (a : A) → ok_or o e ≡ ok a → o ≡ some a
ok_or-some none e a h = absurd (ground (arith, h))
ok_or-some (some b) e a h = ap some (ok_inj b h)

-- A test that succeeds.
pub ok_of_if {ℓ} :
    {A : Type ℓ} (b : Bool) (a a' : A) (e : CoreError)
    → (if b then ok a else err e) ≡ ok a'
    → (b ≡ true) × (a ≡ a')
ok_of_if true a a' e h = (refl, ok_inj a h)
ok_of_if false a a' e h = absurd (ground (arith, h))

-- A chain that succeeds: its first part does, and so does the rest on that result.
pub ok_of_bind {ℓ κ} :
    {A : Type ℓ} {B : Type κ} (r : Result A) (f : A → Result B) (b : B)
    → (r >>= f) ≡ ok b
    → (a : A) × ((r ≡ ok a) × (f a ≡ ok b))
ok_of_bind (ok a) f b h = (a, (refl, h))
ok_of_bind (err e) f b h = absurd (ground (arith, h))
