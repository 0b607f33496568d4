-- ===== src/Sql.antt =====
-- What the SQL statements of core/src/storage.rs do to a table: a list of rows, in the order in
-- which they were inserted.
pub mod Order
use zao_p2p.Prelude.{
  ℕ, ◌≤◌, Bool, true, false, Option, none, some, List, [], ◌∷◌, ◌||◌, leb, if◌then◌else◌,
}

module _ {ℓ} {A : Type ℓ} where
  -- The first row of a query.
  unfoldable pub find : (A → Bool) → List A → Option A
  find p [] = none
  find p (r ∷ rows) = if p r then some r else find p rows

  unfoldable pub exists : (A → Bool) → List A → Bool
  exists p [] = false
  exists p (r ∷ rows) = p r || exists p rows

  -- `SELECT ... WHERE`
  unfoldable pub select : (A → Bool) → List A → List A
  select p [] = []
  select p (r ∷ rows) = let rest = select p rows in if p r then r ∷ rest else rest

  -- `UPDATE ... SET ... WHERE`
  unfoldable pub update : (A → Bool) → (A → A) → List A → List A
  update p f [] = []
  update p f (r ∷ rows) = (if p r then f r else r) ∷ update p f rows

  -- `ORDER BY key DESC`; SQL leaves the order of equal keys open.
  unfoldable pub insert_desc : (A → ℕ) → A → List A → List A
  insert_desc key r [] = r ∷ []
  insert_desc key r (s ∷ rows) =
      if leb (key s) (key r) then r ∷ (s ∷ rows) else s ∷ insert_desc key r rows

  unfoldable pub order_by_desc : (A → ℕ) → List A → List A
  order_by_desc key [] = []
  order_by_desc key (r ∷ rows) = insert_desc key r (order_by_desc key rows)
