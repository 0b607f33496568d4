-- ===== src/Prelude/Maps.antt =====
-- `HashMap<String, V>` as an association list: the source reads, writes and removes by key, and
-- never relies on the order of entries.
use Prim.Native.String.{String}
use mathlib.Core.Path.{◌≡◌, refl}
use mathlib.Core.Logic.{◌≢◌}
use mathlib.Core.Bool.{Bool, true, false}
use mathlib.Core.Option.{Option, none, some}
use mathlib.Core.List.{List, [], ◌∷◌}
use native.Mathlib.Omega.{arith}
use text.Mathlib.Text.{◌==◌}
use text.Mathlib.TextEquality.{eq_iff}
use text.Mathlib.TextPositions.{eq_refl}
use zao_p2p.Prelude.Tests.{if◌then◌else◌}

abbrev pub Map {ℓ} : Type ℓ → Type ℓ
Map V = List (String × V)

module _ {ℓ} {V : Type ℓ} where
  -- `get`
  unfoldable pub lookup : String → Map V → Option V
  lookup k [] = none
  lookup k ((j, v) ∷ m) = if j == k then some v else lookup k m

  -- `insert`: a present key keeps its place and takes the new value.
  unfoldable pub insert : String → V → Map V → Map V
  insert k v [] = (k, v) ∷ []
  insert k v ((j, w) ∷ m) = if j == k then (k, v) ∷ m else (j, w) ∷ insert k v m

  -- `remove`
  unfoldable pub remove : String → Map V → Map V
  remove k [] = []
  remove k ((j, w) ∷ m) = if j == k then remove k m else (j, w) ∷ remove k m

  -- `contains_key`
  unfoldable pub contains_key : String → Map V → Bool
  contains_key k m = elim (lookup k m) [ none ↦ false | some v ↦ true ]

  pub lookup-insert :
      (key asked : String) (value : V) (entries : Map V)
      → lookup asked (insert key value entries)
        ≡ (if key == asked then some value else lookup asked entries)
  unfolding insert lookup
  lookup-insert key asked value ((other, old) ∷ rest) = ground (
    arith,
    lookup-insert key asked value rest,
    eq_iff other asked,
    eq_iff other key,
    eq_iff key asked,
  )
  lookup-insert key asked value [] = refl

  pub lookup-remove :
      (key asked : String) (entries : Map V)
      → lookup asked (remove key entries) ≡ (if key == asked then none else lookup asked entries)
  unfolding remove lookup
  lookup-remove key asked ((other, old) ∷ rest) =
      ground (
        arith,
        lookup-remove key asked rest,
        eq_iff other asked,
        eq_iff other key,
        eq_iff key asked,
      )
  lookup-remove key asked [] = ground arith

pub ruleset map_laws = (lookup-insert, lookup-remove)

pub contains_key-insert {ℓ} :
    {V : Type ℓ} (k : String) (v : V) (m : Map V) → contains_key k (insert k v m) ≡ true
unfolding contains_key
contains_key-insert k v m = ground (arith, lookup-insert k k v m, eq_refl k)

pub str_ne : (a b : String) → a ≢ b → (a == b) ≡ false
str_ne a b h = ground (arith, eq_iff a b, h)

pub ne_of_str : (a b : String) → (a == b) ≡ false → a ≢ b
ne_of_str a b h e = ground (arith, h, (eq_iff a b).1 e)
