-- ===== src/Prelude/Maps.antt =====
-- Go's `map[string]V` as an association list. The order of the entries stands for the order in
-- which one run of the program ranges over the map; a nil map is the empty one.
use Prim.Native.String.{String}
use mathlib.Core.Path.{◌≡◌, refl}
use mathlib.Core.Logic.{◌≢◌}
use mathlib.Core.Option.{Option, none, some}
use mathlib.Core.List.{List, [], ◌∷◌}
use native.Mathlib.Omega.{arith}
use text.Mathlib.Text.{◌==◌}
use text.Mathlib.TextEquality.{eq_iff}
use hyve.Prelude.Tests.{if◌then◌else◌}

abbrev pub Map {ℓ} : Type ℓ → Type ℓ
Map V = List (String × V)

module _ {ℓ} {V : Type ℓ} where
  -- v, ok := m[key]
  unfoldable pub lookup : String → Map V → Option V
  lookup key [] = none
  lookup key ((other, found) ∷ entries) = if other == key then some found else lookup key entries

  -- m[key] = value
  unfoldable pub insert : String → V → Map V → Map V
  insert key value [] = (key, value) ∷ []
  insert key value ((other, old) ∷ entries) =
      if other == key then (key, value) ∷ entries else (other, old) ∷ insert key value entries

  -- delete(m, key)
  unfoldable pub erase : String → Map V → Map V
  erase key [] = []
  erase key ((other, old) ∷ entries) =
      let kept = erase key entries in if other == key then kept else (other, old) ∷ kept

  pub lookup-insert :
      (key sought : String) (value : V) (entries : Map V)
      → lookup sought (insert key value entries)
        ≡ (if key == sought then some value else lookup sought entries)
  unfolding lookup insert
  lookup-insert key sought value [] = refl
  lookup-insert key sought value ((other, old) ∷ entries) = ground (
    arith,
    lookup-insert key sought value entries,
    eq_iff other key,
    eq_iff other sought,
    eq_iff key sought,
  )

  pub lookup-erase :
      (key sought : String) (entries : Map V)
      → lookup sought (erase key entries) ≡ (if key == sought then none else lookup sought entries)
  unfolding lookup erase
  lookup-erase key sought [] = ground arith
  lookup-erase key sought ((other, old) ∷ entries) = ground (
    arith,
    lookup-erase key sought entries,
    eq_iff other key,
    eq_iff other sought,
    eq_iff key sought,
  )

  pub lookup-insert_self :
      (key : String) (value : V) (entries : Map V)
      → lookup key (insert key value entries) ≡ some value
  lookup-insert_self key value entries =
      ground (arith, lookup-insert key key value entries, eq_iff key key)

  pub lookup-erase_self : (key : String) (entries : Map V) → lookup key (erase key entries) ≡ none
  lookup-erase_self key entries = ground (arith, lookup-erase key key entries, eq_iff key key)

  pub lookup-insert_ne :
      (key sought : String) (value : V) (entries : Map V)
      → key ≢ sought
      → lookup sought (insert key value entries) ≡ lookup sought entries
  lookup-insert_ne key sought value entries h =
      ground (arith, h, lookup-insert key sought value entries, eq_iff key sought)

  pub lookup-erase_ne :
      (key sought : String) (entries : Map V)
      → key ≢ sought
      → lookup sought (erase key entries) ≡ lookup sought entries
  lookup-erase_ne key sought entries h =
      ground (arith, h, lookup-erase key sought entries, eq_iff key sought)

-- m[k] where a missing key reads as "".
unfoldable pub get_or_empty : String → Map String → String
unfolding lookup
get_or_empty k m = elim (lookup k m) [ none ↦ "" | some v ↦ v ]

-- for k, v := range src { dst[k] = v }
unfoldable pub merge {ℓ} : {V : Type ℓ} → Map V → Map V → Map V
unfolding insert
merge dst [] = dst
merge dst ((k, v) ∷ src) = merge (insert k v dst) src
