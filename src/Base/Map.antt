-- ===== src/Base/Map.antt =====
-- A map with numbers for keys, which stands for the standard library's `HashMap<u64, V>`: a list
-- of entries, at most one to a key, the last one inserted first.
use Prim.Native.Nat.{ℕ}
use mathlib.Core.Path.{◌≡◌}
use mathlib.Core.Option.{Option, none, some}
use mathlib.Core.List.{List, [], ◌∷◌}
use native.Mathlib.Omega.{arith}
use xgameruntime_rs.Base.Tests.{◌==◌, if◌then◌else◌}

pub record Entry {ℓ} (V : Type ℓ) : Type ℓ where
  pub key : ℕ
  pub value : V

abbrev pub Map {ℓ} : Type ℓ → Type ℓ
Map V = List (Entry V)

module _ {ℓ} {V : Type ℓ} where
  unfoldable pub lookup : ℕ → Map V → Option V
  lookup wanted [] = none
  lookup wanted (e ∷ rest) = if wanted == e.key then some e.value else lookup wanted rest

  unfoldable pub remove : ℕ → Map V → Map V
  remove gone [] = []
  remove gone (e ∷ rest) =
      let others = remove gone rest in if gone == e.key then others else e ∷ others

  unfoldable pub insert : ℕ → V → Map V → Map V
  unfolding remove
  insert key value entries = record { key = key; value = value } ∷ remove key entries

  pub lookup-remove :
      (gone wanted : ℕ) (entries : Map V)
      → lookup wanted (remove gone entries)
        ≡ (if gone == wanted then none else lookup wanted entries)
  unfolding lookup remove
  lookup-remove gone wanted [] = ground arith
  lookup-remove gone wanted (e ∷ rest) = ground (arith, lookup-remove gone wanted rest)

  pub lookup-insert :
      (key wanted : ℕ) (value : V) (entries : Map V)
      → lookup wanted (insert key value entries)
        ≡ (if key == wanted then some value else lookup wanted entries)
  unfolding lookup insert
  lookup-insert key wanted value entries = ground (arith, lookup-remove key wanted entries)
