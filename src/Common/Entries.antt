-- ===== src/Common/Entries.antt =====
-- A `HashMap` with texts as keys, as the list of its entries.
pub mod Keys
use Prim.Native.String.{String}
use mathlib.Core.Path.{◌≡◌, refl}
use mathlib.Core.Option.{Option, none, some}
use mathlib.Core.List.{List, [], ◌∷◌}
use native.Mathlib.Omega.{arith}
use text.Mathlib.Text.{◌==◌ as str_eq}
use text.Mathlib.TextEquality.{eq_iff}
use agnx.Common.Tests.{if◌then◌else◌}

module _ {V : Type 0} where
  -- `insert`
  unfoldable pub insert : String → V → List (String × V) → List (String × V)
  insert k v [] = (k, v) ∷ []
  insert k v ((j, w) ∷ m) = if str_eq j k then (k, v) ∷ m else (j, w) ∷ insert k v m

  -- `get`
  unfoldable pub lookup_entry : String → List (String × V) → Option V
  lookup_entry k [] = none
  lookup_entry k ((j, w) ∷ m) = if str_eq j k then some w else lookup_entry k m

  -- `entry(k).or_insert(v)`
  unfoldable pub or_insert : String → V → List (String × V) → List (String × V)
  or_insert k v m = elim (lookup_entry k m) [ some _ ↦ m | none ↦ insert k v m ]

  pub lookup-insert :
      (k j : String) (v : V) (m : List (String × V))
      → lookup_entry j (insert k v m) ≡ (if str_eq k j then some v else lookup_entry j m)
  unfolding lookup_entry insert
  lookup-insert k j v [] = refl
  lookup-insert k j v ((i, w) ∷ m) =
      ground (arith, eq_iff k j, eq_iff i k, eq_iff i j, lookup-insert k j v m)

  -- `remove`
  unfoldable pub remove_entry : String → List (String × V) → List (String × V)
  remove_entry k [] = []
  remove_entry k ((j, w) ∷ m) =
      let rest = remove_entry k m in if str_eq j k then rest else (j, w) ∷ rest

  pub lookup-remove :
      (k j : String) (m : List (String × V))
      → lookup_entry j (remove_entry k m) ≡ (if str_eq k j then none else lookup_entry j m)
  unfolding lookup_entry remove_entry
  lookup-remove k j [] = ground (arith, eq_iff k j)
  lookup-remove k j ((i, w) ∷ m) =
      ground (arith, eq_iff k j, eq_iff i k, eq_iff i j, lookup-remove k j m)
