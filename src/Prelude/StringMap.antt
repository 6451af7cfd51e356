-- ===== src/Prelude/StringMap.antt =====
-- Go's `map[string]V` as an association list. A lookup returns the first entry of its key. Go
-- leaves the order of a range over a map open; the functions below depend on it nowhere.
use Prim.Native.String.{String}
use mathlib.Core.Path.{◌≡◌, refl}
use mathlib.Core.Bool.{true, false}
use mathlib.Core.Option.{Option, none, some}
use mathlib.Core.List.{List, [], ◌∷◌}
use native.Mathlib.Omega.{arith}
use text.Mathlib.Text.{◌==◌}
use text.Mathlib.TextEquality.{eq_iff}
use cloud_service_broker.Prelude.Tests.{if◌then◌else◌, or_else, contains}

abbrev pub StringMap {ℓ} : Type ℓ → Type ℓ
StringMap V = List (String × V)

module _ {ℓ} {V : Type ℓ} where
  -- `m[k]`, with its `ok`
  abbrev pub lookup : String → StringMap V → Option V
  lookup k [] = none
  lookup k ((j, v) ∷ m) = if j == k then some v else lookup k m

  -- `m[k] = v`
  abbrev pub insert : String → V → StringMap V → StringMap V
  insert k v [] = (k, v) ∷ []
  insert k v ((j, w) ∷ m) = if j == k then (k, v) ∷ m else (j, w) ∷ insert k v m

  -- `delete(m, k)`
  abbrev pub delete : String → StringMap V → StringMap V
  delete k [] = []
  delete k ((j, w) ∷ m) = let rest = delete k m in if j == k then rest else (j, w) ∷ rest

  -- `for k, v := range d { m[k] = v }`
  abbrev pub merge : StringMap V → StringMap V → StringMap V
  merge m [] = m
  merge m ((k, v) ∷ d) = insert k v (merge m d)

  abbrev pub keys : StringMap V → List String
  keys [] = []
  keys ((k, _) ∷ m) = k ∷ keys m

  pub lookup-insert :
      (j k : String) (v : V) (m : StringMap V)
      → lookup j (insert k v m) ≡ (if k == j then some v else lookup j m)
  lookup-insert j k v [] = refl
  lookup-insert j k v ((i, w) ∷ m) =
      ground (arith, eq_iff k j, eq_iff i k, eq_iff i j, lookup-insert j k v m)

  pub lookup-delete :
      (j k : String) (m : StringMap V)
      → lookup j (delete k m) ≡ (if k == j then none else lookup j m)
  lookup-delete j k [] = ground arith
  lookup-delete j k ((i, w) ∷ m) =
      ground (arith, eq_iff k j, eq_iff i k, eq_iff i j, lookup-delete j k m)

  -- The merged-in map has precedence.
  pub lookup-merge :
      (j : String) (m d : StringMap V) → lookup j (merge m d) ≡ or_else (lookup j d) (lookup j m)
  lookup-merge j m [] = refl
  lookup-merge j m ((k, v) ∷ d) =
      ground (arith, lookup-insert j k v (merge m d), lookup-merge j m d)

  pub contains-keys :
      (k : String) (m : StringMap V)
      → contains k (keys m) ≡ elim (lookup k m) [ none ↦ false | some _ ↦ true ]
  contains-keys k [] = refl
  contains-keys k ((j, v) ∷ m) = ground (arith, contains-keys k m)

pub ruleset map_laws = (lookup-insert, lookup-delete, lookup-merge)
