-- ===== src/Base/Assoc.antt =====
-- A Go map keyed by strings, as an association list with at most one entry for each key.
use mathlib.Core.Path.{◌≡◌, refl}
use mathlib.Core.Option.{Option, none, some}
use mathlib.Core.List.{List, [], ◌∷◌}
use Prim.Native.Nat.{suc}
use Prim.Native.String.{String}
use native.Mathlib.Omega.{arith}
use aa.Base.Tests.{if◌then◌else◌, is_some}
use aa.Base.Lists.{length}
use aa.Base.Text.{str_eq, eq_iff, elem}

module _ {ℓ} {V : Type ℓ} where
  -- `v, ok := entries[key]`
  unfoldable pub lookup : String → List (String × V) → Option V
  lookup key [] = none
  lookup key ((other, v) ∷ entries) = if str_eq other key then some v else lookup key entries

  -- `entries[key] = v`
  unfoldable pub insert : String → V → List (String × V) → List (String × V)
  insert key v [] = (key, v) ∷ []
  insert key v ((other, old) ∷ entries) =
      if str_eq other key then (other, v) ∷ entries else (other, old) ∷ insert key v entries

  -- `delete(entries, key)`
  unfoldable pub delete : String → List (String × V) → List (String × V)
  delete key [] = []
  delete key ((other, old) ∷ entries) =
      let rest = delete key entries in if str_eq other key then rest else (other, old) ∷ rest

  abbrev pub keys : List (String × V) → List String
  keys [] = []
  keys ((key, v) ∷ entries) = key ∷ keys entries

  abbrev pub values : List (String × V) → List V
  values [] = []
  values ((key, v) ∷ entries) = v ∷ values entries

  -- A write is read back at its key, and nowhere else.
  pub lookup-insert :
      (key other : String) (v : V) (entries : List (String × V))
      → lookup other (insert key v entries)
        ≡ (if str_eq key other then some v else lookup other entries)
  unfolding lookup insert
  lookup-insert key other v [] = refl
  lookup-insert key other v ((name, old) ∷ entries) = ground (
    arith,
    eq_iff key other,
    eq_iff name key,
    eq_iff name other,
    lookup-insert key other v entries,
  )

  pub lookup-delete :
      (key other : String) (entries : List (String × V))
      → lookup other (delete key entries)
        ≡ (if str_eq key other then none else lookup other entries)
  unfolding lookup delete
  lookup-delete key other [] = ground arith
  lookup-delete key other ((name, old) ∷ entries) =
      ground (
        arith,
        eq_iff key other,
        eq_iff name key,
        eq_iff name other,
        lookup-delete key other entries,
      )

  pub elem-keys :
      (key : String) (entries : List (String × V))
      → elem key (keys entries) ≡ is_some (lookup key entries)
  unfolding lookup
  elem-keys key [] = refl
  elem-keys key ((other, v) ∷ entries) = ground (arith, elem-keys key entries)

  -- No key has two entries.
  abbrev pub HasUniqueKeys : List (String × V) → Type ℓ
  HasUniqueKeys [] = Unit
  HasUniqueKeys ((key, v) ∷ entries) = (lookup key entries ≡ none) × HasUniqueKeys entries

  pub insert-HasUniqueKeys :
      (key : String) (v : V) (entries : List (String × V))
      → HasUniqueKeys entries
      → HasUniqueKeys (insert key v entries)
  unfolding insert lookup
  insert-HasUniqueKeys key v [] h = (refl, tt)
  insert-HasUniqueKeys key v ((other, old) ∷ entries) h = ground (
    arith,
    insert-HasUniqueKeys key v entries h.1,
    lookup-insert key other v entries,
    eq_iff key other,
    eq_iff other key,
  )

  pub delete-HasUniqueKeys :
      (key : String) (entries : List (String × V))
      → HasUniqueKeys entries
      → HasUniqueKeys (delete key entries)
  unfolding delete
  delete-HasUniqueKeys key [] h = tt
  delete-HasUniqueKeys key ((other, old) ∷ entries) h =
      ground (arith, delete-HasUniqueKeys key entries h.1, lookup-delete key other entries)

  -- A new key adds one entry, and an old one none.
  pub length-insert :
      (key : String) (v : V) (entries : List (String × V))
      → length (insert key v entries)
        ≡ (if is_some (lookup key entries) then length entries else suc (length entries))
  unfolding insert lookup
  length-insert key v [] = refl
  length-insert key v ((other, old) ∷ entries) = ground (arith, length-insert key v entries)
