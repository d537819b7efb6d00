-- ===== src/Base/Dict.antt =====
-- Go's maps: association lists with one entry for each key, over any key type with `==`.
use mathlib.Core.Path.{◌≡◌, refl}
use mathlib.Core.Bool.{Bool, true, false}
use mathlib.Core.Option.{Option, none, some}
use mathlib.Core.List.{List, [], ◌∷◌, map}
use native.Mathlib.Omega.{arith}
use vk_agregator.Base.Tests.{if◌then◌else◌}
use vk_agregator.Base.Eq.{Comparable, ◌==◌}

abbrev pub Dict {ℓ κ} : Type ℓ → Type κ → Type (ℓ ⊔ κ)
Dict K V = List (K × V)

-- The rows of a map, in the order of the list, which is one of the orders that Go may take.
abbrev pub values {ℓ κ} : {K : Type ℓ} {V : Type κ} → Dict K V → List V
values m = map (λ entry. entry.1) m

module _ {ℓ κ} {K : Type ℓ} {V : Type κ} ⦃key : Comparable K⦄ where
  -- `m[k]` with its second result.
  abbrev pub lookup : K → Dict K V → Option V
  lookup k [] = none
  lookup k (entry ∷ m) = if entry.0 == k then some entry.1 else lookup k m

  -- `m[k] = v`, on the entry of that key or on a new one at the end.
  abbrev pub insert : K → V → Dict K V → Dict K V
  insert k v [] = (k, v) ∷ []
  insert k v (entry ∷ m) = if entry.0 == k then (k, v) ∷ m else entry ∷ insert k v m

  -- `delete(m, k)`
  abbrev pub remove : K → Dict K V → Dict K V
  remove k [] = []
  remove k (entry ∷ m) = if entry.0 == k then m else entry ∷ remove k m

  -- `_, ok := m[k]`
  abbrev pub contains : K → Dict K V → Bool
  contains k m = elim (lookup k m) [ none ↦ false | some _ ↦ true ]

  -- `m[k]` with the zero value for a missing key.
  abbrev pub lookup_or : V → K → Dict K V → V
  lookup_or zero_value k m = elim (lookup k m) [ none ↦ zero_value | some v ↦ v ]

  pub lookup-insert :
      (written read : K) (v : V) (m : Dict K V)
      → lookup read (insert written v m) ≡ (if written == read then some v else lookup read m)
  lookup-insert written read v [] = refl
  lookup-insert written read v (entry ∷ m) = ground (
    arith,
    lookup-insert written read v m,
    key.same_iff entry.0 read,
    key.same_iff entry.0 written,
    key.same_iff written read,
  )

  pub lookup-insert_self : (k : K) (v : V) (m : Dict K V) → lookup k (insert k v m) ≡ some v
  lookup-insert_self k v m = rw (lookup-insert k k v m) (rw ((key.same_iff k k).1 refl))
