-- ===== src/Common/Dictionary.antt =====
-- Objects and `Map`s used as dictionaries: association lists in insertion order.
use mathlib.Core.Bool.{not}
use mathlib.Core.Option.{Option, none, some}
use mathlib.Core.List.{List, [], ◌∷◌}
use baseballstattrack.Common.Tests.{if◌then◌else◌}
use baseballstattrack.Common.Lists.{filter}
use baseballstattrack.Common.Equality.{Eq, ◌==◌}

abbrev pub Dict {ℓ κ} : Type ℓ → Type κ → Type (ℓ ⊔ κ)
Dict K V = List (K × V)

module _ {ℓ κ} {K : Type ℓ} {V : Type κ} ⦃e : Eq K⦄ where
  abbrev pub lookup : K → Dict K V → Option V
  lookup k [] = none
  lookup k ((j, v) ∷ d) = if j == k then some v else lookup k d

  -- `d[k] = v`: an existing key keeps its place.
  abbrev pub insert : K → V → Dict K V → Dict K V
  insert k v [] = (k, v) ∷ []
  insert k v ((j, w) ∷ d) = if j == k then (j, v) ∷ d else (j, w) ∷ insert k v d

  -- `delete d[k]`
  abbrev pub erase : K → Dict K V → Dict K V
  erase k d = filter (λ entry. not (entry.0 == k)) d

  -- `Object.fromEntries`, `new Map(entries)`: a later entry wins.
  abbrev pub insert_all : List (K × V) → Dict K V → Dict K V
  insert_all [] d = d
  insert_all ((k, v) ∷ es) d = insert_all es (insert k v d)

  abbrev pub from_entries : List (K × V) → Dict K V
  from_entries es = insert_all es []

-- `Object.values`
abbrev pub values {ℓ κ} : {K : Type ℓ} {V : Type κ} → Dict K V → List V
values [] = []
values ((k, v) ∷ d) = v ∷ values d
