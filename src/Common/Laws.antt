-- ===== src/Common/Laws.antt =====
-- Laws of the shared helpers: membership, `find`, and the dictionary operations in `if` form.
use mathlib.Core.Path.{◌≡◌, refl}
use mathlib.Core.Bool.{true, false}
use mathlib.Core.Option.{none, some}
use mathlib.Core.List.{List, [], ◌∷◌, map}
use native.Mathlib.Omega.{arith}
use baseballstattrack.Common.Tests.{if◌then◌else◌, is_some}
use baseballstattrack.Common.Equality.{Eq, ◌==◌, contains, distinct}
use baseballstattrack.Common.Dictionary.{Dict, lookup, insert, erase, insert_all}

module _ {ℓ κ} {K : Type ℓ} {V : Type κ} ⦃e : Eq K⦄ where
  pub lookup-insert :
      (j k : K) (v : V) (d : Dict K V)
      → lookup j (insert k v d) ≡ (if k == j then some v else lookup j d)
  lookup-insert j k v [] = refl
  lookup-insert j k v ((i, w) ∷ d) =
      ground (arith, e.beq_iff k j, e.beq_iff i k, e.beq_iff i j, lookup-insert j k v d)

  pub lookup-erase :
      (j k : K) (d : Dict K V) → lookup j (erase k d) ≡ (if k == j then none else lookup j d)
  lookup-erase j k [] = ground arith
  lookup-erase j k ((i, w) ∷ d) =
      ground (arith, e.beq_iff k j, e.beq_iff i k, e.beq_iff i j, lookup-erase j k d)

  abbrev pub keys : List (K × V) → List K
  keys = map (λ entry. entry.0)

  pub lookup-none : (k : K) (es : List (K × V)) → contains (keys es) k ≡ false → lookup k es ≡ none
  lookup-none k [] h = refl
  lookup-none k ((j, w) ∷ es) h = ground (arith, lookup-none k es)

  -- With distinct keys the dictionary has every entry.
  pub lookup-insert_all :
      (k : K) (es : List (K × V)) (d : Dict K V)
      → distinct (keys es) ≡ true
      → lookup k (insert_all es d) ≡ (if is_some (lookup k es) then lookup k es else lookup k d)
  lookup-insert_all k [] d h = refl
  lookup-insert_all k ((j, w) ∷ es) d h = ground (
    arith,
    lookup-insert_all k es (insert j w d),
    lookup-insert k j w d,
    lookup-none j es,
    e.beq_iff j k,
  )
