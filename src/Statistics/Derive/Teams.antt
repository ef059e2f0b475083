-- ===== src/Statistics/Derive/Teams.antt =====
-- The team totals are the sums over the players' lines.
use baseballstattrack.Common.{
  ℕ, ◌+◌, ◌≡◌, refl, sym, ap, ◌∙◌, inl, inr, some, List, [], ◌∷◌, insert_by, sort_by, nat_eq, Dict,
  lookup, Result, ok, arith, Option-cases, >>=-eq-ok, ok-injective,
}
use baseballstattrack.Events.Enums.{GameSide}
use baseballstattrack.Events.Equality.{side_eq}
use baseballstattrack.Statistics.Counters.{Tally}
use baseballstattrack.Statistics.Tally.Totals.{side_total}
use baseballstattrack.Statistics.Derive.{
  PlayerLine, player_line, player_lines, sorted_lines, sum_onto, side_counters, team_counters,
}

module _ {C : Type 0} (index : Dict ℕ GameSide) (asked : GameSide) (f : C → ℕ) where
  side_total-insert_by :
      (key : ℕ × C → ℕ) (x : ℕ × C) (xs : List (ℕ × C))
      → side_total index asked f (insert_by key x xs) ≡ side_total index asked f (x ∷ xs)
  side_total-insert_by key (i, c) [] = refl
  side_total-insert_by key (i, c) ((j, d) ∷ xs) = ground (arith, side_total-insert_by key (i, c) xs)

  side_total-sort_by :
      (key : ℕ × C → ℕ) (xs : List (ℕ × C))
      → side_total index asked f (sort_by key xs) ≡ side_total index asked f xs
  side_total-sort_by key [] = refl
  side_total-sort_by key ((i, c) ∷ xs) =
      ground (arith, side_total-insert_by key (i, c) (sort_by key xs), side_total-sort_by key xs)

module _ {C R : Type 0} ⦃t : Tally C⦄ (index : Dict ℕ GameSide) (asked : GameSide) (f : C → ℕ)
    (starts : f t.zero_counters ≡ 0) (adds : (a b : C) → f (t.add a b) ≡ f a + f b)
    (derive : C → Result R) where
  -- The sum of `f` over lines.
  abbrev counted : List C → ℕ
  counted [] = 0
  counted (c ∷ cs) = f c + counted cs

  sum_onto-counted : (total : C) (cs : List C) → f (sum_onto total cs) ≡ f total + counted cs
  sum_onto-counted total [] = omega arith
  sum_onto-counted total (c ∷ cs) =
      let rest = sum_onto-counted (t.add total c) cs in let one = adds total c in omega arith

  player_line-side :
      (i : ℕ) (c : C) (line : PlayerLine C R)
      → player_line derive index (i, c) ≡ ok line
      → (line.counters ≡ c) × (lookup i index ≡ some line.side)
  player_line-side i c line e = elim (Option-cases (lookup i index)) [
    | inl absent ↦ ground arith
    | inr (side, found) ↦
        let (rates, one, two) = >>=-eq-ok (derive c) _ (rw (found, player_line) at e) in
        let same = ok-injective _ line two in
        (
          sym (ap (λ (l : PlayerLine C R). l.counters) same),
          found ∙ ap (λ (l : PlayerLine C R). some l.side) same,
        )
  ]

  player_lines-total :
      (xs : List (ℕ × C)) (lines : List (PlayerLine C R))
      → player_lines derive index xs ≡ ok lines
      → counted (side_counters asked lines) ≡ side_total index asked f xs
  unfolding player_lines
  player_lines-total [] lines e = rw (← ok-injective _ lines e) refl
  player_lines-total ((i, c) ∷ xs) lines e =
      let (line, one, k) = >>=-eq-ok (player_line derive index (i, c)) _ e in
      let (rest, two, three) = >>=-eq-ok (player_lines derive index xs) _ k in
      let (same, placed) = player_line-side i c line one in
      let tail = player_lines-total xs rest two in
      let all = ok-injective _ lines three in ground (arith, same, placed, tail, all)

  pub team_counters-total :
      (d : Dict ℕ C) (lines : List (PlayerLine C R))
      → sorted_lines derive index d ≡ ok lines
      → f (team_counters asked lines) ≡ side_total index asked f d
  team_counters-total d lines e =
      let sum = sum_onto-counted t.zero_counters (side_counters asked lines) in
      let of_lines = player_lines-total (sort_by (λ entry. entry.0) d) lines e in
      let sorted = side_total-sort_by index asked f (λ entry. entry.0) d in omega (arith, starts)
