-- ===== src/Statistics/Season/Totals.antt =====
-- The totals of a season are the sums over its games.
use baseballstattrack.Common.{
  ℕ, ◌+◌, ◌≡◌, refl, ap, ◌∙◌, inl, inr, List, [], ◌∷◌, ◌++◌, map, insert_by, sort_by, filter, ◌==◌,
  nat_eq, Dict, Result, ok, arith, Bool-cases, >>=-eq-ok, ok-injective,
}
use baseballstattrack.Events.Enums.{GameSide}
use baseballstattrack.Events.Equality.{side_eq}
use baseballstattrack.Statistics.Counters.{Tally, batting_tally, pitching_tally, fielding_tally}
use baseballstattrack.Statistics.Tally.{change}
use baseballstattrack.Statistics.Derive.{
  PlayerLine, TeamLine, GameStatisticsProjection, sum_onto, side_counters, team_counters,
}
use baseballstattrack.Statistics.Season.{
  SeasonGameSelection, SeasonLine, add_lines, finish_lines, aggregate_players, season_team,
  selected_lines,
}

-- The sum of a function over a list.
abbrev pub sum_of {ℓ} : {A : Type ℓ} → (A → ℕ) → List A → ℕ
sum_of f [] = 0
sum_of f (x ∷ xs) = f x + sum_of f xs

sum_of-append {ℓ} :
    {A : Type ℓ} (f : A → ℕ) (xs ys : List A) → sum_of f (xs ++ ys) ≡ sum_of f xs + sum_of f ys
sum_of-append f [] ys = omega arith
sum_of-append f (x ∷ xs) ys = let rest = sum_of-append f xs ys in omega arith

sum_of-insert_by {ℓ} :
    {A : Type ℓ} (f key : A → ℕ) (x : A) (xs : List A)
    → sum_of f (insert_by key x xs) ≡ f x + sum_of f xs
sum_of-insert_by f key x [] = refl
sum_of-insert_by f key x (y ∷ ys) = ground (arith, sum_of-insert_by f key x ys)

pub sum_of-sort_by {ℓ} :
    {A : Type ℓ} (f key : A → ℕ) (xs : List A) → sum_of f (sort_by key xs) ≡ sum_of f xs
sum_of-sort_by f key [] = refl
sum_of-sort_by f key (x ∷ xs) =
    sum_of-insert_by f key x (sort_by key xs) ∙ ap (λ n. f x + n) (sum_of-sort_by f key xs)

-- A function of counters, on the entry of a player and on a line.
abbrev of_entry : {C : Type 0} → (C → ℕ) → ℕ × C → ℕ
of_entry f (player_id, c) = f c

abbrev of_line : {C R : Type 0} → (C → ℕ) → PlayerLine C R → ℕ
of_line f line = f line.counters

abbrev pub of_season_line : {C R : Type 0} → (C → ℕ) → SeasonLine C R → ℕ
of_season_line f line = f line.counters

-- What a game gives its selected side.
abbrev pub of_game :
    {C R : Type 0} ⦃t : Tally C⦄
    → (C → ℕ)
    → (GameStatisticsProjection → List (PlayerLine C R))
    → SeasonGameSelection
    → ℕ
of_game f lines_of g = f (team_counters g.side (lines_of g.game))

module _ {C R : Type 0} ⦃t : Tally C⦄ (f : C → ℕ) (starts : f t.zero_counters ≡ 0)
    (adds : (a b : C) → f (t.add a b) ≡ f a + f b) (derive : C → Result R) where
  sum_of-change :
      (player_id : ℕ) (b : C) (d : Dict ℕ C)
      → sum_of (of_entry f) (change player_id (λ c. t.add c b) d) ≡ sum_of (of_entry f) d + f b
  sum_of-change player_id b [] = ground (arith, starts, adds t.zero_counters b)
  sum_of-change player_id b ((j, c) ∷ d) = elim (Bool-cases (j == player_id)) [
    | inl same ↦ ground (arith, adds c b)
    | inr other ↦ ground (arith, sum_of-change player_id b d)
  ]

  sum_of-add_lines :
      (lines : List (PlayerLine C R)) (d : Dict ℕ C)
      → sum_of (of_entry f) (add_lines lines d) ≡ sum_of (of_entry f) d + sum_of (of_line f) lines
  unfolding add_lines
  sum_of-add_lines [] d = omega arith
  sum_of-add_lines (line ∷ lines) d =
      let rest = sum_of-add_lines lines (change line.player_id (λ c. t.add c line.counters) d) in
      let one = sum_of-change line.player_id line.counters d in omega arith

  finish_lines-sum :
      (entries : List (ℕ × C)) (lines : List (SeasonLine C R))
      → finish_lines derive entries ≡ ok lines
      → sum_of (of_season_line f) lines ≡ sum_of (of_entry f) entries
  unfolding finish_lines
  finish_lines-sum [] lines e = rw (← ok-injective _ lines e) refl
  finish_lines-sum ((i, c) ∷ entries) lines e =
      let (rates, _, k) = >>=-eq-ok (derive c) _ e in
      let (rest, two, done) = >>=-eq-ok (finish_lines derive entries) _ k in
      let tail = finish_lines-sum entries rest two in rw (← ok-injective _ lines done) (omega arith)

  pub aggregate_players-sum :
      (lines : List (PlayerLine C R)) (result : List (SeasonLine C R))
      → aggregate_players derive lines ≡ ok result
      → sum_of (of_season_line f) result ≡ sum_of (of_line f) lines
  unfolding aggregate_players
  aggregate_players-sum lines result e =
      let entries = add_lines lines [] in
      let finished = finish_lines-sum (sort_by (λ entry. entry.0) entries) result e in
      let sorted = sum_of-sort_by (of_entry f) (λ entry. entry.0) entries in
      let added = sum_of-add_lines lines [] in omega arith

  sum_onto-sum : (total : C) (cs : List C) → f (sum_onto total cs) ≡ f total + sum_of f cs
  sum_onto-sum total [] = omega arith
  sum_onto-sum total (c ∷ cs) =
      let rest = sum_onto-sum (t.add total c) cs in let one = adds total c in omega arith

  counters-sum :
      (lines : List (SeasonLine C R))
      → sum_of f (map (λ (l : SeasonLine C R). l.counters) lines) ≡ sum_of (of_season_line f) lines
  counters-sum [] = refl
  counters-sum (l ∷ lines) = let rest = counters-sum lines in omega arith

  pub season_team-sum :
      (lines : List (SeasonLine C R)) (team : TeamLine C R)
      → season_team derive lines ≡ ok team
      → f team.counters ≡ sum_of (of_season_line f) lines
  season_team-sum lines team e =
      let counters = map (λ (l : SeasonLine C R). l.counters) lines in
      let (rates, _, done) = >>=-eq-ok (derive (sum_onto t.zero_counters counters)) _ e in
      let total = sum_onto-sum t.zero_counters counters in
      let of_lines = counters-sum lines in rw (← ok-injective _ team done) (omega (arith, starts))

  side-sum :
      (side : GameSide) (lines : List (PlayerLine C R))
      → sum_of f (side_counters side lines)
        ≡ sum_of (of_line f) (filter (λ (line : PlayerLine C R). line.side == side) lines)
  side-sum side [] = refl
  side-sum side (line ∷ lines) = ground (arith, side-sum side lines)

  pub selected_lines-sum :
      (lines_of : GameStatisticsProjection → List (PlayerLine C R))
      (games : List SeasonGameSelection)
      → sum_of (of_line f) (selected_lines lines_of games) ≡ sum_of (of_game f lines_of) games
  selected_lines-sum lines_of [] = refl
  selected_lines-sum lines_of (g ∷ games) =
      let mine = filter (λ (line : PlayerLine C R). line.side == g.side) (lines_of g.game) in
      let split = sum_of-append (of_line f) mine (selected_lines lines_of games) in
      let rest = selected_lines-sum lines_of games in
      let total = sum_onto-sum t.zero_counters (side_counters g.side (lines_of g.game)) in
      let side = side-sum g.side (lines_of g.game) in omega (arith, starts)
