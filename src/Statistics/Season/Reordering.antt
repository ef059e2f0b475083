-- ===== src/Statistics/Season/Reordering.antt =====
-- A season does not depend on the order in which its games are given.
use baseballstattrack.Common.{
  ℕ, ◌≡◌, ◌≢◌, refl, sym, ap, ◌∙◌, Bool, false, not, ◌||◌, List, [], ◌∷◌, map, filter,
  if◌then◌else◌, insert_by, sort_by, ◌==◌, nat_eq, contains, ok, arith, checked-eq-ok,
}
use baseballstattrack.Common.Sorting.{insert_by_comm}
use baseballstattrack.Statistics.Season.{
  SeasonGameSelection, SeasonStatisticsInput, check_game, check_games, included_games,
  excluded_game_ids, game_id_of, is_included, derive_season_statistics,
}

-- One list of games is the other with neighbours exchanged.
pub data Rearranged : List SeasonGameSelection → List SeasonGameSelection → Type 0 where
  same : {gs : List SeasonGameSelection} → Rearranged gs gs
  keep :
      {gs hs : List SeasonGameSelection} (g : SeasonGameSelection)
      → Rearranged gs hs
      → Rearranged (g ∷ gs) (g ∷ hs)
  swap :
      {gs : List SeasonGameSelection} (g h : SeasonGameSelection)
      → Rearranged (g ∷ h ∷ gs) (h ∷ g ∷ gs)
  trans :
      {gs hs ks : List SeasonGameSelection} → Rearranged gs hs → Rearranged hs ks → Rearranged gs ks

abbrev pub with_games : List SeasonGameSelection → SeasonStatisticsInput → SeasonStatisticsInput
with_games games input = record input { games = games }

module _ (input : SeasonStatisticsInput) where
  -- The identifiers of the games before matter only by what they contain.
  check_games-seen :
      (seen more : List ℕ) (gs : List SeasonGameSelection)
      → ((n : ℕ) → contains seen n ≡ contains more n)
      → check_games input seen gs ≡ check_games input more gs
  unfolding check_games check_game
  check_games-seen seen more [] alike = refl
  check_games-seen seen more (g ∷ gs) alike =
      let rest =
        check_games-seen (game_id_of g ∷ seen) (game_id_of g ∷ more) gs
          (λ n. ap (λ b. game_id_of g == n || b) (alike n)) in
      rw (alike (game_id_of g), rest) refl

  check_games-with_games :
      (games : List SeasonGameSelection) (seen : List ℕ) (gs : List SeasonGameSelection)
      → check_games (with_games games input) seen gs ≡ check_games input seen gs
  unfolding check_games check_game
  check_games-with_games games seen [] = refl
  check_games-with_games games seen (g ∷ gs) =
      rw (check_games-with_games games (game_id_of g ∷ seen) gs) refl

  check_game-unseen :
      (seen : List ℕ) (g : SeasonGameSelection)
      → check_game input seen g ≡ ok tt
      → contains seen (game_id_of g) ≡ false
  unfolding check_game
  check_game-unseen seen g e = ground arith

  check_game-moved :
      (seen more : List ℕ) (g : SeasonGameSelection)
      → contains seen (game_id_of g) ≡ false
      → check_game input more g ≡ ok tt
      → check_game input seen g ≡ ok tt
  unfolding check_game
  check_game-moved seen more g new e = ground arith

  -- Neighbours that pass the checks are different games, and pass them the other way round.
  swap-passes :
      (seen : List ℕ) (g h : SeasonGameSelection) (gs : List SeasonGameSelection)
      → check_games input seen (g ∷ h ∷ gs) ≡ ok tt
      → ((game_id_of g == game_id_of h) ≡ false) × (check_games input seen (h ∷ g ∷ gs) ≡ ok tt)
  unfolding check_games
  swap-passes seen g h gs e =
      let (one, k) = checked-eq-ok (check_game input seen g) _ e in
      let (two, three) = checked-eq-ok (check_game input (game_id_of g ∷ seen) h) _ k in
      let new_g = check_game-unseen seen g one in
      let new_h = check_game-unseen (game_id_of g ∷ seen) h two in
      let apart : (game_id_of g == game_id_of h) ≡ false = ground arith in
      let first = check_game-moved seen (game_id_of g ∷ seen) h (ground arith) two in
      let second = check_game-moved (game_id_of h ∷ seen) seen g (ground arith) one in
      let rest =
        check_games-seen (game_id_of h ∷ game_id_of g ∷ seen) (game_id_of g ∷ game_id_of h ∷ seen)
          gs (λ n. ground arith) in
      (apart, rw (first, second, ← rest) three)

  check_games-Rearranged :
      {gs hs : List SeasonGameSelection} (seen : List ℕ)
      → Rearranged gs hs
      → check_games input seen gs ≡ ok tt
      → check_games input seen hs ≡ ok tt
  unfolding check_games
  check_games-Rearranged seen same e = e
  check_games-Rearranged seen (keep g r) e =
      let (one, rest) = checked-eq-ok (check_game input seen g) _ e in
      rw one (check_games-Rearranged (game_id_of g ∷ seen) r rest)
  check_games-Rearranged seen (swap {gs = gs} g h) e = (swap-passes seen g h gs e).1
  check_games-Rearranged seen (trans r q) e =
      check_games-Rearranged seen q (check_games-Rearranged seen r e)

  module _ {A : Type 0} (of : A → ℕ) (select : SeasonGameSelection → A)
      (of_game : (g : SeasonGameSelection) → of (select g) ≡ game_id_of g)
      (chosen : SeasonGameSelection → Bool) where
    abbrev by_game : List SeasonGameSelection → List A
    by_game gs = sort_by of (map select (filter chosen gs))

    by_game-keep :
        (g : SeasonGameSelection) (gs : List SeasonGameSelection)
        → by_game (g ∷ gs) ≡ (if chosen g then insert_by of (select g) (by_game gs) else by_game gs)
    by_game-keep g gs = ground arith

    by_game-swap :
        (g h : SeasonGameSelection) (gs : List SeasonGameSelection)
        → (game_id_of g == game_id_of h) ≡ false
        → by_game (g ∷ h ∷ gs) ≡ by_game (h ∷ g ∷ gs)
    by_game-swap g h gs apart =
        let differ : of (select g) ≢ of (select h) =
          λ e. absurd (ground (arith, of_game g, of_game h)) in
        let exchange = insert_by_comm of (select g) (select h) (by_game gs) differ in
        ground (
          arith,
          by_game-keep g (h ∷ gs),
          by_game-keep h (g ∷ gs),
          by_game-keep g gs,
          by_game-keep h gs,
        )

    by_game-Rearranged :
        {gs hs : List SeasonGameSelection} (seen : List ℕ)
        → Rearranged gs hs
        → check_games input seen gs ≡ ok tt
        → by_game gs ≡ by_game hs
    unfolding check_games
    by_game-Rearranged seen same e = refl
    by_game-Rearranged seen (keep {gs = gs} {hs = hs} g r) e =
        let (_, rest) = checked-eq-ok (check_game input seen g) _ e in
        by_game-keep g gs
        ∙ ap (λ xs. if chosen g then insert_by of (select g) xs else xs)
            (by_game-Rearranged (game_id_of g ∷ seen) r rest)
        ∙ sym (by_game-keep g hs)
    by_game-Rearranged seen (swap {gs = gs} g h) e =
        by_game-swap g h gs (swap-passes seen g h gs e).0
    by_game-Rearranged seen (trans r q) e =
        by_game-Rearranged seen r e ∙ by_game-Rearranged seen q (check_games-Rearranged seen r e)

map-same : (gs : List SeasonGameSelection) → map (λ g. g) gs ≡ gs
map-same [] = refl
map-same (g ∷ gs) = ap (λ xs. g ∷ xs) (map-same gs)

included-Rearranged :
    (input : SeasonStatisticsInput) {gs hs : List SeasonGameSelection}
    → Rearranged gs hs
    → check_games input [] gs ≡ ok tt
    → included_games (with_games gs input) ≡ included_games (with_games hs input)
included-Rearranged input {gs} {hs} r e =
    let chosen = is_included input.include_unverified in
    rw (← map-same (filter chosen gs), ← map-same (filter chosen hs))
      (by_game-Rearranged input game_id_of (λ g. g) (λ g. refl) chosen [] r e)

excluded-Rearranged :
    (input : SeasonStatisticsInput) {gs hs : List SeasonGameSelection}
    → Rearranged gs hs
    → check_games input [] gs ≡ ok tt
    → excluded_game_ids (with_games gs input) ≡ excluded_game_ids (with_games hs input)
excluded-Rearranged input r e =
    by_game-Rearranged input (λ n. n) game_id_of (λ g. refl)
      (λ g. not (is_included input.include_unverified g)) [] r e

-- The games of a season may be given in any order: if they pass the checks in one order they pass
-- them in another, and the season that is derived is the same, or the same error.
pub derive_season_statistics-Rearranged :
    (input : SeasonStatisticsInput) (gs hs : List SeasonGameSelection)
    → Rearranged gs hs
    → check_games input [] gs ≡ ok tt
    → (check_games input [] hs ≡ ok tt)
      × (derive_season_statistics (with_games gs input)
          ≡ derive_season_statistics (with_games hs input))
unfolding derive_season_statistics
derive_season_statistics-Rearranged input gs hs r e =
    let passes = check_games-Rearranged input [] r e in
    (
      passes,
      rw
          (
            check_games-with_games input gs [] gs,
            check_games-with_games input hs [] hs,
            e,
            passes,
            included-Rearranged input r e,
            excluded-Rearranged input r e,
          )
          refl,
    )
