-- ===== src/Engine/Roster/Runners.antt =====
-- The runners stay sound through every lineup operation.
use baseballstattrack.Common.{
  ℕ, ◌≡◌, ◌≢◌, refl, inl, inr, true, some, List, [], ◌∷◌, is_some, find, nat_eq, lookup, erase, ok,
  arith, Option-cases,
}
use baseballstattrack.Events.Enums.{Base}
use baseballstattrack.Events.Equality.{
  side_eq, position_eq, base_eq, origin_eq, cause_eq, outcome_eq, credit_eq, play_type_eq,
  policy_eq, status_eq, destination_eq,
}
use baseballstattrack.Events.State.{at_side, Bases, at_base, LineupEntry, GameState}
use baseballstattrack.Events.Bodies.{Substitution, Alignment, PitchingChange}
use baseballstattrack.Common.{lookup-insert, lookup-erase}
use baseballstattrack.Events.Equality.{base_beq_iff}
use baseballstattrack.Engine.Movement.Placement.{at_base-put_base}
use baseballstattrack.Engine.Movement.Integrity.{RunnersSound}
use baseballstattrack.Engine.Roster.Frame.{
  make_substitution-Substituted, make_pitching_change-PitcherChanged,
}
use baseballstattrack.Engine.Roster.{
  take_base, replace_runner, base_held_by, is_player, substitute, make_substitution,
  change_alignment, change_pitcher, make_pitching_change,
}

abbrev pub OffBase : Bases → ℕ → Type 0
OffBase bases r = (b : Base) → at_base bases b ≢ some r

base_held_by-at_base :
    (r : ℕ) (bases : Bases) (b : Base) → base_held_by r bases ≡ some b → at_base bases b ≡ some r
base_held_by-at_base r bases b h = ground arith

pub RunnersSound-same :
    (state next : GameState)
    → next.bases ≡ state.bases
    → next.runner_pitcher_responsibility ≡ state.runner_pitcher_responsibility
    → RunnersSound state
    → RunnersSound next
RunnersSound-same state next e f sound = record {
  apart = λ b c r hb hc. sound.apart b c r (rw e at hb) (rw e at hc);
  tracked = λ b r h. rw f (sound.tracked b r (rw e at h));
}

module _ (state next : GameState) (outgoing incoming : ℕ) (b : Base) (pitcher_id : ℕ)
    (held : at_base state.bases b ≡ some outgoing)
    (fresh : (b : Base) → at_base state.bases b ≢ some incoming) (bases : next.bases ≡ state.bases)
    (charges : next.runner_pitcher_responsibility ≡ state.runner_pitcher_responsibility)
    (sound : RunnersSound state) where
  replaced-apart :
      (c d : Base) (r : ℕ)
      → at_base (replace_runner outgoing incoming b pitcher_id next).bases c ≡ some r
      → at_base (replace_runner outgoing incoming b pitcher_id next).bases d ≡ some r
      → c ≡ d
  replaced-apart c d r hc hd = ground (
    arith,
    at_base-put_base next.bases b (some incoming) c,
    at_base-put_base next.bases b (some incoming) d,
    sound.apart c d r,
    fresh c,
    fresh d,
    base_beq_iff b c,
    base_beq_iff b d,
  )

  replaced-tracked :
      (c : Base) (r : ℕ)
      → at_base (replace_runner outgoing incoming b pitcher_id next).bases c ≡ some r
      → is_some (
          lookup r
            (replace_runner outgoing incoming b pitcher_id next).runner_pitcher_responsibility)
        ≡ true
  replaced-tracked c r hc = ground (
    arith,
    at_base-put_base next.bases b (some incoming) c,
    sound.tracked c r,
    sound.apart b c r,
    base_beq_iff b c,
    lookup-insert r incoming pitcher_id (erase outgoing next.runner_pitcher_responsibility),
    lookup-erase r outgoing next.runner_pitcher_responsibility,
  )

find-is_player :
    (player : ℕ) (lineup : List LineupEntry) (entry : LineupEntry)
    → find (is_player player) lineup ≡ some entry
    → entry.player_id ≡ player
find-is_player player [] entry h = cc
find-is_player player (e ∷ lineup) entry h = ground (arith, find-is_player player lineup entry)

take_base-RunnersSound :
    (state next after : GameState) (outgoing incoming : ℕ)
    → take_base state outgoing incoming next ≡ ok after
    → OffBase state.bases incoming
    → next.bases ≡ state.bases
    → next.runner_pitcher_responsibility ≡ state.runner_pitcher_responsibility
    → RunnersSound state
    → RunnersSound after
unfolding take_base
take_base-RunnersSound state next after outgoing incoming h fresh e f sound =
    elim (Option-cases (base_held_by outgoing state.bases)) [
      | inl off ↦ RunnersSound-same state after (ground arith) (ground arith) sound
      | inr (b, held) ↦ elim (Option-cases (lookup outgoing state.runner_pitcher_responsibility)) [
        | inl missing ↦ absurd (ground arith)
        | inr (pitcher_id, charged) ↦
            let e' : after ≡ replace_runner outgoing incoming b pitcher_id next = ground arith in
            rw e' (
              replaced-RunnersSound b pitcher_id (base_held_by-at_base outgoing state.bases b held))
      ]
    ]
  where
    replaced-RunnersSound :
        (b : Base) (pitcher_id : ℕ)
        → at_base state.bases b ≡ some outgoing
        → RunnersSound (replace_runner outgoing incoming b pitcher_id next)
    replaced-RunnersSound b pitcher_id held = record {
      apart = replaced-apart state next outgoing incoming b pitcher_id held fresh e f sound;
      tracked = replaced-tracked state next outgoing incoming b pitcher_id held fresh e f sound;
    }

pub substitution-RunnersSound :
    (state : GameState) (s : Substitution) (next : GameState)
    → make_substitution state s ≡ ok next
    → OffBase state.bases s.incoming_player_id
    → RunnersSound state
    → RunnersSound next
unfolding substitute
substitution-RunnersSound state s next h fresh sound =
    let r = make_substitution-Substituted state s h in
    take_base-RunnersSound state (substitute state s r.outgoing r.incoming) next
      r.outgoing.player_id r.incoming.player_id r.placed
      (rw
        (find-is_player s.incoming_player_id (at_side state.lineups s.side) r.incoming
          r.found_incoming)
        fresh)
      refl refl sound

pub alignment-RunnersSound :
    (state : GameState) (a : Alignment) (next : GameState)
    → change_alignment state a ≡ ok next
    → RunnersSound state
    → RunnersSound next
unfolding change_alignment
alignment-RunnersSound state a next h sound =
    RunnersSound-same state next (ground arith) (ground arith) sound

pub pitching_change-RunnersSound :
    (state : GameState) (c : PitchingChange) (next : GameState)
    → make_pitching_change state c ≡ ok next
    → RunnersSound state
    → RunnersSound next
unfolding change_pitcher
pitching_change-RunnersSound state c next h sound =
    let r = make_pitching_change-PitcherChanged state c h in
    RunnersSound-same state next (ground (arith, r.changed)) (ground (arith, r.changed)) sound
