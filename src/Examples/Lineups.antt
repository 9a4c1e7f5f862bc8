-- ===== src/Examples/Lineups.antt =====
-- A roster of two in the lineup editor.
use skorekeeper.Common.{arith, [], ◌∷◌, some, none, ◌≡◌, refl}
use skorekeeper.Common.Text.{is_blank}
use skorekeeper.Game.{State, away, both, side}
use skorekeeper.Lineup.{
  LineupState, Group, take_out, put_in, move_player, saved_roster, get_initial_lineup_state,
}
use skorekeeper.Lineup.Moves.{move_player-move_player}
use skorekeeper.Lineup.Saving.{AreSettled, saved_roster-get_initial_lineup_state}
use skorekeeper.Examples.Data.{player, lead_off, second_slot, in_progress}

abbrev lineup : LineupState
lineup = record { starters = player "p1" ∷ player "p2" ∷ []; subs = player "p3" ∷ [] }

abbrev benched : LineupState
benched = record { starters = player "p2" ∷ []; subs = player "p3" ∷ player "p1" ∷ [] }

benched_test : move_player 0 Group.starter 1 Group.sub lineup ≡ some benched
unfolding move_player take_out put_in
benched_test = refl

move_player-move_player_example : move_player 1 Group.sub 0 Group.starter benched ≡ some lineup
move_player-move_player_example =
    move_player-move_player 0 1 Group.starter Group.sub lineup benched benched_test (omega arith)

abbrev numbered : State
numbered = record in_progress {
  roster = both (record lead_off { slot = 0 } ∷ record second_slot { slot = 1 } ∷ []);
}

numbered-AreSettled : AreSettled (side away numbered.roster) 0 (side away numbered.roster)
unfolding is_blank
numbered-AreSettled = (refl, refl, refl, λ _. refl, (refl, refl, refl, λ _. refl, tt))

saved_roster-get_initial_lineup_state_example :
    saved_roster
      (get_initial_lineup_state (λ n. "new") none numbered away)
      (side away numbered.roster)
    ≡ side away numbered.roster
saved_roster-get_initial_lineup_state_example =
    saved_roster-get_initial_lineup_state (λ n. "new") none numbered away numbered-AreSettled
