-- ===== src/Examples/Feeds.antt =====
-- The history of a short log.
use skorekeeper.Common.{
  String, Bool, true, false, List, [], ◌∷◌, ◌++◌, map, get_elem?, length, get_or, none, some, ◌≡◌,
  refl,
}
use skorekeeper.Game.{PerTeam, away, Action, Body, initial_state, PitchType}
use skorekeeper.Feed.{Item, body_ctx, items_of, build_feed}
use skorekeeper.Feed.Items.{IsSeries, build_feed-IsSeries}
use skorekeeper.Feed.Routed.{events_in, assigned, build_feed-events}
use skorekeeper.Feed.Rows.{
  Row, play, bottom, insert_headers, under, own_heading, under-insert_headers,
}
use skorekeeper.Feed.Narrative.{map_internal_state_to_narrative}
use skorekeeper.Feed.Snapshots.{Snap, propagate_from, apply_events}
use skorekeeper.Edits.{apply_pitcher_update}
use skorekeeper.Reducer.{game_reducer}
use skorekeeper.Feed.Replayed.{live_events, ShowsState, propagate_from-before}
use skorekeeper.Examples.Data.{ctx, pitch_of, double_play, add_inning, new_pitcher, move}

abbrev threw : Action
threw = record { id = "f1"; body = Body.pitch (pitch_of PitchType.ball) }

abbrev grounded : Action
grounded = record { id = "f2"; body = Body.play_result double_play }

abbrev cleared : Action
cleared = record {
  id = "f3";
  body = Body.clear_data (record { active_ctx = ctx; active_team = away; batter_id = "p1" });
}

abbrev moved : Action
moved = record { id = "f4"; body = Body.move_play move }

abbrev key : String
key = "1-away-0-col-1-0"

abbrev plays : List Action
plays = add_inning ∷ threw ∷ grounded ∷ cleared ∷ threw ∷ []

build_feed-IsSeries_example :
    IsSeries key 0 (items_of key (build_feed (plays ++ moved ∷ [])).history)
build_feed-IsSeries_example = build_feed-IsSeries (plays ++ moved ∷ []) key

build_feed-events_example :
    events_in (items_of key (build_feed plays).history) ≡ assigned key none plays
build_feed-events_example = build_feed-events plays key (refl, (refl, (refl, (refl, (refl, tt)))))

abbrev names : PerTeam String
names = record { of_away = "Owls"; of_home = "" }

abbrev item : String → Bool → Item
item k struck = record {
  id = k;
  ctx_key = k;
  is_stricken = struck;
  was_cleared = false;
  is_correction = false;
  events = threw ∷ [];
}

abbrev two_sides : List Item
two_sides = item key false ∷ item "1-home-0-col-1-0" true ∷ item "2-away-1-col-2-0" false ∷ []

under-insert_headers_example :
    under (none, bottom) (insert_headers names two_sides) ≡ map (λ h. (h, own_heading h)) two_sides
under-insert_headers_example = under-insert_headers names two_sides

abbrev pitching : Bool → Row
pitching struck = play (record (item key struck) { events = new_pitcher ∷ [] })

abbrev above : List Row
above = pitching true ∷ pitching false ∷ []

abbrev shown_rows : List Snap
shown_rows = get_or (propagate_from initial_state (above ++ pitching false ∷ [])) []

shown : propagate_from initial_state (above ++ pitching false ∷ []) ≡ some shown_rows
unfolding propagate_from map_internal_state_to_narrative apply_events game_reducer body_ctx
    apply_pitcher_update
shown = refl

propagate_from-before_example :
    ShowsState initial_state
      (live_events above)
      (pitching false)
      (get_elem? shown_rows (length above))
propagate_from-before_example =
    propagate_from-before above (pitching false) [] initial_state shown_rows shown
