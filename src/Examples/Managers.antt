-- ===== src/Examples/Managers.antt =====
-- The manager's theorems on a manager with one race.
use car_video_game_backend.Base.{
  ℕ, ◌≡◌, refl, pos, [], ◌∷◌, Option, none, some, true, lookup, insert, ◌==◌, if◌then◌else◌,
}
use car_video_game_backend.Race.Model.{Track, PlayerState, Race, finished}
use car_video_game_backend.Race.Roster.{new, add_player}
use car_video_game_backend.Race.Manager.{
  Manager, joined, refused, panicked, Moment, new_manager, race_of_match, register_player, new_race,
  add_to, cleanup_finished,
}
use car_video_game_backend.Race.Manager.Registry.{WellFormed}
use car_video_game_backend.Race.Manager.Joins.{register_player_joins}
use car_video_game_backend.Race.Manager.Cleanup.{register_player_after_cleanup}
use car_video_game_backend.Examples.Toy.{toy, oval, one_player, one_player-Inv}

abbrev tracks : ℕ → Option (Track toy)
tracks match_id = some oval

abbrev moment : Moment
moment = record { new_id = 1; created_at = 1_000; started_at = 1_000; lap_started_at = 1_000 }

abbrev empty_manager : Manager toy
empty_manager = new_manager toy (pos 0) (pos 0) (pos 0) true

empty_manager-WellFormed : WellFormed empty_manager
unfolding new_manager
empty_manager-WellFormed = record { heap = tt; races = tt; matched = tt }

abbrev joined_manager : Manager toy
joined_manager = (register_player toy empty_manager tracks 3 7 moment).0

joined_manager-reached :
    register_player toy empty_manager tracks 3 7 moment ≡ (joined_manager, joined 1)
unfolding register_player race_of_match new_race add_to new_manager new add_player lookup insert
joined_manager-reached = refl

register_player_joins_example :
    WellFormed joined_manager
    × (r : Race toy) × (p : PlayerState toy) × (race_of_match toy joined_manager 3 ≡ (some 1, true))
    × (lookup 1 joined_manager.heap ≡ some r)
    × (lookup 7 r.players ≡ some p)
    × ((j : ℕ)
        → (if 1 == j then none else lookup j joined_manager.heap)
          ≡ (if 1 == j then none else lookup j empty_manager.heap))
register_player_joins_example =
    register_player_joins toy empty_manager tracks 3 7 moment empty_manager-WellFormed
      joined_manager-reached

abbrev over : Race toy
over = record one_player { status = finished; done = true }

-- Match 3 leads to a race that has finished.
abbrev old_manager : Manager toy
old_manager = record {
  heap = (1, over) ∷ [];
  races = (1, 1) ∷ [];
  by_match = (3, 1) ∷ [];
  on_finish = true;
  tick_hz = 30;
  max_laps = 1;
  max_players = 4;
}

old_manager-WellFormed : WellFormed old_manager
unfolding lookup add_player new
old_manager-WellFormed = record {
  heap = (
    (
      refl,
      record {
        laps = one_player-Inv.laps;
        capped = one_player-Inv.capped;
        entries = one_player-Inv.entries;
      },
    ),
    tt,
  );
  races = ((refl, (over, refl)), tt);
  matched = ((over, refl), tt);
}

register_player_after_cleanup_example :
    ((register_player toy old_manager tracks 3 8 moment).1 ≡ refused)
    × (race_of_match toy (cleanup_finished toy old_manager) 3 ≡ (none, true))
    × (register_player toy (cleanup_finished toy old_manager) tracks 3 8 moment
        ≡ (cleanup_finished toy old_manager, panicked))
unfolding lookup
register_player_after_cleanup_example =
    register_player_after_cleanup toy old_manager tracks 3 8 1 moment over old_manager-WellFormed
      refl refl refl refl
