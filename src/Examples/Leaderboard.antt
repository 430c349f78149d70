-- ===== src/Examples/Leaderboard.antt =====
-- The theorems on the leaderboard, on one track with two players.
use car_video_game_backend.Base.{
  ℕ, ℤ, ◌≡◌, refl, pos, [], ◌∷◌, Option, some, false, lookup, insert, Dict,
}
use car_video_game_backend.Results.{RaceRow, ResultRow, RaceTables, finished}
use car_video_game_backend.RaceHistory.{Names}
use car_video_game_backend.Leaderboard.{
  BoardEntry, lap_rows, group, insert_asc, order_by_lap, number, board_size, best_laps_by_track,
  bests_of, player_best_per_track,
}
use car_video_game_backend.Leaderboard.Groups.{best_of}
use car_video_game_backend.Leaderboard.Ranking.{IsTop, best_laps_by_track-IsTop}
use car_video_game_backend.Leaderboard.Personal.{player_best_per_track-lookup}

abbrev names : Names
names = record { track_name = λ id. some (79 ∷ []); display_name = λ id. some (65 ∷ []) }

abbrev lap : Option ℤ → (created_at : ℕ) → ResultRow
lap best created_at = record {
  position = pos 1;
  total_time_ms = pos 80;
  best_lap_ms = best;
  created_at = created_at;
}

abbrev race_row : RaceRow
race_row = record { track_id = 5; status = finished; started_at = some 10; finished_at = some 90 }

-- Player 7 is fastest in the second race, player 8 in its only one; player 9 has no lap.
abbrev laps : RaceTables
laps = record {
  races = (4, race_row) ∷ (6, race_row) ∷ [];
  race_players = [];
  race_results =
      (4, 7, lap (some (pos 40)) 1)
      ∷ (6, 7, lap (some (pos 35)) 2)
      ∷ (6, 8, lap (some (pos 38)) 3)
      ∷ (6, 9, lap (some (pos 0)) 4)
      ∷ [];
}

abbrev entry : ℕ → (player_id best_lap_ms achieved_at : ℕ) → BoardEntry
entry rank player_id best_lap_ms achieved_at = record {
  rank = rank;
  player_id = player_id;
  display_name = 65 ∷ [];
  best_lap_ms = best_lap_ms;
  achieved_at = achieved_at;
}

-- A nonpositive size is ten.
whole_board :
    best_laps_by_track false names laps 5 (pos 0) ≡ some (entry 1 7 35 1 ∷ entry 2 8 38 3 ∷ [])
unfolding best_laps_by_track lap_rows group order_by_lap insert_asc number lookup insert
whole_board = refl

best_laps_by_track-IsTop_example :
    IsTop (board_size (pos 1)) (lap_rows names laps 5 laps.race_results) (entry 1 7 35 1 ∷ [])
unfolding best_laps_by_track lap_rows group order_by_lap insert_asc number lookup insert
best_laps_by_track-IsTop_example =
    best_laps_by_track-IsTop names laps 5 (pos 1) (entry 1 7 35 1 ∷ []) refl

abbrev bests : Dict ℕ
bests = (5, 35) ∷ []

player_best_per_track-lookup_example :
    lookup 5 bests ≡ best_of (lap_rows names laps 5 laps.race_results) 7
unfolding player_best_per_track bests_of lookup insert
player_best_per_track-lookup_example =
    player_best_per_track-lookup names laps 7 5 (65 ∷ []) refl bests refl
