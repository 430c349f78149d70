-- ===== src/Examples/Storage.antt =====
-- The theorems on stored races, the game server's pool and the race history, at one race.
use car_video_game_backend.Base.{
  take, ◌≢◌, All, length, ap, ℕ, ◌≡◌, refl, pos, [], ◌∷◌, none, some, true, false, arith, map,
  lookup,
}
use car_video_game_backend.Race.Manager.{Manager}
use car_video_game_backend.Networking.Sessions.{SessionRegistry}
use car_video_game_backend.Networking.Subscriptions.{new_subscriptions}
use car_video_game_backend.Results.{
  WriteRequest, RaceRow, ResultRow, RaceTables, Attempt, finished, persist_race_finish,
}
use car_video_game_backend.Results.Stored.{OnPersisted, persist_race_finish_stores}
use car_video_game_backend.GameServer.{new_broadcaster_pool, watch_tick, tick, follow_subscriptions}
use car_video_game_backend.GameServer.Pool.{count, watch, watch_tick_spawns_once}
use car_video_game_backend.GameServer.Following.{or_else, first_seen, follow_subscriptions-lookup}
use car_video_game_backend.RaceHistory.{
  PlayerRace, PlayerHistoryPage, before, list_by_player, page_size, cursor_of, last_race, Names,
  scan, rows_of, insert_desc,
}
use car_video_game_backend.RaceHistory.Pages.{walk, walk_skips_ties}
use car_video_game_backend.Examples.Toy.{toy}

abbrev attempt : Attempt
attempt = record {
  started_now = 1;
  finished_now = 2;
  db_now = 3;
  has_track = λ id. true;
  has_player = λ id. true;
  fails = λ s. false;
}

-- A player's win, and its worse result that follows.
abbrev request : WriteRequest
request = record {
  race_id = 4;
  track_id = 5;
  started_at = 10;
  finished_at = 90;
  results =
      record { player_id = 7; position = pos 1; total_time_ms = pos 80; best_lap_ms = pos 0 }
      ∷ record { player_id = 8; position = pos 2; total_time_ms = pos 85; best_lap_ms = pos 40 }
      ∷ [];
}

abbrev empty : RaceTables
empty = record { races = []; race_players = []; race_results = [] }

persist_race_finish_stores_example :
    OnPersisted attempt request empty (persist_race_finish attempt request empty)
persist_race_finish_stores_example = persist_race_finish_stores attempt request empty

abbrev manager : Manager toy
manager = record {
  heap = [];
  races = (4, 4) ∷ [];
  by_match = [];
  on_finish = true;
  tick_hz = 30;
  max_laps = 1;
  max_players = 4;
}

watch_tick_spawns_once_example :
    count 4
      (watch_tick toy
        (watch toy new_broadcaster_pool ((manager, 4 ∷ []) ∷ []))
        manager
        (4 ∷ [])).0.spawned
    ≡ 1
unfolding lookup
watch_tick_spawns_once_example =
    watch_tick_spawns_once toy ((manager, 4 ∷ []) ∷ []) manager (4 ∷ []) 4 4 refl refl

-- Player 7 in race 4, at an address.
abbrev sessions : (key : ℕ) → SessionRegistry
sessions key = record {
  addr = (key, 7) ∷ [];
  player = (7, record { race = some 4; key = some key }) ∷ [];
}

-- The player's second address is not taken.
follow_subscriptions-lookup_example :
    lookup 7
      (follow_subscriptions 0 some 4 new_subscriptions
        (tick (sessions 50) ∷ tick (sessions 60) ∷ [])).by
    ≡ or_else
        (lookup 7 new_subscriptions.by)
        (first_seen 0 some 4 (tick (sessions 50) ∷ tick (sessions 60) ∷ []) 7)
follow_subscriptions-lookup_example =
    follow_subscriptions-lookup 0 some 4 new_subscriptions
      (tick (sessions 50) ∷ tick (sessions 60) ∷ []) 7

abbrev names : Names
names = record { track_name = λ id. some (79 ∷ []); display_name = λ id. some (65 ∷ []) }

abbrev result : ResultRow
result = record { position = pos 1; total_time_ms = pos 80; best_lap_ms = none; created_at = 3 }

abbrev race_at : ℕ → RaceRow
race_at time = record {
  track_id = 5;
  status = finished;
  started_at = some 10;
  finished_at = some time;
}

-- Three races of player 7, one a page.
abbrev history : RaceTables
history = record {
  races = (4, race_at 90) ∷ (6, race_at 95) ∷ (8, race_at 70) ∷ [];
  race_players = [];
  race_results = (4, 7, result) ∷ (6, 7, result) ∷ (8, 7, result) ∷ [];
}

-- Two races of player 7 finished at one time, and a page holds one.
abbrev tied : RaceTables
tied = record history { races = (4, race_at 90) ∷ (6, race_at 90) ∷ (8, race_at 70) ∷ [] }

abbrev shown_race : (race_id : ℕ) → PlayerRace
shown_race race_id = record {
  race_id = race_id;
  track_id = 5;
  track_name = 79 ∷ [];
  finished_at = some 90;
  position = pos 1;
  total_time_ms = pos 80;
  best_lap_ms = pos 0;
}

abbrev first_page : PlayerHistoryPage
first_page = record { races = shown_race 4 ∷ []; next_cursor = some 90 }

-- Race 6 is a row of the query without a limit.
tied_rows :
    take 2 (map scan (rows_of names tied 7 tied.race_results)) ≡ shown_race 4 ∷ shown_race 6 ∷ []
unfolding rows_of insert_desc lookup
tied_rows = refl

walk_skips_ties_example :
    (length first_page.races ≡ page_size (pos 1))
    × (cursor_of (last_race first_page.races) ≡ some 90)
    × All (λ p. p ≢ shown_race 6) (walk names tied 7 (pos 1) 4 none)
unfolding list_by_player rows_of insert_desc before lookup
walk_skips_ties_example =
    walk_skips_ties names tied 7 (pos 1) 3 none first_page 90 (shown_race 6) refl refl refl
      ((λ same. absurd (omega (arith, ap (λ p. p.race_id) same))), tt)
