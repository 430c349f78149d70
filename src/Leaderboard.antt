-- ===== src/Leaderboard.antt =====
-- internal/leaderboard/repo.go: the best laps on a track, and a player's best laps. The queries read
-- the tables that the results writer fills. A display name belongs to a player, so the rows are grouped
-- by player.
pub mod Groups
pub mod Ranking
pub mod Personal
pub mod Handler
use car_video_game_backend.Base.{
  ℕ, suc, ◌+◌, min, ℤ, pos, pos_part, ltb_ℤ, List, [], ◌∷◌, Option, none, some, Bool, true, false,
  ltb, ◌==◌, if◌then◌else◌, Dict, lookup, insert, take,
}
use car_video_game_backend.Framing.{Bytes}
use car_video_game_backend.Race.Model.{Uuid, Time}
use car_video_game_backend.Results.{RaceRow, ResultRow, Pairs, RaceTables}
use car_video_game_backend.RaceHistory.{Names}

-- Entry
pub record BoardEntry : Type 0 where
  pub rank : ℕ
  pub player_id : Uuid
  pub display_name : Bytes
  pub best_lap_ms : ℕ
  pub achieved_at : Time

-- Track of this package
pub record TrackInfo : Type 0 where
  pub track_id : Uuid
  pub name : Bytes

-- A row that the WHERE lets through: its lap is there and positive.
pub record LapRow : Type 0 where
  pub player_id : Uuid
  pub display_name : Bytes
  pub lap : ℕ
  pub created_at : Time

-- A group: a player with MIN(best_lap_ms) and MIN(created_at).
pub record Best : Type 0 where
  pub display_name : Bytes
  pub lap : ℕ
  pub achieved_at : Time

-- LoadTrack; `none` is pgx.ErrNoRows.
unfoldable pub load_track : Names → (id : Uuid) → Option TrackInfo
load_track names id = elim (names.track_name id) [
  | none ↦ none
  | some name ↦ some (record { track_id = id; name = name })
]

-- rr.best_lap_ms IS NOT NULL AND rr.best_lap_ms > 0
abbrev pub positive_lap : Option ℤ → Option ℕ
positive_lap (some (pos (suc n))) = some (suc n)
positive_lap _ = none

abbrev pub on_track : Option RaceRow → Uuid → Bool
on_track none track_id = false
on_track (some race) track_id = race.track_id == track_id

-- The WHERE and the JOIN of one result.
abbrev pub join_lap : Names → (player_id : Uuid) → ResultRow → List LapRow → List LapRow
join_lap names player_id row others = elim (names.display_name player_id) [
  | none ↦ others
  | some name ↦ elim (positive_lap row.best_lap_ms) [
    | none ↦ others
    | some lap ↦
        record {
          player_id = player_id;
          display_name = name;
          lap = lap;
          created_at = row.created_at;
        }
        ∷ others
  ]
]

unfoldable pub lap_rows : Names → RaceTables → (track_id : Uuid) → Pairs ResultRow → List LapRow
lap_rows names t track_id [] = []
lap_rows names t track_id ((race_id, q, row) ∷ rest) =
    let others = lap_rows names t track_id rest in
    if on_track (lookup race_id t.races) track_id then join_lap names q row others else others

-- One more row of a group.
abbrev pub merge : LapRow → Option Best → Best
merge l none = record { display_name = l.display_name; lap = l.lap; achieved_at = l.created_at }
merge l (some b) = record {
  display_name = l.display_name;
  lap = min l.lap b.lap;
  achieved_at = min l.created_at b.achieved_at;
}

-- GROUP BY
unfoldable pub group : List LapRow → Dict Best
group [] = []
group (l ∷ ls) = let rest = group ls in insert l.player_id (merge l (lookup l.player_id rest)) rest

-- ORDER BY best_lap_ms ASC
unfoldable pub insert_asc : Uuid × Best → List (Uuid × Best) → List (Uuid × Best)
insert_asc g [] = g ∷ []
insert_asc g (h ∷ rows) =
    let rest = insert_asc g rows in if ltb h.1.lap g.1.lap then h ∷ rest else g ∷ h ∷ rows

unfoldable pub order_by_lap : Dict Best → List (Uuid × Best)
unfolding insert_asc
order_by_lap [] = []
order_by_lap (g ∷ rows) = insert_asc g (order_by_lap rows)

-- The loop over the rows, from a rank on.
unfoldable pub number : (rank : ℕ) → List (Uuid × Best) → List BoardEntry
number rank [] = []
number rank ((player_id, b) ∷ rows) =
    record {
      rank = rank;
      player_id = player_id;
      display_name = b.display_name;
      best_lap_ms = b.lap;
      achieved_at = b.achieved_at;
    }
    ∷ number (rank + 1) rows

abbrev pub board_size : ℤ → ℕ
board_size n = if ltb_ℤ (pos 0) n then pos_part n else 10

-- BestLapsByTrack; `none` is an error of the query.
unfoldable pub best_laps_by_track :
    (fails : Bool) → Names → RaceTables → (track_id : Uuid) → (n : ℤ) → Option (List BoardEntry)
unfolding lap_rows group order_by_lap number
best_laps_by_track fails names t track_id n =
    if fails
    then none
    else some (
        number 1
          (take (board_size n) (order_by_lap (group (lap_rows names t track_id t.race_results)))))

-- The minimum of a group of PlayerBestPerTrack.
abbrev pub min_lap : ℕ → Option ℕ → ℕ
min_lap lap none = lap
min_lap lap (some old) = min lap old

abbrev pub add_best : Option RaceRow → Option ℕ → Dict ℕ → Dict ℕ
add_best (some race) (some lap) others =
    insert race.track_id (min_lap lap (lookup race.track_id others)) others
add_best _ _ others = others

unfoldable pub bests_of : RaceTables → (player_id : Uuid) → Pairs ResultRow → Dict ℕ
bests_of t player_id [] = []
bests_of t player_id ((race_id, q, row) ∷ rest) =
    let others = bests_of t player_id rest in
    if q == player_id
    then add_best (lookup race_id t.races) (positive_lap row.best_lap_ms) others
    else others

-- PlayerBestPerTrack
unfoldable pub player_best_per_track :
    (fails : Bool) → RaceTables → (player_id : Uuid) → Option (Dict ℕ)
unfolding bests_of
player_best_per_track fails t player_id =
    if fails then none else some (bests_of t player_id t.race_results)
