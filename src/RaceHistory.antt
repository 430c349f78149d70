-- ===== src/RaceHistory.antt =====
-- internal/racehistory/repo.go: a player's races, page by page, and one race. The
-- queries read the tables that the results writer fills; the names of tracks and players are two
-- functions, with `none` where the JOIN finds no row.
pub mod Cursors
pub mod Pages
pub mod Handler
pub mod Missing
use car_video_game_backend.Base.{
  ℕ, ℤ, pos, ltb_ℤ, pos_part, List, [], ◌∷◌, Option, none, some, Bool, true, false, not, ◌&&◌, ◌||◌,
  ltb, leb, ◌==◌, if◌then◌else◌, length, take, map, lookup,
}
use car_video_game_backend.Framing.{Bytes}
use car_video_game_backend.Race.Model.{Uuid, Time}
use car_video_game_backend.Matchmaking.Token.{is_empty}
use car_video_game_backend.Results.{RowStatus, RaceRow, ResultRow, Pairs, RaceTables}
use car_video_game_backend.Auth.Access.{Context, player_id_from_context}

-- PlayerRace, in the JSON of a page.
pub record PlayerRace : Type 0 where
  pub race_id : Uuid
  pub track_id : Uuid
  pub track_name : Bytes
  pub finished_at : Option Time
  pub position : ℤ
  pub total_time_ms : ℤ
  pub best_lap_ms : ℤ

pub record PlayerHistoryPage : Type 0 where
  pub races : List PlayerRace
  pub next_cursor : Option Time

-- ResultRow of this package.
pub record DetailRow : Type 0 where
  pub player_id : Uuid
  pub display_name : Bytes
  pub position : ℤ
  pub total_time_ms : ℤ
  pub best_lap_ms : ℤ

pub record RaceDetail : Type 0 where
  pub race_id : Uuid
  pub track_id : Uuid
  pub track_name : Bytes
  pub status : RowStatus
  pub started_at : Option Time
  pub finished_at : Option Time
  pub results : List DetailRow

-- The rows of the other tables that the queries join.
pub record Names : Type 0 where
  pub track_name : Uuid → Option Bytes
  pub display_name : Uuid → Option Bytes

-- A row of the first query, which has a finish time.
pub record HistoryRow : Type 0 where
  pub race_id : Uuid
  pub track_id : Uuid
  pub track_name : Bytes
  pub finished_at : Time
  pub result : ResultRow

-- COALESCE(best_lap_ms, 0)
abbrev pub coalesce : Option ℤ → ℤ
coalesce none = pos 0
coalesce (some n) = n

abbrev pub scan : HistoryRow → PlayerRace
scan h = record {
  race_id = h.race_id;
  track_id = h.track_id;
  track_name = h.track_name;
  finished_at = some h.finished_at;
  position = h.result.position;
  total_time_ms = h.result.total_time_ms;
  best_lap_ms = coalesce h.result.best_lap_ms;
}

-- The JOINs of one result, for a race that has finished.
abbrev pub join_race : Names → (race_id : Uuid) → ResultRow → Option RaceRow → List HistoryRow
join_race names race_id row none = []
join_race names race_id row (some race) = elim race.finished_at [
  | none ↦ []
  | some finished_at ↦ elim (names.track_name race.track_id) [
    | none ↦ []
    | some name ↦
        record {
          race_id = race_id;
          track_id = race.track_id;
          track_name = name;
          finished_at = finished_at;
          result = row;
        }
        ∷ []
  ]
]

-- ORDER BY finished_at DESC; rows of one time stand in the order of the table.
unfoldable pub insert_desc : HistoryRow → List HistoryRow → List HistoryRow
insert_desc h [] = h ∷ []
insert_desc h (g ∷ rows) =
    let rest = insert_desc h rows in
    if ltb h.finished_at g.finished_at then g ∷ rest else h ∷ g ∷ rows

abbrev pub insert_all : List HistoryRow → List HistoryRow → List HistoryRow
insert_all [] rows = rows
insert_all (h ∷ hs) rows = insert_desc h (insert_all hs rows)

module _ (names : Names) (t : RaceTables) where
  unfoldable pub rows_of : (player_id : Uuid) → Pairs ResultRow → List HistoryRow
  unfolding insert_desc
  rows_of player_id [] = []
  rows_of player_id ((race_id, q, row) ∷ rest) =
      let others = rows_of player_id rest in
      if q == player_id
      then insert_all (join_race names race_id row (lookup race_id t.races)) others
      else others

-- AND finished_at < $2, which leaves the order as it is.
unfoldable pub before : Option Time → List HistoryRow → List HistoryRow
before none rows = rows
before (some c) [] = []
before (some c) (h ∷ rows) =
    let rest = before (some c) rows in if ltb h.finished_at c then h ∷ rest else rest

abbrev pub page_size : ℤ → ℕ
page_size limit =
    if ltb_ℤ (pos 0) limit then (if ltb 100 (pos_part limit) then 100 else pos_part limit) else 20

abbrev pub last_race : List PlayerRace → Option PlayerRace
last_race [] = none
last_race (r ∷ []) = some r
last_race (r ∷ s ∷ rs) = last_race (s ∷ rs)

abbrev pub cursor_of : Option PlayerRace → Option Time
cursor_of none = none
cursor_of (some r) = r.finished_at

abbrev pub page_of : ℕ → List PlayerRace → PlayerHistoryPage
page_of n races = record {
  races = races;
  next_cursor = if length races == n then cursor_of (last_race races) else none;
}

-- ListByPlayer; `none` is an error of the query.
unfoldable pub list_by_player :
    (fails : Bool)
    → Names
    → RaceTables
    → (player_id : Uuid) → (cursor : Option Time) → (limit : ℤ) → Option PlayerHistoryPage
unfolding rows_of before
list_by_player fails names t player_id cursor limit =
    if fails
    then none
    else some (
        page_of (page_size limit) (
          map scan
            (take (page_size limit) (before cursor (rows_of names t player_id t.race_results)))))

-- The errors of GetRace, and the sentinel of this package.
pub data HistoryError : Type 0 where
  no_rows not_found query_failed : HistoryError

pub data Got : Type 0 where
  got : RaceDetail → Got
  missing : HistoryError → Got

unfoldable pub translate_error : HistoryError → HistoryError
translate_error no_rows = not_found
translate_error err = err

-- ORDER BY position ASC
unfoldable pub insert_by_position : DetailRow → List DetailRow → List DetailRow
insert_by_position d [] = d ∷ []
insert_by_position d (e ∷ rows) =
    let rest = insert_by_position d rows in
    if ltb_ℤ e.position d.position then e ∷ rest else d ∷ e ∷ rows

module _ (names : Names) where
  unfoldable pub details_of : (race_id : Uuid) → Pairs ResultRow → List DetailRow
  unfolding insert_by_position
  details_of race_id [] = []
  details_of race_id ((r, q, row) ∷ rest) =
      let others = details_of race_id rest in
      if r == race_id
      then elim (names.display_name q) [
        | none ↦ others
        | some name ↦
            insert_by_position
              (record {
                player_id = q;
                display_name = name;
                position = row.position;
                total_time_ms = row.total_time_ms;
                best_lap_ms = coalesce row.best_lap_ms;
              })
              others
      ]
      else others

  abbrev detail : RaceTables → (race_id : Uuid) → RaceRow → (name : Bytes) → RaceDetail
  detail t race_id race name = record {
    race_id = race_id;
    track_id = race.track_id;
    track_name = name;
    status = race.status;
    started_at = race.started_at;
    finished_at = race.finished_at;
    results = details_of race_id t.race_results;
  }

  -- GetRace; the second query runs after the first.
  unfoldable pub get_race : (race_fails results_fail : Bool) → RaceTables → (race_id : Uuid) → Got
  unfolding details_of
  get_race race_fails results_fail t race_id =
      if race_fails then missing query_failed else elim (lookup race_id t.races) [
        | none ↦ missing no_rows
        | some race ↦ elim (names.track_name race.track_id) [
          | none ↦ missing no_rows
          | some name ↦
              if results_fail then missing query_failed else got (detail t race_id race name)
        ]
      ]
