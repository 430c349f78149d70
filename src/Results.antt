-- ===== src/Results.antt =====
-- internal/results/writer.go: the transaction that stores a finished race. The tables race_players and
-- race_results are keyed by their UNIQUE (race_id, player_id). The tables tracks and players, which the
-- rows refer to, are two tests.
pub mod Rows
pub mod Stored
pub mod Retry
use car_video_game_backend.Base.{
  ◌||◌, ℤ, pos, List, [], ◌∷◌, Option, none, some, Bool, true, false, not, ◌&&◌, ◌==◌,
  if◌then◌else◌, Dict, lookup, insert,
}
use car_video_game_backend.Race.Model.{Uuid, Time}

pub record Entry : Type 0 where
  pub player_id : Uuid
  pub position : ℤ
  pub total_time_ms : ℤ
  pub best_lap_ms : ℤ

-- The zero time is 0.
pub record WriteRequest : Type 0 where
  pub race_id : Uuid
  pub track_id : Uuid
  pub started_at : Time
  pub finished_at : Time
  pub results : List Entry

pub data RowStatus : Type 0 where
  pending in_progress finished cancelled : RowStatus

pub record RaceRow : Type 0 where
  pub track_id : Uuid
  pub status : RowStatus
  pub started_at : Option Time
  pub finished_at : Option Time

pub record ParticipantRow : Type 0 where
  pub finish_position : Option ℤ
  pub finished_at : Option Time

pub record ResultRow : Type 0 where
  pub position : ℤ
  pub total_time_ms : ℤ
  pub best_lap_ms : Option ℤ
  pub created_at : Time

-- A table of rows with a key of two parts, each of which stands once.
abbrev pub Pairs : Type 0 → Type 0
Pairs V = List (Uuid × Uuid × V)

pub record RaceTables : Type 0 where
  pub races : Dict RaceRow
  pub race_players : Pairs ParticipantRow
  pub race_results : Pairs ResultRow

module _ {V : Type 0} where
  unfoldable pub find : Uuid → Uuid → Pairs V → Option V
  find race player [] = none
  find race player ((r, q, v) ∷ rows) =
      let rest = find race player rows in if r == race && q == player then some v else rest

  -- INSERT ... ON CONFLICT DO UPDATE
  unfoldable pub upsert : Uuid → Uuid → V → (V → V) → Pairs V → Pairs V
  upsert race player new change [] = (race, player, new) ∷ []
  upsert race player new change ((r, q, v) ∷ rows) =
      let rest = upsert race player new change rows in
      if r == race && q == player then (r, q, change v) ∷ rows else (r, q, v) ∷ rest

pub data Statement : Type 0 where
  begin_tx upsert_races commit_tx : Statement
  upsert_race_players upsert_race_results : Uuid → Statement

-- What one attempt meets: the readings of the clock, here and in the database, the rows that others
-- keep, and the statements that fail for any other reason.
pub record Attempt : Type 0 where
  pub started_now : Time
  pub finished_now : Time
  pub db_now : Time
  pub has_track : Uuid → Bool
  pub has_player : Uuid → Bool
  pub fails : Statement → Bool

pub data PersistError : Type 0 where
  race_id_required track_id_required empty_results : PersistError
  statement_failed : Statement → PersistError

pub data Written : Type 0 where
  written : RaceTables → Written
  broken : PersistError → Written

abbrev pub or_now : Time → Time → Time
or_now t now = if t == 0 then now else t

-- NULLIF($5, 0)
abbrev pub null_if_zero : ℤ → Option ℤ
null_if_zero (pos n) = if n == 0 then none else some (pos n)
null_if_zero n = some n

abbrev pub result_row : Time → Entry → ResultRow
result_row now e = record {
  position = e.position;
  total_time_ms = e.total_time_ms;
  best_lap_ms = null_if_zero e.best_lap_ms;
  created_at = now;
}

abbrev pub participant_row : Time → Entry → ParticipantRow
participant_row finished_at e = record {
  finish_position = some e.position;
  finished_at = some finished_at;
}

-- The row of a race that is there already keeps its track and its start.
unfoldable pub upsert_race :
    Attempt → WriteRequest → (started_at finished_at : Time) → RaceTables → Written
upsert_race a req started_at finished_at t = elim (lookup req.race_id t.races) [
  | some row ↦
      if a.fails upsert_races
      then broken (statement_failed upsert_races)
      else written (record t {
        races =
            insert req.race_id (record row { status = finished; finished_at = some finished_at })
              t.races;
      })
  | none ↦
      if a.fails upsert_races || not (a.has_track req.track_id)
      then broken (statement_failed upsert_races)
      else written (record t {
        races =
            insert req.race_id
              (record {
                track_id = req.track_id;
                status = finished;
                started_at = some started_at;
                finished_at = some finished_at;
              })
              t.races;
      })
]

-- The two rows of a result, for a race that is there.
abbrev pub put_entry :
    Attempt → (race_id : Uuid) → (finished_at : Time) → RaceTables → Entry → RaceTables
put_entry a race_id finished_at t e = record t {
  race_players =
      upsert race_id e.player_id (participant_row finished_at e)
        (λ row. participant_row finished_at e) t.race_players;
  race_results =
      upsert race_id e.player_id (result_row a.db_now e) (λ row. result_row row.created_at e)
        t.race_results;
}

-- One turn of the loop over the results.
unfoldable pub write_entry :
    Attempt → (race_id : Uuid) → (finished_at : Time) → RaceTables → Entry → Written
write_entry a race_id finished_at t e =
    if e.player_id == 0
    then written t
    else if a.fails (upsert_race_players e.player_id) || not (a.has_player e.player_id)
    then broken (statement_failed (upsert_race_players e.player_id))
    else if a.fails (upsert_race_results e.player_id)
    then broken (statement_failed (upsert_race_results e.player_id))
    else written (put_entry a race_id finished_at t e)

unfoldable pub write_entries :
    Attempt → (race_id : Uuid) → (finished_at : Time) → RaceTables → List Entry → Written
unfolding write_entry
write_entries a race_id finished_at t [] = written t
write_entries a race_id finished_at t (e ∷ es) = elim (write_entry a race_id finished_at t e) [
  | broken err ↦ broken err
  | written u ↦ write_entries a race_id finished_at u es
]

-- The statements of the transaction, up to its COMMIT.
unfoldable pub write_all : Attempt → WriteRequest → RaceTables → Written
write_all a req t =
    let finished_at = or_now req.finished_at a.finished_now in
    elim (upsert_race a req (or_now req.started_at a.started_now) finished_at t) [
      | broken err ↦ broken err
      | written u ↦ write_entries a req.race_id finished_at u req.results
    ]

abbrev pub is_nil : List Entry → Bool
is_nil [] = true
is_nil (e ∷ es) = false

-- The transaction: what it has written stands once it is committed, and else nothing does.
unfoldable pub run_transaction :
    Attempt → WriteRequest → RaceTables → RaceTables × Option PersistError
run_transaction a req t =
    if a.fails begin_tx then (t, some (statement_failed begin_tx)) else elim (write_all a req t) [
      | broken err ↦ (t, some err)
      | written u ↦ if a.fails commit_tx then (t, some (statement_failed commit_tx)) else (u, none)
    ]

-- PersistRaceFinish; `none` is success.
unfoldable pub persist_race_finish :
    Attempt → WriteRequest → RaceTables → RaceTables × Option PersistError
persist_race_finish a req t =
    if req.race_id == 0
    then (t, some race_id_required)
    else if req.track_id == 0
    then (t, some track_id_required)
    else if is_nil req.results
    then (t, some empty_results)
    else run_transaction a req t

-- PersistWithRetry; `gave_up` says that the context ends the wait between the two attempts.
unfoldable pub persist_with_retry :
    (first second : Attempt) (gave_up : Bool) → WriteRequest → RaceTables → RaceTables
persist_with_retry first second gave_up req t =
    let (u, failure) = persist_race_finish first req t in
    elim failure [
      | none ↦ u
      | some err ↦ if gave_up then u else (persist_race_finish second req u).0
    ]
