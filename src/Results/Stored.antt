-- ===== src/Results/Stored.antt =====
-- What PersistRaceFinish of internal/results/writer.go leaves in the tables.
use car_video_game_backend.Base.{
  ◌≡◌, ◌≢◌, refl, [], Option, none, some, not, ◌||◌, ◌==◌, if◌then◌else◌, lookup, insert,
  lookup-insert, lookup-insert_same, if-elim, Option-cases, inl, inr, arith,
}
use car_video_game_backend.Race.Model.{Uuid, Time}
use car_video_game_backend.Results.{
  WriteRequest, finished, RaceRow, RaceTables, find, begin_tx, commit_tx, upsert_races, Attempt,
  PersistError, statement_failed, Written, written, broken, or_now, upsert_race, write_entries,
  write_all, is_nil, run_transaction, persist_race_finish,
}
use car_video_game_backend.Results.Rows.{
  last_of, row_after, IsWritten, OnWritten, OnWritten-map, OnWritten-bind, write_entries-IsWritten,
}

-- What a committed transaction has written.
pub record IsStored (a : Attempt) (req : WriteRequest) (before after : RaceTables) : Type 0 where
  pub row : RaceRow
  pub stored : lookup req.race_id after.races ≡ some row
  pub over : row.status ≡ finished
  pub at_time : row.finished_at ≡ some (or_now req.finished_at a.finished_now)
  pub others : (id : Uuid) → id ≢ req.race_id → lookup id after.races ≡ lookup id before.races
  pub rows :
      (r q : Uuid)
      → find r q after.race_results ≡ (
          if req.race_id == r
          then row_after a.db_now (find r q before.race_results) (last_of req.results q)
          else find r q before.race_results)

abbrev pub OnPersisted :
    (a : Attempt) → WriteRequest → RaceTables → RaceTables × Option PersistError → Type 0
OnPersisted a req before (after, none) = IsStored a req before after
OnPersisted a req before (after, some err) = after ≡ before

module _ (a : Attempt) (req : WriteRequest) (t : RaceTables) where
  -- The race's row is written first.
  abbrev HasRace : RaceTables → Type 0
  HasRace u = IsStored a (record req { results = [] }) t u

  abbrev over_at : Time
  over_at = or_now req.finished_at a.finished_now

  row-HasRace :
      (row : RaceRow)
      → row.status ≡ finished
      → row.finished_at ≡ some over_at
      → HasRace (record t { races = insert req.race_id row t.races })
  row-HasRace row s f = record {
    row = row;
    stored = lookup-insert_same req.race_id row t.races;
    over = s;
    at_time = f;
    others = λ id n. rw (lookup-insert req.race_id id row t.races) (ground (arith, n));
    rows = λ r q. ground arith;
  }

  upsert_race-HasRace : (started : Time) → OnWritten HasRace (upsert_race a req started over_at t)
  unfolding upsert_race
  upsert_race-HasRace started = elim (Option-cases (lookup req.race_id t.races)) [
    | inl e ↦
        rw (upsert_race, e)
          (if-elim (OnWritten HasRace) (a.fails upsert_races || not (a.has_track req.track_id))
            (λ y. tt) (λ n. row-HasRace _ refl refl))
    | inr (row, e) ↦
        rw (upsert_race, e)
          (if-elim (OnWritten HasRace) (a.fails upsert_races) (λ y. tt)
            (λ n. row-HasRace _ refl refl))
  ]

  IsStored-write :
      (u v : RaceTables) → HasRace u → IsWritten a req.race_id req.results u v → IsStored a req t v
  IsStored-write u v h k = record {
    row = h.row;
    stored = rw (k.races) h.stored;
    over = h.over;
    at_time = h.at_time;
    others = λ id n. rw (k.races) (h.others id n);
    rows = λ r q.
        let same : find r q u.race_results ≡ find r q t.race_results = ground (arith, h.rows r q) in
        rw (k.rows r q, same) refl;
  }

  write_all-IsStored : OnWritten (IsStored a req t) (write_all a req t)
  unfolding write_all
  write_all-IsStored =
      OnWritten-bind HasRace (IsStored a req t)
        (upsert_race a req (or_now req.started_at a.started_now) over_at t)
        (λ u. write_entries a req.race_id over_at u req.results)
        (upsert_race-HasRace (or_now req.started_at a.started_now))
        (λ u h.
          OnWritten-map _ _ (write_entries a req.race_id over_at u req.results)
            (λ v k. IsStored-write u v h k)
            (write_entries-IsWritten a req.race_id over_at u req.results))

  commit_writes :
      (w : Written)
      → OnWritten (IsStored a req t) w
      → OnPersisted a req t (elim w [
        | broken err ↦ (t, some err)
        | written u ↦
            if a.fails commit_tx then (t, some (statement_failed commit_tx)) else (u, none)
      ])
  commit_writes (broken err) h = refl
  commit_writes (written u) h =
      if-elim (OnPersisted a req t) (a.fails commit_tx) (λ y. refl) (λ n. h)

  -- PersistRaceFinish stores all or nothing. When it returns an error the tables are as before. When it
  -- succeeds the race has a row that says that it is finished, and when, the rows of other races are as
  -- before, and the results of the race are those of before with the last result of every player, but
  -- the nil one, written over them.
  pub persist_race_finish_stores : OnPersisted a req t (persist_race_finish a req t)
  unfolding persist_race_finish run_transaction
  persist_race_finish_stores =
      let P = OnPersisted a req t in
      if-elim P (req.race_id == 0) (λ y. refl)
        (λ n.
          if-elim P (req.track_id == 0) (λ y. refl)
            (λ m.
              if-elim P (is_nil req.results) (λ y. refl)
                (λ k.
                  if-elim P (a.fails begin_tx) (λ y. refl)
                    (λ o. commit_writes (write_all a req t) write_all-IsStored))))
