-- ===== src/Results/Retry.antt =====
-- Storing a race twice: PersistWithRetry of internal/results/writer.go.
use car_video_game_backend.Base.{
  ◌≡◌, ◌⊎◌, inl, inr, refl, sym, subst, Option, none, some, Bool, ◌==◌, if◌then◌else◌, if-elim,
  Bool-cases,
}
use car_video_game_backend.Race.Model.{Uuid, Time}
use car_video_game_backend.Results.{
  Entry, WriteRequest, ResultRow, RaceTables, find, Attempt, PersistError, persist_race_finish,
  persist_with_retry,
}
use car_video_game_backend.Results.Rows.{last_of, row_after}
use car_video_game_backend.Results.Stored.{IsStored, OnPersisted, persist_race_finish_stores}

row_after_again :
    (first second : Time) (old : Option ResultRow) (e : Option Entry)
    → row_after second (row_after first old e) e ≡ row_after first old e
row_after_again first second old none = refl
row_after_again first second none (some e) = refl
row_after_again first second (some row) (some e) = refl

OnPersisted-IsStored :
    (a : Attempt) (req : WriteRequest) (t : RaceTables) (r : RaceTables × Option PersistError)
    → OnPersisted a req t r
    → r.1 ≡ none
    → IsStored a req t r.0
OnPersisted-IsStored a req t (u, none) h e = h
OnPersisted-IsStored a req t (u, some err) h e = absurd (cc (e))

-- A race that has been stored can be stored again, as after a lost answer: if both transactions
-- succeed, whenever and on whatever readings of the clock, the second leaves every result as the first
-- left it.
persist_again :
    (first second : Attempt) (req : WriteRequest) (t : RaceTables)
    → (persist_race_finish first req t).1 ≡ none
    → (persist_race_finish second req (persist_race_finish first req t).0).1 ≡ none
    → (r q : Uuid)
    → find r q (persist_race_finish second req (persist_race_finish first req t).0).0.race_results
      ≡ find r q (persist_race_finish first req t).0.race_results
persist_again first second req t e f r q =
    let u = (persist_race_finish first req t).0 in
    let h : IsStored first req t u =
      OnPersisted-IsStored first req t _ (persist_race_finish_stores first req t) e in
    let k = OnPersisted-IsStored second req u _ (persist_race_finish_stores second req u) f in
    elim (Bool-cases (req.race_id == r)) [
      | inl y ↦
          rw (k.rows r q, y, h.rows r q, y)
            (row_after_again first.db_now second.db_now (find r q t.race_results)
              (last_of req.results q))
      | inr n ↦ rw (k.rows r q, n) refl
    ]

module _ (first second : Attempt) (gave_up : Bool) (req : WriteRequest) (t : RaceTables) where
  -- The tables are as before, or as one of the two attempts leaves them.
  abbrev pub IsEither : RaceTables → Type 0
  IsEither u = (u ≡ t) ⊎ IsStored first req t u ⊎ IsStored second req t u

  after_second : (r : RaceTables × Option PersistError) → OnPersisted second req t r → IsEither r.0
  after_second (u, none) h = inr (inr h)
  after_second (u, some err) h = inl h

  after_first :
      (r : RaceTables × Option PersistError)
      → OnPersisted first req t r
      → IsEither (elim r.1 [
        | none ↦ r.0
        | some err ↦ if gave_up then r.0 else (persist_race_finish second req r.0).0
      ])
  after_first (u, none) h = inr (inl h)
  after_first (u, some err) h =
      subst (λ w. IsEither (if gave_up then w else (persist_race_finish second req w).0)) (sym h)
        (if-elim IsEither gave_up (λ y. inl refl)
          (λ n. after_second _ (persist_race_finish_stores second req t)))

  -- PersistWithRetry ends with the tables as before, or as one transaction that succeeds leaves them,
  -- that of the first attempt or that of the second.
  persist_with_retry_stores : IsEither (persist_with_retry first second gave_up req t)
  unfolding persist_with_retry
  persist_with_retry_stores =
      after_first (persist_race_finish first req t) (persist_race_finish_stores first req t)
