-- ===== src/Leaderboard/Personal.antt =====
-- PlayerBestPerTrack of internal/leaderboard/repo.go, against the leaderboards of the tracks.
use car_video_game_backend.Base.{
  ℕ, min, ◌≡◌, refl, List, [], ◌∷◌, Option, none, some, some-injective, subst, sym, ◌∙◌, if-elim,
  false, ◌==◌, if◌then◌else◌, Dict, lookup, lookup-insert, Bool-cases, Option-cases, inl, inr,
  arith, ==_iff, ==_refl,
}
use car_video_game_backend.Framing.{Bytes}
use car_video_game_backend.Race.Model.{Uuid}
use car_video_game_backend.Results.{ResultRow, Pairs, RaceTables, RaceRow}
use car_video_game_backend.RaceHistory.{Names}
use car_video_game_backend.Leaderboard.{
  LapRow, lap_rows, join_lap, on_track, positive_lap, add_best, min_lap, bests_of,
  player_best_per_track,
}
use car_video_game_backend.Leaderboard.Groups.{best_of}

min_lap_best :
    (lap : ℕ) (o : Option ℕ)
    → some (min_lap lap o) ≡ some (elim o [ none ↦ lap | some old ↦ min lap old ])
min_lap_best lap none = refl
min_lap_best lap (some old) = refl

module _ (names : Names) (t : RaceTables) (player_id track_id : Uuid) (name : Bytes)
    (known : names.display_name player_id ≡ some name) where
  -- A row of another player does not count.
  other_row :
      (q : Uuid) (row : ResultRow) (ls : List LapRow)
      → (q == player_id) ≡ false
      → best_of (join_lap names q row ls) player_id ≡ best_of ls player_id
  other_row q row ls n = elim (Option-cases (names.display_name q)) [
    | inl e ↦ rw (join_lap, e) refl
    | inr (other, e) ↦ elim (Option-cases (positive_lap row.best_lap_ms)) [
      | inl m ↦ rw (join_lap, e, m) refl
      | inr (lap, m) ↦ rw (join_lap, e, m, n) refl
    ]
  ]

  -- A row of the player counts on the track of its race, if it has a lap.
  own_row :
      (race : Option RaceRow) (row : ResultRow) (bests : Dict ℕ) (ls : List LapRow)
      → lookup track_id bests ≡ best_of ls player_id
      → lookup track_id (add_best race (positive_lap row.best_lap_ms) bests)
        ≡ best_of (if on_track race track_id then join_lap names player_id row ls else ls) player_id
  own_row none row bests ls h = h
  own_row (some race) row bests ls h = elim (Option-cases (positive_lap row.best_lap_ms)) [
    | inl m ↦ rw (m, join_lap, known) (ground (arith, h))
    | inr (lap, m) ↦ elim (Bool-cases (race.track_id == track_id)) [
      | inl y ↦
          rw
            (
              m,
              lookup-insert race.track_id track_id (min_lap lap (lookup race.track_id bests)) bests,
              y,
              join_lap,
              known,
              (==_iff race.track_id track_id).0 y,
              h,
              m,
              ==_refl player_id,
            )
            (min_lap_best lap (best_of ls player_id))
      | inr n ↦
          rw
            (
              m,
              lookup-insert race.track_id track_id (min_lap lap (lookup race.track_id bests)) bests,
              n,
            )
            h
    ]
  ]

  bests_of-best_of :
      (rows : Pairs ResultRow)
      → lookup track_id (bests_of t player_id rows)
        ≡ best_of (lap_rows names t track_id rows) player_id
  unfolding bests_of lap_rows lookup
  bests_of-best_of [] = refl
  bests_of-best_of ((race_id, q, row) ∷ rest) = elim (Bool-cases (q == player_id)) [
    | inl y ↦
        rw (y, (==_iff q player_id).0 y)
          (own_row (lookup race_id t.races) row (bests_of t player_id rest)
            (lap_rows names t track_id rest) (bests_of-best_of rest))
    | inr n ↦ rw (n) (
        bests_of-best_of rest
        ∙ if-elim (λ ls. best_of (lap_rows names t track_id rest) player_id ≡ best_of ls player_id)
            (on_track (lookup race_id t.races) track_id)
            (λ y. sym (other_row q row (lap_rows names t track_id rest) n)) (λ m. refl))
  ]

  -- PlayerBestPerTrack, when the query works, maps a track to the fastest of the player's laps that
  -- count on the leaderboard of the track, and leaves out a track on which the player has none.
  pub player_best_per_track-lookup :
      (bests : Dict ℕ)
      → player_best_per_track false t player_id ≡ some bests
      → lookup track_id bests ≡ best_of (lap_rows names t track_id t.race_results) player_id
  unfolding player_best_per_track
  player_best_per_track-lookup bests e =
      subst (λ m. lookup track_id m ≡ best_of (lap_rows names t track_id t.race_results) player_id)
        (some-injective _ _ e) (bests_of-best_of t.race_results)
