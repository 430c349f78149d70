-- ===== src/Leaderboard/Ranking.antt =====
-- What BestLapsByTrack of internal/leaderboard/repo.go returns, against the laps themselves.
use car_video_game_backend.Base.{
  ℤ, ℕ, zero, suc, ◌+◌, ◌≤◌, ◌≡◌, ◌⊎◌, inl, inr, refl, sym, ◌∙◌, subst, ap, List, [], ◌∷◌, Option,
  none, some, some-injective, Bool, true, false, ◌==◌, ◌||◌, lookup, take, length, All, All-map,
  if-elim, arith,
}
use car_video_game_backend.Race.Model.{Uuid}
use car_video_game_backend.Results.{RaceTables}
use car_video_game_backend.RaceHistory.{Names}
use car_video_game_backend.Leaderboard.{
  lap_rows, board_size, best_laps_by_track, BoardEntry, LapRow, Best, group, order_by_lap, number,
}
use car_video_game_backend.Leaderboard.Groups.{
  best_of, lap_of, lookup-group, group-IsKeyed, found, All-order_by_lap, IsRising,
  order_by_lap-IsRising, lookup-order_by_lap, lookup_all,
}

abbrev listed : Uuid → List BoardEntry → Bool
listed q [] = false
listed q (e ∷ es) = e.player_id == q || listed q es

-- A player with this best lap stands on the board, or the board is full of laps that are no slower.
abbrev pub IsCovered : (size : ℕ) → List BoardEntry → Uuid → Option ℕ → Type 0
IsCovered size es q none = Unit
IsCovered size es q (some lap) =
    (listed q es ≡ true) ⊎ (length es ≡ size) × All (λ e. e.best_lap_ms ≤ lap) es

abbrev pub IsNumbered : (rank : ℕ) → List BoardEntry → Type 0
IsNumbered rank [] = Unit
IsNumbered rank (e ∷ es) = (e.rank ≡ rank) × IsNumbered (rank + 1) es

abbrev pub IsInOrder : List BoardEntry → Type 0
IsInOrder [] = Unit
IsInOrder (e ∷ es) = All (λ f. e.best_lap_ms ≤ f.best_lap_ms) es × IsInOrder es

-- The board that ranks the laps.
pub record IsTop (size : ℕ) (ls : List LapRow) (es : List BoardEntry) : Type 0 where
  pub numbered : IsNumbered 1 es
  pub in_order : IsInOrder es
  pub bests : All (λ e. best_of ls e.player_id ≡ some e.best_lap_ms) es
  pub covered : (q : Uuid) → IsCovered size es q (best_of ls q)

number-IsNumbered : (k : ℕ) (rows : List (Uuid × Best)) → IsNumbered k (number k rows)
unfolding number
number-IsNumbered k [] = tt
number-IsNumbered k ((q, b) ∷ rows) = (refl, number-IsNumbered (k + 1) rows)

All-number :
    (P : Uuid → ℕ → Type 0) (k : ℕ) (rows : List (Uuid × Best))
    → All (λ g. P g.0 g.1.lap) rows
    → All (λ e. P e.player_id e.best_lap_ms) (number k rows)
unfolding number
All-number P k [] h = tt
All-number P k ((q, b) ∷ rows) h = (h.0, All-number P (k + 1) rows h.1)

All-take :
    (P : Uuid × Best → Type 0) (n : ℕ) (rows : List (Uuid × Best))
    → All P rows
    → All P (take n rows)
All-take P zero rows h = tt
All-take P (suc n) [] h = tt
All-take P (suc n) (g ∷ rows) h = (h.0, All-take P n rows h.1)

number-IsInOrder :
    (n k : ℕ) (rows : List (Uuid × Best)) → IsRising rows → IsInOrder (number k (take n rows))
unfolding number
number-IsInOrder zero k rows h = tt
number-IsInOrder (suc n) k [] h = tt
number-IsInOrder (suc n) k ((q, b) ∷ rows) h = (
  All-number (λ j lap. b.lap ≤ lap) (k + 1) (take n rows)
      (All-take (λ g. b.lap ≤ g.1.lap) n rows h.0),
  number-IsInOrder n (k + 1) rows h.1,
)

empty-IsCovered : (q : Uuid) (o : Option ℕ) → IsCovered 0 [] q o
empty-IsCovered q none = tt
empty-IsCovered q (some lap) = inr (refl, tt)

-- An entry in front that is no slower than the player's best lap.
extend-IsCovered :
    (n : ℕ) (e : BoardEntry) (es : List BoardEntry) (q : Uuid) (o : Option Best)
    → ((b : Best) → o ≡ some b → e.best_lap_ms ≤ b.lap)
    → IsCovered n es q (lap_of o)
    → IsCovered (suc n) (e ∷ es) q (lap_of o)
extend-IsCovered n e es q none le h = tt
extend-IsCovered n e es q (some b) le (inl there) = inl (ground (arith, there))
extend-IsCovered n e es q (some b) le (inr (full, below)) = inr (ap suc full, (le b refl, below))

number-IsCovered :
    (n k : ℕ) (rows : List (Uuid × Best)) (q : Uuid)
    → IsRising rows
    → IsCovered n (number k (take n rows)) q (lap_of (lookup q rows))
unfolding number lookup
number-IsCovered n k [] q h = tt
number-IsCovered zero k ((j, c) ∷ rows) q h = empty-IsCovered q (lap_of (lookup q ((j, c) ∷ rows)))
number-IsCovered (suc n) k ((j, c) ∷ rows) q h =
    let e : BoardEntry = record {
      rank = k;
      player_id = j;
      display_name = c.display_name;
      best_lap_ms = c.lap;
      achieved_at = c.achieved_at;
    } in
    if-elim (λ o. IsCovered (suc n) (e ∷ number (k + 1) (take n rows)) q (lap_of o)) (j == q)
      (λ y. inl (ground (arith, y)))
      (λ m.
        extend-IsCovered n e (number (k + 1) (take n rows)) q (lookup q rows)
          (λ b found. lookup_all (λ b. c.lap ≤ b.lap) rows q h.0 found)
          (number-IsCovered n (k + 1) rows q h.1))

-- Every group has the best lap of its player.
group_bests : (ls : List LapRow) → All (λ g. best_of ls g.0 ≡ some g.1.lap) (group ls)
group_bests ls =
    All-map (λ g. lookup g.0 (group ls) ≡ some g.1) (λ g. best_of ls g.0 ≡ some g.1.lap) (group ls)
      (λ g e. sym (lookup-group ls g.0) ∙ ap lap_of e) (found (group ls) (group-IsKeyed ls))

-- The board of BestLapsByTrack, when the query works, ranks the laps of the track: its entries are
-- numbered from one, no lap stands before a faster one, each is the fastest lap of its player, and a
-- player with a lap who is not on the board is slower than, or level with, all of a full board.
pub best_laps_by_track-IsTop :
    (names : Names) (t : RaceTables) (track_id : Uuid) (n : ℤ) (es : List BoardEntry)
    → best_laps_by_track false names t track_id n ≡ some es
    → IsTop (board_size n) (lap_rows names t track_id t.race_results) es
unfolding best_laps_by_track
best_laps_by_track-IsTop names t track_id n es e =
    let ls = lap_rows names t track_id t.race_results in
    let rows = order_by_lap (group ls) in
    subst (IsTop (board_size n) ls) (some-injective _ _ e) (record {
      numbered = number-IsNumbered 1 (take (board_size n) rows);
      in_order = number-IsInOrder (board_size n) 1 rows (order_by_lap-IsRising (group ls));
      bests =
          All-number (λ q lap. best_of ls q ≡ some lap) 1 (take (board_size n) rows)
            (All-take (λ g. best_of ls g.0 ≡ some g.1.lap) (board_size n) rows
              (All-order_by_lap (λ g. best_of ls g.0 ≡ some g.1.lap) (group ls) (group_bests ls)));
      covered = λ q.
          subst (IsCovered (board_size n) (number 1 (take (board_size n) rows)) q)
            (ap lap_of (lookup-order_by_lap (group ls) q (group-IsKeyed ls)) ∙ lookup-group ls q)
            (number-IsCovered (board_size n) 1 rows q (order_by_lap-IsRising (group ls)));
    })
