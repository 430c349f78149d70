-- ===== src/Results/Rows.antt =====
-- What the loop of PersistRaceFinish in internal/results/writer.go does to the rows of a race.
use car_video_game_backend.Base.{
  ◌∙◌, ◌≡◌, refl, List, [], ◌∷◌, Option, none, some, not, ◌&&◌, ◌||◌, ◌==◌, if◌then◌else◌, if-elim,
  Bool-cases, inl, inr, arith,
}
use car_video_game_backend.Race.Model.{Uuid, Time}
use car_video_game_backend.Results.{
  Entry, ResultRow, Pairs, RaceTables, find, upsert, upsert_race_players, upsert_race_results,
  Attempt, Written, written, broken, result_row, put_entry, write_entry, write_entries,
}

module _ {V : Type 0} where
  find-upsert :
      (race player : Uuid) (new : V) (change : V → V) (rows : Pairs V) (r q : Uuid)
      → find r q (upsert race player new change rows) ≡ (
          if race == r && player == q
          then some (elim (find r q rows) [ none ↦ new | some v ↦ change v ])
          else find r q rows)
  unfolding find upsert
  find-upsert race player new change [] r q = ground arith
  find-upsert race player new change ((r', q', v) ∷ rows) r q =
      ground (arith, find-upsert race player new change rows r q)

-- The last result of a player, if there is one; the nil player has none.
abbrev pub last_of : List Entry → Uuid → Option Entry
last_of [] q = none
last_of (e ∷ es) q = elim (last_of es q) [
  | some f ↦ some f
  | none ↦ if not (e.player_id == 0) && e.player_id == q then some e else none
]

-- The row of a player after its results have been written over the row that was there.
abbrev pub row_after : Time → Option ResultRow → Option Entry → Option ResultRow
row_after now old none = old
row_after now none (some e) = some (result_row now e)
row_after now (some row) (some e) = some (result_row row.created_at e)

-- The rows of `race` in `after` are those of `before` with the results written over them, and the other
-- rows are those of `before`.
pub record IsWritten (a : Attempt) (race : Uuid) (es : List Entry) (before after : RaceTables)
    : Type 0 where
  pub rows :
      (r q : Uuid)
      → find r q after.race_results ≡ (
          if race == r
          then row_after a.db_now (find r q before.race_results) (last_of es q)
          else find r q before.race_results)
  pub races : after.races ≡ before.races

abbrev pub OnWritten : (RaceTables → Type 0) → Written → Type 0
OnWritten P (broken err) = Unit
OnWritten P (written t) = P t

pub OnWritten-map :
    (P Q : RaceTables → Type 0) (w : Written)
    → ((t : RaceTables) → P t → Q t)
    → OnWritten P w
    → OnWritten Q w
OnWritten-map P Q (broken err) f h = tt
OnWritten-map P Q (written t) f h = f t h

pub OnWritten-bind :
    (P Q : RaceTables → Type 0) (w : Written) (f : RaceTables → Written)
    → OnWritten P w
    → ((t : RaceTables) → P t → OnWritten Q (f t))
    → OnWritten Q (elim w [ broken err ↦ broken err | written u ↦ f u ])
OnWritten-bind P Q (broken err) f h k = tt
OnWritten-bind P Q (written t) f h k = k t h

-- Rows that are written twice.
row_after-row_after :
    (now : Time) (old : Option ResultRow) (x y : Option Entry)
    → row_after now (row_after now old x) y
      ≡ row_after now old (elim y [ some f ↦ some f | none ↦ x ])
row_after-row_after now old x none = refl
row_after-row_after now none none (some e) = refl
row_after-row_after now none (some f) (some e) = refl
row_after-row_after now (some row) none (some e) = refl
row_after-row_after now (some row) (some f) (some e) = refl

IsWritten-cons :
    (a : Attempt) (race : Uuid) (e : Entry) (es : List Entry) (t u v : RaceTables)
    → IsWritten a race (e ∷ []) t u
    → IsWritten a race es u v
    → IsWritten a race (e ∷ es) t v
IsWritten-cons a race e es t u v h k = record {
  rows = λ r q. elim (Bool-cases (race == r)) [
    | inl y ↦
        rw (k.rows r q, h.rows r q, y)
          (row_after-row_after a.db_now (find r q t.race_results) (last_of (e ∷ []) q)
            (last_of es q))
    | inr n ↦ rw (k.rows r q, h.rows r q, n) refl
  ];
  races = k.races ∙ h.races;
}

module _ (a : Attempt) (race : Uuid) (finished_at : Time) where
  write_entry-IsWritten :
      (t : RaceTables) (e : Entry)
      → OnWritten (IsWritten a race (e ∷ []) t) (write_entry a race finished_at t e)
  unfolding write_entry
  write_entry-IsWritten t e =
      let P = OnWritten (IsWritten a race (e ∷ []) t) in
      if-elim P (e.player_id == 0) (λ y. record { rows = λ r q. ground (arith, y); races = refl })
        (λ n.
          let put : P (written (put_entry a race finished_at t e)) = record {
            rows = λ r q.
                rw
                  (find-upsert race e.player_id (result_row a.db_now e)
                    (λ row. result_row row.created_at e) t.race_results r q)
                  (ground (arith, n));
            races = refl;
          } in
          if-elim P (a.fails (upsert_race_players e.player_id) || not (a.has_player e.player_id))
            (λ y. tt)
            (λ m. if-elim P (a.fails (upsert_race_results e.player_id)) (λ y. tt) (λ k. put)))

  pub write_entries-IsWritten :
      (t : RaceTables) (es : List Entry)
      → OnWritten (IsWritten a race es t) (write_entries a race finished_at t es)
  unfolding write_entries
  write_entries-IsWritten t [] = record { rows = λ r q. ground arith; races = refl }
  write_entries-IsWritten t (e ∷ es) =
      OnWritten-bind (IsWritten a race (e ∷ []) t) (IsWritten a race (e ∷ es) t)
        (write_entry a race finished_at t e) (λ u. write_entries a race finished_at u es)
        (write_entry-IsWritten t e)
        (λ u h.
          OnWritten-map (IsWritten a race es u) (IsWritten a race (e ∷ es) t)
            (write_entries a race finished_at u es) (λ v k. IsWritten-cons a race e es t u v h k)
            (write_entries-IsWritten u es))
