-- ===== src/Leaderboard/Handler.antt =====
-- internal/leaderboard/handler.go: Top.
use car_video_game_backend.Base.{
  ℕ, ℤ, pos, ltb_ℤ, List, [], ◌∷◌, Option, none, some, Bool, not, if◌then◌else◌,
}
use car_video_game_backend.Framing.{Bytes}
use car_video_game_backend.Race.Model.{Uuid}
use car_video_game_backend.Results.{RaceTables}
use car_video_game_backend.RaceHistory.{Names}
use car_video_game_backend.RaceHistory.Handler.{Parsers}
use car_video_game_backend.Auth.Access.{Context, player_id_from_context}
use car_video_game_backend.Leaderboard.{BoardEntry, TrackInfo, load_track, best_laps_by_track}

pub data BoardAnswer : Type 0 where
  refused : (status : ℕ) → BoardAnswer
  board : TrackInfo → List BoardEntry → BoardAnswer

module _ (p : Parsers) where
  -- The limit of a request; `none` is a bad one.
  abbrev pub board_limit : Bytes → Option ℤ
  board_limit [] = some (pos 10)
  board_limit (b ∷ bs) = elim (p.atoi (b ∷ bs)) [
    | none ↦ none
    | some n ↦ if ltb_ℤ (pos 0) n then some (if ltb_ℤ (pos 100) n then pos 100 else n) else none
  ]

  abbrev pub read_track : Bytes → Option Uuid
  read_track [] = none
  read_track (b ∷ bs) = p.parse_uuid (b ∷ bs)

  abbrev pub show_board : TrackInfo → Option (List BoardEntry) → BoardAnswer
  show_board track none = refused 500
  show_board track (some entries) = board track entries

  -- Top. A track that is not there is told from a query that fails, as the error is wrapped with %w.
  unfoldable pub top :
      (track_fails board_fails : Bool)
      → Names
      → RaceTables
      → Context
      → (track_id limit : Bytes) → BoardAnswer
  unfolding player_id_from_context load_track best_laps_by_track
  top track_fails board_fails names t ctx track_id limit =
      if not (player_id_from_context ctx).1 then refused 401 else elim (read_track track_id) [
        | none ↦ refused 400
        | some id ↦ elim (board_limit limit) [
          | none ↦ refused 400
          | some n ↦ if track_fails then refused 500 else elim (load_track names id) [
            | none ↦ refused 404
            | some track ↦ show_board track (best_laps_by_track board_fails names t id n)
          ]
        ]
      ]
