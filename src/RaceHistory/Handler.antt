-- ===== src/RaceHistory/Handler.antt =====
-- internal/racehistory/handler.go: the answers of the two endpoints. The name of an answer that is refused
-- is its status; the text is fixed by it and by the parameter that is bad.
use car_video_game_backend.Base.{
  ℕ, ℤ, pos, ltb_ℤ, [], ◌∷◌, Option, none, some, Bool, not, if◌then◌else◌,
}
use car_video_game_backend.Framing.{Bytes}
use car_video_game_backend.Race.Model.{Uuid, Time}
use car_video_game_backend.Results.{RaceTables}
use car_video_game_backend.Auth.Access.{Context, player_id_from_context}
use car_video_game_backend.RaceHistory.{
  PlayerHistoryPage, RaceDetail, Names, not_found, Got, got, missing, list_by_player, get_race,
}

pub data HistoryAnswer : Type 0 where
  refused : (status : ℕ) → HistoryAnswer
  page : PlayerHistoryPage → HistoryAnswer
  race_detail : RaceDetail → HistoryAnswer

-- strconv.Atoi, time.Parse with the two layouts, and uuid.Parse.
pub record Parsers : Type 0 where
  pub atoi : Bytes → Option ℤ
  pub parse_nano : Bytes → Option Time
  pub parse_rfc3339 : Bytes → Option Time
  pub parse_uuid : Bytes → Option Uuid

module _ (p : Parsers) where
  -- The limit of a request; `none` is a bad one.
  abbrev pub read_limit : Bytes → Option ℤ
  read_limit [] = some (pos 20)
  read_limit (b ∷ bs) = elim (p.atoi (b ∷ bs)) [
    | none ↦ none
    | some n ↦ if ltb_ℤ (pos 0) n then some n else none
  ]

  abbrev pub read_cursor : Bytes → Option (Option Time)
  read_cursor [] = some none
  read_cursor (b ∷ bs) = elim (p.parse_nano (b ∷ bs)) [
    | some c ↦ some (some c)
    | none ↦ elim (p.parse_rfc3339 (b ∷ bs)) [ none ↦ none | some c ↦ some (some c) ]
  ]

  abbrev answer_page : Option PlayerHistoryPage → HistoryAnswer
  answer_page none = refused 500
  answer_page (some pg) = page pg

  -- PlayerRaces; an empty text is a parameter that is not there.
  unfoldable pub player_races :
      (fails : Bool) → Names → RaceTables → Context → (limit cursor : Bytes) → HistoryAnswer
  unfolding player_id_from_context list_by_player
  player_races fails names t ctx limit cursor =
      let (player_id, known) = player_id_from_context ctx in
      if not known then refused 401 else elim (read_limit limit) [
        | none ↦ refused 400
        | some n ↦ elim (read_cursor cursor) [
          | none ↦ refused 400
          | some c ↦ answer_page (list_by_player fails names t player_id c n)
        ]
      ]

  abbrev pub answer_race : Got → HistoryAnswer
  answer_race (got d) = race_detail d
  answer_race (missing not_found) = refused 404
  answer_race (missing err) = refused 500

  -- Race
  unfoldable pub race :
      (race_fails results_fail : Bool) → Names → RaceTables → Context → (id : Bytes) → HistoryAnswer
  unfolding player_id_from_context get_race
  race race_fails results_fail names t ctx id =
      if not (player_id_from_context ctx).1 then refused 401 else elim (p.parse_uuid id) [
        | none ↦ refused 400
        | some race_id ↦ answer_race (get_race names race_fails results_fail t race_id)
      ]
