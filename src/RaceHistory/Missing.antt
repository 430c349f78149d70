-- ===== src/RaceHistory/Missing.antt =====
-- A race that is not there: GetRace and TranslateError of internal/racehistory/repo.go, and Race of
-- handler.go.
use car_video_game_backend.Base.{◌≡◌, refl, Bool, true, false, none, some, lookup}
use car_video_game_backend.Framing.{Bytes}
use car_video_game_backend.Race.Model.{Uuid}
use car_video_game_backend.Auth.Access.{Context, player_id_from_context}
use car_video_game_backend.Results.{RaceTables}
use car_video_game_backend.RaceHistory.{Names, missing, no_rows, translate_error, get_race}
use car_video_game_backend.RaceHistory.Handler.{Parsers, refused, answer_race, race}

-- A player who asks for a race that the table does not have, while the query works, is answered with
-- 500: the error of the query reaches the handler as it is. Translated by TranslateError, it would be
-- answered with 404.
race_unknown :
    (p : Parsers) (results_fail : Bool) (names : Names) (t : RaceTables) (ctx : Context)
    (id : Bytes) (race_id : Uuid)
    → (player_id_from_context ctx).1 ≡ true
    → p.parse_uuid id ≡ some race_id
    → lookup race_id t.races ≡ none
    → (race p false results_fail names t ctx id ≡ refused 500)
      × (answer_race p (missing (translate_error no_rows)) ≡ refused 404)
unfolding race get_race translate_error
race_unknown p results_fail names t ctx id race_id known parsed gone =
    (rw (race, known, parsed, get_race, gone) refl, refl)
