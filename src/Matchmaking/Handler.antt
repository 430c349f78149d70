-- ===== src/Matchmaking/Handler.antt =====
-- internal/matchmaking/handler.go: Join.
use car_video_game_backend.Base.{ℕ, List, not, if◌then◌else◌}
use car_video_game_backend.Framing.{Bytes}
use car_video_game_backend.Race.Model.{Uuid, Time}
use car_video_game_backend.Auth.Access.{Context, player_id_from_context}
use car_video_game_backend.Matchmaking.Token.{Codecs}
use car_video_game_backend.Matchmaking.Repo.{Assignment}
use car_video_game_backend.Matchmaking.Service.{
  Tables, MatchInfo, Joined, assigned, no_game_server, join,
}

-- An error status, or the match as JSON; with the table after it.
pub data MatchAnswer : Type 0 where
  turned_away : (status : ℕ) → MatchAnswer
  matched : MatchInfo → List Assignment → MatchAnswer

-- The switch over the errors. Service.Join never returns ErrRaceFull, its other case for 503.
abbrev answer_match : Joined → MatchAnswer
answer_match (assigned info rows) = matched info rows
answer_match no_game_server = turned_away 503
answer_match _ = turned_away 500

-- Join of Handlers.
unfoldable pub handle_match_join :
    Codecs
    → (secret : Bytes) → (game_host : Bytes) (game_port : ℕ) → Tables
    → Context
    → (new_id : Uuid) (searched signed : Time) → MatchAnswer
unfolding player_id_from_context join
handle_match_join c secret game_host game_port t ctx new_id searched signed =
    let (player_id, ok) = player_id_from_context ctx in
    if not ok
    then turned_away 401
    else answer_match (join c secret game_host game_port t player_id new_id searched signed)
