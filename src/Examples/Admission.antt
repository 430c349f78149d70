-- ===== src/Examples/Admission.antt =====
-- A token that the API gives, presented to the game server, with the codecs of Examples/Matchmaking.
use car_video_game_backend.Base.{
  ◌≡◌, refl, pos, List, [], ◌∷◌, Option, none, some, true, false, arith,
}
use car_video_game_backend.Framing.{Bytes}
use car_video_game_backend.Race.Manager.{Moment, new_manager, register_player}
use car_video_game_backend.Race.Model.{Uuid}
use car_video_game_backend.Matchmaking.Token.{sign_game_token}
use car_video_game_backend.Matchmaking.Repo.{
  Assignment, select_row, update_rows, create_assignment, verify_and_consume,
}
use car_video_game_backend.Matchmaking.Service.{
  Tables, MatchInfo, find_or_create_match, pick_match, assign, join,
}
use car_video_game_backend.Networking.Sessions.{new_sessions}
use car_video_game_backend.Networking.Dispatcher.{
  JoinRequest, World, Game, handle_join, finish_join,
}
use car_video_game_backend.Admission.{key, verdict, join-handle_join}
use car_video_game_backend.Examples.Toy.{toy, oval}
use car_video_game_backend.Examples.Matchmaking.{codecs, codec_laws, secret, raw, one_row}

abbrev first_byte : Bytes → Option Uuid
first_byte [] = none
first_byte (b ∷ bs) = some b

abbrev world : World toy (List Assignment)
world = record {
  read_join = λ b. none;
  read_input = λ b. none;
  write_response = λ r. some (1 ∷ []);
  parse_uuid = first_byte;
  text = λ why. [];
  verify = λ rows m p presented.
      verdict (λ err. 0 ∷ [])
        (verify_and_consume codecs secret false false rows (key m p presented) 2_000_000_000);
  track_fn = λ m. some oval;
}

abbrev no_rows : Tables
no_rows = record {
  picked = [];
  counted = [];
  inserted = [];
  pick_fails = false;
  pick_breaks = false;
  count_fails = false;
  insert_fails = false;
}

-- The match 3 of player 7.
abbrev info : MatchInfo
info = record {
  match_id = 3;
  game_server_host = 1 ∷ [];
  game_server_port = 7777;
  game_token = raw;
  expires_at = 301_000_000_000;
}

abbrev game : Game toy (List Assignment)
game = record {
  sessions = new_sessions;
  manager = new_manager toy (pos 0) (pos 0) (pos 0) true;
  verifier = one_row;
}

abbrev request : JoinRequest
request = record { match_id = 3 ∷ []; player_id = 7 ∷ []; game_token = raw }

abbrev moment : Moment
moment = record { new_id = 1; created_at = 1_000; started_at = 1_000; lap_started_at = 1_000 }

join-handle_join_example :
    handle_join toy (List Assignment) world game request 50 moment 9
    ≡ finish_join toy
        (List Assignment)
        world
        (record game { verifier = update_rows one_row (key 3 7 raw) })
        7
        50
        9
        (register_player toy game.manager world.track_fn 3 7 moment)
unfolding join find_or_create_match pick_match assign create_assignment sign_game_token select_row
join-handle_join_example =
    join-handle_join codecs codec_laws secret toy world (λ err. 0 ∷ []) (1 ∷ []) 7777 no_rows 7 3
      1_000_000_000 1_000_000_000 info one_row game request 50 moment 2_000_000_000 9 refl refl
      (omega arith) refl refl refl refl refl
