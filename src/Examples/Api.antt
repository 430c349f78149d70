-- ===== src/Examples/Api.antt =====
-- The theorems on the router at one request, with the packages of Examples/Accounts.
use Prim.Native.String.{String}
use car_video_game_backend.Base.{
  ◌≡◌, Option, none, arith, ◌≢◌, refl, ◌++◌, [], ◌∷◌, List, some, true,
}
use car_video_game_backend.Framing.{Bytes}
use car_video_game_backend.Auth.Access.{
  Context, player_id_from_context, issue_access_token, bearer, equal_fold, extract_bearer,
  parse_access_token, middleware,
}
use car_video_game_backend.Matchmaking.Token.{same_bytes}
use car_video_game_backend.Api.Issued.{serve_http-issue_access_token}
use car_video_game_backend.Api.{
  Route, literal, handle_gated, reaches, RouterDeps, http_get, garage_list, register_all,
  new_router, find_route, serve_route, serve_http, no_router,
}
use car_video_game_backend.Api.Gating.{IsIdentified, serve_http-has_router, serve_http-token}
use car_video_game_backend.Examples.Accounts.{packages, jwt_laws}

abbrev deps : RouterDeps
deps = record {
  has_db = true;
  has_auth_service = true;
  has_matchmaking = true;
  jwt_secret = 5 ∷ [];
  jwt_issuer = 6 ∷ [];
}

abbrev garage : List String
garage = "api" ∷ "v1" ∷ "garage" ∷ []

-- The token of player 7, good for a minute.
abbrev authorization : Bytes
authorization = bearer ++ 3 ∷ 7 ∷ 1_000_000_000 ∷ 61_000_000_000 ∷ 6 ∷ []

abbrev token_text : Bytes
token_text = 3 ∷ 7 ∷ 1_000_000_000 ∷ 61_000_000_000 ∷ 6 ∷ []

abbrev the_mux : Option (List Route) → List Route
the_mux none = []
the_mux (some mux) = mux

serve_http-issue_access_token_example :
    (ctx : Context) × (serve_http packages deps http_get garage (bearer ++ token_text) 2_000_000_000
      ≡ reaches garage_list ctx)
    × (player_id_from_context ctx ≡ (7, true))
unfolding new_router register_all find_route issue_access_token equal_fold same_bytes
serve_http-issue_access_token_example =
    serve_http-issue_access_token packages jwt_laws deps (the_mux (new_router deps))
      (handle_gated http_get (literal "garage" ∷ []) garage_list) http_get garage 60_000_000_000 3 7
      1_000_000_000 2_000_000_000 bearer token_text refl refl refl refl (omega arith) (omega arith)
      (omega arith) refl refl

abbrev seen : Context
seen = record {
  claims = some (record {
    user_id = 3;
    player_id = 7;
    issuer = 6 ∷ [];
    subject = 7;
    issued_at = 1_000_000_000;
    expires_at = 61_000_000_000;
  });
  player_id = some 7;
}

serve_http-has_router_example :
    serve_http packages deps http_get garage authorization 2_000_000_000 ≢ no_router
serve_http-has_router_example =
    serve_http-has_router packages deps http_get garage authorization 2_000_000_000

serve_http-token_example : IsIdentified packages deps authorization 2_000_000_000 seen
unfolding serve_http new_router register_all find_route serve_route middleware extract_bearer
    equal_fold parse_access_token
serve_http-token_example =
    serve_http-token packages deps http_get garage authorization 2_000_000_000 garage_list seen refl
      refl
