-- ===== src/Api/Issued.antt =====
-- A token that the API has issued opens its protected routes: IssueAccessToken of internal/auth/jwt.go
-- and NewRouter of internal/api/router.go together.
use Prim.Native.String.{String}
use car_video_game_backend.Base.{ℕ, ◌+◌, ◌<◌, ◌≡◌, ◌≢◌, refl, List, ◌++◌, some, true, length}
use car_video_game_backend.Framing.{Bytes}
use car_video_game_backend.Race.Model.{Uuid, Time}
use car_video_game_backend.Auth.{ok, Packages}
use car_video_game_backend.Auth.Access.{
  Context, bearer, equal_fold, issue_access_token, player_id_from_context,
}
use car_video_game_backend.Auth.Access.Bearer.{
  whole_seconds, JwtLaws, middleware-issue_access_token,
}
use car_video_game_backend.Api.{
  RouterDeps, Verb, Route, new_router, find_route, serve_route, serve_http, reaches,
}

-- A request for a route behind the middleware, with a token that IssueAccessToken made with the secret
-- and the issuer of the router for IDs that are not nil, reaches the handler of the route until the
-- second of the token's expiry, and the handler reads the token's player from the context. The word
-- Bearer may be written in any case.
pub serve_http-issue_access_token :
    (p : Packages) (laws : JwtLaws p) (d : RouterDeps) (mux : List Route) (r : Route) (verb : Verb)
    (path : List String) (ttl : ℕ) (user_id player_id : Uuid) (issued now : Time)
    (prefix tok : Bytes)
    → new_router d ≡ some mux
    → find_route mux verb path ≡ some r
    → r.gated ≡ true
    → issue_access_token p d.jwt_secret d.jwt_issuer ttl user_id player_id issued ≡ ok tok
    → user_id ≢ 0
    → player_id ≢ 0
    → now < whole_seconds (issued + ttl)
    → length prefix ≡ 7
    → equal_fold prefix bearer ≡ true
    → (ctx : Context) × (serve_http p d verb path (prefix ++ tok) now ≡ reaches r.endpoint ctx)
      × (player_id_from_context ctx ≡ (player_id, true))
unfolding serve_http serve_route
serve_http-issue_access_token p laws d mux r verb path ttl user_id player_id issued now prefix tok
      built found gated made u q early seven same =
    let (ctx, passed, seen) =
      middleware-issue_access_token p laws d.jwt_secret d.jwt_issuer ttl user_id player_id issued
        now prefix tok made u q early seven same in
    (ctx, rw (serve_http, built, found, serve_route, gated, passed) refl, seen)
