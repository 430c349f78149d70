-- ===== src/Api.antt =====
-- internal/api/router.go: NewRouter, with internal/api/handlers/stub.go. The patterns of http.ServeMux
-- and its choice among them are those of its documentation; what a handler does is in the other files.
pub mod Gating
pub mod Issued
use Prim.Native.String.{String}
use text.Mathlib.Text.{◌==◌}
use car_video_game_backend.Base.{
  List, [], ◌∷◌, ◌++◌, Option, none, some, Bool, true, false, not, ◌&&◌, ◌||◌, if◌then◌else◌,
}
use car_video_game_backend.Framing.{Bytes}
use car_video_game_backend.Race.Model.{Time}
use car_video_game_backend.Matchmaking.Token.{is_empty}
use car_video_game_backend.Auth.{Packages, Response}
use car_video_game_backend.Auth.Access.{Context, Gate, next, stopped, middleware}

-- RouterDeps: what is not nil, and the strings.
pub record RouterDeps : Type 0 where
  pub has_db : Bool
  pub has_auth_service : Bool
  pub has_matchmaking : Bool
  pub jwt_secret : Bytes
  pub jwt_issuer : Bytes

-- The methods that are registered; http.ServeMux lets a HEAD request through as a GET.
pub data Verb : Type 0 where
  http_get http_post : Verb

pub data Segment : Type 0 where
  literal : String → Segment
  wildcard : Segment

-- The handlers.
pub data Endpoint : Type 0 where
  health stub : Endpoint
  auth_register auth_login auth_guest : Endpoint
  me cars_list cars_get garage_list tracks_list tracks_get : Endpoint
  match_join : Endpoint
  player_races leaderboard_top race_get : Endpoint

-- A registered pattern; `gated` says that mw is around its handler.
pub record Route : Type 0 where
  pub verb : Verb
  pub path : List Segment
  pub gated : Bool
  pub endpoint : Endpoint

-- "/api/v1/..."
abbrev pub v1 : List Segment → List Segment
v1 rest = literal "api" ∷ literal "v1" ∷ rest

abbrev pub handle_func : Verb → List Segment → Endpoint → Route
handle_func verb path endpoint = record {
  verb = verb;
  path = v1 path;
  gated = false;
  endpoint = endpoint;
}

abbrev pub handle_gated : Verb → List Segment → Endpoint → Route
handle_gated verb path endpoint = record {
  verb = verb;
  path = v1 path;
  gated = true;
  endpoint = endpoint;
}

abbrev pub auth_routes : Bool → List Route
auth_routes true =
    handle_func http_post (literal "auth" ∷ literal "register" ∷ []) auth_register
    ∷ handle_func http_post (literal "auth" ∷ literal "login" ∷ []) auth_login
    ∷ handle_func http_post (literal "auth" ∷ literal "guest" ∷ []) auth_guest
    ∷ []
auth_routes false =
    handle_func http_post (literal "auth" ∷ literal "register" ∷ []) stub
    ∷ handle_func http_post (literal "auth" ∷ literal "login" ∷ []) stub
    ∷ handle_func http_post (literal "auth" ∷ literal "guest" ∷ []) stub
    ∷ []

abbrev pub catalogue_routes : Bool → List Route
catalogue_routes false = []
catalogue_routes true =
    handle_gated http_get (literal "players" ∷ literal "me" ∷ []) me
    ∷ handle_gated http_get (literal "cars" ∷ []) cars_list
    ∷ handle_gated http_get (literal "cars" ∷ wildcard ∷ []) cars_get
    ∷ handle_gated http_get (literal "garage" ∷ []) garage_list
    ∷ handle_gated http_get (literal "tracks" ∷ []) tracks_list
    ∷ handle_gated http_get (literal "tracks" ∷ wildcard ∷ []) tracks_get
    ∷ []

abbrev pub match_routes : Bool → List Route
match_routes false = []
match_routes true =
    handle_gated http_post (literal "matchmaking" ∷ literal "join" ∷ []) match_join ∷ []

abbrev pub history_routes : Bool → List Route
history_routes false = []
history_routes true =
    handle_gated http_get (literal "players" ∷ literal "me" ∷ literal "races" ∷ []) player_races
    ∷ handle_gated http_get (literal "leaderboard" ∷ []) leaderboard_top
    ∷ handle_gated http_get (literal "races" ∷ wildcard ∷ []) race_get
    ∷ []

-- The stubs of a path for both methods.
abbrev pub stubs : List Segment → List Route
stubs path = handle_func http_get path stub ∷ handle_func http_post path stub ∷ []

abbrev pub join_stubs : (has_matchmaking : Bool) → List Route
join_stubs true = []
join_stubs false = stubs (literal "matchmaking" ∷ literal "join" ∷ [])

abbrev pub history_stubs : (wired : Bool) → List Route
history_stubs true = []
history_stubs false =
    handle_func http_get (literal "players" ∷ literal "me" ∷ literal "races" ∷ []) stub
    ∷ handle_func http_get (literal "leaderboard" ∷ []) stub
    ∷ []

-- The patterns, in the order in which they are registered; `keyed` is JWTSecret != "".
abbrev pub routes : (has_db has_auth has_matchmaking keyed : Bool) → List Route
routes has_db has_auth has_matchmaking keyed =
    handle_func http_get (literal "health" ∷ []) health ∷ auth_routes has_auth
    ++ catalogue_routes (has_db && keyed)
    ++ match_routes (has_matchmaking && keyed)
    ++ history_routes (has_db && keyed)
    ++ stubs (literal "players" ∷ [])
    ++ stubs (literal "races" ∷ [])
    ++ stubs (literal "matchmaking" ∷ [])
    ++ join_stubs has_matchmaking
    ++ history_stubs (has_db && keyed)

abbrev pub same_verb : Verb → Verb → Bool
same_verb http_get http_get = true
same_verb http_post http_post = true
same_verb _ _ = false

-- Every path that fits the second pattern fits the first.
abbrev pub covers : List Segment → List Segment → Bool
covers [] [] = true
covers (literal s ∷ p) (literal t ∷ q) = s == t && covers p q
covers (wildcard ∷ p) (_ ∷ q) = covers p q
covers _ _ = false

-- Some path fits both patterns.
abbrev pub overlaps : List Segment → List Segment → Bool
overlaps [] [] = true
overlaps (literal s ∷ p) (literal t ∷ q) = s == t && overlaps p q
overlaps (_ ∷ p) (_ ∷ q) = overlaps p q
overlaps _ _ = false

-- Two patterns conflict if they overlap and neither is more specific.
abbrev pub conflicts : Route → Route → Bool
conflicts r s =
    same_verb r.verb s.verb
    && overlaps r.path s.path
    && (covers r.path s.path && covers s.path r.path
        || not (covers r.path s.path) && not (covers s.path r.path))

abbrev pub conflicts_any : Route → List Route → Bool
conflicts_any r [] = false
conflicts_any r (s ∷ mux) = conflicts r s || conflicts_any r mux

-- The registrations, one by one; `none` is the panic of a conflict.
unfoldable pub register_all : List Route → (mux : List Route) → Option (List Route)
register_all [] mux = some mux
register_all (r ∷ rs) mux =
    let rest = register_all rs (r ∷ mux) in if conflicts_any r mux then none else rest

-- NewRouter
unfoldable pub new_router : RouterDeps → Option (List Route)
unfolding register_all
new_router d =
    register_all
      (routes d.has_db d.has_auth_service d.has_matchmaking (not (is_empty d.jwt_secret))) []

abbrev pub fits : List Segment → (path : List String) → Bool
fits [] [] = true
fits (literal s ∷ p) (t ∷ path) = s == t && fits p path
fits (wildcard ∷ p) (t ∷ path) = fits p path
fits _ _ = false

-- The route of a request; of two that fit, the more specific one.
unfoldable pub find_route : (mux : List Route) → Verb → (path : List String) → Option Route
find_route [] verb path = none
find_route (r ∷ mux) verb path =
    let rest = find_route mux verb path in
    if same_verb r.verb verb && fits r.path path
    then some (elim rest [ none ↦ r | some s ↦ if covers r.path s.path then s else r ])
    else rest

-- What becomes of a request: no router, no route (404, or 405 if the path has one), an answer of the middleware, or a handler with the
-- context that it sees.
pub data Served : Type 0 where
  no_router no_route : Served
  answered : Response → Served
  reaches : Endpoint → Context → Served

abbrev pub through : Endpoint → Gate → Served
through endpoint (stopped response) = answered response
through endpoint (next ctx) = reaches endpoint ctx

abbrev pub untouched : Context
untouched = record { claims = none; player_id = none }

unfoldable pub serve_route : Packages → RouterDeps → Route → (authorization : Bytes) → Time → Served
unfolding middleware
serve_route p d r authorization now =
    if r.gated
    then through r.endpoint (middleware p d.jwt_secret d.jwt_issuer authorization now)
    else reaches r.endpoint untouched

unfoldable pub serve_http :
    Packages → RouterDeps → Verb → (path : List String) (authorization : Bytes) → Time → Served
unfolding new_router find_route serve_route
serve_http p d verb path authorization now = elim (new_router d) [
  | none ↦ no_router
  | some mux ↦ elim (find_route mux verb path) [
    | none ↦ no_route
    | some r ↦ serve_route p d r authorization now
  ]
]
