-- ===== src/Api/Gating.antt =====
-- NewRouter of internal/api/router.go: no two patterns conflict, and who reaches a handler.
use Prim.Native.String.{String}
use car_video_game_backend.Base.{
  ◌≡◌, ◌≢◌, refl, true, false, Bool, not, ◌&&◌, ◌||◌, List, [], ◌∷◌, Option, none, some, inl, inr,
  Bool-cases, Option-cases, if-elim, if◌then◌else◌, arith, subst, some-injective,
}
use car_video_game_backend.Framing.{Bytes}
use car_video_game_backend.Race.Model.{Time}
use car_video_game_backend.Matchmaking.Token.{is_empty}
use car_video_game_backend.Auth.{
  ok, Claims, Packages, Outcome, failed, respond_error, unauthorized_text,
}
use car_video_game_backend.Auth.Access.{
  Context, next, stopped, middleware, parse_access_token, extract_bearer,
}
use car_video_game_backend.Api.{
  RouterDeps, Endpoint, health, stub, auth_register, auth_login, auth_guest, Route, Verb, routes,
  register_all, new_router, find_route, covers, fits, same_verb, serve_route, serve_http, through,
  Served, no_router, reaches,
}

-- The handlers that serve everyone.
abbrev pub is_public : Endpoint → Bool
is_public health = true
is_public stub = true
is_public auth_register = true
is_public auth_login = true
is_public auth_guest = true
is_public _ = false

abbrev is_safe : (keyed : Bool) → Route → Bool
is_safe keyed r = is_public r.endpoint || keyed && r.gated

abbrev all_safe : (keyed : Bool) → List Route → Bool
all_safe keyed [] = true
all_safe keyed (r ∷ mux) = is_safe keyed r && all_safe keyed mux

abbrev is_built : (keyed : Bool) → Option (List Route) → Bool
is_built keyed none = false
is_built keyed (some mux) = all_safe keyed mux

-- A test of a Boolean, for both.
abbrev both : (Bool → Bool) → Bool
both test = test true && test false

both-holds : (test : Bool → Bool) → both test ≡ true → (b : Bool) → test b ≡ true
both-holds test h true = ground (arith, h)
both-holds test h false = ground (arith, h)

abbrev builds : (has_db has_auth has_matchmaking keyed : Bool) → Bool
builds has_db has_auth has_matchmaking keyed =
    is_built keyed (register_all (routes has_db has_auth has_matchmaking keyed) [])

routes_built :
    (has_db has_auth has_matchmaking keyed : Bool)
    → builds has_db has_auth has_matchmaking keyed ≡ true
unfolding register_all
routes_built a b c e =
    both-holds (builds a b c)
      (both-holds (λ c. both (builds a b c))
        (both-holds (λ b. both (λ c. both (builds a b c)))
          (both-holds (λ a. both (λ b. both (λ c. both (builds a b c)))) refl a) b)
        c)
      e

-- What NewRouter has registered.
built_mux :
    (keyed : Bool) (o : Option (List Route))
    → is_built keyed o ≡ true
    → (mux : List Route) × (o ≡ some mux) × (all_safe keyed mux ≡ true)
built_mux keyed none h = absurd (cc (h))
built_mux keyed (some mux) h = (mux, refl, h)

new_router-built :
    (d : RouterDeps)
    → (mux : List Route) × (new_router d ≡ some mux)
      × (all_safe (not (is_empty d.jwt_secret)) mux ≡ true)
unfolding new_router
new_router-built d =
    let keyed = not (is_empty d.jwt_secret) in
    built_mux keyed (new_router d)
      (routes_built d.has_db d.has_auth_service d.has_matchmaking keyed)

-- The more specific of two safe routes is safe.
chosen-safe :
    (keyed : Bool) (s : Route) (o : Option Route) {r : Route}
    → is_safe keyed s ≡ true
    → ((q : Route) → o ≡ some q → is_safe keyed q ≡ true)
    → some (elim o [ none ↦ s | some q ↦ if covers s.path q.path then q else s ]) ≡ some r
    → is_safe keyed r ≡ true
chosen-safe keyed s none {r} h f e = subst (λ x. is_safe keyed x ≡ true) (some-injective _ _ e) h
chosen-safe keyed s (some q) {r} h f e =
    subst (λ x. is_safe keyed x ≡ true) (some-injective _ _ e)
      (if-elim (λ x. is_safe keyed x ≡ true) (covers s.path q.path) (λ y. f q refl) (λ n. h))

find_route-safe :
    (keyed : Bool) (mux : List Route) (verb : Verb) (path : List String) {r : Route}
    → all_safe keyed mux ≡ true
    → find_route mux verb path ≡ some r
    → is_safe keyed r ≡ true
unfolding find_route
find_route-safe keyed [] verb path h e = absurd (cc (e))
find_route-safe keyed (s ∷ mux) verb path {r} h e =
    let first : is_safe keyed s ≡ true = ground (arith, h) in
    let others : all_safe keyed mux ≡ true = ground (arith, h) in
    elim (Bool-cases (same_verb s.verb verb && fits s.path path)) [
      | inl y ↦
          chosen-safe keyed s (find_route mux verb path) first
            (λ q found. find_route-safe keyed mux verb path {r = q} others found)
            (subst
              (λ b.
                (if b
                  then some (elim (find_route mux verb path) [
                    | none ↦ s
                    | some q ↦ if covers s.path q.path then q else s
                  ])
                  else find_route mux verb path)
                ≡ some r)
              y e)
      | inr n ↦ find_route-safe keyed mux verb path {r = r} others (ground (arith, n, e))
    ]

module _ (p : Packages) (d : RouterDeps) where
  -- The token of a request, and what a handler sees of it.
  abbrev pub IsIdentified : (authorization : Bytes) → Time → Context → Type 0
  IsIdentified authorization now ctx =
      (is_empty d.jwt_secret ≡ false)
      × (c : Claims) × (parse_access_token p d.jwt_secret d.jwt_issuer
            (extract_bearer p authorization) now
          ≡ ok c)
      × (ctx ≡ record { claims = some c; player_id = some c.player_id })

  abbrev IsGuarded : (authorization : Bytes) → Time → Served → Type 0
  IsGuarded authorization now (reaches e ctx) =
      is_public e ≡ false → IsIdentified authorization now ctx
  IsGuarded authorization now no_router = ⊥
  IsGuarded authorization now _ = Unit

  through-IsGuarded :
      (authorization : Bytes) (now : Time) (e : Endpoint)
      → (is_public e ≡ false → is_empty d.jwt_secret ≡ false)
      → IsGuarded authorization now
          (through e (middleware p d.jwt_secret d.jwt_issuer authorization now))
  unfolding middleware
  through-IsGuarded authorization now e key =
      let raw = extract_bearer p authorization in
      if-elim (λ g. IsGuarded authorization now (through e g)) (is_empty raw) (λ y. tt)
        (λ n. go (parse_access_token p d.jwt_secret d.jwt_issuer raw now) refl)
    where
      go :
          (o : Outcome Claims)
          → parse_access_token p d.jwt_secret d.jwt_issuer (extract_bearer p authorization) now ≡ o
          → IsGuarded authorization now (
              through e (elim o [
                | failed err ↦ stopped (respond_error 401 unauthorized_text)
                | ok c ↦ next (record { claims = some c; player_id = some c.player_id })
              ]))
      go (failed err) m = tt
      go (ok c) m = λ guarded. (key guarded, c, m, refl)

  serve_route-IsGuarded :
      (r : Route) (authorization : Bytes) (now : Time)
      → is_safe (not (is_empty d.jwt_secret)) r ≡ true
      → IsGuarded authorization now (serve_route p d r authorization now)
  unfolding serve_route
  serve_route-IsGuarded r authorization now safe = elim (Bool-cases r.gated) [
    | inl y ↦
        rw (serve_route, y)
          (through-IsGuarded authorization now r.endpoint
            (λ guarded. ground (arith, safe, guarded)))
    | inr n ↦ rw (serve_route, n) (λ guarded. absurd (ground (arith, safe, guarded, n)))
  ]

  serve_http-IsGuarded :
      (verb : Verb) (path : List String) (authorization : Bytes) (now : Time)
      → IsGuarded authorization now (serve_http p d verb path authorization now)
  unfolding serve_http
  serve_http-IsGuarded verb path authorization now =
      let (mux, built, safe) = new_router-built d in
      elim (Option-cases (find_route mux verb path)) [
        | inl e ↦ rw (serve_http, built, e) tt
        | inr (r, e) ↦
            rw (serve_http, built, e)
              (serve_route-IsGuarded r authorization now
                (find_route-safe (not (is_empty d.jwt_secret)) mux verb path safe e))
      ]

  -- NewRouter never panics: whatever it is given, no two of the patterns that it registers conflict,
  -- and so every request is served.
  pub serve_http-has_router :
      (verb : Verb) (path : List String) (authorization : Bytes) (now : Time)
      → serve_http p d verb path authorization now ≢ no_router
  unfolding serve_http
  serve_http-has_router verb path authorization now e =
      subst (IsGuarded authorization now) e (serve_http-IsGuarded verb path authorization now)

  -- A request that reaches a handler other than health, a stub or one of the account handlers carries
  -- a bearer token that ParseAccessToken accepts under the secret and the issuer of the router, and
  -- the secret is not empty; what the handler sees as the claims and the player are those of the token.
  pub serve_http-token :
      (verb : Verb) (path : List String) (authorization : Bytes) (now : Time) (e : Endpoint)
      (ctx : Context)
      → serve_http p d verb path authorization now ≡ reaches e ctx
      → is_public e ≡ false
      → IsIdentified authorization now ctx
  serve_http-token verb path authorization now e ctx h guarded =
      subst (IsGuarded authorization now) h (serve_http-IsGuarded verb path authorization now)
        guarded
