-- ===== src/Auth/Access/Bearer.antt =====
-- An access token is good until it expires: IssueAccessToken of internal/auth/jwt.go and Middleware of
-- internal/auth/middleware.go together.
use car_video_game_backend.Base.{
  ℕ, zero, suc, ltb, ◌==◌, ◌∙◌, inl, inr, ◌+◌, ◌*◌, ◌/◌, ◌<◌, ◌≡◌, ◌≢◌, refl, sym, subst, [], ◌∷◌,
  ◌++◌, Option, some, true, false, Option-cases, Bool-cases, arith, length, take, drop,
  take-append_left, drop-append_left, length-append,
}
use car_video_game_backend.Framing.{Bytes}
use car_video_game_backend.Race.Model.{Uuid, Time}
use car_video_game_backend.Matchmaking.Token.{is_empty}
use car_video_game_backend.Auth.{ok, Method, hs256, Claims, Packages}
use car_video_game_backend.Auth.Access.{
  access_claims, hmac_key, Context, next, player_id_from_context, bearer, equal_fold,
  issue_access_token, parse_access_token, extract_bearer, middleware,
}

-- Time as a token writes it: a second in nanoseconds.
abbrev pub whole_seconds : Time → Time
whole_seconds t = t / 1_000_000_000 * 1_000_000_000

-- What the jwt package promises of a text that it has signed: it is not empty and has no white space
-- around it, and until the second of its expiry it parses, with the same key and issuer, to claims with
-- the same IDs.
pub record JwtLaws (p : Packages) : Type 0 where
  pub signed_text :
      (c : Claims) (key : Bytes) {raw : Bytes}
      → p.signed_string hs256 c key ≡ some raw
      → (is_empty raw ≡ false) × (p.trim_space raw ≡ raw)
  pub parse-signed :
      (c : Claims) (key : Bytes) (key_of : Method → Option Bytes) (now : Time) {raw : Bytes}
      → p.signed_string hs256 c key ≡ some raw
      → key_of hs256 ≡ some key
      → now < whole_seconds c.expires_at
      → (read : Claims) × (p.parse_with_claims raw key_of c.issuer (hs256 ∷ []) now ≡ some read)
        × (read.user_id ≡ c.user_id)
        × (read.player_id ≡ c.player_id)

is_set : (id : Uuid) → id ≢ 0 → (id == 0) ≡ false
is_set zero h = absurd (h refl)
is_set (suc n) h = ground arith

-- An issued token is a signed text.
issued_text :
    (p : Packages) (secret issuer : Bytes) (ttl : ℕ) (user_id player_id : Uuid) (issued : Time)
    {tok : Bytes}
    → issue_access_token p secret issuer ttl user_id player_id issued ≡ ok tok
    → p.signed_string hs256 (access_claims issuer ttl user_id player_id issued) secret ≡ some tok
unfolding issue_access_token
issued_text p secret issuer ttl user_id player_id issued e = elim (Bool-cases (is_empty secret)) [
  | inl y ↦ absurd (ground (arith, y, e))
  | inr n ↦
      elim (Option-cases
        (p.signed_string hs256 (access_claims issuer ttl user_id player_id issued) secret)) [
          | inl m ↦ absurd (ground (arith, n, m, e))
          | inr (raw, m) ↦ ground (arith, n, m, e)
        ]
]

module _ (p : Packages) (laws : JwtLaws p) where
  extract_bearer-append :
      (prefix raw : Bytes)
      → length prefix ≡ 7
      → equal_fold prefix bearer ≡ true
      → p.trim_space raw ≡ raw
      → extract_bearer p (prefix ++ raw) ≡ raw
  unfolding extract_bearer
  extract_bearer-append prefix raw seven same trim =
      let long : ltb (length (prefix ++ raw)) 7 ≡ false =
        ground (arith, length-append prefix raw, seven) in
      let front : take 7 (prefix ++ raw) ≡ prefix =
        subst (λ n. take n (prefix ++ raw) ≡ prefix) seven (take-append_left prefix raw) in
      let back : drop 7 (prefix ++ raw) ≡ raw =
        subst (λ n. drop n (prefix ++ raw) ≡ raw) seven (drop-append_left prefix raw) in
      rw (extract_bearer, long, front, same, back) trim

  parse-issue :
      (secret issuer : Bytes) (ttl : ℕ) (user_id player_id : Uuid) (issued now : Time) {raw : Bytes}
      → p.signed_string hs256 (access_claims issuer ttl user_id player_id issued) secret ≡ some raw
      → user_id ≢ 0
      → player_id ≢ 0
      → now < whole_seconds (issued + ttl)
      → (read : Claims) × (parse_access_token p secret issuer raw now ≡ ok read)
        × (read.player_id ≡ player_id)
  unfolding parse_access_token
  parse-issue secret issuer ttl user_id player_id issued now signed u q early =
      let c = access_claims issuer ttl user_id player_id issued in
      let (read, e, same_user, same_player) =
        laws.parse-signed c secret (hmac_key secret) now signed refl early in
      let players : (read.player_id == 0) ≡ false =
        is_set read.player_id (λ z. q (sym same_player ∙ z)) in
      let users : (read.user_id == 0) ≡ false = is_set read.user_id (λ z. u (sym same_user ∙ z)) in
      (
        read,
        rw (parse_access_token, (laws.signed_text c secret signed).0, e, players, users) refl,
        same_player,
      )

  -- A request with a token that IssueAccessToken made, for IDs that are not nil, passes Middleware until
  -- the second of the token's expiry, and the handler behind it reads the token's player from the
  -- context. The word Bearer may be written in any case.
  pub middleware-issue_access_token :
      (secret issuer : Bytes) (ttl : ℕ) (user_id player_id : Uuid) (issued now : Time)
      (prefix tok : Bytes)
      → issue_access_token p secret issuer ttl user_id player_id issued ≡ ok tok
      → user_id ≢ 0
      → player_id ≢ 0
      → now < whole_seconds (issued + ttl)
      → length prefix ≡ 7
      → equal_fold prefix bearer ≡ true
      → (ctx : Context) × (middleware p secret issuer (prefix ++ tok) now ≡ next ctx)
        × (player_id_from_context ctx ≡ (player_id, true))
  unfolding issue_access_token middleware player_id_from_context
  middleware-issue_access_token secret issuer ttl user_id player_id issued now prefix tok made u q
        early seven same =
      let signed = issued_text p secret issuer ttl user_id player_id issued made in
      let (filled, trim) = laws.signed_text _ secret signed in
      let (read, e, same_player) =
        parse-issue secret issuer ttl user_id player_id issued now signed u q early in
      (
        record { claims = some read; player_id = some read.player_id },
        rw (middleware, extract_bearer-append prefix tok seven same trim, filled, e) refl,
        rw (same_player, is_set player_id q) refl,
      )
