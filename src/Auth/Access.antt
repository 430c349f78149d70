-- ===== src/Auth/Access.antt =====
-- internal/auth/jwt.go and middleware.go: the access token, and the gate in front of the handlers.
pub mod Bearer
use car_video_game_backend.Base.{
  ℕ, ◌+◌, List, [], ◌∷◌, Option, none, some, Bool, true, false, not, ◌&&◌, ◌||◌, ltb, leb, ◌==◌,
  if◌then◌else◌, length, take, drop, map,
}
use car_video_game_backend.Framing.{Bytes}
use car_video_game_backend.Race.Model.{Uuid, Time}
use car_video_game_backend.Matchmaking.Token.{is_empty, same_bytes}
use car_video_game_backend.Auth.{
  AuthError, unauthorized, internal, Outcome, ok, failed, Method, hs256, hs384, hs512, other_method,
  Claims, Packages, ErrorText, unauthorized_text, Response, respond_error,
}

abbrev pub access_claims : (issuer : Bytes) (ttl : ℕ) (user_id player_id : Uuid) → Time → Claims
access_claims issuer ttl user_id player_id now = record {
  user_id = user_id;
  player_id = player_id;
  issuer = issuer;
  subject = player_id;
  issued_at = now;
  expires_at = now + ttl;
}

-- The key function of ParseAccessToken.
abbrev pub hmac_key : (secret : Bytes) → Method → Option Bytes
hmac_key secret other_method = none
hmac_key secret _ = some secret

-- What Middleware adds to the context of a request.
pub record Context : Type 0 where
  pub claims : Option Claims
  pub player_id : Option Uuid

pub data Gate : Type 0 where
  next : Context → Gate
  stopped : Response → Gate

-- ClaimsFromContext
abbrev pub claims_from_context : Context → Option Claims
claims_from_context ctx = ctx.claims

unfoldable pub player_id_from_context : Context → Uuid × Bool
player_id_from_context ctx = elim ctx.player_id [
  | none ↦ (0, false)
  | some id ↦ (id, not (id == 0))
]

-- "Bearer "
abbrev pub bearer : Bytes
bearer = 66 ∷ 101 ∷ 97 ∷ 114 ∷ 101 ∷ 114 ∷ 32 ∷ []

-- An upper-case letter as its lower-case one.
abbrev pub fold : ℕ → ℕ
fold b = if leb 65 b && leb b 90 then b + 32 else b

-- strings.EqualFold, exact against a text such as "Bearer ", none of whose letters is equal to one
-- outside ASCII.
unfoldable pub equal_fold : Bytes → Bytes → Bool
unfolding same_bytes
equal_fold a b = same_bytes (map fold a) (map fold b)

module _ (p : Packages) where
  unfoldable pub issue_access_token :
      (secret issuer : Bytes) (ttl : ℕ) (user_id player_id : Uuid) → Time → Outcome Bytes
  issue_access_token secret issuer ttl user_id player_id now =
      if is_empty secret
      then failed internal
      else elim (p.signed_string hs256 (access_claims issuer ttl user_id player_id now) secret) [
        | none ↦ failed internal
        | some raw ↦ ok raw
      ]

  unfoldable pub parse_access_token : (secret issuer raw : Bytes) → Time → Outcome Claims
  parse_access_token secret issuer raw now =
      if is_empty raw
      then failed unauthorized
      else elim (p.parse_with_claims raw (hmac_key secret) issuer (hs256 ∷ []) now) [
        | none ↦ failed unauthorized
        | some c ↦ if c.player_id == 0 || c.user_id == 0 then failed unauthorized else ok c
      ]

  unfoldable pub extract_bearer : (header : Bytes) → Bytes
  unfolding equal_fold
  extract_bearer header =
      if ltb (length header) (length bearer)
      then []
      else if equal_fold (take (length bearer) header) bearer
      then p.trim_space (drop (length bearer) header)
      else []

  -- Middleware; `header` is the value of Authorization.
  unfoldable pub middleware : (secret issuer header : Bytes) → Time → Gate
  middleware secret issuer header now =
      let raw = extract_bearer header in
      if is_empty raw
      then stopped (respond_error 401 unauthorized_text)
      else elim (parse_access_token secret issuer raw now) [
        | failed err ↦ stopped (respond_error 401 unauthorized_text)
        | ok c ↦ next (record { claims = some c; player_id = some c.player_id })
      ]
