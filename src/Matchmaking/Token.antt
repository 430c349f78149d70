-- ===== src/Matchmaking/Token.antt =====
-- internal/matchmaking/token.go: signing and verifying a game token. A text is the list of its
-- bytes. HMAC-SHA256, base64url and JSON are parameters.
pub mod Signing
use car_video_game_backend.Base.{
  ℕ, ◌+◌, ◌/◌, ℤ, pos, ltb_ℤ, List, [], ◌∷◌, ◌++◌, Option, none, some, Bool, true, false, ◌&&◌,
  ◌||◌, ◌==◌, if◌then◌else◌,
}
use car_video_game_backend.Framing.{Bytes}
use car_video_game_backend.Race.Model.{Uuid, Time}

pub record TokenPayload : Type 0 where
  pub match_id : Uuid
  pub player_id : Uuid
  -- Unix seconds
  pub exp : ℤ

pub record Codecs : Type 0 where
  pub hmac : (message secret : Bytes) → Bytes
  pub base64 : Bytes → Bytes
  pub from_base64 : Bytes → Option Bytes
  pub to_json : TokenPayload → Option Bytes
  pub from_json : Bytes → Option TokenPayload

-- TokenTTL, in nanoseconds.
abbrev pub token_ttl : ℕ
token_ttl = 300_000_000_000

abbrev pub unix : Time → ℕ
unix t = t / 1_000_000_000

pub data SignError : Type 0 where
  empty_secret zero_uuid bad_json : SignError

pub data Signed : Type 0 where
  token : (raw : Bytes) (exp : ℤ) → Signed
  unsigned : SignError → Signed

pub data TokenError : Type 0 where
  token_invalid token_expired token_consumed lookup_failed consume_failed : TokenError

pub data Verified : Type 0 where
  valid : TokenPayload → Verified
  invalid : TokenError → Verified

abbrev pub dot : ℕ
dot = 46

abbrev pub is_empty : Bytes → Bool
is_empty [] = true
is_empty (b ∷ bs) = false

abbrev pub signature : Codecs → (secret payload : Bytes) → Bytes
signature c secret payload = c.base64 (c.hmac payload secret)

-- SignGameToken; uuid.Nil is 0.
unfoldable pub sign_game_token :
    Codecs → (secret : Bytes) → (match_id player_id : Uuid) → Time → Signed
sign_game_token c secret match_id player_id now =
    let exp = pos (unix (now + token_ttl)) in
    if is_empty secret
    then unsigned empty_secret
    else if match_id == 0 || player_id == 0
    then unsigned zero_uuid
    else elim (c.to_json (record { match_id = match_id; player_id = player_id; exp = exp })) [
      | none ↦ unsigned bad_json
      | some raw ↦ token (c.base64 raw ++ dot ∷ signature c secret (c.base64 raw)) exp
    ]

-- splitToken: at the last dot.
unfoldable pub split_token : Bytes → Option (Bytes × Bytes)
split_token [] = none
split_token (b ∷ bs) = elim (split_token bs) [
  | some (left, right) ↦ some (b ∷ left, right)
  | none ↦ if b == dot then some ([], bs) else none
]

-- hmac.Equal
unfoldable pub same_bytes : Bytes → Bytes → Bool
same_bytes [] [] = true
same_bytes (a ∷ as_) (b ∷ bs) = let rest = same_bytes as_ bs in (a == b) && rest
same_bytes _ _ = false

unfoldable pub verify_hmac : Codecs → (secret raw : Bytes) → Bool
unfolding split_token same_bytes
verify_hmac c secret raw = elim (split_token raw) [
  | none ↦ false
  | some (payload, sig) ↦ same_bytes (signature c secret payload) sig
]

-- AssignmentIsFresh of the token store, if there is one: `none` is its error.
abbrev pub Store : Type 0
Store = (match_id player_id : Uuid) → (raw : Bytes) → Option Bool

abbrev pub check_store : Option Store → TokenPayload → Bytes → Verified
check_store none pl raw = valid pl
check_store (some fresh) pl raw = elim (fresh pl.match_id pl.player_id raw) [
  | none ↦ invalid lookup_failed
  | some ok ↦ if ok then valid pl else invalid token_invalid
]

-- The checks on the payload of a token with a good signature.
unfoldable pub verify_payload : Codecs → Option Store → (raw payload : Bytes) → Time → Verified
verify_payload c store raw payload now = elim (c.from_base64 payload) [
  | none ↦ invalid token_invalid
  | some body ↦ elim (c.from_json body) [
    | none ↦ invalid token_invalid
    | some pl ↦
        if ltb_ℤ pl.exp (pos (unix now)) then invalid token_expired else check_store store pl raw
  ]
]

unfoldable pub verify_game_token : Codecs → (secret raw : Bytes) → Option Store → Time → Verified
unfolding split_token same_bytes verify_payload
verify_game_token c secret raw store now = elim (split_token raw) [
  | none ↦ invalid token_invalid
  | some (payload, sig) ↦
      if same_bytes (signature c secret payload) sig
      then verify_payload c store raw payload now
      else invalid token_invalid
]
