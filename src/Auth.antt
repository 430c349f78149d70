-- ===== src/Auth.antt =====
-- internal/auth: errors.go, password.go, and the functions of other packages that the accounts use.
-- A text is the list of its bytes. The packages strings, mail, bcrypt and jwt are parameters.
pub mod Access
pub mod Accounts
pub mod Service
pub mod Handlers
use car_video_game_backend.Base.{
  ℕ, [], ◌∷◌, List, Option, none, some, Bool, true, false, if◌then◌else◌,
}
use car_video_game_backend.Framing.{Bytes}
use car_video_game_backend.Race.Model.{Uuid, Time}

-- Why an input is refused.
pub data InputError : Type 0 where
  email_required invalid_email password_short password_long name_required name_long : InputError
  password_empty : InputError

-- The sentinels of errors.go; `internal` is any other error.
pub data AuthError : Type 0 where
  invalid_credentials email_taken player_not_found unauthorized internal : AuthError
  invalid_input : InputError → AuthError

pub data Outcome {ℓ} (A : Type ℓ) : Type ℓ where
  ok : A → Outcome A
  failed : AuthError → Outcome A

-- The signing methods of the jwt package.
pub data Method : Type 0 where
  hs256 hs384 hs512 other_method : Method

-- Claims. `subject` is the text of the ID; JSON gives the name "sub" to PlayerID alone.
pub record Claims : Type 0 where
  pub user_id : Uuid
  pub player_id : Uuid
  pub issuer : Bytes
  pub subject : Uuid
  pub issued_at : Time
  pub expires_at : Time

pub record Packages : Type 0 where
  pub trim_space : Bytes → Bytes
  pub to_lower : Bytes → Bytes
  -- the Address of mail.ParseAddress
  pub parse_address : Bytes → Option Bytes
  -- bcrypt, with the salt that it draws
  pub generate_from_password : (plain : Bytes) (cost salt : ℕ) → Option Bytes
  pub compare_hash_and_password : (hash plain : Bytes) → Bool
  -- NewWithClaims and SignedString
  pub signed_string : Method → Claims → (key : Bytes) → Option Bytes
  -- ParseWithClaims with a key function, WithIssuer and WithValidMethods
  pub parse_with_claims :
      (raw : Bytes)
      → (Method → Option Bytes)
      → (issuer : Bytes) → List Method
      → Time
      → Option Claims

abbrev pub bcrypt_cost : ℕ
bcrypt_cost = 12

module _ (p : Packages) where
  unfoldable pub hash_password : (plain : Bytes) (salt : ℕ) → Outcome Bytes
  hash_password [] salt = failed (invalid_input password_empty)
  hash_password (b ∷ bs) salt = elim (p.generate_from_password (b ∷ bs) bcrypt_cost salt) [
    | none ↦ failed internal
    | some hash ↦ ok hash
  ]

  unfoldable pub verify_password : (hash plain : Bytes) → Option AuthError
  verify_password hash plain =
      if p.compare_hash_and_password hash plain then none else some invalid_credentials

-- The bodies of the answers: the text of an error, or AuthResponse.
pub data ErrorText : Type 0 where
  invalid_json email_in_use bad_credentials internal_text unauthorized_text : ErrorText
  refused_input : InputError → ErrorText

pub data Body : Type 0 where
  error_body : ErrorText → Body
  auth_response : (access_token : Bytes) (player_id : Uuid) → Body

pub record Response : Type 0 where
  pub status : ℕ
  pub body : Body

abbrev pub respond_error : ℕ → ErrorText → Response
respond_error status text = record { status = status; body = error_body text }

abbrev pub write_auth_response : Bytes × Uuid → Response
write_auth_response (tok, player_id) = record { status = 200; body = auth_response tok player_id }
