-- ===== src/Auth/Handlers.antt =====
-- internal/auth/handlers.go: the answers of the three endpoints. `none` is a body that is no JSON.
pub mod Refusals
use car_video_game_backend.Base.{Option, none, some}
use car_video_game_backend.Framing.{Bytes}
use car_video_game_backend.Auth.{
  AuthError, invalid_credentials, email_taken, invalid_input, Outcome, ok, failed, Packages,
  ErrorText, invalid_json, email_in_use, bad_credentials, internal_text, refused_input, Response,
  respond_error, write_auth_response,
}
use car_video_game_backend.Auth.Accounts.{Accounts}
use car_video_game_backend.Auth.Service.{
  Settings, RegisterRequest, Draws, Session, register, login, guest,
}

pub record LoginRequest : Type 0 where
  pub email : Bytes
  pub password : Bytes

abbrev pub register_response : Outcome Session → Response
register_response (ok session) = write_auth_response session
register_response (failed email_taken) = respond_error 409 email_in_use
register_response (failed (invalid_input why)) = respond_error 400 (refused_input why)
register_response (failed _) = respond_error 500 internal_text

abbrev pub login_response : Outcome Session → Response
login_response (ok session) = write_auth_response session
login_response (failed invalid_credentials) = respond_error 401 bad_credentials
login_response (failed _) = respond_error 500 internal_text

abbrev pub guest_response : Outcome Session → Response
guest_response (ok session) = write_auth_response session
guest_response (failed _) = respond_error 500 internal_text

module _ (p : Packages) (v : Settings) where
  unfoldable pub handle_register : Draws → Accounts → Option RegisterRequest → Accounts × Response
  unfolding register
  handle_register d s none = (s, respond_error 400 invalid_json)
  handle_register d s (some req) =
      let done = register p v d s req in (done.0, register_response done.1)

  unfoldable pub handle_login : Draws → Accounts → Option LoginRequest → Accounts × Response
  unfolding login
  handle_login d s none = (s, respond_error 400 invalid_json)
  handle_login d s (some req) =
      let done = login p v d s req.email req.password in (done.0, login_response done.1)

  unfoldable pub handle_guest : Draws → Accounts → Accounts × Response
  unfolding guest
  handle_guest d s = let done = guest p v d s in (done.0, guest_response done.1)
