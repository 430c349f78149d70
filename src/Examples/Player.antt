-- ===== src/Examples/Player.antt =====
-- The theorem on profiles at one player, with the packages of Examples/Accounts.
use car_video_game_backend.Base.{◌≡◌, refl, [], ◌∷◌, none, some, false}
use car_video_game_backend.Auth.{hash_password}
use car_video_game_backend.Auth.Access.{Context, player_id_from_context, issue_access_token}
use car_video_game_backend.Auth.Accounts.{
  create_user_with_player, insert_user, user_exists, email_exists, add_player_row, player_exists,
}
use car_video_game_backend.Auth.Service.{
  accepted, validate_password, normalize_email, validate_display_name, give_token, create_account,
  register,
}
use car_video_game_backend.Auth.Service.Directory.{visit, call_all}
use car_video_game_backend.Player.{Profile, Columns, profile_shown, show_me}
use car_video_game_backend.Player.Registered.{register-show_me}
use car_video_game_backend.Examples.Accounts.{
  packages, settings, draws, nobody, registration, token_text,
}

abbrev columns : Columns
columns = record { avatar_url = λ id. none; created_at = λ id. 1 }

abbrev player_2 : Context
player_2 = record { claims = none; player_id = some 2 }

register-show_me_example :
    (shown : Profile) × (show_me false columns
        (call_all packages settings
          (register packages settings (draws 1 2) nobody registration).0
          ((draws 3 4, visit) ∷ [])).0
        player_2
      ≡ profile_shown shown)
    × (shown.player_id ≡ 2)
    × (validate_display_name packages registration.display_name ≡ accepted shown.display_name)
    × (shown.is_guest ≡ false)
unfolding register normalize_email validate_password validate_display_name create_account
    hash_password create_user_with_player insert_user user_exists email_exists add_player_row
    player_exists give_token issue_access_token player_id_from_context
register-show_me_example =
    register-show_me packages settings nobody (draws 1 2) registration token_text 2
      ((draws 3 4, visit) ∷ []) columns player_2 refl refl
