-- ===== src/Examples/Config.antt =====
-- Load in production, with two secrets set and the third not.
use text.Mathlib.Text.{◌==◌}
use car_video_game_backend.Base.{pos, ltb_ℤ, ◌≡◌, refl, none, some, true, false, if◌then◌else◌}
use car_video_game_backend.Config.{
  Config, info, Environment, get_env, get_env_int, get_env_duration, out_of_range, check_ranges,
  check_config, parse_log_level, load,
}
use car_video_game_backend.Config.Validity.{Defaulted, load_valid, load_default_secret}

abbrev production : Environment
production = record {
  lookup_env = λ key.
      if key == "APP_ENV"
      then some "production"
      else if key == "POSTGRES_PASSWORD"
      then some "p"
      else if key == "JWT_SECRET"
      then some "j"
      else none;
  atoi = λ v. none;
  parse_duration = λ v. none;
  trim_lower = λ s. s;
}

abbrev config : Config
config = record {
  app_env = "production";
  log_level = info;
  api_port = pos 8_080;
  game_server_port = pos 7_000;
  postgres_host = "postgres";
  postgres_port = pos 5_432;
  postgres_db = "racing_game";
  postgres_user = "racing_user";
  postgres_password = "p";
  postgres_sslmode = "disable";
  jwt_secret = "j";
  jwt_issuer = "racing-game-backend";
  jwt_access_ttl = pos 3_600_000_000_000;
  game_server_public_host = "localhost";
  game_server_public_port = pos 7_000;
  game_token_secret = "dev_game_token_secret_change_me";
}

load_valid_example :
    (out_of_range config.api_port ≡ false)
    × (out_of_range config.game_server_port ≡ false)
    × (out_of_range config.game_server_public_port ≡ false)
    × (ltb_ℤ (pos 0) config.jwt_access_ttl ≡ true)
    × ((config.postgres_password == "") ≡ false)
    × ((config.jwt_secret == "") ≡ false)
    × ((config.game_token_secret == "") ≡ false)
unfolding load check_config check_ranges parse_log_level get_env get_env_int get_env_duration
load_valid_example = load_valid production config refl

load_default_secret_example : Defaulted (load production)
load_default_secret_example = load_default_secret production refl
