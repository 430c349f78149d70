-- ===== src/Config.antt =====
-- internal/config/config.go: Load. The environment, strconv.Atoi, time.ParseDuration, and the
-- trimming and lowering of a text are parameters. Durations are nanoseconds.
pub mod Validity
use Prim.Native.String.{String}
use text.Mathlib.Text.{◌==◌}
use car_video_game_backend.Base.{
  ℕ, ℤ, pos, ltb_ℤ, Option, none, some, Bool, true, false, not, ◌&&◌, ◌||◌, if◌then◌else◌,
}

pub data Level : Type 0 where
  debug info warn error : Level

pub record Config : Type 0 where
  pub app_env : String
  pub log_level : Level
  pub api_port : ℤ
  pub game_server_port : ℤ
  pub postgres_host : String
  pub postgres_port : ℤ
  pub postgres_db : String
  pub postgres_user : String
  pub postgres_password : String
  pub postgres_sslmode : String
  pub jwt_secret : String
  pub jwt_issuer : String
  pub jwt_access_ttl : ℤ
  pub game_server_public_host : String
  pub game_server_public_port : ℤ
  pub game_token_secret : String

pub data LoadError : Type 0 where
  unknown_level password_required jwt_secret_required game_token_secret_required : LoadError
  api_port_range game_server_port_range public_port_range ttl_not_positive : LoadError

pub data Loaded : Type 0 where
  loaded : Config → Loaded
  failed : LoadError → Loaded

pub record Environment : Type 0 where
  pub lookup_env : String → Option String
  pub atoi : String → Option ℤ
  pub parse_duration : String → Option ℤ
  pub trim_lower : String → String

module _ (e : Environment) where
  -- os.Getenv
  abbrev getenv : String → String
  getenv key = elim (e.lookup_env key) [ none ↦ "" | some v ↦ v ]

  unfoldable pub get_env : String → String → String
  get_env key fallback = elim (e.lookup_env key) [
    | none ↦ fallback
    | some v ↦ if v == "" then fallback else v
  ]

  abbrev parsed : Option ℤ → ℤ → ℤ
  parsed none fallback = fallback
  parsed (some n) fallback = n

  unfoldable pub get_env_int : String → ℤ → ℤ
  get_env_int key fallback = elim (e.lookup_env key) [
    | none ↦ fallback
    | some v ↦ if v == "" then fallback else parsed (e.atoi v) fallback
  ]

  unfoldable pub get_env_duration : String → ℤ → ℤ
  get_env_duration key fallback = elim (e.lookup_env key) [
    | none ↦ fallback
    | some v ↦ if v == "" then fallback else parsed (e.parse_duration v) fallback
  ]

  unfoldable pub parse_log_level : String → Option Level
  parse_log_level s =
      let t = e.trim_lower s in
      if t == "debug"
      then some debug
      else if t == "info" || t == ""
      then some info
      else if t == "warn" || t == "warning"
      then some warn
      else if t == "error"
      then some error
      else none

  -- The literal at the head of Load, with the level.
  abbrev pub read_config : Level → Config
  read_config level = record {
    app_env = get_env "APP_ENV" "development";
    log_level = level;
    api_port = get_env_int "API_PORT" (pos 8_080);
    game_server_port = get_env_int "GAME_SERVER_PORT" (pos 7_000);
    postgres_host = get_env "POSTGRES_HOST" "postgres";
    postgres_port = get_env_int "POSTGRES_PORT" (pos 5_432);
    postgres_db = get_env "POSTGRES_DB" "racing_game";
    postgres_user = get_env "POSTGRES_USER" "racing_user";
    postgres_password = getenv "POSTGRES_PASSWORD";
    postgres_sslmode = get_env "POSTGRES_SSLMODE" "disable";
    jwt_secret = getenv "JWT_SECRET";
    jwt_issuer = get_env "JWT_ISSUER" "racing-game-backend";
    jwt_access_ttl = get_env_duration "JWT_ACCESS_TTL" (pos 3_600_000_000_000);
    game_server_public_host = get_env "GAME_SERVER_PUBLIC_HOST" "localhost";
    game_server_public_port = get_env_int "GAME_SERVER_PUBLIC_PORT" (pos 7_000);
    game_token_secret = get_env "GAME_TOKEN_SECRET" "dev_game_token_secret_change_me";
  }

-- p <= 0 || p > 65535
abbrev pub out_of_range : ℤ → Bool
out_of_range p = not (ltb_ℤ (pos 0) p) || ltb_ℤ (pos 65_535) p

abbrev pub or_dev : Bool → String → String → String
or_dev dev s d = if s == "" && dev then d else s

-- The secrets that development fills in.
abbrev pub with_dev_secrets : Config → Config
with_dev_secrets cfg =
    let dev = cfg.app_env == "development" in
    record cfg {
      postgres_password = or_dev dev cfg.postgres_password "dev_password";
      jwt_secret = or_dev dev cfg.jwt_secret "dev_jwt_secret_change_me";
    }

-- The checks of Load from the ports on.
unfoldable pub check_ranges : Config → Loaded
check_ranges cfg =
    if out_of_range cfg.api_port
    then failed api_port_range
    else if out_of_range cfg.game_server_port
    then failed game_server_port_range
    else if out_of_range cfg.game_server_public_port
    then failed public_port_range
    else if not (ltb_ℤ (pos 0) cfg.jwt_access_ttl)
    then failed ttl_not_positive
    else loaded cfg

unfoldable pub check_config : Config → Loaded
unfolding check_ranges
check_config cfg =
    let required = not (cfg.app_env == "development") in
    if required && cfg.postgres_password == ""
    then failed password_required
    else if required && cfg.jwt_secret == ""
    then failed jwt_secret_required
    else if required && cfg.game_token_secret == ""
    then failed game_token_secret_required
    else check_ranges (with_dev_secrets cfg)

module _ (e : Environment) where
  unfoldable pub load : Loaded
  unfolding check_config parse_log_level get_env get_env_int get_env_duration
  load = elim (parse_log_level e (get_env e "LOG_LEVEL" "info")) [
    | none ↦ failed unknown_level
    | some level ↦ check_config (read_config e level)
  ]
