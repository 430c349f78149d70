-- ===== src/Config/Validity.antt =====
-- What a loaded configuration promises: Load of internal/config/config.go.
use Prim.Native.String.{String}
use text.Mathlib.Text.{◌==◌}
use car_video_game_backend.Base.{
  pos, ltb_ℤ, ◌≡◌, ◌≢◌, refl, ap, subst, inl, inr, none, Bool, true, false, not, ◌&&◌, if-elim,
  arith, Option-cases,
}
use car_video_game_backend.Config.{
  Config, Loaded, loaded, failed, Environment, get_env, out_of_range, with_dev_secrets, or_dev,
  game_token_secret_required, read_config, check_ranges, check_config, parse_log_level, load,
}

or_dev_nonempty :
    (dev : Bool) (s d : String)
    → (d == "") ≡ false
    → (not dev && s == "") ≡ false
    → (or_dev dev s d == "") ≡ false
or_dev_nonempty dev s d h k =
    if-elim (λ x. (x == "") ≡ false) (s == "" && dev) (λ _. h) (λ m. ground arith)

-- The three ports that are checked, and the lifetime, in range, and no secret empty.
abbrev pub Good : Config → Type 0
Good cfg =
    (out_of_range cfg.api_port ≡ false)
    × (out_of_range cfg.game_server_port ≡ false)
    × (out_of_range cfg.game_server_public_port ≡ false)
    × (ltb_ℤ (pos 0) cfg.jwt_access_ttl ≡ true)
    × ((cfg.postgres_password == "") ≡ false)
    × ((cfg.jwt_secret == "") ≡ false)
    × ((cfg.game_token_secret == "") ≡ false)

abbrev OnLoaded : (Config → Type 0) → Loaded → Type 0
OnLoaded P (loaded cfg) = P cfg
OnLoaded P (failed err) = Unit

check_ranges-Good :
    (cfg : Config)
    → (cfg.postgres_password == "") ≡ false
    → (cfg.jwt_secret == "") ≡ false
    → (cfg.game_token_secret == "") ≡ false
    → OnLoaded Good (check_ranges cfg)
unfolding check_ranges
check_ranges-Good cfg p j g =
    if-elim (OnLoaded Good) (out_of_range cfg.api_port) (λ _. tt)
      (λ a.
        if-elim (OnLoaded Good) (out_of_range cfg.game_server_port) (λ _. tt)
          (λ b.
            if-elim (OnLoaded Good) (out_of_range cfg.game_server_public_port) (λ _. tt)
              (λ c.
                if-elim (OnLoaded Good) (not (ltb_ℤ (pos 0) cfg.jwt_access_ttl)) (λ _. tt)
                  (λ d. (a, b, c, ground arith, p, j, g)))))

check_config-Good :
    (cfg : Config) → (cfg.game_token_secret == "") ≡ false → OnLoaded Good (check_config cfg)
unfolding check_config
check_config-Good cfg g =
    let dev = cfg.app_env == "development" in
    if-elim (OnLoaded Good) (not dev && cfg.postgres_password == "") (λ _. tt)
      (λ p.
        if-elim (OnLoaded Good) (not dev && cfg.jwt_secret == "") (λ _. tt)
          (λ j.
            if-elim (OnLoaded Good) (not dev && cfg.game_token_secret == "") (λ _. tt)
              (λ _.
                check_ranges-Good (with_dev_secrets cfg)
                  (or_dev_nonempty dev cfg.postgres_password "dev_password" refl p)
                  (or_dev_nonempty dev cfg.jwt_secret "dev_jwt_secret_change_me" refl j) g)))

-- The game token's secret is the one in the source code, and is not what a failure is about.
abbrev pub Defaulted : Loaded → Type 0
Defaulted (loaded cfg) = cfg.game_token_secret ≡ "dev_game_token_secret_change_me"
Defaulted (failed err) = err ≢ game_token_secret_required

check_ranges-Defaulted :
    (cfg : Config)
    → cfg.game_token_secret ≡ "dev_game_token_secret_change_me"
    → Defaulted (check_ranges cfg)
unfolding check_ranges
check_ranges-Defaulted cfg g =
    if-elim Defaulted (out_of_range cfg.api_port) (λ _ k. absurd (cc (k)))
      (λ _.
        if-elim Defaulted (out_of_range cfg.game_server_port) (λ _ k. absurd (cc (k)))
          (λ _.
            if-elim Defaulted (out_of_range cfg.game_server_public_port) (λ _ k. absurd (cc (k)))
              (λ _.
                if-elim Defaulted (not (ltb_ℤ (pos 0) cfg.jwt_access_ttl)) (λ _ k. absurd (cc (k)))
                  (λ _. g))))

check_config-Defaulted :
    (cfg : Config)
    → cfg.game_token_secret ≡ "dev_game_token_secret_change_me"
    → Defaulted (check_config cfg)
unfolding check_config
check_config-Defaulted cfg g =
    let dev = cfg.app_env == "development" in
    if-elim Defaulted (not dev && cfg.postgres_password == "") (λ _ k. absurd (cc (k)))
      (λ _.
        if-elim Defaulted (not dev && cfg.jwt_secret == "") (λ _ k. absurd (cc (k)))
          (λ _.
            if-elim Defaulted (not dev && cfg.game_token_secret == "")
              (λ q.
                let full : (cfg.game_token_secret == "") ≡ false = ap (λ x. x == "") g in
                absurd (ground arith))
              (λ _. check_ranges-Defaulted (with_dev_secrets cfg) g)))

module _ (e : Environment) where
  get_env_nonempty :
      (key fallback : String) → (fallback == "") ≡ false → (get_env e key fallback == "") ≡ false
  unfolding get_env
  get_env_nonempty key fallback h = elim (Option-cases (e.lookup_env key)) [
    | inl f ↦ rw (f, get_env) h
    | inr (v, f) ↦ rw (f, get_env) (if-elim (λ s. (s == "") ≡ false) (v == "") (λ _. h) (λ k. k))
  ]

  load-Good : OnLoaded Good (load e)
  unfolding load
  load-Good = elim (Option-cases (parse_log_level e (get_env e "LOG_LEVEL" "info"))) [
    | inl f ↦ rw (f, load) tt
    | inr (level, f) ↦
        rw (f, load)
          (check_config-Good (read_config e level) (get_env_nonempty "GAME_TOKEN_SECRET" _ refl))
  ]

  -- A configuration that Load returns, whatever the environment holds, has the port of the API and
  -- both ports of the game server, its own and the public one, from 1 to 65535, a positive token
  -- lifetime, and a database password and two secrets that are not empty. The port of the database is
  -- not among what Load checks.
  pub load_valid : (cfg : Config) → load e ≡ loaded cfg → Good cfg
  load_valid cfg h = subst (OnLoaded Good) h load-Good

  get_env_missing :
      (key fallback : String) → e.lookup_env key ≡ none → get_env e key fallback ≡ fallback
  unfolding get_env
  get_env_missing key fallback h = rw (h, get_env) refl

  -- Without GAME_TOKEN_SECRET in the environment, and in production too, Load does not ask for it:
  -- it never fails for its want, and what it returns has the secret that stands in the source code.
  pub load_default_secret : e.lookup_env "GAME_TOKEN_SECRET" ≡ none → Defaulted (load e)
  unfolding load
  load_default_secret missing =
      elim (Option-cases (parse_log_level e (get_env e "LOG_LEVEL" "info"))) [
        | inl f ↦ rw (f, load) (λ k. absurd (cc (k)))
        | inr (level, f) ↦
            rw (f, load)
              (check_config-Defaulted (read_config e level)
                (get_env_missing "GAME_TOKEN_SECRET" "dev_game_token_secret_change_me" missing))
      ]
