-- ===== src/Auth/Handlers/Refusals.antt =====
-- Which requests to internal/auth/handlers.go are refused, and how.
use car_video_game_backend.Base.{
  ℕ, ◌≤◌, ◌<◌, ◌≡◌, refl, inl, inr, [], ◌∷◌, none, some, false, arith, length,
}
use car_video_game_backend.Framing.{Bytes}
use car_video_game_backend.Race.Model.{Uuid}
use car_video_game_backend.Auth.{
  ok, failed, invalid_credentials, internal, Packages, bcrypt_cost, hash_password, verify_password,
  bad_credentials, internal_text, respond_error,
}
use car_video_game_backend.Auth.Accounts.{
  Accounts, select_user, credentials_of, lookup_user_by_email,
}
use car_video_game_backend.Auth.Service.{
  Settings, RegisterRequest, Draws, accepted, validate_password, normalize_email,
  validate_display_name, create_account, register, enter, login,
}
use car_video_game_backend.Auth.Service.Directory.Lookups.{Checked-cases, Outcome-cases, lookup_ok}
use car_video_game_backend.Auth.Handlers.{LoginRequest, handle_register, handle_login}

hash_password_long :
    (p : Packages)
    → ((plain : Bytes) (cost salt : ℕ)
        → 72 < length plain
        → p.generate_from_password plain cost salt ≡ none)
    → (plain : Bytes) (salt : ℕ) → 72 < length plain
    → hash_password p plain salt ≡ failed internal
unfolding hash_password
hash_password_long p limit [] salt long = absurd (omega arith)
hash_password_long p limit (b ∷ bs) salt long =
    rw (hash_password, limit (b ∷ bs) bcrypt_cost salt long) refl

module _ (p : Packages) (v : Settings) (d : Draws) (s : Accounts) where
  login_refused :
      (raw password : Bytes)
      → ((email hash : Bytes) (user_id : Uuid)
          → normalize_email p raw ≡ accepted email
          → credentials_of (select_user s.users email) ≡ ok (user_id, hash)
          → p.compare_hash_and_password hash password ≡ false)
      → login p v d s raw password ≡ (s, failed invalid_credentials)
  unfolding verify_password login
  login_refused raw password wrong = elim (Checked-cases (normalize_email p raw)) [
    | inl (why, n) ↦ rw (login, n) refl
    | inr (email, n) ↦ elim (Outcome-cases (lookup_user_by_email d.lookup_fails s email)) [
      | inl (err, l) ↦ rw (login, n, l) refl
      | inr ((user_id, hash), l) ↦
          rw (login, n, l, enter, wrong email hash user_id n (lookup_ok d.lookup_fails s email l))
            refl
    ]
  ]

  -- A login is answered with 401 and one and the same text, and changes nothing, if no password hash that
  -- stands in the table under the normalised address accepts the password: for an address that cannot be
  -- read, one that nobody has, a wrong password, and whether or not the queries fail.
  pub handle_login_refused :
      (req : LoginRequest)
      → ((email hash : Bytes) (user_id : Uuid)
          → normalize_email p req.email ≡ accepted email
          → credentials_of (select_user s.users email) ≡ ok (user_id, hash)
          → p.compare_hash_and_password hash req.password ≡ false)
      → handle_login p v d s (some req) ≡ (s, respond_error 401 bad_credentials)
  unfolding handle_login
  handle_login_refused req wrong = rw (login_refused req.email req.password wrong) refl

  -- bcrypt refuses more than 72 bytes, and the check of the password allows 128: a registration whose
  -- other fields are accepted, with a password between the two, is answered as an internal error.
  pub handle_register_long_password :
      (req : RegisterRequest) (email name : Bytes)
      → ((plain : Bytes) (cost salt : ℕ)
          → 72 < length plain
          → p.generate_from_password plain cost salt ≡ none)
      → normalize_email p req.email ≡ accepted email
      → validate_display_name p req.display_name ≡ accepted name
      → 72 < length req.password
      → length req.password ≤ 128
      → handle_register p v d s (some req) ≡ (s, respond_error 500 internal_text)
  unfolding handle_register register validate_password
  handle_register_long_password req email name limit n m long short =
      let checked : validate_password req.password ≡ none = ground arith in
      let hashed : hash_password p req.password d.salt ≡ failed internal =
        hash_password_long p limit req.password d.salt long in
      rw (register, n, checked, m, create_account, hashed) refl
