-- ===== src/Examples/Accounts.antt =====
-- The theorems on accounts at one user, with packages that write texts as they are.
use car_video_game_backend.Base.{
  ℕ, zero, suc, ◌<◌, subst, some-injective, Bool-cases, inl, inr, ◌≡◌, refl, sym, ap, [], ◌∷◌,
  Option, none, some, Bool, true, false, if◌then◌else◌, ltb, arith, length,
}
use car_video_game_backend.Framing.{Bytes}
use car_video_game_backend.Race.Model.{Uuid, Time}
use car_video_game_backend.Matchmaking.Token.{is_empty, same_bytes}
use car_video_game_backend.Matchmaking.Token.Signing.{same_bytes_iff}
use car_video_game_backend.Auth.{
  Outcome, failed, ok, Claims, hash_password, Packages, bad_credentials, internal_text,
  respond_error,
}
use car_video_game_backend.Auth.Access.{issue_access_token}
use car_video_game_backend.Auth.Access.Bearer.{whole_seconds, JwtLaws}
use car_video_game_backend.Auth.Accounts.{
  Accounts, Transaction, registered_user, player_row, create_user_with_player, insert_user,
  user_exists, email_exists, add_player_row, player_exists, select_user, credentials_of,
}
use car_video_game_backend.Auth.Accounts.Keys.{IsOwned, book}
use car_video_game_backend.Auth.Service.{
  Settings, RegisterRequest, Draws, Checked, accepted, refused, register, login, normalize_email,
  validate_password, validate_display_name, create_account, give_token,
}
use car_video_game_backend.Auth.Service.Directory.{sign_up, log_in, visit, Steps, call_all}
use car_video_game_backend.Auth.Service.Directory.Refinement.{call_all_refines}
use car_video_game_backend.Auth.Service.Return.{PackageLaws, registered_logs_in}
use car_video_game_backend.Auth.Handlers.{handle_register, handle_login}
use car_video_game_backend.Auth.Handlers.Refusals.{
  handle_login_refused, handle_register_long_password,
}

abbrev generate : Bytes → ℕ → ℕ → Option Bytes
generate plain cost salt = if ltb 72 (length plain) then none else some (salt ∷ plain)

abbrev compare_hash : Bytes → Bytes → Bool
compare_hash [] plain = false
compare_hash (salt ∷ hash) plain = same_bytes hash plain

abbrev read_token : Bytes → Time → Option Claims
read_token (u ∷ q ∷ t ∷ e ∷ issuer) now =
    if ltb now (whole_seconds e)
    then some (record {
      user_id = u;
      player_id = q;
      issuer = issuer;
      subject = q;
      issued_at = t;
      expires_at = e;
    })
    else none
read_token _ now = none

abbrev pub packages : Packages
packages = record {
  trim_space = λ t. t;
  to_lower = λ t. t;
  parse_address = some;
  generate_from_password = generate;
  compare_hash_and_password = compare_hash;
  signed_string = λ m c key. some (c.user_id ∷ c.player_id ∷ c.issued_at ∷ c.expires_at ∷ c.issuer);
  parse_with_claims = λ raw key_of issuer methods now. read_token raw now;
}

compare-generate_toy :
    (plain : Bytes) (cost salt : ℕ) {hash : Bytes}
    → generate plain cost salt ≡ some hash
    → compare_hash hash plain ≡ true
compare-generate_toy plain cost salt {hash} e = elim (Bool-cases (ltb 72 (length plain))) [
  | inl y ↦ absurd (ground (arith, y, e))
  | inr n ↦
      let made : some (salt ∷ plain) ≡ some hash = ground (arith, n, e) in
      subst (λ h. compare_hash h plain ≡ true) (some-injective _ _ made)
        ((same_bytes_iff plain plain).1 refl)
]

package_laws : PackageLaws packages
package_laws = record { compare-generate = compare-generate_toy; signs = λ c key h. (_, refl) }

abbrev write_token : Claims → Bytes
write_token c = c.user_id ∷ c.player_id ∷ c.issued_at ∷ c.expires_at ∷ c.issuer

parse-signed_toy :
    (c : Claims) (now : Time)
    → now < whole_seconds c.expires_at
    → (read : Claims) × (read_token (write_token c) now ≡ some read)
      × (read.user_id ≡ c.user_id)
      × (read.player_id ≡ c.player_id)
parse-signed_toy c now early = (record c { subject = c.player_id }, ground arith, refl, refl)

pub jwt_laws : JwtLaws packages
jwt_laws = record {
  signed_text = λ c key e. (subst (λ raw. is_empty raw ≡ false) (some-injective _ _ e) refl, refl);
  parse-signed = λ c key key_of now {raw} e k early.
      subst
        (λ raw.
          (read : Claims) × (read_token raw now ≡ some read)
          × (read.user_id ≡ c.user_id)
          × (read.player_id ≡ c.player_id))
        (some-injective _ _ e) (parse-signed_toy c now early);
}

abbrev pub settings : Settings
settings = record { secret = 5 ∷ []; issuer = 6 ∷ []; ttl = 60_000_000_000 }

abbrev transaction : (user player : ℕ) → Transaction
transaction user player = record {
  new_user = user;
  new_player = player;
  begin_fails = false;
  user_fails = false;
  player_fails = false;
  commit_fails = false;
}

abbrev pub draws : (user player : ℕ) → Draws
draws user player = record {
  transaction = transaction user player;
  salt = 9;
  random = none;
  now = 1_000_000_000;
  lookup_fails = false;
  player_fails = false;
  update_fails = false;
}

abbrev address : Bytes
address = 97 ∷ 64 ∷ 98 ∷ []

abbrev password : Bytes
password = 1 ∷ 2 ∷ 3 ∷ 4 ∷ 5 ∷ 6 ∷ 7 ∷ 8 ∷ []

abbrev pub registration : RegisterRequest
registration = record { email = address; password = password; display_name = 65 ∷ [] }

abbrev pub nobody : Accounts
nobody = record { users = []; players = [] }

-- The account of player 2, registered a second before.
abbrev somebody : Accounts
somebody = record {
  users = registered_user 1 address (9 ∷ password) ∷ [];
  players = player_row 2 1 (65 ∷ []) ∷ [];
}

abbrev pub token_text : Bytes
token_text = 1 ∷ 2 ∷ 1_000_000_000 ∷ 61_000_000_000 ∷ 6 ∷ []

call_all_refines_example :
    IsOwned
      (call_all packages settings nobody (
        (draws 1 2, sign_up registration)
        ∷ (draws 3 4, visit)
        ∷ (draws 5 6, log_in address password)
        ∷ [])).0
    × Steps packages settings
        (book nobody)
        (sign_up registration ∷ visit ∷ log_in address password ∷ [])
        (call_all packages settings nobody (
          (draws 1 2, sign_up registration)
          ∷ (draws 3 4, visit)
          ∷ (draws 5 6, log_in address password)
          ∷ [])).1
        (book
          (call_all packages settings nobody (
            (draws 1 2, sign_up registration)
            ∷ (draws 3 4, visit)
            ∷ (draws 5 6, log_in address password)
            ∷ [])).0)
call_all_refines_example =
    call_all_refines packages settings nobody
      ((draws 1 2, sign_up registration)
        ∷ (draws 3 4, visit)
        ∷ (draws 5 6, log_in address password)
        ∷ [])
      tt

registered_logs_in_example :
    (again : Bytes) × ((login packages settings
        (draws 5 6)
        (call_all packages settings
          (register packages settings (draws 1 2) nobody registration).0
          ((draws 3 4, visit) ∷ [])).0
        address
        password).1
      ≡ ok (again, 2))
unfolding register normalize_email validate_password validate_display_name create_account
    hash_password create_user_with_player insert_user user_exists email_exists add_player_row
    player_exists give_token issue_access_token
registered_logs_in_example =
    registered_logs_in packages package_laws settings refl nobody (draws 1 2) registration
      token_text 2 tt refl ((draws 3 4, visit) ∷ []) (draws 5 6) address refl refl refl

-- What an answer holds.
abbrev text_of : Checked → Bytes
text_of (accepted t) = t
text_of (refused why) = []

abbrev hash_of : Outcome (Uuid × Bytes) → Bytes
hash_of (ok (user_id, hash)) = hash
hash_of (failed err) = []

-- The one hash in the table does not accept a wrong password.
wrong_password :
    (email hash : Bytes) (user_id : Uuid)
    → normalize_email packages address ≡ accepted email
    → credentials_of (select_user somebody.users email) ≡ ok (user_id, hash)
    → compare_hash hash (1 ∷ []) ≡ false
unfolding normalize_email select_user same_bytes
wrong_password email hash user_id n c =
    subst (λ h. compare_hash h (1 ∷ []) ≡ false)
      (subst (λ e. hash_of (credentials_of (select_user somebody.users e)) ≡ hash)
        (sym (ap text_of n)) (ap hash_of c))
      refl

handle_login_refused_example :
    handle_login packages settings
      (draws 5 6)
      somebody
      (some (record { email = address; password = 1 ∷ [] }))
    ≡ (somebody, respond_error 401 bad_credentials)
handle_login_refused_example =
    handle_login_refused packages settings (draws 5 6) somebody
      (record { email = address; password = 1 ∷ [] }) wrong_password

-- A password of 73 bytes.
abbrev zeros : ℕ → Bytes
zeros zero = []
zeros (suc n) = 0 ∷ zeros n

handle_register_long_password_example :
    handle_register packages settings
      (draws 1 2)
      nobody
      (some (record { email = address; password = zeros 73; display_name = 65 ∷ [] }))
    ≡ (nobody, respond_error 500 internal_text)
unfolding normalize_email validate_display_name
handle_register_long_password_example =
    handle_register_long_password packages settings (draws 1 2) nobody
      (record { email = address; password = zeros 73; display_name = 65 ∷ [] }) address (65 ∷ [])
      (λ plain cost salt long. ground arith) refl refl (omega arith) (omega arith)
