-- ===== src/Auth/Service.antt =====
-- internal/auth/service.go: registration, login and guests. Each call is a function to the new tables
-- and its answer; what it draws and reads, and which statements fail, is its `Draws`.
pub mod Directory
pub mod Return
use car_video_game_backend.Base.{
  ℕ, ◌+◌, ◌/◌, ◌%◌, List, [], ◌∷◌, ◌++◌, Option, none, some, Bool, true, false, ltb, if◌then◌else◌,
  length,
}
use car_video_game_backend.Framing.{Bytes}
use car_video_game_backend.Race.Model.{Uuid, Time}
use car_video_game_backend.Matchmaking.Token.{is_empty}
use car_video_game_backend.Auth.{
  InputError, email_required, invalid_email, password_short, password_long, name_required,
  name_long, AuthError, invalid_credentials, invalid_input, internal, Outcome, ok, failed, Packages,
  hash_password, verify_password,
}
use car_video_game_backend.Auth.Access.{issue_access_token}
use car_video_game_backend.Auth.Accounts.{
  Accounts, Transaction, create_user_with_player, create_guest, lookup_user_by_email,
  player_by_user_id, touch_last_login,
}

-- Service, without the tables.
pub record Settings : Type 0 where
  pub secret : Bytes
  pub issuer : Bytes
  pub ttl : ℕ

pub record RegisterRequest : Type 0 where
  pub email : Bytes
  pub password : Bytes
  pub display_name : Bytes

pub record Draws : Type 0 where
  pub transaction : Transaction
  pub salt : ℕ
  -- the bytes of rand.Read, if it does not fail
  pub random : Option Bytes
  pub now : Time
  pub lookup_fails : Bool
  pub player_fails : Bool
  pub update_fails : Bool

-- An input that is accepted, or why it is not.
pub data Checked : Type 0 where
  accepted : Bytes → Checked
  refused : InputError → Checked

-- A token and the player that it is for.
abbrev pub Session : Type 0
Session = Bytes × Uuid

abbrev pub hex_digit : ℕ → ℕ
hex_digit n = if ltb n 10 then 48 + n else 87 + n

abbrev pub encode_to_string : Bytes → Bytes
encode_to_string [] = []
encode_to_string (b ∷ bs) = hex_digit (b / 16) ∷ hex_digit (b % 16) ∷ encode_to_string bs

abbrev pub random_hex : Option Bytes → Bytes
random_hex none = 48 ∷ 48 ∷ 48 ∷ 48 ∷ 48 ∷ 48 ∷ []
random_hex (some b) = encode_to_string b

-- "Guest-" and three random bytes
abbrev pub guest_name : Option Bytes → Bytes
guest_name random = 71 ∷ 117 ∷ 101 ∷ 115 ∷ 116 ∷ 45 ∷ random_hex random

unfoldable pub validate_password : Bytes → Option InputError
validate_password pw =
    if ltb (length pw) 8
    then some password_short
    else if ltb 128 (length pw)
    then some password_long
    else none

module _ (p : Packages) where
  unfoldable pub normalize_email : Bytes → Checked
  normalize_email raw =
      if is_empty (p.trim_space raw)
      then refused email_required
      else elim (p.parse_address (p.trim_space raw)) [
        | none ↦ refused invalid_email
        | some address ↦ accepted (p.to_lower address)
      ]

  unfoldable pub validate_display_name : Bytes → Checked
  validate_display_name name =
      if is_empty (p.trim_space name)
      then refused name_required
      else if ltb 32 (length (p.trim_space name))
      then refused name_long
      else accepted (p.trim_space name)

  module _ (v : Settings) where
    -- The token of a call, and its answer.
    unfoldable pub give_token : (user_id player_id : Uuid) → Time → Outcome Session
    unfolding issue_access_token
    give_token user_id player_id now =
        elim (issue_access_token p v.secret v.issuer v.ttl user_id player_id now) [
          | failed err ↦ failed internal
          | ok tok ↦ ok (tok, player_id)
        ]

    -- The end of Register and of Guest.
    abbrev pub answer_created : Accounts × Outcome (Uuid × Uuid) → Time → Accounts × Outcome Session
    answer_created (s, failed err) now = (s, failed err)
    answer_created (s, ok (user_id, player_id)) now = (s, give_token user_id player_id now)

    -- Register after the checks of the input.
    unfoldable pub create_account :
        Draws → Accounts → (email password name : Bytes) → Accounts × Outcome Session
    unfolding hash_password create_user_with_player give_token
    create_account d s email password name = elim (hash_password p password d.salt) [
      | failed err ↦ (s, failed err)
      | ok hash ↦ answer_created (create_user_with_player d.transaction s email hash name) d.now
    ]

    unfoldable pub register : Draws → Accounts → RegisterRequest → Accounts × Outcome Session
    unfolding normalize_email validate_password validate_display_name create_account
    register d s req = elim (normalize_email req.email) [
      | refused why ↦ (s, failed (invalid_input why))
      | accepted email ↦ elim (validate_password req.password) [
        | some why ↦ (s, failed (invalid_input why))
        | none ↦ elim (validate_display_name req.display_name) [
          | refused why ↦ (s, failed (invalid_input why))
          | accepted name ↦ create_account d s email req.password name
        ]
      ]
    ]

    -- Login once the user is found.
    unfoldable pub enter :
        Draws → Accounts → (user_id : Uuid) (hash password : Bytes) → Accounts × Outcome Session
    unfolding verify_password player_by_user_id touch_last_login give_token
    enter d s user_id hash password = elim (verify_password p hash password) [
      | some err ↦ (s, failed invalid_credentials)
      | none ↦ elim (player_by_user_id d.player_fails s user_id) [
        | failed err ↦ (s, failed err)
        | ok player_id ↦
            (touch_last_login d.update_fails s user_id d.now, give_token user_id player_id d.now)
      ]
    ]

    unfoldable pub login : Draws → Accounts → (email password : Bytes) → Accounts × Outcome Session
    unfolding normalize_email lookup_user_by_email enter
    login d s raw password = elim (normalize_email raw) [
      | refused why ↦ (s, failed invalid_credentials)
      | accepted email ↦ elim (lookup_user_by_email d.lookup_fails s email) [
        | failed err ↦ (s, failed invalid_credentials)
        | ok (user_id, hash) ↦ enter d s user_id hash password
      ]
    ]

    unfoldable pub guest : Draws → Accounts → Accounts × Outcome Session
    unfolding create_guest give_token
    guest d s = answer_created (create_guest d.transaction s (guest_name d.random)) d.now
