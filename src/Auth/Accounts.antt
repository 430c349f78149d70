-- ===== src/Auth/Accounts.antt =====
-- internal/auth/repo.go: the tables users and players, as the migrations declare them. A table is the
-- list of its rows, the oldest first. New IDs are arguments; an INSERT fails on a key that is taken.
pub mod Keys
pub mod Created
use car_video_game_backend.Base.{
  ℕ, List, [], ◌∷◌, ◌++◌, Option, none, some, Bool, true, false, ◌||◌, ◌==◌, if◌then◌else◌,
}
use car_video_game_backend.Framing.{Bytes}
use car_video_game_backend.Race.Model.{Uuid, Time}
use car_video_game_backend.Matchmaking.Token.{same_bytes}
use car_video_game_backend.Auth.{
  AuthError, invalid_credentials, email_taken, player_not_found, internal, Outcome, ok, failed,
}

pub record User : Type 0 where
  pub id : Uuid
  pub email : Option Bytes
  pub password_hash : Option Bytes
  pub is_guest : Bool
  pub last_login_at : Option Time

pub record Player : Type 0 where
  pub id : Uuid
  pub user_id : Uuid
  pub display_name : Bytes

pub record Accounts : Type 0 where
  pub users : List User
  pub players : List Player

-- The rows that the two INSERTs into users make, and the one into players.
abbrev pub registered_user : (id : Uuid) (email hash : Bytes) → User
registered_user id email hash = record {
  id = id;
  email = some email;
  password_hash = some hash;
  is_guest = false;
  last_login_at = none;
}

abbrev pub guest_user : (id : Uuid) → User
guest_user id = record {
  id = id;
  email = none;
  password_hash = none;
  is_guest = true;
  last_login_at = none;
}

abbrev pub player_row : (id user_id : Uuid) (display_name : Bytes) → Player
player_row id user_id display_name = record {
  id = id;
  user_id = user_id;
  display_name = display_name;
}

-- What the transaction of a call draws, and which of its statements fail.
pub record Transaction : Type 0 where
  pub new_user : Uuid
  pub new_player : Uuid
  pub begin_fails : Bool
  pub user_fails : Bool
  pub player_fails : Bool
  pub commit_fails : Bool

abbrev pub has_email : Option Bytes → Bytes → Bool
has_email none e = false
has_email (some f) e = same_bytes f e

unfoldable pub email_exists : List User → Bytes → Bool
email_exists [] e = false
email_exists (u ∷ us) e = has_email u.email e || email_exists us e

unfoldable pub user_exists : List User → Uuid → Bool
user_exists [] id = false
user_exists (u ∷ us) id = u.id == id || user_exists us id

unfoldable pub player_exists : List Player → Uuid → Bool
player_exists [] id = false
player_exists (p ∷ ps) id = p.id == id || player_exists ps id

-- A NULL is never a duplicate.
abbrev pub email_is_taken : List User → Option Bytes → Bool
email_is_taken us none = false
email_is_taken us (some e) = email_exists us e

pub data Inserted : Type 0 where
  inserted : List User → Inserted
  unique_violation insert_error : Inserted

unfoldable pub insert_user : (fails : Bool) → List User → User → Inserted
unfolding user_exists email_exists
insert_user fails us u =
    if fails
    then insert_error
    else if user_exists us u.id || email_is_taken us u.email
    then unique_violation
    else inserted (us ++ u ∷ [])

-- The INSERT into players and the COMMIT; the user is in the table, by the statement before.
unfoldable pub add_player_row :
    Transaction → Accounts → List User → (display_name : Bytes) → Accounts × Outcome (Uuid × Uuid)
unfolding player_exists
add_player_row t s us display_name =
    if t.player_fails || (player_exists s.players t.new_player || t.commit_fails)
    then (s, failed internal)
    else (
      record {
        users = us;
        players = s.players ++ player_row t.new_player t.new_user display_name ∷ [];
      },
      ok (t.new_user, t.new_player),
    )

-- CreateUserWithPlayer
unfoldable pub create_user_with_player :
    Transaction → Accounts → (email hash display_name : Bytes) → Accounts × Outcome (Uuid × Uuid)
unfolding insert_user add_player_row
create_user_with_player t s email hash display_name =
    if t.begin_fails
    then (s, failed internal)
    else elim (insert_user t.user_fails s.users (registered_user t.new_user email hash)) [
      | insert_error ↦ (s, failed internal)
      | unique_violation ↦ (s, failed email_taken)
      | inserted us ↦ add_player_row t s us display_name
    ]

-- CreateGuest
unfoldable pub create_guest :
    Transaction → Accounts → (display_name : Bytes) → Accounts × Outcome (Uuid × Uuid)
unfolding insert_user add_player_row
create_guest t s display_name =
    if t.begin_fails
    then (s, failed internal)
    else elim (insert_user t.user_fails s.users (guest_user t.new_user)) [
      | inserted us ↦ add_player_row t s us display_name
      | _ ↦ (s, failed internal)
    ]

unfoldable pub select_user : List User → Bytes → Option User
select_user [] e = none
select_user (u ∷ us) e = let rest = select_user us e in if has_email u.email e then some u else rest

-- LookupUserByEmail: when the query fails, `hash` is nil, so the answer is the same as for no row.
abbrev pub credentials_of : Option User → Outcome (Uuid × Bytes)
credentials_of none = failed invalid_credentials
credentials_of (some u) =
    if u.is_guest
    then failed invalid_credentials
    else elim u.password_hash [ none ↦ failed invalid_credentials | some hash ↦ ok (u.id, hash) ]

unfoldable pub lookup_user_by_email :
    (fails : Bool) → Accounts → (email : Bytes) → Outcome (Uuid × Bytes)
unfolding select_user
lookup_user_by_email fails s email =
    if fails then failed invalid_credentials else credentials_of (select_user s.users email)

unfoldable pub select_player : List Player → (user_id : Uuid) → Option Uuid
select_player [] user_id = none
select_player (p ∷ ps) user_id =
    let rest = select_player ps user_id in if p.user_id == user_id then some p.id else rest

-- PlayerByUserID
unfoldable pub player_by_user_id : (fails : Bool) → Accounts → (user_id : Uuid) → Outcome Uuid
unfolding select_player
player_by_user_id fails s user_id =
    if fails
    then failed internal
    else elim (select_player s.players user_id) [ none ↦ failed player_not_found | some id ↦ ok id ]

-- PlayerByID; `none` is success.
unfoldable pub player_by_id : (fails : Bool) → Accounts → (player_id : Uuid) → Option AuthError
unfolding player_exists
player_by_id fails s player_id =
    if fails
    then some internal
    else if player_exists s.players player_id
    then none
    else some player_not_found

abbrev pub touched : (id : Uuid) → Time → User → User
touched id now u = if u.id == id then record u { last_login_at = some now } else u

unfoldable pub touch_rows : List User → (id : Uuid) → Time → List User
touch_rows [] id now = []
touch_rows (u ∷ us) id now = touched id now u ∷ touch_rows us id now

-- TouchLastLogin, whose error the caller drops.
unfoldable pub touch_last_login : (fails : Bool) → Accounts → (id : Uuid) → Time → Accounts
unfolding touch_rows
touch_last_login fails s id now =
    if fails then s else record s { users = touch_rows s.users id now }
