-- ===== src/Player.antt =====
-- internal/player: the profile of the player who asks, in player.go and handler.go.
pub mod Kept
pub mod Registered
use car_video_game_backend.Base.{
  ℕ, List, [], ◌∷◌, Option, none, some, Bool, not, ◌==◌, if◌then◌else◌,
}
use car_video_game_backend.Framing.{Bytes}
use car_video_game_backend.Race.Model.{Uuid, Time}
use car_video_game_backend.Auth.{player_not_found, internal, Outcome, ok, failed}
use car_video_game_backend.Auth.Access.{Context, player_id_from_context}
use car_video_game_backend.Auth.Accounts.{User, Player, Accounts}

pub record Profile : Type 0 where
  pub player_id : Uuid
  pub user_id : Uuid
  pub display_name : Bytes
  pub avatar_url : Option Bytes
  pub is_guest : Bool
  pub created_at : Time
  pub last_login_at : Option Time

-- The columns of players that the accounts leave to the database.
pub record Columns : Type 0 where
  pub avatar_url : Uuid → Option Bytes
  pub created_at : Uuid → Time

unfoldable pub find_player : List Player → (id : Uuid) → Option Player
find_player [] id = none
find_player (p ∷ ps) id = let rest = find_player ps id in if p.id == id then some p else rest

unfoldable pub find_user : List User → (id : Uuid) → Option User
find_user [] id = none
find_user (u ∷ us) id = let rest = find_user us id in if u.id == id then some u else rest

abbrev pub profile : Columns → Player → User → Profile
profile cols p u = record {
  player_id = p.id;
  user_id = p.user_id;
  display_name = p.display_name;
  avatar_url = cols.avatar_url p.id;
  is_guest = u.is_guest;
  created_at = cols.created_at p.id;
  last_login_at = u.last_login_at;
}

-- GetByID
unfoldable pub get_by_id :
    (fails : Bool) → Columns → Accounts → (player_id : Uuid) → Outcome Profile
unfolding find_player find_user
get_by_id fails cols s player_id =
    if fails then failed internal else elim (find_player s.players player_id) [
      | none ↦ failed player_not_found
      | some p ↦ elim (find_user s.users p.user_id) [
        | none ↦ failed player_not_found
        | some u ↦ ok (profile cols p u)
      ]
    ]

pub data ProfileAnswer : Type 0 where
  denied_with : (status : ℕ) → ProfileAnswer
  profile_shown : Profile → ProfileAnswer

-- Me
unfoldable pub show_me : (fails : Bool) → Columns → Accounts → Context → ProfileAnswer
unfolding player_id_from_context get_by_id
show_me fails cols s ctx =
    let (player_id, authorized) = player_id_from_context ctx in
    if not authorized then denied_with 401 else elim (get_by_id fails cols s player_id) [
      | failed err ↦ denied_with 404
      | ok shown ↦ profile_shown shown
    ]
