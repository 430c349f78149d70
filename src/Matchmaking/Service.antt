-- ===== src/Matchmaking/Service.antt =====
-- internal/matchmaking/service.go: Join and findOrCreateMatch. The rows stand in the order in which
-- they were created. Another process may write between two statements, so each statement has the
-- table that it finds as an argument.
pub mod Capacity
use car_video_game_backend.Base.{
  ℕ, ◌*◌, ℤ, pos, pos_part, List, [], ◌∷◌, Option, none, some, Bool, true, false, not, ◌&&◌, ◌||◌,
  ltb, ◌==◌, if◌then◌else◌,
}
use car_video_game_backend.Framing.{Bytes}
use car_video_game_backend.Race.Model.{Uuid, Time}
use car_video_game_backend.Matchmaking.Token.{
  Codecs, is_empty, SignError, Signed, token, unsigned, sign_game_token,
}
use car_video_game_backend.Matchmaking.Repo.{Assignment, count_for_match, create_assignment}

abbrev pub max_players_per_match : ℕ
max_players_per_match = 4

-- What the statements of one Join find, and which of them fail.
pub record Tables : Type 0 where
  pub picked : List Assignment
  pub counted : List Assignment
  pub inserted : List Assignment
  pub pick_fails : Bool
  -- the query ends in an error that only rows.Err would show
  pub pick_breaks : Bool
  pub count_fails : Bool
  pub insert_fails : Bool

abbrev pub is_active : Assignment → Time → Bool
is_active a now = not a.consumed && ltb now a.expires_at

-- The SELECT of findOrCreateMatch over `rows`, which stand in the table `all`: the match of the newest
-- active row among those with fewer than four.
unfoldable pub pick_match : (all rows : List Assignment) → Time → Option Uuid
pick_match all [] now = none
pick_match all (a ∷ rows) now = elim (pick_match all rows now) [
  | some match_id ↦ some match_id
  | none ↦
      if is_active a now && ltb (count_for_match all a.match_id now) max_players_per_match
      then some a.match_id
      else none
]

-- What rows.Next finds; an error that ends the rows is not looked at.
abbrev pub next_row : Tables → Time → Option Uuid
next_row t now = if t.pick_breaks then none else pick_match t.picked t.picked now

-- findOrCreateMatch; `none` is an error of the database.
unfoldable pub find_or_create_match : Tables → (new_id : Uuid) → Time → Option Uuid
unfolding pick_match
find_or_create_match t new_id now = if t.pick_fails then none else elim (next_row t now) [
  | none ↦ some new_id
  | some match_id ↦
      if t.count_fails
      then none
      else if ltb (count_for_match t.counted match_id now) max_players_per_match
      then some match_id
      else some new_id
]

pub record MatchInfo : Type 0 where
  pub match_id : Uuid
  pub game_server_host : Bytes
  pub game_server_port : ℕ
  pub game_token : Bytes
  pub expires_at : Time

pub data Joined : Type 0 where
  assigned : MatchInfo → List Assignment → Joined
  no_game_server pick_failed insert_failed : Joined
  sign_failed : SignError → Joined

-- time.Unix(exp, 0), in nanoseconds; what SignGameToken makes is not negative.
abbrev pub unix_time : ℤ → Time
unix_time exp = pos_part exp * 1_000_000_000

module _ (c : Codecs) (secret : Bytes) where
  unfoldable pub assign :
      (game_host : Bytes) (game_port : ℕ) → Tables → (player_id match_id : Uuid) → Signed → Joined
  assign game_host game_port t player_id match_id (unsigned err) = sign_failed err
  assign game_host game_port t player_id match_id (token raw exp) =
      elim (create_assignment t.insert_fails t.inserted
        (record { match_id = match_id; player_id = player_id; game_token = raw }) (unix_time exp)) [
          | none ↦ insert_failed
          | some rows ↦
              assigned
                (record {
                  match_id = match_id;
                  game_server_host = game_host;
                  game_server_port = game_port;
                  game_token = raw;
                  expires_at = unix_time exp;
                })
                rows
        ]

  -- Join; `searched` and `signed` are its two readings of the clock.
  unfoldable pub join :
      (game_host : Bytes) (game_port : ℕ)
      → Tables
      → (player_id new_id : Uuid) (searched signed : Time) → Joined
  unfolding find_or_create_match assign
  join game_host game_port t player_id new_id searched signed =
      if is_empty game_host || game_port == 0
      then no_game_server
      else elim (find_or_create_match t new_id searched) [
        | none ↦ pick_failed
        | some match_id ↦
            assign game_host game_port t player_id match_id
              (sign_game_token c secret match_id player_id signed)
      ]
