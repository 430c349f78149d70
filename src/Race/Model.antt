-- ===== src/Race/Model.antt =====
-- The data of internal/race: state.go, track.go, events.go, snapshot.go, and the types of
-- physics.go and race.go. Ids are the numbers of their 128 bits, and a time is a count of
-- nanoseconds, 0 for Go's zero time.
use Prim.Native.String.{String}
use car_video_game_backend.Base.{ℕ, ℤ, Bool, List, Dict}
use car_video_game_backend.Race.Floats.{Floats}

abbrev pub Uuid : Type 0
Uuid = ℕ

abbrev pub Time : Type 0
Time = ℕ

pub data RaceStatus : Type 0 where
  pending starting in_progress finished : RaceStatus

-- RaceStatus.String; the four constants are the only values, so its default is never taken.
pub status_name : RaceStatus → String
status_name pending = "pending"
status_name starting = "starting"
status_name in_progress = "in_progress"
status_name finished = "finished"

abbrev pub default_tick_hz : ℕ
default_tick_hz = 30

abbrev pub default_max_players : ℕ
default_max_players = 4

abbrev pub default_max_laps : ℕ
default_max_laps = 1

abbrev pub countdown_millis : ℕ
countdown_millis = 3000

-- 30 * time.Second
abbrev pub empty_race_reap_after : ℕ
empty_race_reap_after = 30_000_000_000

pub record Vec3 (fl : Floats) : Type 0 where
  pub x : fl.F32
  pub y : fl.F32
  pub z : fl.F32

pub record Waypoint (fl : Floats) : Type 0 where
  pub x : fl.F32
  pub y : fl.F32
  pub z : fl.F32

pub record Track (fl : Floats) : Type 0 where
  pub id : Uuid
  pub name : String
  pub waypoints : List (Waypoint fl)
  pub spawns : List (Vec3 fl)

pub record CarSpec (fl : Floats) : Type 0 where
  pub max_accel : fl.F64
  pub max_steer_rate : fl.F64
  pub max_speed : fl.F64

pub record PlayerInput (fl : Floats) : Type 0 where
  pub throttle : fl.F32
  pub brake : fl.F32
  pub steering : fl.F32

pub record PlayerState (fl : Floats) : Type 0 where
  pub player_id : Uuid
  pub position : Vec3 fl
  pub velocity : fl.F64
  pub heading : fl.F64
  pub last_input : PlayerInput fl
  pub last_input_tick : ℕ
  pub lap : ℕ
  pub last_checkpoint : ℕ
  pub next_checkpoint : ℕ
  pub is_finished : Bool
  pub finish_pos : ℕ
  pub finish_time : Time
  pub lap_started_at : Time
  pub best_lap_ms : ℤ
  pub started_at : Time

pub record RaceResult : Type 0 where
  pub player_id : Uuid
  pub position : ℕ
  pub total_time_ms : ℤ
  pub best_lap_ms : ℤ

pub data Event : Type 0 where
  checkpoint_passed : (player_id index tick : ℕ) → Event
  lap_completed : (player_id lap : ℕ) (lap_time_ms : ℤ) (tick : ℕ) → Event
  race_finished : (race_id : ℕ) (results : List RaceResult) → Event
  player_joined : (player_id joined_at : ℕ) → Event
  player_left : (player_id : ℕ) (reason : String) → Event
  race_starting : Event

pub record JoinMsg (fl : Floats) : Type 0 where
  pub player_id : Uuid
  pub car_spec : CarSpec fl

pub record LeaveMsg : Type 0 where
  pub player_id : Uuid
  pub reason : String

pub record InputMsg (fl : Floats) : Type 0 where
  pub player_id : Uuid
  pub input : PlayerInput fl
  pub sequence : ℕ

-- The rotation of every car is the same placeholder, and so are two parts of the velocity.
pub record SnapshotCar (fl : Floats) : Type 0 where
  pub player_id : Uuid
  pub position : Vec3 fl
  pub velocity : Vec3 fl

pub record WorldSnapshot (fl : Floats) : Type 0 where
  pub tick : ℕ
  pub cars : List (SnapshotCar fl)

-- The channels are the lists of what waits in them, oldest first; `done` says that Done is closed,
-- and `on_finish` that a callback is set.
pub record Race (fl : Floats) : Type 0 where
  pub id : Uuid
  pub track : Track fl
  pub start_tick : ℕ
  pub tick_rate_hz : ℕ
  pub max_laps : ℕ
  pub max_players : ℕ
  pub status : RaceStatus
  pub players : Dict (PlayerState fl)
  pub specs : Dict (CarSpec fl)
  pub finished_order : List Uuid
  pub created_at : Time
  pub start_real_time : Time
  pub finish_time : Time
  pub events : List Event
  pub join_msg : List (JoinMsg fl)
  pub leave_msg : List LeaveMsg
  pub input_ch : List (InputMsg fl)
  pub snapshot_out : List (WorldSnapshot fl)
  pub done : Bool
  pub on_finish : Bool
