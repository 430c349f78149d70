-- ===== src/Race/Roster.antt =====
-- internal/race/race.go and track.go: the roster of a race, its channels and its results; and
-- buildWorldSnapshot of snapshot.go. Every reading of the clock is an argument.
use Prim.Native.String.{String}
use car_video_game_backend.Base.{
  ◌==◌, ℕ, zero, suc, ◌+◌, ◌-◌, ◌%◌, ℤ, pos, negsuc, quot, List, [], ◌∷◌, ◌++◌, Option, none, some,
  Bool, true, false, length, get_or, ltb, leb, if◌then◌else◌, Dict, lookup, insert, delete,
}
use car_video_game_backend.Race.Floats.{Floats}
use car_video_game_backend.Race.Model.{
  Uuid, Time, RaceStatus, pending, starting, in_progress, finished, default_tick_hz,
  default_max_laps, default_max_players, Vec3, Waypoint, Track, CarSpec, PlayerInput, PlayerState,
  RaceResult, JoinMsg, LeaveMsg, InputMsg, SnapshotCar, WorldSnapshot, Race,
}

-- A setting that is zero or negative is replaced by its default.
abbrev pub or_default : ℤ → ℕ → ℕ
or_default (pos zero) d = d
or_default (pos (suc n)) d = suc n
or_default (negsuc n) d = d

abbrev pub is_finished_status : RaceStatus → Bool
is_finished_status finished = true
is_finished_status _ = false

-- time.Time.Sub: the difference in nanoseconds, held to the range of an int64.
unfoldable pub sub_time : Time → Time → ℤ
sub_time a b =
    if leb b a
    then if ltb 9_223_372_036_854_775_807 (a - b)
      then pos 9_223_372_036_854_775_807
      else pos (a - b)
    else if ltb 9_223_372_036_854_775_808 (b - a)
    then negsuc 9_223_372_036_854_775_807
    else negsuc (b - a - 1)

-- int(a.Sub(b) / time.Millisecond)
unfoldable pub millis_between : Time → Time → ℤ
unfolding sub_time
millis_between a b = quot (sub_time a b) 1_000_000

module _ (fl : Floats) where
  abbrev pub no_input : PlayerInput fl
  no_input = record { throttle = fl.int32 0; brake = fl.int32 0; steering = fl.int32 0 }

  -- Track.Len and Track.NextCheckpoint
  unfoldable pub track_len : Track fl → ℕ
  track_len t = length t.waypoints

  unfoldable pub next_checkpoint : Track fl → ℕ → ℕ
  unfolding track_len
  next_checkpoint t prev = (prev + 1) % track_len t

  -- ParseTrackLayout. `read` is json.Unmarshal into an empty track, `none` its error, and `layout` is
  -- `none` if there is no text.
  unfoldable pub parse_track_layout :
      {Layout : Type 0} (read : Layout → Option (Track fl))
      → Uuid
      → String
      → Option Layout
      → Option (Track fl)
  parse_track_layout read id name none = none
  parse_track_layout read id name (some layout) = elim (read layout) [
    | none ↦ none
    | some t ↦ if length t.waypoints == 0 then none else some (record t { id = id; name = name })
  ]

  abbrev fan_out : ℕ → Vec3 fl
  fan_out idx = record { x = fl.mul32 (fl.int32 idx) (fl.int32 2); y = fl.int32 0; z = fl.int32 0 }

  abbrev spawn_at : List (Vec3 fl) → ℕ → Vec3 fl
  spawn_at [] idx = fan_out idx
  spawn_at (s ∷ spawns) idx = get_or (s ∷ spawns) (idx % length (s ∷ spawns)) s

  -- `none` is the nil track.
  unfoldable pub spawn : Option (Track fl) → ℕ → Vec3 fl
  spawn none idx = fan_out idx
  spawn (some t) idx = spawn_at t.spawns idx

  unfoldable pub len_or_1 : List (Waypoint fl) → ℕ
  len_or_1 [] = 1
  len_or_1 (w ∷ ws) = length (w ∷ ws)

  unfoldable pub new : Uuid → Track fl → (tick_hz max_laps max_players : ℤ) → Time → Race fl
  new id track tick_hz max_laps max_players now = record {
    id = id;
    track = track;
    start_tick = 0;
    tick_rate_hz = or_default tick_hz default_tick_hz;
    max_laps = or_default max_laps default_max_laps;
    max_players = or_default max_players default_max_players;
    status = pending;
    players = [];
    specs = [];
    finished_order = [];
    created_at = now;
    start_real_time = 0;
    finish_time = 0;
    events = [];
    join_msg = [];
    leave_msg = [];
    input_ch = [];
    snapshot_out = [];
    done = false;
    on_finish = false;
  }

  unfoldable pub new_player : Race fl → Uuid → (started lap_started : Time) → PlayerState fl
  unfolding spawn len_or_1
  new_player r player_id started lap_started = record {
    player_id = player_id;
    position = spawn (some r.track) (length r.players);
    velocity = fl.constant 0 1;
    heading = fl.constant 0 1;
    last_input = no_input;
    last_input_tick = 0;
    lap = 0;
    last_checkpoint = 0;
    next_checkpoint = 1 % len_or_1 r.track.waypoints;
    is_finished = false;
    finish_pos = 0;
    finish_time = 0;
    lap_started_at = lap_started;
    best_lap_ms = pos 0;
    started_at = started;
  }

  -- AddPlayer; `started` and `lap_started` are its two readings of the clock.
  unfoldable pub add_player :
      Race fl → Uuid → CarSpec fl → (started lap_started : Time) → Race fl × Bool
  add_player r player_id spec started lap_started =
      if is_finished_status r.status
      then (r, false)
      else if leb r.max_players (length r.players)
      then (r, false)
      else elim (lookup player_id r.players) [
        | some _ ↦ (r, true)
        | none ↦ (
          record r {
            players = insert player_id (new_player r player_id started lap_started) r.players;
            specs = insert player_id spec r.specs;
          },
          true,
        )
      ]

  -- PlayersSnapshot, in the order of the keys `order`.
  unfoldable pub players_snapshot : Race fl → List Uuid → List (PlayerState fl)
  players_snapshot r [] = []
  players_snapshot r (pid ∷ order) =
      let rest = players_snapshot r order in
      elim (lookup pid r.players) [ none ↦ rest | some p ↦ p ∷ rest ]

  unfoldable pub remove_player : Race fl → Uuid → Race fl
  remove_player r player_id = record r {
    players = delete player_id r.players;
    specs = delete player_id r.specs;
  }

  -- A send on a full channel drops the message.
  unfoldable pub apply_input : Race fl → InputMsg fl → Race fl
  apply_input r m =
      if ltb (length r.input_ch) 256 then record r { input_ch = r.input_ch ++ m ∷ [] } else r

  unfoldable pub enqueue_join : Race fl → JoinMsg fl → Race fl
  enqueue_join r m =
      if ltb (length r.join_msg) 8 then record r { join_msg = r.join_msg ++ m ∷ [] } else r

  unfoldable pub enqueue_leave : Race fl → LeaveMsg → Race fl
  enqueue_leave r m =
      if ltb (length r.leave_msg) 8 then record r { leave_msg = r.leave_msg ++ m ∷ [] } else r

  abbrev pub result_of : Uuid → ℕ → PlayerState fl → RaceResult
  result_of pid i p = record {
    player_id = pid;
    position = i + 1;
    total_time_ms = millis_between p.finish_time p.started_at;
    best_lap_ms = p.best_lap_ms;
  }

  -- The loop of FinalResults and of finalResultsLocked, from index `i` of finishedOrder.
  unfoldable pub results_from : Dict (PlayerState fl) → ℕ → List Uuid → List RaceResult
  results_from players i [] = []
  results_from players i (pid ∷ rest) =
      let others = results_from players (i + 1) rest in
      elim (lookup pid players) [ none ↦ others | some p ↦ result_of pid i p ∷ others ]

  unfoldable pub final_results : Race fl → List RaceResult
  unfolding results_from
  final_results r = results_from r.players 0 r.finished_order

  abbrev pub snapshot_car : PlayerState fl → SnapshotCar fl
  snapshot_car p = record {
    player_id = p.player_id;
    position = p.position;
    velocity = record { x = fl.narrow p.velocity; y = fl.int32 0; z = fl.int32 0 };
  }

  -- The cars in the order in which the map is walked.
  unfoldable pub cars_in : List Uuid → Dict (PlayerState fl) → List (SnapshotCar fl)
  cars_in [] players = []
  cars_in (pid ∷ order) players =
      let others = cars_in order players in
      elim (lookup pid players) [ none ↦ others | some p ↦ snapshot_car p ∷ others ]

  abbrev shows_cars : RaceStatus → Bool
  shows_cars in_progress = true
  shows_cars starting = true
  shows_cars _ = false

  unfoldable pub build_world_snapshot : List Uuid → Race fl → ℕ → Option (WorldSnapshot fl)
  unfolding cars_in
  build_world_snapshot order r tick =
      if shows_cars r.status
      then some (record { tick = tick; cars = cars_in order r.players })
      else none
