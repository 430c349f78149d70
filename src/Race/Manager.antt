-- ===== src/Race/Manager.antt =====
-- internal/race/manager.go: Manager. A *Race is the ID of the race, and `heap` holds every race that
-- was ever made, at its ID. The track lookup is a parameter: `none` is its error.
pub mod Registry
pub mod Joins
pub mod Cleanup
use car_video_game_backend.Base.{
  ℕ, ℤ, pos, List, [], ◌∷◌, Option, none, some, Bool, true, false, if◌then◌else◌, Dict, lookup,
  insert,
}
use car_video_game_backend.Race.Floats.{Floats}
use car_video_game_backend.Race.Model.{
  Uuid, Time, default_tick_hz, default_max_laps, default_max_players, Track, Race,
}
use car_video_game_backend.Race.Physics.{default_spec}
use car_video_game_backend.Race.Roster.{or_default, is_finished_status, new, add_player}

pub record Manager (fl : Floats) : Type 0 where
  pub heap : Dict (Race fl)
  pub races : Dict Uuid
  pub by_match : Dict Uuid
  pub on_finish : Bool
  pub tick_hz : ℕ
  pub max_laps : ℕ
  pub max_players : ℕ

-- What RegisterPlayer returns: the race, the error of the track lookup, the error of a race that
-- takes no player in; or the panic of a call on a nil race.
pub data Registered : Type 0 where
  joined : Uuid → Registered
  no_track refused panicked : Registered

-- What the calls of RegisterPlayer read from outside: uuid.New and time.Now.
pub record Moment : Type 0 where
  pub new_id : Uuid
  pub created_at : Time
  pub started_at : Time
  pub lap_started_at : Time

module _ (fl : Floats) where
  unfoldable pub new_manager : (tick_hz max_laps max_players : ℤ) → (on_finish : Bool) → Manager fl
  new_manager tick_hz max_laps max_players on_finish = record {
    heap = [];
    races = [];
    by_match = [];
    on_finish = on_finish;
    tick_hz = or_default tick_hz default_tick_hz;
    max_laps = or_default max_laps default_max_laps;
    max_players = or_default max_players default_max_players;
  }

  unfoldable pub get : Manager fl → Uuid → Option Uuid
  get m id = lookup id m.races

  -- ByMatch; the first part is `none` where the code returns a nil race.
  unfoldable pub race_of_match : Manager fl → Uuid → Option Uuid × Bool
  race_of_match m match_id = elim (lookup match_id m.by_match) [
    | none ↦ (none, false)
    | some rid ↦ (lookup rid m.races, true)
  ]

  -- List, in the order of the keys `order`.
  unfoldable pub list : Manager fl → List Uuid → List Uuid
  list m [] = []
  list m (id ∷ order) =
      let rest = list m order in elim (lookup id m.races) [ none ↦ rest | some rid ↦ rid ∷ rest ]

  -- PlayerRace, walking the races in the order of the keys `order`.
  unfoldable pub player_race : Manager fl → List Uuid → Uuid → Option Uuid
  player_race m [] player_id = none
  player_race m (id ∷ order) player_id =
      let rest = player_race m order player_id in
      elim (lookup id m.races) [
        | none ↦ rest
        | some rid ↦ elim (lookup rid m.heap) [
          | none ↦ rest
          | some r ↦ elim (lookup player_id r.players) [ none ↦ rest | some _ ↦ some rid ]
        ]
      ]

  unfoldable pub new_race :
      Manager fl
      → (Uuid → Option (Track fl))
      → (match_id : Uuid) → Moment
      → Option (Manager fl × Uuid)
  new_race m track_fn match_id t = elim (track_fn match_id) [
    | none ↦ none
    | some track ↦ some (
      record m {
        heap =
            insert t.new_id
              (record (new fl t.new_id track (pos m.tick_hz) (pos m.max_laps) (pos m.max_players)
                t.created_at) { on_finish = m.on_finish })
              m.heap;
        races = insert t.new_id t.new_id m.races;
        by_match = insert match_id t.new_id m.by_match;
      },
      t.new_id,
    )
  ]

  unfoldable pub set_on_finish : Manager fl → Bool → Manager fl
  set_on_finish m cb = record m { on_finish = cb }

  -- The call of AddPlayer at the end of RegisterPlayer, on the race at `rid`.
  unfoldable pub add_to :
      Manager fl → Option Uuid → (player_id : Uuid) → Moment → Manager fl × Registered
  add_to m none player_id t = (m, panicked)
  add_to m (some rid) player_id t = elim (lookup rid m.heap) [
    | none ↦ (m, panicked)
    | some r ↦
        let added = add_player fl r player_id (default_spec fl) t.started_at t.lap_started_at in
        (record m { heap = insert rid added.0 m.heap }, if added.1 then joined rid else refused)
  ]

  unfoldable pub register_player :
      Manager fl
      → (Uuid → Option (Track fl))
      → (match_id player_id : Uuid) → Moment
      → Manager fl × Registered
  unfolding race_of_match new_race add_to
  register_player m track_fn match_id player_id t =
      let (found, ok) = race_of_match m match_id in
      if ok then add_to m found player_id t else elim (new_race m track_fn match_id t) [
        | none ↦ (m, no_track)
        | some made ↦ add_to made.0 (some made.1) player_id t
      ]

  -- Whether the race at an ID has finished.
  unfoldable pub has_finished : Manager fl → Uuid → Bool
  has_finished m rid = elim (lookup rid m.heap) [
    | none ↦ false
    | some r ↦ is_finished_status r.status
  ]

  drop_finished : Manager fl → Dict Uuid → Dict Uuid
  unfolding has_finished
  drop_finished m [] = []
  drop_finished m ((id, rid) ∷ rest) =
      let others = drop_finished m rest in if has_finished m rid then others else (id, rid) ∷ others

  unfoldable pub cleanup_finished : Manager fl → Manager fl
  unfolding drop_finished
  cleanup_finished m = record m { races = drop_finished m m.races }
