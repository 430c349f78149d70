-- ===== src/GameServer.antt =====
-- cmd/game-server/main.go: the wiring of the game server. The callback that stores a finished race, the
-- track lookup, and the pool that gives every race a broadcaster and keeps its subscriptions.
pub mod Pool
pub mod Following
use Prim.Native.String.{String}
use car_video_game_backend.Base.{
  ℕ, pos, List, [], ◌∷◌, ◌++◌, Option, none, some, Bool, true, false, ◌==◌, if◌then◌else◌, map,
  Dict, lookup, insert,
}
use car_video_game_backend.Race.Floats.{Floats}
use car_video_game_backend.Race.Model.{Uuid, Track, Waypoint, Race, RaceResult}
use car_video_game_backend.Race.Roster.{final_results}
use car_video_game_backend.Race.Manager.{Manager, list, cleanup_finished}
use car_video_game_backend.Networking.Sessions.{Addr, SessionRegistry, PlayerView, race_players}
use car_video_game_backend.Networking.Subscriptions.{Subscriptions, new_subscriptions, add}
use car_video_game_backend.Results.{Entry, WriteRequest, Attempt, RaceTables, persist_with_retry}

abbrev pub entry_of : RaceResult → Entry
entry_of e = record {
  player_id = e.player_id;
  position = pos e.position;
  total_time_ms = e.total_time_ms;
  best_lap_ms = e.best_lap_ms;
}

-- uuid.MustParse("cccccccc-cccc-cccc-cccc-cccccccccccc")
abbrev pub fallback_track : Uuid
fallback_track = 272225893536750770770699685945414569164

module _ (fl : Floats) where
  unfoldable pub write_request : Race fl → WriteRequest
  write_request r = record {
    race_id = r.id;
    track_id = r.track.id;
    started_at = r.start_real_time;
    finished_at = r.finish_time;
    results = map entry_of (final_results fl r);
  }

  -- persistRace, the callback of every race.
  unfoldable pub persist_race :
      (first second : Attempt) (gave_up : Bool) → Race fl → RaceTables → RaceTables
  unfolding write_request
  persist_race first second gave_up r t =
      persist_with_retry first second gave_up (write_request r) t

  abbrev corner : ℕ → ℕ → Waypoint fl
  corner x z = record { x = fl.int32 x; y = fl.int32 0; z = fl.int32 z }

  abbrev square : Uuid × String → Track fl
  square (id, name) = record {
    id = id;
    name = name;
    waypoints = corner 0 0 ∷ corner 5 0 ∷ corner 5 5 ∷ corner 0 5 ∷ [];
    spawns = [];
  }

  -- The track that the first row of tracks names; `none` is a pool that is nil, a query that fails or
  -- finds no row.
  abbrev cached : Option (Uuid × String) → Uuid × String
  cached none = (fallback_track, "MVP-Loop")
  cached (some (id, name)) = if id == 0 then (fallback_track, "MVP-Loop") else (id, name)

  unfoldable pub build_track_lookup : (first : Option (Uuid × String)) → Uuid → Option (Track fl)
  build_track_lookup first match_id = some (square (cached first))

-- broadcasterPool. `spawned` are the races for which the two goroutines of spawn have been started.
pub record BroadcasterPool : Type 0 where
  pub known : Dict Bool
  pub spawned : List Uuid

unfoldable pub new_broadcaster_pool : BroadcasterPool
new_broadcaster_pool = record { known = []; spawned = [] }

-- p.known[id]
abbrev pub is_known : BroadcasterPool → Uuid → Bool
is_known p id = elim (lookup id p.known) [ none ↦ false | some b ↦ b ]

unfoldable pub spawn : BroadcasterPool → Uuid → BroadcasterPool
spawn p id =
    if is_known p id
    then p
    else record { known = insert id true p.known; spawned = p.spawned ++ id ∷ [] }

unfoldable pub spawn_all : BroadcasterPool → List Uuid → BroadcasterPool
unfolding spawn
spawn_all p [] = p
spawn_all p (id ∷ ids) = spawn_all (spawn p id) ids

module _ (fl : Floats) where
  -- wireNewRaces, with List in the order of the keys `order`.
  unfoldable pub wire_new_races :
      BroadcasterPool → Manager fl → (order : List Uuid) → BroadcasterPool
  unfolding spawn_all
  wire_new_races p m order = spawn_all p (list fl m order)

  -- One tick of watch.
  unfoldable pub watch_tick :
      BroadcasterPool → Manager fl → (order : List Uuid) → BroadcasterPool × Manager fl
  unfolding wire_new_races
  watch_tick p m order = (wire_new_races p m order, cleanup_finished fl m)

-- What a select of followSubscriptions ends with; at a tick, the sessions are those of that time.
pub data FollowWake : Type 0 where
  ctx_done race_done : FollowWake
  tick : SessionRegistry → FollowWake

-- `parse` reads the key of an address; the address that RacePlayers gives is never nil.
module _ (no_addr : Addr) (parse : Addr → Option Addr) where
  unfoldable pub add_views : Subscriptions → List (PlayerView Addr no_addr parse) → Subscriptions
  add_views subs [] = subs
  add_views subs (v ∷ views) = add_views (add subs v.player_id (some v.addr)).0 views

  unfoldable pub follow_tick : (race : Uuid) → Subscriptions → SessionRegistry → Subscriptions
  unfolding add_views
  follow_tick race subs s = add_views subs (race_players Addr no_addr parse s (some race))

  unfoldable pub follow_subscriptions :
      (race : Uuid) → Subscriptions → List FollowWake → Subscriptions
  unfolding follow_tick
  follow_subscriptions race subs [] = subs
  follow_subscriptions race subs (tick s ∷ wakes) =
      follow_subscriptions race (follow_tick race subs s) wakes
  follow_subscriptions race subs (_ ∷ wakes) = subs
