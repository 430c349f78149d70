-- ===== src/Race/Loop.antt =====
-- internal/race/manager.go: Run, the loop of a race, one round at a time, and finishRace. What a
-- round reads from outside (the clock, the context, the order of a map walk, what ends its final
-- select) is its argument `t`.
pub mod Process
use car_video_game_backend.Base.{
  ℕ, ◌+◌, ◌*◌, ◌/◌, ◌%◌, ◌^◌, ℤ, pos, ltb_ℤ, List, [], ◌∷◌, ◌++◌, Option, none, some, Bool, true,
  false, not, ◌&&◌, ◌||◌, length, ltb, ◌==◌, if◌then◌else◌,
}
use car_video_game_backend.Race.Floats.{Floats}
use car_video_game_backend.Race.Model.{
  Uuid, Time, RaceStatus, pending, starting, in_progress, finished, countdown_millis,
  empty_race_reap_after, CarSpec, JoinMsg, LeaveMsg, InputMsg, Event, race_finished, player_joined,
  player_left, race_starting, WorldSnapshot, Race,
}
use car_video_game_backend.Race.Physics.{◌>>=◌}
use car_video_game_backend.Race.Roster.{
  is_finished_status, sub_time, add_player, remove_player, apply_input, enqueue_join, enqueue_leave,
  final_results, build_world_snapshot,
}
use car_video_game_backend.Race.Tick.{emit, apply_input_locked, advance_tick, all_players_finished}

-- What ends the select at the foot of the loop. Its case on Done is never ready: finishRace alone
-- closes Done, and Run returns after it.
pub data Wake : Type 0 where
  tick_due cancelled : Wake

pub record Readings : Type 0 where
  pub ctx_done : Bool
  -- The readings of the clock for the n-th join message of the round.
  pub join_at : ℕ → Time
  pub join_lap_at : ℕ → Time
  pub joined_at : ℕ → Time
  pub started_at : Time
  pub live_at : Time
  pub tick_at : Uuid → Time
  pub empty_at : Time
  pub reaped_at : Time
  pub finished_at : Time
  -- The orders in which the players are walked, for the tick and for the snapshot.
  pub visits : List Uuid
  pub shown : List Uuid
  pub wake : Wake

-- The variables of Run beside the race.
pub record Loop (fl : Floats) : Type 0 where
  pub race : Race fl
  pub tick_idx : ℕ
  pub started : Bool
  pub last_empty : Time

-- What a round does: the new state, the events that it took off the race, the race that the
-- callback was given if it was called, and whether the loop goes on.
pub record Round (fl : Floats) : Type 0 where
  pub loop : Loop fl
  pub drained : List Event
  pub callback : Option (Race fl)
  pub running : Bool

abbrev pub is_pending : RaceStatus → Bool
is_pending pending = true
is_pending _ = false

abbrev pub is_starting : RaceStatus → Bool
is_starting starting = true
is_starting _ = false

abbrev pub is_in_progress : RaceStatus → Bool
is_in_progress in_progress = true
is_in_progress _ = false

module _ (fl : Floats) where
  -- The race as finishRace leaves it when it unlocks: as the callback sees it.
  abbrev pub ending : Race fl → Time → Race fl
  ending r now =
      emit fl (record r { status = finished; finish_time = now })
        (race_finished r.id (final_results fl r))

  -- finishRace: the race after it, with Done closed, and the race that the callback is given.
  unfoldable pub finish_race : Race fl → Time → Race fl × Option (Race fl)
  finish_race r now = if is_finished_status r.status then (r, none) else (
    record (ending r now) { done = true },
    if r.on_finish then some (ending r now) else none,
  )

  unfoldable pub drain_joins : Readings → ℕ → List (JoinMsg fl) → Race fl → Race fl
  drain_joins t i [] r = r
  drain_joins t i (m ∷ ms) r =
      let joined = (add_player fl r m.player_id m.car_spec (t.join_at i) (t.join_lap_at i)).0 in
      drain_joins t (i + 1) ms (emit fl joined (player_joined m.player_id (t.joined_at i)))

  unfoldable pub drain_leaves : List LeaveMsg → Race fl → Race fl
  drain_leaves [] r = r
  drain_leaves (m ∷ ms) r =
      drain_leaves ms (emit fl (remove_player fl r m.player_id) (player_left m.player_id m.reason))

  unfoldable pub drain_inputs : List (InputMsg fl) → Race fl → Race fl
  drain_inputs [] r = r
  drain_inputs (m ∷ ms) r = drain_inputs ms (apply_input_locked fl r m)

  unfoldable pub start_countdown : Race fl → Time → Race fl
  start_countdown r now =
      if is_pending r.status && ltb 0 (length r.players)
      then emit fl (record r { status = starting; start_real_time = now }) race_starting
      else r

  -- The race, and whether it went live.
  unfoldable pub go_live : Race fl → Time → ℕ → Race fl × Bool
  go_live r now tick_idx =
      if is_starting r.status
        && not (ltb_ℤ (sub_time now r.start_real_time) (pos (countdown_millis * 1_000_000)))
      then (record r { status = in_progress; start_tick = tick_idx }, true)
      else (r, false)

  -- The physics of the round; `none` where a step does not return.
  unfoldable pub run_physics : ℕ → Readings → Race fl → ℕ → Option (Race fl)
  run_physics fuel t r tick_idx =
      if is_in_progress r.status
      then advance_tick fl fuel t.visits t.tick_at r (fl.seconds (1_000_000_000 / r.tick_rate_hz))
          tick_idx
      else some r

  -- A snapshot that finds its channel full is dropped.
  unfoldable pub send_snapshot : Race fl → Option (WorldSnapshot fl) → Race fl
  send_snapshot r none = r
  send_snapshot r (some s) =
      if ltb (length r.snapshot_out) 4
      then record r { snapshot_out = r.snapshot_out ++ s ∷ [] }
      else r

  abbrev stop : Loop fl → List Event → Time → Round fl
  stop l drained now =
      let ended = finish_race l.race now in
      record {
        loop = record l { race = ended.0 };
        drained = drained;
        callback = ended.1;
        running = false;
      }

  -- The select at the foot of the loop.
  unfoldable pub wait_tick : Wake → Loop fl → List Event → Time → Round fl
  unfolding finish_race
  wait_tick tick_due l drained now = record {
    loop = l;
    drained = drained;
    callback = none;
    running = true;
  }
  wait_tick cancelled l drained now = stop l drained now

  -- From the unlock on: the reap of an empty race, the finish, and the wait.
  unfoldable pub after_tick : Readings → Loop fl → List Event → Round fl
  unfolding wait_tick
  after_tick t l drained =
      let is_empty = length l.race.players == 0 in
      let last_empty =
        if is_empty then (if l.last_empty == 0 then t.empty_at else l.last_empty) else 0 in
      if is_empty
        && not (l.last_empty == 0)
        && ltb_ℤ (pos empty_race_reap_after) (sub_time t.reaped_at l.last_empty)
      then stop l drained t.finished_at
      else if l.started && all_players_finished fl l.race
      then stop (record l { last_empty = last_empty }) drained t.finished_at
      else wait_tick t.wake
          (record l { last_empty = last_empty; tick_idx = (l.tick_idx + 1) % 2 ^ 64 }) drained
          t.finished_at

  -- The messages, the start and the inputs of a round, up to the physics.
  unfoldable pub prepare : Readings → Loop fl → Loop fl
  unfolding drain_joins drain_leaves drain_inputs start_countdown go_live
  prepare t l =
      let joined = drain_joins t 0 l.race.join_msg (record l.race { join_msg = [] }) in
      let left = drain_leaves joined.leave_msg (record joined { leave_msg = [] }) in
      let (live, now_live) = go_live (start_countdown left t.started_at) t.live_at l.tick_idx in
      record l {
        race = drain_inputs live.input_ch (record live { input_ch = [] });
        started = l.started || now_live;
      }

  -- The race after the tick, with its events taken off and its snapshot sent.
  unfoldable pub publish : Readings → Race fl → ℕ → Race fl
  unfolding send_snapshot
  publish t r tick_idx =
      send_snapshot (record r { events = [] }) (build_world_snapshot fl t.shown r tick_idx)

  -- One turn of the loop; `none` where it does not get past the physics.
  unfoldable pub round : ℕ → Readings → Loop fl → Option (Round fl)
  unfolding finish_race after_tick prepare run_physics publish
  round fuel t l =
      if t.ctx_done
      then some (stop l [] t.finished_at)
      else if l.race.done
      then some (record { loop = l; drained = []; callback = none; running = false })
      else do
        let ready = prepare t l
        ticked ← run_physics fuel t ready.race ready.tick_idx
        some (after_tick t (record ready { race = publish t ticked ready.tick_idx }) ticked.events)
