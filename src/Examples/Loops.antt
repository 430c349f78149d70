-- ===== src/Examples/Loops.antt =====
-- The theorems of the race loop on a race that a player joins, and of a tick that hangs.
use car_video_game_backend.Base.{
  ℕ, ◌≡◌, ◌⊎◌, refl, subst, some-injective, inr, pos, List, [], ◌∷◌, Option, none, some, true,
  false, arith, lookup, ◌+ℤ◌, ◌-ℤ◌, ◌*ℤ◌, insert,
}
use car_video_game_backend.Race.Floats.{Floats}
use car_video_game_backend.Race.Model.{PlayerState, Race, Track, finished, in_progress}
use car_video_game_backend.Race.Physics.{
  default_spec, step, turned, wrap_angle, unwind_down, unwind_up, next_velocity, clamp, moved,
}
use car_video_game_backend.Race.Physics.Bounds.{Settles}
use car_video_game_backend.Race.Roster.{
  new, new_player, add_player, len_or_1, spawn, millis_between, sub_time, enqueue_join,
  final_results, results_from, build_world_snapshot, cars_in,
}
use car_video_game_backend.Race.Tick.{
  advance_tick, advance_player, spec_of, detect, is_hit, pass_checkpoint, complete_lap, best_lap,
  all_players_finished,
}
use car_video_game_backend.Race.Live.{Live}
use car_video_game_backend.Race.Finish.{Ended}
use car_video_game_backend.Race.Finish.Once.{race_ends_once}
use car_video_game_backend.Race.Frozen.{Kept, finished_race_frozen}
use car_video_game_backend.Race.Loop.{
  Readings, Wake, tick_due, cancelled, Loop, Round, round, prepare, publish, after_tick, wait_tick,
  finish_race, drain_joins, drain_leaves, drain_inputs, start_countdown, go_live, run_physics,
  send_snapshot,
}
use car_video_game_backend.Race.Loop.Process.{Action, runs, joins, Process, launch, act, act_all}
use car_video_game_backend.Race.Returns.{advance_tick_hangs}
use car_video_game_backend.Race.Returns.Rounds.{round_returns}
use car_video_game_backend.Examples.Toy.{toy, toy_laws, oval, one_player, player_7}

abbrev at_time : ℕ → Wake → Readings
at_time now wake = record {
  ctx_done = false;
  join_at = λ _. now;
  join_lap_at = λ _. now;
  joined_at = λ _. now;
  started_at = now;
  live_at = now;
  tick_at = λ _. now;
  empty_at = now;
  reaped_at = now;
  finished_at = now;
  visits = 7 ∷ [];
  shown = 7 ∷ [];
  wake = wake;
}

abbrev or_else {ℓ} : {A : Type ℓ} → Option A → A → A
or_else none d = d
or_else (some a) d = a

-- A player joins, and the server stops in the countdown.
abbrev two_actions : List (Action toy)
two_actions =
    joins (record { player_id = 7; car_spec = default_spec toy })
    ∷ runs (at_time 1_000_000 cancelled)
    ∷ []

abbrev launched : Process toy
launched = launch toy (record (new toy 1 oval (pos 0) (pos 0) (pos 0) 1_000) { on_finish = true })

abbrev stopped : Process toy
stopped = or_else (act_all toy 5 two_actions launched) launched

stopped-reached : act_all toy 5 two_actions launched ≡ some stopped
unfolding act_all act launch new enqueue_join round prepare publish after_tick wait_tick finish_race
    drain_joins drain_leaves drain_inputs start_countdown go_live run_physics send_snapshot
    add_player new_player spawn len_or_1 lookup insert advance_tick advance_player step wrap_angle
    unwind_down unwind_up turned next_velocity clamp moved spec_of detect is_hit pass_checkpoint
    complete_lap best_lap millis_between sub_time all_players_finished build_world_snapshot cars_in
    final_results results_from ◌+ℤ◌ ◌-ℤ◌ ◌*ℤ◌
stopped-reached = refl

race_ends_once_example :
    ((stopped.running ≡ true) × Live true stopped.loop.race × (stopped.callbacks ≡ []))
    ⊎ ((stopped.running ≡ false) × Ended true stopped.loop.race stopped.callbacks)
race_ends_once_example =
    race_ends_once toy true 1 oval (pos 0) (pos 0) (pos 0) 1_000 5 two_actions stopped-reached

abbrev over : Process toy
over = record {
  loop = record {
    race = record one_player { status = finished; done = true };
    tick_idx = 9;
    started = true;
    last_empty = 0;
  };
  running = false;
  log = [];
  callbacks = [];
}

finished_race_frozen_example :
    (s' : Process toy) × (act_all toy 5 two_actions over ≡ some s') × Kept over s'
finished_race_frozen_example = finished_race_frozen toy 5 two_actions over refl refl

abbrev live : Loop toy
live = record {
  race = record one_player { status = in_progress };
  tick_idx = 9;
  started = true;
  last_empty = 0;
}

round_returns_example : (rd : Round toy) × (round toy 5 (at_time 5_000 tick_due) live ≡ some rd)
unfolding prepare drain_joins drain_leaves drain_inputs start_countdown go_live turned spec_of
    lookup insert new new_player add_player ◌+ℤ◌ ◌-ℤ◌ ◌*ℤ◌
round_returns_example =
    round_returns toy toy_laws 0 5 (at_time 5_000 tick_due) live (omega arith) (tt, tt)
      (
        λ p e going.
            let same : player_7 ≡ p = some-injective _ _ e in
            subst
              (λ (q : PlayerState toy).
                Settles toy 0 (
                  turned toy q q.last_input
                    (spec_of toy (prepare toy (at_time 5_000 tick_due) live).race q) (pos 1))
                × (toy.lt (spec_of toy (prepare toy (at_time 5_000 tick_due) live).race q).max_speed
                      (toy.neg
                        (spec_of toy (prepare toy (at_time 5_000 tick_due) live).race q).max_speed)
                    ≡ false))
              same (inr (refl, refl), refl),
        tt,
      )

-- A turn by 2π that changes nothing, as for +Inf.
abbrev stuck : Floats
stuck = record toy { sub = λ a b. a }

-- A player that steers by 5 on a long tick.
abbrev spinner : PlayerState stuck
spinner = record {
  player_id = 7;
  position = record { x = pos 0; y = pos 0; z = pos 0 };
  velocity = pos 0;
  heading = pos 0;
  last_input = record { throttle = pos 0; brake = pos 0; steering = pos 5 };
  last_input_tick = 1;
  lap = 0;
  last_checkpoint = 0;
  next_checkpoint = 1;
  is_finished = false;
  finish_pos = 0;
  finish_time = 0;
  lap_started_at = 1_000;
  best_lap_ms = pos 0;
  started_at = 1_000;
}

abbrev flat : Track stuck
flat = record { id = 5; name = "flat"; waypoints = []; spawns = [] }

abbrev spinning : Race stuck
spinning = record (new stuck 1 flat (pos 0) (pos 0) (pos 0) 1_000) { players = (7, spinner) ∷ [] }

advance_tick_hangs_example :
    advance_tick stuck 1_000 (8 ∷ 7 ∷ []) (λ _. 5_000) spinning (pos 1) 3 ≡ none
unfolding lookup new turned spec_of ◌+ℤ◌ ◌-ℤ◌ ◌*ℤ◌
advance_tick_hangs_example =
    advance_tick_hangs stuck 1_000 (8 ∷ []) [] 7 (λ _. 5_000) spinning (pos 1) 3 spinner
      (ground arith, tt) refl refl refl refl
