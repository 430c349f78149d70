-- ===== src/Examples/Races.antt =====
-- The race's theorems on a race with one player.
use car_video_game_backend.Base.{
  ◌+◌, ◌*◌, ◌<◌, ◌≤◌, max, ◌≡◌, ◌↔◌, refl, inr, pos, List, [], ◌∷◌, ◌++◌, Option, none, some, true,
  arith, lookup, ◌+ℤ◌, ◌-ℤ◌, ◌*ℤ◌, insert,
}
use car_video_game_backend.Race.Model.{PlayerState, Event, Race}
use car_video_game_backend.Race.Physics.{
  default_spec, step, turned, wrap_angle, unwind_down, unwind_up, next_velocity, clamp, moved,
}
use car_video_game_backend.Race.Roster.{
  new, new_player, add_player, len_or_1, millis_between, sub_time, no_input, spawn,
}
use car_video_game_backend.Race.Invariant.{Inv}
use car_video_game_backend.Race.Invariant.Ticks.{advance_tick-Inv}
use car_video_game_backend.Race.Physics.Numbers.{IsWithin, step_in_bounds}
use car_video_game_backend.Race.Laps.{count_passes, passes}
use car_video_game_backend.Race.Circuits.{Drive, moves, drive, drive_one, laps_count_circuits}
use car_video_game_backend.Race.Tick.{
  advance_tick, advance_player, spec_of, detect, is_hit, pass_checkpoint, complete_lap, best_lap,
}
use car_video_game_backend.Examples.Toy.{
  toy, toy_laws, toy_numbers, one_player, one_player-Inv, player_7,
}

abbrev four_ticks : List (Drive toy)
four_ticks =
    moves (7 ∷ []) (λ _. 5_000_000) (pos 1) 1
    ∷ moves (7 ∷ []) (λ _. 6_000_000) (pos 1) 2
    ∷ moves (7 ∷ []) (λ _. 7_000_000) (pos 1) 3
    ∷ moves (7 ∷ []) (λ _. 8_000_000) (pos 1) 4
    ∷ []

abbrev or_else {ℓ} : {A : Type ℓ} → Option A → A → A
or_else none d = d
or_else (some a) d = a

abbrev driven : Race toy
driven = or_else (drive toy 5 four_ticks one_player) one_player

one_player-found : lookup 7 one_player.players ≡ some player_7
unfolding add_player new new_player lookup insert
one_player-found = refl

one_player-start : passes (len_or_1 toy one_player.track.waypoints) player_7 ≡ 0
unfolding add_player new new_player len_or_1 lookup insert
one_player-start = refl

driven-reached : drive toy 5 four_ticks one_player ≡ some driven
unfolding drive drive_one advance_tick advance_player step wrap_angle unwind_down unwind_up turned
    next_velocity clamp moved spec_of detect is_hit pass_checkpoint complete_lap best_lap
    millis_between sub_time new new_player add_player spawn len_or_1 lookup insert ◌+ℤ◌ ◌-ℤ◌ ◌*ℤ◌
driven-reached = refl

-- Four passed checkpoints of a track of two are two circuits: the race of one lap is over.
laps_count_circuits_example :
    (q : PlayerState toy) × (fresh : List Event) × (lookup 7 driven.players ≡ some q)
    × (driven.events ≡ one_player.events ++ fresh)
    × (let n = len_or_1 toy one_player.track.waypoints in
        let c = count_passes 7 fresh in
        (q.lap * n ≤ c)
        × (c < q.lap * n + n)
        × ((q.is_finished ≡ true) ↔ (c ≡ max 2 one_player.max_laps * n)))
laps_count_circuits_example =
    laps_count_circuits toy 5 four_ticks one_player 7 player_7 one_player-Inv one_player-found
      one_player-start driven-reached

abbrev ticked : Race toy
ticked = or_else (advance_tick toy 5 (7 ∷ []) (λ _. 5_000_000) one_player (pos 1) 1) one_player

ticked-reached : advance_tick toy 5 (7 ∷ []) (λ _. 5_000_000) one_player (pos 1) 1 ≡ some ticked
unfolding advance_tick advance_player step wrap_angle unwind_down unwind_up turned next_velocity
    clamp moved spec_of detect is_hit pass_checkpoint complete_lap best_lap millis_between sub_time
    new new_player add_player spawn len_or_1 lookup insert ◌+ℤ◌ ◌-ℤ◌ ◌*ℤ◌
ticked-reached = refl

advance_tick-Inv_example : Inv ticked
advance_tick-Inv_example =
    advance_tick-Inv toy 5 (7 ∷ []) (λ _. 5_000_000) one_player (pos 1) 1 one_player-Inv
      ticked-reached

step_in_bounds_example :
    (q : PlayerState toy) × (step toy 2 player_7 (no_input toy) (default_spec toy) (pos 1) ≡ some q)
    × IsWithin toy toy_numbers
        (toy.neg (default_spec toy).max_speed)
        (default_spec toy).max_speed
        q.velocity
    × IsWithin toy toy_numbers (toy.neg toy.pi) toy.pi q.heading
    × (q.position ≡ moved toy player_7.position q.velocity q.heading (pos 1))
    × (q ≡ record player_7 { velocity = q.velocity; heading = q.heading; position = q.position })
unfolding toy_numbers turned new_player ◌+ℤ◌ ◌-ℤ◌ ◌*ℤ◌
step_in_bounds_example =
    step_in_bounds toy toy_numbers toy_laws 0 2 player_7 (no_input toy) (default_spec toy) (pos 1)
      (omega arith) (inr (refl, refl)) refl refl refl refl
