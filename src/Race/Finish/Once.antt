-- ===== src/Race/Finish/Once.antt =====
-- How a race ends: once, with one call of its callback. The loop of internal/race/manager.go with
-- the calls of race.go around it.
use car_video_game_backend.Base.{
  ℕ, zero, suc, ◌≤◌, ◌≡◌, refl, negsuc, ◌⊎◌, inl, inr, List, [], ◌∷◌, ◌++◌, some, Bool, true, false,
  length, arith, if-elim, OnSome, OnSome-some, pos, ltb, ℤ, drop,
}
use car_video_game_backend.Race.Floats.{Floats}
use car_video_game_backend.Race.Model.{
  Uuid, Time, CarSpec, InputMsg, JoinMsg, LeaveMsg, Track, WorldSnapshot, Race,
}
use car_video_game_backend.Race.Physics.{OnSome-bind}
use car_video_game_backend.Race.Roster.{
  or_default, new, add_player, apply_input, enqueue_join, enqueue_leave, final_results,
}
use car_video_game_backend.Race.Live.{Live, add_player-Live, channels-Live}
use car_video_game_backend.Race.Loop.{Readings, Round, round}
use car_video_game_backend.Race.Loop.Process.{
  Action, runs, adds, inputs, joins, leaves, reads, Process, after_round, on_race, launch, act,
  act_all,
}
use car_video_game_backend.Race.Finish.{
  Ended, SoundRound, goes_on, stops, add_player_finished, round-SoundRound,
}

-- A process whose race is live and has called nothing, or has ended and has called its callback
-- once, if it has one.
pub data Sound {fl : Floats} (cb : Bool) (s : Process fl) : Type 0 where
  going : s.running ≡ true → Live cb s.loop.race → s.callbacks ≡ [] → Sound cb s
  over : s.running ≡ false → Ended cb s.loop.race s.callbacks → Sound cb s

module _ (fl : Floats) (cb : Bool) where
  channels-Ended :
      (r : Race fl) (js : List (JoinMsg fl)) (ls : List LeaveMsg) (is : List (InputMsg fl))
      (ss : List (WorldSnapshot fl)) (calls : List (Race fl))
      → Ended cb r calls
      → Ended cb
          (record r { join_msg = js; leave_msg = ls; input_ch = is; snapshot_out = ss })
          calls
  unfolding final_results
  channels-Ended r js ls is ss calls e = record {
    inv = record { laps = e.inv.laps; capped = e.inv.capped; entries = e.inv.entries };
    over = e.over;
    is_done = e.is_done;
    called = e.called;
    told = e.told;
  }

  after_round-Sound :
      (s : Process fl) (rd : Round fl)
      → s.callbacks ≡ []
      → SoundRound cb rd
      → Sound cb (after_round fl s rd)
  after_round-Sound s rd e (goes_on h v c) = going h v (rw (e, c) refl)
  after_round-Sound s rd e (stops h v) = over h (rw e v)

  module _ (s : Process fl) where
    adds-Sound :
        (pid : Uuid) (spec : CarSpec fl) (started lap_started : Time)
        → Sound cb s
        → Sound cb (on_race fl (λ r. (add_player fl r pid spec started lap_started).0) s)
    adds-Sound pid spec started lap_started (going h v c) =
        going h (add_player-Live fl cb s.loop.race pid spec started lap_started v) c
    adds-Sound pid spec started lap_started (over h v) =
        over h (rw (add_player_finished fl s.loop.race pid spec started lap_started v.over) v)

    -- A step that at most changes what waits in the channels.
    channels-Sound :
        (js : List (JoinMsg fl)) (ls : List LeaveMsg) (is : List (InputMsg fl))
        (ss : List (WorldSnapshot fl))
        → Sound cb s
        → Sound cb (
            on_race fl
              (λ r. record r { join_msg = js; leave_msg = ls; input_ch = is; snapshot_out = ss })
              s)
    channels-Sound js ls is ss (going h v c) =
        going h (channels-Live fl cb s.loop.race s.loop.race.events js ls is ss v) c
    channels-Sound js ls is ss (over h v) =
        over h (channels-Ended s.loop.race js ls is ss s.callbacks v)

    runs-Sound : (fuel : ℕ) (t : Readings) → Sound cb s → OnSome (Sound cb) (act fl fuel (runs t) s)
    unfolding act
    runs-Sound fuel t (going h v c) =
        if-elim (OnSome (Sound cb)) s.running
          (λ _.
            OnSome-bind (SoundRound cb) (Sound cb) (round fl fuel t s.loop) _
              (round-SoundRound fl cb fuel t s.loop v) (λ rd k. after_round-Sound s rd c k))
          (λ _. going h v c)
    runs-Sound fuel t (over h v) =
        if-elim (OnSome (Sound cb)) s.running (λ k. absurd (cc h)) (λ _. over h v)

  act-Sound :
      (fuel : ℕ) (a : Action fl) (s : Process fl) → Sound cb s → OnSome (Sound cb) (act fl fuel a s)
  unfolding act apply_input enqueue_join enqueue_leave
  act-Sound fuel (runs t) s h = runs-Sound s fuel t h
  act-Sound fuel (adds pid spec started lap_started) s h =
      adds-Sound s pid spec started lap_started h
  act-Sound fuel (inputs m) s h =
      let r = s.loop.race in
      if-elim (λ (x : Race fl). Sound cb (on_race fl (λ _. x) s)) (ltb (length r.input_ch) 256)
        (λ _. channels-Sound s r.join_msg r.leave_msg (r.input_ch ++ m ∷ []) r.snapshot_out h)
        (λ _. h)
  act-Sound fuel (joins m) s h =
      let r = s.loop.race in
      if-elim (λ (x : Race fl). Sound cb (on_race fl (λ _. x) s)) (ltb (length r.join_msg) 8)
        (λ _. channels-Sound s (r.join_msg ++ m ∷ []) r.leave_msg r.input_ch r.snapshot_out h)
        (λ _. h)
  act-Sound fuel (leaves m) s h =
      let r = s.loop.race in
      if-elim (λ (x : Race fl). Sound cb (on_race fl (λ _. x) s)) (ltb (length r.leave_msg) 8)
        (λ _. channels-Sound s r.join_msg (r.leave_msg ++ m ∷ []) r.input_ch r.snapshot_out h)
        (λ _. h)
  act-Sound fuel reads s h =
      let r = s.loop.race in
      channels-Sound s r.join_msg r.leave_msg r.input_ch (drop 1 r.snapshot_out) h

  act_all-Sound :
      (fuel : ℕ) (actions : List (Action fl)) (s : Process fl)
      → Sound cb s
      → OnSome (Sound cb) (act_all fl fuel actions s)
  unfolding act_all
  act_all-Sound fuel [] s h = h
  act_all-Sound fuel (a ∷ actions) s h =
      OnSome-bind (Sound cb) (Sound cb) (act fl fuel a s) _ (act-Sound fuel a s h)
        (λ s' h'. act_all-Sound fuel actions s' h')

  pub new-Live :
      (id : Uuid) (track : Track fl) (tick_hz max_laps max_players : ℤ) (now : Time)
      → Live cb (record (new fl id track tick_hz max_laps max_players now) { on_finish = cb })
  unfolding new
  new-Live id track tick_hz max_laps max_players now = record {
    inv = record { laps = or_default-pos max_laps; capped = omega arith; entries = tt };
    going = refl;
    not_done = refl;
    callback_set = refl;
  }
    where
      or_default-pos : (k : ℤ) → 1 ≤ or_default k 1
      or_default-pos (pos zero) = omega arith
      or_default-pos (pos (suc n)) = omega arith
      or_default-pos (negsuc n) = omega arith

  -- A new race, with or without a callback, is run through any rounds of its loop that return,
  -- whatever they read from outside, with any calls and receives of other goroutines between them.
  -- While its loop runs it has not ended and has called nothing. Once the loop has returned the race
  -- is finished, Done is closed, and the callback, if there is one, has been called exactly once,
  -- with the results that the race has now. The invariant of the race holds either way.
  pub race_ends_once :
      (id : Uuid) (track : Track fl) (tick_hz max_laps max_players : ℤ) (now : Time) (fuel : ℕ)
      (actions : List (Action fl)) {s : Process fl}
      → act_all fl fuel actions
          (launch fl (record (new fl id track tick_hz max_laps max_players now) { on_finish = cb }))
        ≡ some s
      → ((s.running ≡ true) × Live cb s.loop.race × (s.callbacks ≡ []))
        ⊎ ((s.running ≡ false) × Ended cb s.loop.race s.callbacks)
  unfolding launch
  race_ends_once id track tick_hz max_laps max_players now fuel actions e = cases (
      OnSome-some (Sound cb) _
        (act_all-Sound fuel actions _
          (going refl (new-Live id track tick_hz max_laps max_players now) refl))
        e)
    where
      cases :
          {s : Process fl}
          → Sound cb s
          → ((s.running ≡ true) × Live cb s.loop.race × (s.callbacks ≡ []))
            ⊎ ((s.running ≡ false) × Ended cb s.loop.race s.callbacks)
      cases (going h v c) = inl (h, v, c)
      cases (over h v) = inr (h, v)
