-- ===== src/Race/Finish.antt =====
-- How a race ends: once, with one call of its callback, and with results that stay as they are.
pub mod Once
use car_video_game_backend.Base.{
  ℕ, zero, suc, ◌+◌, ◌%◌, ◌^◌, ◌<◌, ◌≤◌, ◌≡◌, refl, negsuc, ◌⊎◌, sym, ◌∙◌, ap, inl, inr, List, [],
  ◌∷◌, ◌++◌, append-nil, Option, none, some, Bool, true, false, not, ◌&&◌, length, arith,
  if◌then◌else◌, ==_iff, ◌==◌, if-elim, Bool-cases, OnSome, OnSome-some, OnSome-map, All, ltb_ℤ,
  pos, ltb, ℤ,
}
use car_video_game_backend.Race.Floats.{Floats}
use car_video_game_backend.Race.Model.{
  Uuid, Time, RaceStatus, finished, CarSpec, InputMsg, JoinMsg, LeaveMsg, Event, Track, Race,
  RaceResult, empty_race_reap_after,
}
use car_video_game_backend.Race.Physics.{OnSome-bind}
use car_video_game_backend.Race.Roster.{
  or_default, is_finished_status, sub_time, new, add_player, apply_input, enqueue_join,
  enqueue_leave, final_results,
}
use car_video_game_backend.Race.Tick.{all_players_finished}
use car_video_game_backend.Race.Invariant.{Inv}
use car_video_game_backend.Race.Live.{
  Live, add_player-Live, prepare-Live, run_physics-Live, publish-Live, channels-Live,
}
use car_video_game_backend.Race.Loop.{
  Readings, Wake, tick_due, cancelled, Loop, Round, ending, finish_race, run_physics, wait_tick,
  after_tick, prepare, publish, round,
}
use car_video_game_backend.Race.Loop.Process.{
  Action, runs, adds, inputs, joins, leaves, Process, to_list, after_round, on_race, launch, act,
  act_all,
}

abbrev pub one_if : Bool → ℕ
one_if true = 1
one_if false = 0

-- A race that has ended, with the races that its callback was given.
pub record Ended {fl : Floats} (cb : Bool) (r : Race fl) (calls : List (Race fl)) : Type 0 where
  pub inv : Inv r
  pub over : r.status ≡ finished
  pub is_done : r.done ≡ true
  pub called : length calls ≡ one_if cb
  pub told : All (λ c. final_results fl c ≡ final_results fl r) calls

pub data SoundRound {fl : Floats} (cb : Bool) (rd : Round fl) : Type 0 where
  goes_on : rd.running ≡ true → Live cb rd.loop.race → rd.callback ≡ none → SoundRound cb rd
  stops : rd.running ≡ false → Ended cb rd.loop.race (to_list rd.callback) → SoundRound cb rd

module _ (fl : Floats) where
  -- A finished race takes no player in.
  pub add_player_finished :
      (r : Race fl) (pid : Uuid) (spec : CarSpec fl) (started lap_started : Time)
      → r.status ≡ finished
      → add_player fl r pid spec started lap_started ≡ (r, false)
  unfolding add_player
  add_player_finished r pid spec started lap_started e = ground arith

module _ (fl : Floats) (cb : Bool) where
  finish_race-Ended :
      (r : Race fl) (now : Time)
      → Live cb r
      → Ended cb (finish_race fl r now).0 (to_list (finish_race fl r now).1)
  unfolding finish_race final_results
  finish_race-Ended r now l =
      if-elim (λ (x : Race fl × Option (Race fl)). Ended cb x.0 (to_list x.1))
        (is_finished_status r.status) (λ h. absurd (cc (l.going)))
        (λ _.
          if-elim
            (λ (o : Option (Race fl)).
              Ended cb (record (ending fl r now) { done = true }) (to_list o))
            r.on_finish
            (λ on. record {
              inv = ended;
              over = refl;
              is_done = refl;
              called = ground (arith, l.callback_set);
              told = (refl, tt);
            })
            (λ off. record {
              inv = ended;
              over = refl;
              is_done = refl;
              called = ground (arith, l.callback_set);
              told = tt;
            }))
    where
      ended :
          {s : RaceStatus} {t : Time} {es : List Event} {d : Bool}
          → Inv (record r { status = s; finish_time = t; events = es; done = d })
      ended = record { laps = l.inv.laps; capped = l.inv.capped; entries = l.inv.entries }

  wait_tick-SoundRound :
      (w : Wake) (l : Loop fl) (drained : List Event) (now : Time)
      → Live cb l.race
      → SoundRound cb (wait_tick fl w l drained now)
  unfolding wait_tick
  wait_tick-SoundRound tick_due l drained now v = goes_on refl v refl
  wait_tick-SoundRound cancelled l drained now v = stops refl (finish_race-Ended l.race now v)

  after_tick-SoundRound :
      (t : Readings) (l : Loop fl) (drained : List Event)
      → Live cb l.race
      → SoundRound cb (after_tick fl t l drained)
  unfolding after_tick
  after_tick-SoundRound t l drained v =
      if-elim (SoundRound cb)
        (length l.race.players == 0
          && not (l.last_empty == 0)
          && ltb_ℤ (pos empty_race_reap_after) (sub_time t.reaped_at l.last_empty))
        (λ _. stops refl (finish_race-Ended l.race t.finished_at v))
        (λ _.
          if-elim (SoundRound cb) (l.started && all_players_finished fl l.race)
            (λ _. stops refl (finish_race-Ended l.race t.finished_at v))
            (λ _. wait_tick-SoundRound t.wake _ drained t.finished_at v))

  pub round-SoundRound :
      (fuel : ℕ) (t : Readings) (l : Loop fl)
      → Live cb l.race
      → OnSome (SoundRound cb) (round fl fuel t l)
  unfolding round
  round-SoundRound fuel t l v =
      if-elim (OnSome (SoundRound cb)) t.ctx_done
        (λ _. stops refl (finish_race-Ended l.race t.finished_at v))
        (λ _.
          if-elim (OnSome (SoundRound cb)) l.race.done (λ d. absurd (cc (v.not_done)))
            (λ _.
              OnSome-bind (Live cb) (SoundRound cb)
                (run_physics fl fuel t (prepare fl t l).race (prepare fl t l).tick_idx) _
                (run_physics-Live fl cb fuel t (prepare fl t l).race (prepare fl t l).tick_idx
                  (prepare-Live fl cb t l v))
                (λ r' h.
                  after_tick-SoundRound t _ r'.events
                    (publish-Live fl cb t r' (prepare fl t l).tick_idx h))))
