-- ===== src/Race/Live.antt =====
-- Every operation of a round keeps a live race live: its invariant, and that it has not ended.
use car_video_game_backend.Base.{
  ℕ, ◌+◌, ◌≡◌, refl, ap, List, [], ◌∷◌, ◌++◌, Option, none, some, Bool, false, length, arith,
  if-elim, OnSome, OnSome-map, OnSome-both, ltb, ltb_ℤ, pos, not, ◌&&◌, ◌*◌, ◌/◌,
}
use car_video_game_backend.Race.Floats.{Floats}
use car_video_game_backend.Race.Model.{
  Uuid, Time, RaceStatus, starting, in_progress, countdown_millis, CarSpec, InputMsg, JoinMsg,
  LeaveMsg, Event, WorldSnapshot, Race,
}
use car_video_game_backend.Race.Roster.{
  is_finished_status, sub_time, add_player, remove_player, build_world_snapshot,
}
use car_video_game_backend.Race.Tick.{emit}
use car_video_game_backend.Race.Invariant.{
  Inv, add_player-Inv, remove_player-Inv, apply_input_locked-Inv, add_player_cases,
}
use car_video_game_backend.Race.Invariant.Ticks.{advance_tick-OnSome}
use car_video_game_backend.Race.Frame.{Reframed, apply_input_locked-Reframed, advance_tick-Reframed}
use car_video_game_backend.Race.Loop.{
  Readings, Loop, drain_joins, drain_leaves, drain_inputs, is_pending, is_starting, is_in_progress,
  start_countdown, go_live, run_physics, send_snapshot, prepare, publish,
}

-- A race that has not ended, with a callback set or not (`cb`).
pub record Live {fl : Floats} (cb : Bool) (r : Race fl) : Type 0 where
  pub inv : Inv r
  pub going : is_finished_status r.status ≡ false
  pub not_done : r.done ≡ false
  pub callback_set : r.on_finish ≡ cb

module _ (fl : Floats) (cb : Bool) where
  -- An operation that leaves the status, the channel and the callback alone keeps a race live.
  Live-frame :
      (r r' : Race fl)
      → Live cb r
      → r'.status ≡ r.status
      → r'.done ≡ r.done
      → r'.on_finish ≡ r.on_finish
      → Inv r'
      → Live cb r'
  Live-frame r r' l s d o v = record {
    inv = v;
    going = rw s l.going;
    not_done = rw d l.not_done;
    callback_set = rw o l.callback_set;
  }

  pub emit-Live : (r : Race fl) (ev : Event) → Live cb r → Live cb (emit fl r ev)
  emit-Live r ev l = ground arith

  pub add_player-Live :
      (r : Race fl) (pid : Uuid) (spec : CarSpec fl) (started lap_started : Time)
      → Live cb r
      → Live cb (add_player fl r pid spec started lap_started).0
  add_player-Live r pid spec started lap_started l =
      Live-frame r _ l same.0 same.1 same.2 (add_player-Inv fl r pid spec started lap_started l.inv)
    where
      same :
          ((add_player fl r pid spec started lap_started).0.status ≡ r.status)
          × ((add_player fl r pid spec started lap_started).0.done ≡ r.done)
          × ((add_player fl r pid spec started lap_started).0.on_finish ≡ r.on_finish)
      same =
          add_player_cases fl
            (λ x. (x.status ≡ r.status) × (x.done ≡ r.done) × (x.on_finish ≡ r.on_finish)) r pid
            spec started lap_started (refl, refl, refl) (λ _ _. (refl, refl, refl))

  remove_player-Live : (r : Race fl) (pid : Uuid) → Live cb r → Live cb (remove_player fl r pid)
  unfolding remove_player
  remove_player-Live r pid l = record {
    inv = remove_player-Inv fl r pid l.inv;
    going = l.going;
    not_done = l.not_done;
    callback_set = l.callback_set;
  }

  Reframed-Live : (r r' : Race fl) → Live cb r → Reframed fl r r' → Inv r' → Live cb r'
  Reframed-Live r r' l h v =
      Live-frame r r' l (ap (λ (x : Race fl). x.status) h) (ap (λ (x : Race fl). x.done) h)
        (ap (λ (x : Race fl). x.on_finish) h) v

  -- Other messages, events or snapshots in a live race.
  pub channels-Live :
      (r : Race fl) (es : List Event) (js : List (JoinMsg fl)) (ls : List LeaveMsg)
      (is : List (InputMsg fl)) (ss : List (WorldSnapshot fl))
      → Live cb r
      → Live cb (record r {
        events = es;
        join_msg = js;
        leave_msg = ls;
        input_ch = is;
        snapshot_out = ss;
      })
  channels-Live r es js ls is ss l = record {
    inv = record { laps = l.inv.laps; capped = l.inv.capped; entries = l.inv.entries };
    going = l.going;
    not_done = l.not_done;
    callback_set = l.callback_set;
  }

  status-Live :
      (r : Race fl) (s : RaceStatus) (start : Time) (tick : ℕ)
      → is_finished_status s ≡ false
      → Live cb r
      → Live cb (record r { status = s; start_real_time = start; start_tick = tick })
  status-Live r s start tick h l = record {
    inv = record { laps = l.inv.laps; capped = l.inv.capped; entries = l.inv.entries };
    going = h;
    not_done = l.not_done;
    callback_set = l.callback_set;
  }

  drain_joins-Live :
      (t : Readings) (i : ℕ) (ms : List (JoinMsg fl)) (r : Race fl)
      → Live cb r
      → Live cb (drain_joins fl t i ms r)
  unfolding drain_joins
  drain_joins-Live t i [] r l = l
  drain_joins-Live t i (m ∷ ms) r l =
      drain_joins-Live t (i + 1) ms _
        (emit-Live _ _ (add_player-Live r m.player_id m.car_spec (t.join_at i) (t.join_lap_at i) l))

  drain_leaves-Live :
      (ms : List LeaveMsg) (r : Race fl) → Live cb r → Live cb (drain_leaves fl ms r)
  unfolding drain_leaves
  drain_leaves-Live [] r l = l
  drain_leaves-Live (m ∷ ms) r l =
      drain_leaves-Live ms _ (emit-Live _ _ (remove_player-Live r m.player_id l))

  drain_inputs-Live :
      (ms : List (InputMsg fl)) (r : Race fl) → Live cb r → Live cb (drain_inputs fl ms r)
  unfolding drain_inputs
  drain_inputs-Live [] r l = l
  drain_inputs-Live (m ∷ ms) r l = drain_inputs-Live ms _ (
      Reframed-Live r _ l (apply_input_locked-Reframed fl r m)
        (apply_input_locked-Inv fl r m l.inv))

  start_countdown-Live : (r : Race fl) (now : Time) → Live cb r → Live cb (start_countdown fl r now)
  unfolding start_countdown
  start_countdown-Live r now l =
      if-elim (Live cb) (is_pending r.status && ltb 0 (length r.players))
        (λ _. emit-Live _ _ (status-Live r starting now r.start_tick refl l)) (λ _. l)

  go_live-Live :
      (r : Race fl) (now : Time) (tick_idx : ℕ) → Live cb r → Live cb (go_live fl r now tick_idx).0
  unfolding go_live
  go_live-Live r now tick_idx l =
      if-elim (λ (x : Race fl × Bool). Live cb x.0)
        (is_starting r.status
          && not (ltb_ℤ (sub_time now r.start_real_time) (pos (countdown_millis * 1_000_000))))
        (λ _. status-Live r in_progress r.start_real_time tick_idx refl l) (λ _. l)

  pub prepare-Live : (t : Readings) (l : Loop fl) → Live cb l.race → Live cb (prepare fl t l).race
  unfolding prepare
  prepare-Live t l v =
      let joined = drain_joins fl t 0 l.race.join_msg (record l.race { join_msg = [] }) in
      let left = drain_leaves fl joined.leave_msg (record joined { leave_msg = [] }) in
      let r = l.race in
      let joined-Live : Live cb joined =
        drain_joins-Live t 0 r.join_msg _
          (channels-Live r r.events [] r.leave_msg r.input_ch r.snapshot_out v) in
      let left-Live : Live cb left = drain_leaves-Live joined.leave_msg _ (
        channels-Live joined joined.events joined.join_msg [] joined.input_ch joined.snapshot_out
          joined-Live) in
      let counted = start_countdown fl left t.started_at in
      let live = (go_live fl counted t.live_at l.tick_idx).0 in
      let live-Live : Live cb live =
        go_live-Live counted t.live_at l.tick_idx
          (start_countdown-Live left t.started_at left-Live) in
      drain_inputs-Live live.input_ch _
        (channels-Live live live.events live.join_msg live.leave_msg [] live.snapshot_out live-Live)

  pub run_physics-Live :
      (fuel : ℕ) (t : Readings) (r : Race fl) (tick_idx : ℕ)
      → Live cb r
      → OnSome (Live cb) (run_physics fl fuel t r tick_idx)
  unfolding run_physics
  run_physics-Live fuel t r tick_idx l =
      if-elim (OnSome (Live cb)) (is_in_progress r.status)
        (λ _.
          let dt = fl.seconds (1_000_000_000 / r.tick_rate_hz) in
          OnSome-map (λ r'. Reframed fl r r' × Inv r') (Live cb) _
            (λ r' h. Reframed-Live r r' l h.0 h.1)
            (OnSome-both (Reframed fl r) Inv _
              (advance_tick-Reframed fl fuel t.visits t.tick_at r dt tick_idx)
              (advance_tick-OnSome fl fuel t.visits t.tick_at r dt tick_idx l.inv)))
        (λ _. l)

  send_snapshot-Live :
      (r : Race fl) (o : Option (WorldSnapshot fl)) → Live cb r → Live cb (send_snapshot fl r o)
  unfolding send_snapshot
  send_snapshot-Live r none l = l
  send_snapshot-Live r (some s) l =
      if-elim (Live cb) (ltb (length r.snapshot_out) 4)
        (λ _.
          channels-Live r r.events r.join_msg r.leave_msg r.input_ch (r.snapshot_out ++ s ∷ []) l)
        (λ _. l)

  pub publish-Live :
      (t : Readings) (r : Race fl) (tick_idx : ℕ) → Live cb r → Live cb (publish fl t r tick_idx)
  unfolding publish
  publish-Live t r tick_idx l =
      let cleared = channels-Live r [] r.join_msg r.leave_msg r.input_ch r.snapshot_out l in
      send_snapshot-Live _ (build_world_snapshot fl t.shown r tick_idx) cleared
