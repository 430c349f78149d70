-- ===== src/Race/Invariant/Ticks.antt =====
-- A tick keeps the invariant of a race: advanceTickLocked of internal/race/manager.go.
use car_video_game_backend.Base.{
  ℕ, ◌+◌, ◌-◌, ◌%◌, ◌<◌, ◌≡◌, refl, inl, inr, List, [], ◌∷◌, ◌++◌, some, true, false, ◌&&◌, length,
  get_elem?, ltb, leb, ◌==◌, arith, lookup, Every-lookup, Every-insert, Every-map, length-insert,
  get_elem?-append_left, get_elem?-append_last, Option-cases, if-elim, OnSome, OnSome-some,
}
use car_video_game_backend.Race.Floats.{Floats}
use car_video_game_backend.Race.Model.{
  Uuid, Time, Vec3, CarSpec, PlayerState, PlayerInput, Waypoint, Race,
}
use car_video_game_backend.Race.Physics.{step, OnSome-bind}
use car_video_game_backend.Race.Roster.{millis_between, len_or_1}
use car_video_game_backend.Race.Tick.{
  best_lap, complete_lap, pass_checkpoint, is_hit, detect, spec_of, advance_player, advance_tick,
  advance_player_cases,
}
use car_video_game_backend.Race.Invariant.{
  InStep, Inv, Entry, last_lap, length-len_or_1, put_player-Inv, emit-Inv,
}

module _ (fl : Floats) where
  -- A step moves the car and leaves the rest of the player as it was.
  pub step-frame :
      (fuel : ℕ) (p : PlayerState fl) (input : PlayerInput fl) (spec : CarSpec fl) (dt : fl.F64)
      {q : PlayerState fl}
      → step fl fuel p input spec dt ≡ some q
      → q ≡ record p { velocity = q.velocity; heading = q.heading; position = q.position }
  unfolding step
  step-frame fuel p input spec dt e = ground arith

  InStep-grow :
      {n max_laps : ℕ} (order : List Uuid) (a pid : ℕ) (p : PlayerState fl)
      → InStep n max_laps order pid p
      → InStep n max_laps (order ++ a ∷ []) pid p
  InStep-grow order a pid p h = record {
    named = h.named;
    on_track = h.on_track;
    racing = h.racing;
    final_lap = h.final_lap;
    at_line = h.at_line;
    placed = h.placed;
    ranked = λ over. get_elem?-append_left order (a ∷ []) (p.finish_pos - 1) (h.ranked over);
  }

  -- A player that has just crossed the line, in its lap `p.lap`, before the lap is counted.
  record AtLine (n max_laps pid : ℕ) (p : PlayerState fl) : Type 0 where
    named : p.player_id ≡ pid
    next : p.next_checkpoint ≡ 1 % n
    racing : p.is_finished ≡ false
    begun : 0 < p.lap
    below : p.lap < last_lap max_laps

  -- The player after the lap, and after the lap that finishes the race.
  abbrev lapper : PlayerState fl → Time → PlayerState fl
  lapper p now = record p {
    best_lap_ms = best_lap p.best_lap_ms (millis_between now p.lap_started_at);
    lap = p.lap + 1;
    lap_started_at = now;
  }

  abbrev finisher : Race fl → PlayerState fl → Time → PlayerState fl
  finisher r p now = record p {
    best_lap_ms = best_lap p.best_lap_ms (millis_between now p.lap_started_at);
    lap = p.lap + 1;
    lap_started_at = now;
    is_finished = true;
    finish_time = now;
    finish_pos = length r.finished_order + 1;
  }

  lapper-Entry :
      (r : Race fl) (pid : ℕ) (p : PlayerState fl) (now : ℕ)
      → AtLine (len_or_1 fl r.track.waypoints) r.max_laps pid p
      → leb r.max_laps (p.lap + 1) ≡ false
      → Entry r pid (lapper p now)
  lapper-Entry r pid p now h more = ground (arith, length-len_or_1 fl r.track.waypoints)

  finisher-Entry :
      (r : Race fl) (pid : ℕ) (p : PlayerState fl) (now : ℕ)
      → AtLine (len_or_1 fl r.track.waypoints) r.max_laps pid p
      → leb r.max_laps (p.lap + 1) ≡ true
      → Entry
          (record r { finished_order = r.finished_order ++ p.player_id ∷ [] })
          pid
          (finisher r p now)
  finisher-Entry r pid p now h last = ground (
    arith,
    length-len_or_1 fl r.track.waypoints,
    get_elem?-append_last r.finished_order p.player_id,
  )

  complete_lap-Inv :
      (r : Race fl) (pid : ℕ) (p : PlayerState fl) (tick now : ℕ) {q : PlayerState fl}
      → Inv r
      → lookup pid r.players ≡ some q
      → AtLine (len_or_1 fl r.track.waypoints) r.max_laps pid p
      → Inv (complete_lap fl r pid p tick now)
  unfolding complete_lap
  complete_lap-Inv r pid p tick now v e h =
      if-elim Inv (leb r.max_laps (p.lap + 1))
        (λ last. record {
          laps = v.laps;
          capped = rw (length-insert pid (finisher r p now) r.players, e) v.capped;
          entries =
              Every-insert
                (Entry (record r { finished_order = r.finished_order ++ p.player_id ∷ [] })) pid
                (finisher r p now) r.players (finisher-Entry r pid p now h last)
                (Every-map (λ k w. InStep-grow r.finished_order p.player_id k w) r.players
                  v.entries);
        })
        (λ more.
          put_player-Inv fl _ pid (lapper p now) (emit-Inv fl r _ v) e
            (lapper-Entry r pid p now h more))

  pub len_or_1-length :
      (ws : List (Waypoint fl)) (i : ℕ) {w : Waypoint fl}
      → get_elem? ws i ≡ some w
      → len_or_1 fl ws ≡ length ws
  unfolding len_or_1
  len_or_1-length [] i e = cc
  len_or_1-length (w ∷ ws) i e = refl

  -- A player that is still racing.
  pub record Racer (r : Race fl) (pid : ℕ) (p : PlayerState fl) : Type 0 where
    pub entry : Entry r pid p
    pub going : p.is_finished ≡ false

  -- The player with its checkpoint pointers past checkpoint `idx`.
  abbrev passer : Race fl → PlayerState fl → ℕ → PlayerState fl
  passer r p idx = record p {
    last_checkpoint = idx;
    next_checkpoint = (idx + 1) % length r.track.waypoints;
  }

  module _ (r : Race fl) (pid : ℕ) (p : PlayerState fl) (idx : ℕ) (h : Racer r pid p)
      (l : len_or_1 fl r.track.waypoints ≡ length r.track.waypoints) where
    passer-AtLine :
        (idx == 0 && ltb 0 p.lap) ≡ true
        → AtLine (len_or_1 fl r.track.waypoints) r.max_laps pid (passer r p idx)
    passer-AtLine c = ground arith

    first_lap-Entry :
        (idx == 0 && p.lap == 0) ≡ true → Entry r pid (record (passer r p idx) { lap = 1 })
    first_lap-Entry c = ground (arith, length-len_or_1 fl r.track.waypoints)

    passer-Entry : Entry r pid (passer r p idx)
    passer-Entry = ground (arith, length-len_or_1 fl r.track.waypoints)

  pass_checkpoint-Inv :
      (r : Race fl) (pid : ℕ) (p : PlayerState fl) (idx tick now : ℕ) {q : PlayerState fl}
      → Inv r
      → lookup pid r.players ≡ some q
      → Racer r pid p
      → len_or_1 fl r.track.waypoints ≡ length r.track.waypoints
      → Inv (pass_checkpoint fl r pid p idx tick now)
  unfolding pass_checkpoint
  pass_checkpoint-Inv r pid p idx tick now v e h l =
      if-elim Inv (idx == 0 && ltb 0 p.lap)
        (λ c.
          complete_lap-Inv _ pid _ tick now (emit-Inv fl r _ v) e (passer-AtLine r pid p idx h l c))
        (λ _.
          if-elim Inv (idx == 0 && p.lap == 0)
            (λ d.
              put_player-Inv fl _ pid _ (emit-Inv fl r _ v) e (first_lap-Entry r pid p idx h l d))
            (λ _. put_player-Inv fl _ pid _ (emit-Inv fl r _ v) e (passer-Entry r pid p idx h l)))

  -- The entry of a player that a step has moved.
  pub moved-Racer :
      (r : Race fl) (pid fuel : ℕ) (p q : PlayerState fl) (spec : CarSpec fl) (dt : fl.F64)
      → Entry r pid p
      → p.is_finished ≡ false
      → step fl fuel p p.last_input spec dt ≡ some q
      → Racer r pid q
  moved-Racer r pid fuel p q spec dt h going e =
      let same = step-frame fuel p p.last_input spec dt e in
      record { entry = rw same (frame-Entry h); going = rw same going }
    where
      frame-Entry :
          {v d : fl.F64} {x : Vec3 fl}
          → Entry r pid p
          → Entry r pid (record p { velocity = v; heading = d; position = x })
      frame-Entry h = ground arith

  detect-Inv :
      (r : Race fl) (pid : ℕ) (p : PlayerState fl) (tick now : ℕ) {q : PlayerState fl}
      → Inv r
      → lookup pid r.players ≡ some q
      → Racer r pid p
      → Inv (detect fl r pid p tick now)
  unfolding detect
  detect-Inv r pid p tick now v e h =
      elim (Option-cases
        (get_elem? r.track.waypoints (p.next_checkpoint % length r.track.waypoints))) [
          | inl off ↦ rw (off, detect) (put_player-Inv fl r pid p v e h.entry)
          | inr (wp, on) ↦
              rw (on, detect)
                (if-elim Inv (is_hit fl p wp)
                  (λ _.
                    pass_checkpoint-Inv r pid p (p.next_checkpoint % length r.track.waypoints) tick
                      now v e h (len_or_1-length r.track.waypoints _ on))
                  (λ _. put_player-Inv fl r pid p v e h.entry))
        ]

  pub advance_player-Inv :
      (fuel : ℕ) (r : Race fl) (dt : fl.F64) (tick now pid : ℕ)
      → Inv r
      → OnSome Inv (advance_player fl fuel r dt tick now pid)
  advance_player-Inv fuel r dt tick now pid v =
      advance_player_cases fl (OnSome Inv) fuel r dt tick now pid v (λ _ _ _ _. tt)
        λ p q e going s. detect-Inv r pid q tick now v e (
          moved-Racer r pid fuel p q (spec_of fl r p) dt
            (Every-lookup (Entry r) pid r.players v.entries e) going s)

  pub advance_tick-OnSome :
      (fuel : ℕ) (order : List Uuid) (clock : Uuid → Time) (r : Race fl) (dt : fl.F64) (tick : ℕ)
      → Inv r
      → OnSome Inv (advance_tick fl fuel order clock r dt tick)
  unfolding advance_tick
  advance_tick-OnSome fuel [] clock r dt tick v = v
  advance_tick-OnSome fuel (pid ∷ order) clock r dt tick v =
      OnSome-bind Inv Inv (advance_player fl fuel r dt tick (clock pid) pid) _
        (advance_player-Inv fuel r dt tick (clock pid) pid v)
        (λ r' v'. advance_tick-OnSome fuel order clock r' dt tick v')

  -- A tick that returns keeps the invariant, in whatever order it visits the players.
  pub advance_tick-Inv :
      (fuel : ℕ) (order : List Uuid) (clock : Uuid → Time) (r : Race fl) (dt : fl.F64) (tick : ℕ)
      {r' : Race fl}
      → Inv r
      → advance_tick fl fuel order clock r dt tick ≡ some r'
      → Inv r'
  advance_tick-Inv fuel order clock r dt tick v e =
      OnSome-some Inv _ (advance_tick-OnSome fuel order clock r dt tick v) e
