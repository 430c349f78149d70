-- ===== src/Race/Tick.antt =====
-- internal/race/manager.go: one tick of a race under its lock (applyInputLocked,
-- advanceTickLocked, allPlayersFinished). A `range` over the players visits them in an order that
-- the runtime chooses: here a list of keys.
use car_video_game_backend.Base.{
  ℕ, zero, ◌+◌, ◌%◌, ℤ, pos, ltb_ℤ, List, [], ◌∷◌, ◌++◌, Option, none, some, Bool, true, false,
  ◌&&◌, ◌||◌, length, get_elem?, ltb, leb, ◌==◌, if◌then◌else◌, Dict, lookup, insert, ◌≡◌,
  Option-cases, inl, inr, if-elim,
}
use car_video_game_backend.Race.Floats.{Floats}
use car_video_game_backend.Race.Model.{
  Uuid, Time, Waypoint, CarSpec, PlayerState, InputMsg, Event, checkpoint_passed, lap_completed,
  Race,
}
use car_video_game_backend.Race.Physics.{default_spec, step, ◌>>=◌}
use car_video_game_backend.Race.Roster.{millis_between}

abbrev is_zero_ℤ : ℤ → Bool
is_zero_ℤ (pos zero) = true
is_zero_ℤ _ = false

-- p.BestLapMs after a lap of `lap_ms`
unfoldable pub best_lap : ℤ → ℤ → ℤ
best_lap best lap_ms = if is_zero_ℤ best || ltb_ℤ lap_ms best then lap_ms else best

module _ (fl : Floats) where
  abbrev pub put_player : Race fl → Uuid → PlayerState fl → Race fl
  put_player r pid p = record r { players = insert pid p r.players }

  abbrev pub emit : Race fl → Event → Race fl
  emit r e = record r { events = r.events ++ e ∷ [] }

  unfoldable pub apply_input_locked : Race fl → InputMsg fl → Race fl
  apply_input_locked r m = elim (lookup m.player_id r.players) [
    | none ↦ r
    | some p ↦
        if p.is_finished
        then r
        else put_player r m.player_id
            (record p { last_input = m.input; last_input_tick = m.sequence })
  ]

  -- The lap that a crossing of the start line closes, and the finish if it was the last.
  unfoldable pub complete_lap : Race fl → Uuid → PlayerState fl → (tick now : ℕ) → Race fl
  unfolding best_lap
  complete_lap r pid p tick now =
      let lap_ms = millis_between now p.lap_started_at in
      let lapped = record p {
        best_lap_ms = best_lap p.best_lap_ms lap_ms;
        lap = p.lap + 1;
        lap_started_at = now;
      } in
      let told = emit r (lap_completed p.player_id (p.lap + 1) lap_ms tick) in
      if leb r.max_laps (p.lap + 1)
      then put_player (record told { finished_order = r.finished_order ++ p.player_id ∷ [] }) pid
          (record lapped {
            is_finished = true;
            finish_time = now;
            finish_pos = length r.finished_order + 1;
          })
      else put_player told pid lapped

  -- What follows a hit of the checkpoint `idx`.
  unfoldable pub pass_checkpoint : Race fl → Uuid → PlayerState fl → (idx tick now : ℕ) → Race fl
  unfolding complete_lap
  pass_checkpoint r pid p idx tick now =
      let passed = record p {
        last_checkpoint = idx;
        next_checkpoint = (idx + 1) % length r.track.waypoints;
      } in
      let told = emit r (checkpoint_passed p.player_id idx tick) in
      if idx == 0 && ltb 0 p.lap
      then complete_lap told pid passed tick now
      else if idx == 0 && p.lap == 0
      then put_player told pid (record passed { lap = 1 })
      else put_player told pid passed

  -- math.Hypot(dx, dz) < cpRadius
  unfoldable pub is_hit : PlayerState fl → Waypoint fl → Bool
  is_hit p wp =
      fl.lt
        (fl.hypot (fl.sub (fl.widen p.position.x) (fl.widen wp.x))
          (fl.sub (fl.widen p.position.z) (fl.widen wp.z)))
        (fl.constant 8 1)

  -- The checkpoint detection for a player that has just moved. The index is below the length, so
  -- the lookup finds a waypoint.
  unfoldable pub detect : Race fl → Uuid → PlayerState fl → (tick now : ℕ) → Race fl
  unfolding pass_checkpoint
  detect r pid p tick now =
      let idx = p.next_checkpoint % length r.track.waypoints in
      elim (get_elem? r.track.waypoints idx) [
        | none ↦ put_player r pid p
        | some wp ↦ if is_hit p wp then pass_checkpoint r pid p idx tick now else put_player r pid p
      ]

  unfoldable pub spec_of : Race fl → PlayerState fl → CarSpec fl
  spec_of r p = elim (lookup p.player_id r.specs) [ none ↦ default_spec fl | some spec ↦ spec ]

  -- The body of the loop of advanceTickLocked, for the player at one key.
  unfoldable pub advance_player :
      ℕ → Race fl → (dt : fl.F64) (tick : ℕ) (now : Time) (pid : Uuid) → Option (Race fl)
  unfolding detect
  advance_player fuel r dt tick now pid = elim (lookup pid r.players) [
    | none ↦ some r
    | some p ↦ if p.is_finished then some r else do
      moved ← step fl fuel p p.last_input (spec_of r p) dt
      some (detect r pid moved tick now)
  ]

  -- A claim about what becomes of the race at one player's turn: nothing, if it is not there or has
  -- finished; no return, if the step does not; else the detection for the moved player.
  pub advance_player_cases {ℓ} :
      (P : Option (Race fl) → Type ℓ) (fuel : ℕ) (r : Race fl) (dt : fl.F64) (tick now pid : ℕ)
      → P (some r)
      → ((p : PlayerState fl)
          → lookup pid r.players ≡ some p
          → p.is_finished ≡ false
          → step fl fuel p p.last_input (spec_of r p) dt ≡ none
          → P none)
      → ((p q : PlayerState fl)
          → lookup pid r.players ≡ some p
          → p.is_finished ≡ false
          → step fl fuel p p.last_input (spec_of r p) dt ≡ some q
          → P (some (detect r pid q tick now)))
      → P (advance_player fuel r dt tick now pid)
  unfolding advance_player
  advance_player_cases P fuel r dt tick now pid still hung moved =
      elim (Option-cases (lookup pid r.players)) [
        | inl e ↦ rw (e, advance_player) still
        | inr (p, e) ↦
            rw (e, advance_player)
              (if-elim P p.is_finished (λ _. still)
                (λ going. elim (Option-cases (step fl fuel p p.last_input (spec_of r p) dt)) [
                  | inl s ↦ rw s (hung p e going s)
                  | inr (q, s) ↦ rw s (moved p q e going s)
                ]))
      ]

  -- advanceTickLocked; `clock` is the reading of time.Now() at each player's turn.
  unfoldable pub advance_tick :
      ℕ → List Uuid → (clock : Uuid → Time) → Race fl → fl.F64 → ℕ → Option (Race fl)
  unfolding advance_player
  advance_tick fuel [] clock r dt tick = some r
  advance_tick fuel (pid ∷ order) clock r dt tick = do
    r' ← advance_player fuel r dt tick (clock pid) pid
    advance_tick fuel order clock r' dt tick

  abbrev all_finished : Dict (PlayerState fl) → Bool
  all_finished [] = true
  all_finished ((pid, p) ∷ rest) = p.is_finished && all_finished rest

  unfoldable pub all_players_finished : Race fl → Bool
  all_players_finished r = if length r.players == 0 then false else all_finished r.players
