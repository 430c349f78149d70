-- ===== src/Race/Laps/Turns.antt =====
-- One player's turn in a tick, and a whole tick, as trips: advanceTickLocked of
-- internal/race/manager.go.
use native.Mathlib.Decide.{ℕ_discrete}
use native.Mathlib.Nat.{mod-eq_of_lt}
use car_video_game_backend.Base.{
  ℕ, ◌+◌, ◌%◌, ◌≡◌, ◌≢◌, refl, sym, ◌∙◌, ap, subst, inl, inr, List, [], ◌∷◌, ◌++◌, append-nil,
  append_assoc, some, ◌&&◌, length, get_elem?, leb, ltb, ◌==◌, if◌then◌else◌, if-elim, arith,
  Option-cases, OnSome, OnSome-map, OnSome-both, lookup, insert, lookup-insert, Every-lookup,
}
use car_video_game_backend.Race.Floats.{Floats}
use car_video_game_backend.Race.Model.{
  Uuid, Time, Track, PlayerState, InputMsg, Event, checkpoint_passed, lap_completed, Race,
}
use car_video_game_backend.Race.Physics.{OnSome-bind}
use car_video_game_backend.Race.Roster.{len_or_1, millis_between}
use car_video_game_backend.Race.Tick.{
  put_player, apply_input_locked, complete_lap, pass_checkpoint, is_hit, detect, spec_of,
  advance_player, advance_player_cases, advance_tick,
}
use car_video_game_backend.Race.Invariant.{Inv, Entry}
use car_video_game_backend.Race.Invariant.Ticks.{
  Racer, len_or_1-length, moved-Racer, step-frame, advance_player-Inv,
}
use car_video_game_backend.Race.Frame.{Reframed, advance_player-Reframed}
use car_video_game_backend.Race.Laps.{
  count_passes, passes, passes_next, Trip, Trip-refl, Trip-trans,
}

module _ (fl : Floats) where
  -- What one player's turn does to it and to the events.
  record Turn (r r' : Race fl) (pid : ℕ) (p : PlayerState fl) : Type 0 where
    player : PlayerState fl
    fresh : List Event
    stored : r'.players ≡ insert pid player r.players
    told : r'.events ≡ r.events ++ fresh
    counted :
        passes (len_or_1 fl r.track.waypoints) player
        ≡ passes (len_or_1 fl r.track.waypoints) p + count_passes pid fresh
    others : (j : ℕ) → j ≢ pid → count_passes j fresh ≡ 0

  module _ (r : Race fl) (pid : ℕ) (p : PlayerState fl) (tick now : ℕ) (h : Racer fl r pid p)
      (l : len_or_1 fl r.track.waypoints ≡ length r.track.waypoints) where
    past_idx-passes :
        (idx : ℕ) (q : PlayerState fl)
        → idx ≡ p.next_checkpoint
        → q.next_checkpoint ≡ (idx + 1) % length r.track.waypoints
        → q.lap ≡ (if idx == 0 then p.lap + 1 else p.lap)
        → passes (len_or_1 fl r.track.waypoints) q ≡ passes (len_or_1 fl r.track.waypoints) p + 1
    past_idx-passes idx q e f g =
        passes_next (len_or_1 fl r.track.waypoints) p.next_checkpoint p.lap q.lap q.next_checkpoint
          h.entry.on_track (rw (l, ← e) f) (rw (← e) g)

    -- A turn that passes checkpoint `idx` and leaves the player as `q`.
    passed-Turn :
        (idx : ℕ) (q : PlayerState fl) (more : List Event) (r' : Race fl)
        → idx ≡ p.next_checkpoint
        → q.next_checkpoint ≡ (idx + 1) % length r.track.waypoints
        → q.lap ≡ (if idx == 0 then p.lap + 1 else p.lap)
        → r'.players ≡ insert pid q r.players
        → r'.events ≡ r.events ++ checkpoint_passed p.player_id idx tick ∷ more
        → ((j : ℕ) → count_passes j more ≡ 0)
        → Turn r r' pid p
    passed-Turn idx q more r' e f g stored told none_more = record {
      player = q;
      fresh = checkpoint_passed p.player_id idx tick ∷ more;
      stored = stored;
      told = told;
      counted = ground (arith, past_idx-passes idx q e f g, none_more pid, h.entry.named);
      others = λ j ne. ground (arith, none_more j, h.entry.named, ne);
    }

    pass_checkpoint-Turn :
        (idx : ℕ) → idx ≡ p.next_checkpoint → Turn r (pass_checkpoint fl r pid p idx tick now) pid p
    unfolding pass_checkpoint complete_lap
    pass_checkpoint-Turn idx e =
        if-elim (λ (x : Race fl). Turn r x pid p) (idx == 0 && ltb 0 p.lap)
          (λ c.
            if-elim (λ (x : Race fl). Turn r x pid p) (leb r.max_laps (p.lap + 1))
              (λ _.
                passed-Turn idx _ (lap_event ∷ []) _ e refl (ground arith) refl
                  (append_assoc r.events _ _) (λ _. refl))
              (λ _.
                passed-Turn idx _ (lap_event ∷ []) _ e refl (ground arith) refl
                  (append_assoc r.events _ _) (λ _. refl)))
          (λ c.
            if-elim (λ (x : Race fl). Turn r x pid p) (idx == 0 && p.lap == 0)
              (λ d. passed-Turn idx _ [] _ e refl (ground arith) refl refl (λ _. refl))
              (λ d. passed-Turn idx _ [] _ e refl (ground arith) refl refl (λ _. refl)))
      where
        lap_event : Event
        lap_event = lap_completed p.player_id (p.lap + 1) (millis_between now p.lap_started_at) tick

  -- A turn as it looks for the player at key `j`.
  Turn-Trip :
      (r r' : Race fl) (pid j : ℕ) (q p : PlayerState fl)
      → Turn r r' pid q
      → lookup j r.players ≡ some p
      → (j ≡ pid
          → passes (len_or_1 fl r.track.waypoints) q ≡ passes (len_or_1 fl r.track.waypoints) p)
      → Trip fl (len_or_1 fl r.track.waypoints) j r r' p
  Turn-Trip r r' pid j q p t e same = elim (ℕ_discrete pid j) [
    | yes h ↦ record {
      player = t.player;
      fresh = t.fresh;
      found = rw (t.stored, lookup-insert pid j t.player r.players) (ground arith);
      told = t.told;
      counted = ground (arith, t.counted, same (sym h));
    }
    | no h ↦ record {
      player = p;
      fresh = t.fresh;
      found = rw (t.stored, lookup-insert pid j t.player r.players) (ground (arith, e));
      told = t.told;
      counted = ground (arith, t.others j (λ k. h (sym k)));
    }
  ]

  detect-Turn :
      (r : Race fl) (pid : ℕ) (p : PlayerState fl) (tick now : ℕ)
      → Racer fl r pid p
      → Turn r (detect fl r pid p tick now) pid p
  unfolding detect
  detect-Turn r pid p tick now h =
      elim (Option-cases
        (get_elem? r.track.waypoints (p.next_checkpoint % length r.track.waypoints))) [
          | inl off ↦ rw (off, detect) missed
          | inr (wp, on) ↦
              rw (on, detect)
                (let l = len_or_1-length fl r.track.waypoints _ on in
                  if-elim (λ (x : Race fl). Turn r x pid p) (is_hit fl p wp)
                    (λ _.
                      pass_checkpoint-Turn r pid p tick now h l
                        (p.next_checkpoint % length r.track.waypoints)
                        (mod-eq_of_lt (rw l at h.entry.on_track)))
                    (λ _. missed))
        ]
    where
      missed : Turn r (put_player fl r pid p) pid p
      missed = record {
        player = p;
        fresh = [];
        stored = refl;
        told = sym (append-nil r.events);
        counted = omega arith;
        others = λ j ne. refl;
      }

  advance_player-Trip :
      (fuel : ℕ) (r : Race fl) (dt : fl.F64) (tick now pid j : ℕ) (p : PlayerState fl)
      → Inv r
      → lookup j r.players ≡ some p
      → OnSome
          (λ r'. Trip fl (len_or_1 fl r.track.waypoints) j r r' p)
          (advance_player fl fuel r dt tick now pid)
  advance_player-Trip fuel r dt tick now pid j p v e =
      advance_player_cases fl (OnSome (λ r'. Trip fl (len_or_1 fl r.track.waypoints) j r r' p)) fuel
        r dt tick now pid (Trip-refl fl _ j r p e) (λ _ _ _ _. tt)
        λ w q f going s.
          Turn-Trip r _ pid j q p
            (detect-Turn r pid q tick now (
              moved-Racer fl r pid fuel w q (spec_of fl r w) dt
                (Every-lookup (Entry r) pid r.players v.entries f) going s))
            e (λ h. rw (step-frame fl fuel w w.last_input (spec_of fl r w) dt s) (ground arith))

  pub advance_tick-Trip :
      (fuel : ℕ) (order : List Uuid) (clock : Uuid → Time) (r : Race fl) (dt : fl.F64)
      (tick n j : ℕ) (p : PlayerState fl)
      → n ≡ len_or_1 fl r.track.waypoints
      → Inv r
      → lookup j r.players ≡ some p
      → OnSome (λ r'. Trip fl n j r r' p) (advance_tick fl fuel order clock r dt tick)
  unfolding advance_tick
  advance_tick-Trip fuel [] clock r dt tick n j p l v e = Trip-refl fl n j r p e
  advance_tick-Trip fuel (pid ∷ order) clock r dt tick n j p l v e =
      OnSome-bind
        (λ r'. Inv r' × (Reframed fl r r' × Trip fl (len_or_1 fl r.track.waypoints) j r r' p))
        (λ r'. Trip fl n j r r' p) (advance_player fl fuel r dt tick (clock pid) pid) _
        (OnSome-both Inv (λ r'. Reframed fl r r' × Trip fl (len_or_1 fl r.track.waypoints) j r r' p)
          _ (advance_player-Inv fl fuel r dt tick (clock pid) pid v)
          (OnSome-both (Reframed fl r) (λ r'. Trip fl (len_or_1 fl r.track.waypoints) j r r' p) _
            (advance_player-Reframed fl fuel r dt tick (clock pid) pid)
            (advance_player-Trip fuel r dt tick (clock pid) pid j p v e)))
        (λ r' h.
          let first : Trip fl n j r r' p = subst (λ k. Trip fl k j r r' p) (sym l) h.1.1 in
          let track : r'.track ≡ r.track = ap (λ (x : Race fl). x.track) h.1.0 in
          OnSome-map (λ t. Trip fl n j r' t first.player) (λ t. Trip fl n j r t p)
            (advance_tick fl fuel order clock r' dt tick) (λ t k. Trip-trans fl first k)
            (advance_tick-Trip fuel order clock r' dt tick n j (first.player)
              (l ∙ ap (λ (x : Track fl). len_or_1 fl x.waypoints) (sym track)) h.0 first.found))

  pub apply_input_locked-Trip :
      (j : ℕ) (r : Race fl) (m : InputMsg fl) (p : PlayerState fl)
      → lookup j r.players ≡ some p
      → Trip fl (len_or_1 fl r.track.waypoints) j r (apply_input_locked fl r m) p
  unfolding apply_input_locked
  apply_input_locked-Trip j r m p e = elim (Option-cases (lookup m.player_id r.players)) [
    | inl f ↦ rw (f, apply_input_locked) (Trip-refl fl _ j r p e)
    | inr (w, f) ↦
        rw (f, apply_input_locked)
          (if-elim (λ (x : Race fl). Trip fl (len_or_1 fl r.track.waypoints) j r x p) w.is_finished
            (λ _. Trip-refl fl _ j r p e)
            (λ _.
              Turn-Trip r _ m.player_id j w p
                (record {
                  player = record w { last_input = m.input; last_input_tick = m.sequence };
                  fresh = [];
                  stored = refl;
                  told = sym (append-nil r.events);
                  counted = omega arith;
                  others = λ k ne. refl;
                })
                e (λ h. ground arith)))
  ]
