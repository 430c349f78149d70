-- ===== src/Race/Invariant.antt =====
-- What holds of a race between two operations: the roster fits, and the finish positions and the
-- laps of its players are in step with the finish order and the track.
pub mod Ticks
use car_video_game_backend.Base.{
  ℕ, zero, suc, ◌+◌, ◌-◌, ◌%◌, ◌≤◌, ◌<◌, max, ◌≡◌, ◌≢◌, refl, sym, inl, inr, List, [], ◌∷◌, ◌++◌,
  Option, none, some, some-injective, Bool, true, false, ◌&&◌, length, get_elem?, ltb, leb, ◌==◌,
  if◌then◌else◌, arith, Dict, lookup, insert, delete, Every, Every-lookup, Every-insert,
  Every-delete, Every-map, length-insert, length-delete, get_elem?-append_left,
  get_elem?-append_last, length-append, Option-cases, Bool-cases, if-elim, OnSome, OnSome-some,
}
use car_video_game_backend.Race.Floats.{Floats}
use car_video_game_backend.Race.Model.{
  Uuid, Time, Vec3, Event, CarSpec, PlayerState, InputMsg, PlayerInput, Waypoint, Track, Race,
}
use car_video_game_backend.Race.Physics.{step, OnSome-bind}
use car_video_game_backend.Race.Roster.{
  is_finished_status, millis_between, len_or_1, new_player, add_player, remove_player,
}
use car_video_game_backend.Race.Tick.{
  best_lap, put_player, emit, apply_input_locked, complete_lap, pass_checkpoint, is_hit, detect,
  spec_of, advance_player, advance_tick, advance_player_cases,
}

-- A race of `max_laps` laps ends for a player at this lap count.
abbrev pub last_lap : ℕ → ℕ
last_lap max_laps = max 2 max_laps

-- The entry of a player at a key, on a track of `n` checkpoints, with the finish order so far.
pub record InStep {fl : Floats} (n max_laps : ℕ) (order : List Uuid) (pid : ℕ) (p : PlayerState fl)
    : Type 0 where
  pub named : p.player_id ≡ pid
  pub on_track : p.next_checkpoint < n
  pub racing : p.is_finished ≡ false → p.lap < last_lap max_laps
  pub final_lap : p.is_finished ≡ true → p.lap ≡ last_lap max_laps
  pub at_line : p.is_finished ≡ true → p.next_checkpoint ≡ 1 % n
  pub placed : p.is_finished ≡ true → 1 ≤ p.finish_pos
  pub ranked : p.is_finished ≡ true → get_elem? order (p.finish_pos - 1) ≡ some pid

pub record Inv {fl : Floats} (r : Race fl) : Type 0 where
  pub laps : 1 ≤ r.max_laps
  pub capped : length r.players ≤ r.max_players
  pub entries :
      Every
        (λ pid p. InStep (len_or_1 fl r.track.waypoints) r.max_laps r.finished_order pid p)
        r.players

abbrev pub Entry : {fl : Floats} → Race fl → ℕ → PlayerState fl → Type 0
Entry {fl} r = InStep (len_or_1 fl r.track.waypoints) r.max_laps r.finished_order

module _ (fl : Floats) where
  pub length-len_or_1 : (ws : List (Waypoint fl)) → 0 < len_or_1 fl ws
  unfolding len_or_1
  length-len_or_1 [] = omega arith
  length-len_or_1 (w ∷ ws) = omega arith

  -- What a claim about the race after AddPlayer needs: it may have changed nothing, or, in a race
  -- that is neither finished nor full, have added a player that was not there.
  pub add_player_cases {ℓ} :
      (P : Race fl → Type ℓ) (r : Race fl) (pid : Uuid) (spec : CarSpec fl)
      (started lap_started : Time)
      → P r
      → (length r.players < r.max_players
          → lookup pid r.players ≡ none
          → P (record r {
            players = insert pid (new_player fl r pid started lap_started) r.players;
            specs = insert pid spec r.specs;
          }))
      → P (add_player fl r pid spec started lap_started).0
  unfolding add_player
  add_player_cases P r pid spec started lap_started same added =
      elim (Bool-cases (is_finished_status r.status)) [
        | inl over ↦ rw (over, add_player) same
        | inr live ↦ elim (Bool-cases (leb r.max_players (length r.players))) [
          | inl full ↦ rw (live, full, add_player) same
          | inr room ↦ elim (Option-cases (lookup pid r.players)) [
            | inl e ↦ rw (live, room, e, add_player) (added (ground arith) e)
            | inr (q, e) ↦ rw (live, room, e, add_player) same
          ]
        ]
      ]

  new_player-Entry :
      (r : Race fl) (pid : ℕ) (started lap_started : Time)
      → Entry r pid (new_player fl r pid started lap_started)
  unfolding new_player
  new_player-Entry r pid started lap_started = ground (arith, length-len_or_1 r.track.waypoints)

  -- Writing over the entry of a player that is there.
  pub put_player-Inv :
      (r : Race fl) (pid : ℕ) (p : PlayerState fl) {q : PlayerState fl}
      → Inv r
      → lookup pid r.players ≡ some q
      → Entry r pid p
      → Inv (put_player fl r pid p)
  put_player-Inv r pid p v e g = record {
    laps = v.laps;
    capped = rw (length-insert pid p r.players, e) v.capped;
    entries = Every-insert (Entry r) pid p r.players g v.entries;
  }

  pub emit-Inv : (r : Race fl) (ev : Event) → Inv r → Inv (emit fl r ev)
  emit-Inv r ev v = record { laps = v.laps; capped = v.capped; entries = v.entries }

  pub add_player-Inv :
      (r : Race fl) (pid : Uuid) (spec : CarSpec fl) (started lap_started : Time)
      → Inv r
      → Inv (add_player fl r pid spec started lap_started).0
  add_player-Inv r pid spec started lap_started v =
      add_player_cases Inv r pid spec started lap_started v λ room e. record {
        laps = v.laps;
        capped =
            rw (length-insert pid (new_player fl r pid started lap_started) r.players, e)
              (omega arith);
        entries =
            Every-insert (Entry r) pid (new_player fl r pid started lap_started) r.players
              (new_player-Entry r pid started lap_started) v.entries;
      }

  pub remove_player-Inv : (r : Race fl) (pid : Uuid) → Inv r → Inv (remove_player fl r pid)
  unfolding remove_player
  remove_player-Inv r pid v = record {
    laps = v.laps;
    capped = omega (arith, length-delete pid r.players, v.capped);
    entries = Every-delete (Entry r) pid r.players v.entries;
  }

  with_input :
      {n max_laps : ℕ} {order : List Uuid} {pid : ℕ} (m : InputMsg fl) (p : PlayerState fl)
      → InStep n max_laps order pid p
      → InStep n max_laps order pid
          (record p { last_input = m.input; last_input_tick = m.sequence })
  with_input m p h = ground arith

  pub apply_input_locked-Inv :
      (r : Race fl) (m : InputMsg fl) → Inv r → Inv (apply_input_locked fl r m)
  unfolding apply_input_locked
  apply_input_locked-Inv r m v = elim (Option-cases (lookup m.player_id r.players)) [
    | inl e ↦ rw (e, apply_input_locked) v
    | inr (p, e) ↦
        rw (e, apply_input_locked)
          (if-elim Inv p.is_finished (λ _. v)
            (λ _.
              put_player-Inv r m.player_id
                (record p { last_input = m.input; last_input_tick = m.sequence }) v e
                (with_input m p (Every-lookup (Entry r) m.player_id r.players v.entries e))))
  ]
