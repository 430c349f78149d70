-- ===== src/Race/Laps.antt =====
-- The laps of a player against the checkpoints that it has passed.
pub mod Turns
use native.Mathlib.Decide.{dec_lt, ℕ_discrete}
use native.Mathlib.Nat.{mod_self, mod-eq_of_lt}
use car_video_game_backend.Base.{
  ℕ, zero, suc, ◌+◌, ◌-◌, ◌*◌, ◌%◌, ◌<◌, ◌≤◌, ◌≡◌, ◌≢◌, ◌⊎◌, refl, sym, ◌∙◌, ap, subst, inl, inr,
  List, [], ◌∷◌, ◌++◌, append-nil, append_assoc, Option, none, some, some-injective, Bool, true,
  false, ◌&&◌, length, get_elem?, leb, ltb, ◌==◌, if◌then◌else◌, if-elim, arith, Option-cases,
  OnSome, OnSome-some, OnSome-map, OnSome-both, lookup, insert, lookup-insert, Every-lookup,
}
use car_video_game_backend.Race.Floats.{Floats}
use car_video_game_backend.Race.Model.{
  Uuid, Time, Track, PlayerState, InputMsg, Event, checkpoint_passed, lap_completed, Race,
}
use car_video_game_backend.Race.Physics.{step, OnSome-bind}
use car_video_game_backend.Race.Roster.{len_or_1, millis_between}
use car_video_game_backend.Race.Tick.{
  put_player, emit, apply_input_locked, complete_lap, pass_checkpoint, is_hit, detect, spec_of,
  advance_player, advance_player_cases, advance_tick,
}
use car_video_game_backend.Race.Invariant.{Inv, InStep, Entry, last_lap, length-len_or_1}
use car_video_game_backend.Race.Invariant.Ticks.{
  Racer, len_or_1-length, moved-Racer, step-frame, advance_tick-OnSome, advance_player-Inv,
}
use car_video_game_backend.Race.Frame.{Reframed, advance_player-Reframed}

-- How many of the events are passed checkpoints of the player.
abbrev pub count_passes : ℕ → List Event → ℕ
count_passes j [] = 0
count_passes j (checkpoint_passed i index tick ∷ es) =
    let rest = count_passes j es in if i == j then suc rest else rest
count_passes j (_ ∷ es) = count_passes j es

count_passes-append :
    (j : ℕ) (es fs : List Event) → count_passes j (es ++ fs) ≡ count_passes j es + count_passes j fs
count_passes-append j [] fs = omega arith
count_passes-append j (checkpoint_passed i index tick ∷ es) fs =
    ground (arith, count_passes-append j es fs)
count_passes-append j (_ ∷ es) fs = count_passes-append j es fs

next_index :
    (i n : ℕ) → i < n → ((i + 1 ≡ n) × ((i + 1) % n ≡ 0)) ⊎ ((i + 1 < n) × ((i + 1) % n ≡ i + 1))
next_index i n h = elim (dec_lt (i + 1) n) [
  | yes more ↦ inr (more, mod-eq_of_lt more)
  | no last ↦ let e : i + 1 ≡ n = omega arith in inl (e, rw e (mod_self n))
]

-- The count of checkpoints goes up by one from index `i` to the next.
pub passes_next :
    (n i lap lap' next' : ℕ)
    → i < n
    → next' ≡ (i + 1) % n
    → lap' ≡ (if i == 0 then lap + 1 else lap)
    → lap' * n + (if next' == 0 then n - 1 else next' - 1)
      ≡ lap * n + (if i == 0 then n - 1 else i - 1) + 1
passes_next n zero lap lap' next' h e f =
    let counted : lap' * n ≡ lap * n + n = rw f (omega arith) in
    ground (arith, next_index 0 n h, counted)
passes_next n (suc i) lap lap' next' h e f = ground (arith, next_index (suc i) n h)

-- The checkpoints that a player has passed, on a track of `n`: those of its full laps, and those
-- before the next one.
abbrev pub passes : {fl : Floats} → ℕ → PlayerState fl → ℕ
passes n p = p.lap * n + (if p.next_checkpoint == 0 then n - 1 else p.next_checkpoint - 1)

module _ (fl : Floats) where
  -- Where a player is at the end of some turns, and what events they added.
  pub record Trip (n j : ℕ) (r r' : Race fl) (p : PlayerState fl) : Type 0 where
    pub player : PlayerState fl
    pub fresh : List Event
    pub found : lookup j r'.players ≡ some player
    pub told : r'.events ≡ r.events ++ fresh
    pub counted : passes n player ≡ passes n p + count_passes j fresh

  pub Trip-refl :
      (n j : ℕ) (r : Race fl) (p : PlayerState fl) → lookup j r.players ≡ some p → Trip n j r r p
  Trip-refl n j r p e = record {
    player = p;
    fresh = [];
    found = e;
    told = sym (append-nil r.events);
    counted = omega arith;
  }

  pub Trip-trans :
      {n j : ℕ} {r s t : Race fl} {p : PlayerState fl} (a : Trip n j r s p)
      → Trip n j s t a.player
      → Trip n j r t p
  Trip-trans {n} {j} {r} a b = record {
    player = b.player;
    fresh = a.fresh ++ b.fresh;
    found = b.found;
    told = b.told ∙ (rw a.told (append_assoc r.events a.fresh b.fresh));
    counted = omega (arith, a.counted, b.counted, count_passes-append j a.fresh b.fresh);
  }
