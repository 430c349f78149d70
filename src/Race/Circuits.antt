-- ===== src/Race/Circuits.antt =====
-- How far a player has to drive before its race ends.
use native.Mathlib.Decide.{dec_lt}
use native.Mathlib.Nat.{mod_self, mod-eq_of_lt}
use car_video_game_backend.Base.{
  ℕ, zero, suc, ◌+◌, ◌*◌, ◌%◌, ◌<◌, ◌≤◌, max, ◌≡◌, ◌↔◌, refl, ◌∙◌, ap, subst, List, [], ◌∷◌, ◌++◌,
  Option, some, true, arith, OnSome, OnSome-some, OnSome-map, OnSome-both, lookup, Every-lookup,
  Bool-cases, inl, inr,
}
use car_video_game_backend.Race.Floats.{Floats}
use car_video_game_backend.Race.Model.{Uuid, Time, Track, PlayerState, InputMsg, Event, Race}
use car_video_game_backend.Race.Physics.{OnSome-bind, ◌>>=◌}
use car_video_game_backend.Race.Roster.{len_or_1}
use car_video_game_backend.Race.Tick.{apply_input_locked, advance_tick}
use car_video_game_backend.Race.Invariant.{
  Inv, InStep, Entry, last_lap, length-len_or_1, apply_input_locked-Inv,
}
use car_video_game_backend.Race.Invariant.Ticks.{advance_tick-OnSome}
use car_video_game_backend.Race.Frame.{
  Reframed, Reframed-trans, apply_input_locked-Reframed, advance_tick-Reframed,
}
use car_video_game_backend.Race.Laps.{count_passes, passes, Trip, Trip-refl, Trip-trans}
use car_video_game_backend.Race.Laps.Turns.{advance_tick-Trip, apply_input_locked-Trip}

-- What drives a race while it is in progress: an input that is taken up, or a tick.
pub data Drive (fl : Floats) : Type 0 where
  steers : InputMsg fl → Drive fl
  moves : (order : List Uuid) (clock : Uuid → Time) (dt : fl.F64) (tick : ℕ) → Drive fl

-- What the count `c` of passed checkpoints says of a player's lap and its finish.
abbrev FullLaps : {fl : Floats} → ℕ → ℕ → PlayerState fl → ℕ → Type 0
FullLaps n max_laps q c =
    (q.lap * n ≤ c) × (c < q.lap * n + n) × ((q.is_finished ≡ true) ↔ (c ≡ last_lap max_laps * n))

laps_mono : (a b n : ℕ) → a < b → a * n + n ≤ b * n
laps_mono zero (suc b) n h = omega arith
laps_mono (suc a) (suc b) n h = omega (arith, laps_mono a b n (omega arith))
laps_mono zero zero n h = absurd (omega arith)
laps_mono (suc a) zero n h = absurd (omega arith)

module _ {fl : Floats} {n : ℕ} (q : PlayerState fl) (h : 0 < n) where
  full_laps_low : q.next_checkpoint < n → q.lap * n ≤ passes n q
  full_laps_low on = ground arith

  full_laps_high : q.next_checkpoint < n → passes n q < q.lap * n + n
  full_laps_high on = ground arith

  line_passes : q.next_checkpoint ≡ 1 % n → passes n q ≡ q.lap * n
  line_passes at = elim (dec_lt 1 n) [
    | yes more ↦ let e : 1 % n ≡ 1 = mod-eq_of_lt more in ground (arith, at, e)
    | no one ↦
        let e : n ≡ 1 = omega arith in
        let z : q.next_checkpoint ≡ 0 = at ∙ (rw e (mod_self 1)) in ground (arith, z, e)
  ]

full_laps :
    {fl : Floats} {n max_laps j : ℕ} {order : List Uuid} {q : PlayerState fl}
    → InStep n max_laps order j q
    → 0 < n
    → FullLaps n max_laps q (passes n q)
full_laps {fl} {n} {max_laps} {j} {order} {q} e h =
    (full_laps_low q h e.on_track, full_laps_high q h e.on_track, (λ f. done f, back))
  where
    done : q.is_finished ≡ true → passes n q ≡ last_lap max_laps * n
    done f = rw (← e.final_lap f) (line_passes q h (e.at_line f))

    back : passes n q ≡ last_lap max_laps * n → q.is_finished ≡ true
    back c = elim (Bool-cases q.is_finished) [
      | inl f ↦ f
      | inr g ↦ absurd (
          omega (
            arith,
            c,
            full_laps_high q h e.on_track,
            laps_mono q.lap (last_lap max_laps) n (e.racing g),
          ))
    ]

module _ (fl : Floats) where
  unfoldable pub drive_one : ℕ → Drive fl → Race fl → Option (Race fl)
  drive_one fuel (steers m) r = some (apply_input_locked fl r m)
  drive_one fuel (moves order clock dt tick) r = advance_tick fl fuel order clock r dt tick

  unfoldable pub drive : ℕ → List (Drive fl) → Race fl → Option (Race fl)
  unfolding drive_one
  drive fuel [] r = some r
  drive fuel (d ∷ ds) r = drive_one fuel d r >>= drive fuel ds

  -- The invariant, what is left alone, and a player's trip, together.
  abbrev Driven : ℕ → Race fl → PlayerState fl → Race fl → Type 0
  Driven j r p r' = Inv r' × (Reframed fl r r' × Trip fl (len_or_1 fl r.track.waypoints) j r r' p)

  drive_one-Driven :
      (fuel : ℕ) (d : Drive fl) (r : Race fl) (j : ℕ) (p : PlayerState fl)
      → Inv r
      → lookup j r.players ≡ some p
      → OnSome (Driven j r p) (drive_one fuel d r)
  unfolding drive_one
  drive_one-Driven fuel (steers m) r j p v e = (
    apply_input_locked-Inv fl r m v,
    (apply_input_locked-Reframed fl r m, apply_input_locked-Trip fl j r m p e),
  )
  drive_one-Driven fuel (moves order clock dt tick) r j p v e =
      let o = advance_tick fl fuel order clock r dt tick in
      let n = len_or_1 fl r.track.waypoints in
      OnSome-both Inv (λ r'. Reframed fl r r' × Trip fl n j r r' p) o
        (advance_tick-OnSome fl fuel order clock r dt tick v)
        (OnSome-both (Reframed fl r) (λ r'. Trip fl n j r r' p) o
          (advance_tick-Reframed fl fuel order clock r dt tick)
          (advance_tick-Trip fl fuel order clock r dt tick n j p refl v e))

  Driven-trans :
      (j : ℕ) (r s t : Race fl) (p : PlayerState fl) (a : Driven j r p s)
      → Driven j s a.1.1.player t
      → Driven j r p t
  Driven-trans j r s t p a b =
      let track : s.track ≡ r.track = ap (λ (x : Race fl). x.track) a.1.0 in
      let same = ap (λ (x : Track fl). len_or_1 fl x.waypoints) track in
      (
        b.0,
        (
          Reframed-trans fl r s t a.1.0 b.1.0,
          Trip-trans fl a.1.1 (subst (λ k. Trip fl k j s t a.1.1.player) same b.1.1),
        ),
      )

  drive-Driven :
      (fuel : ℕ) (ds : List (Drive fl)) (r : Race fl) (j : ℕ) (p : PlayerState fl)
      → Inv r
      → lookup j r.players ≡ some p
      → OnSome (Driven j r p) (drive fuel ds r)
  unfolding drive
  drive-Driven fuel [] r j p v e = (v, (refl, Trip-refl fl _ j r p e))
  drive-Driven fuel (d ∷ ds) r j p v e =
      OnSome-bind (Driven j r p) (Driven j r p) (drive_one fuel d r) _
        (drive_one-Driven fuel d r j p v e)
        λ s a.
          OnSome-map (Driven j s a.1.1.player) (Driven j r p) (drive fuel ds s)
            (λ t b. Driven-trans j r s t p a b)
            (drive-Driven fuel ds s j a.1.1.player a.0 a.1.1.found)

  -- A player that is there, with no checkpoint passed, in a race that keeps the invariant, after
  -- any inputs and any ticks that return: its lap counts the full circuits among the checkpoints
  -- that it has passed since, as the events report them. It has finished exactly when those are
  -- max(2, MaxLaps) full circuits, so a race of one lap ends after two.
  pub laps_count_circuits :
      (fuel : ℕ) (ds : List (Drive fl)) (r : Race fl) (j : ℕ) (p : PlayerState fl) {r' : Race fl}
      → Inv r
      → lookup j r.players ≡ some p
      → passes (len_or_1 fl r.track.waypoints) p ≡ 0
      → drive fuel ds r ≡ some r'
      → (q : PlayerState fl) × (fresh : List Event) × (lookup j r'.players ≡ some q)
        × (r'.events ≡ r.events ++ fresh)
        × (let n = len_or_1 fl r.track.waypoints in
            let c = count_passes j fresh in
            (q.lap * n ≤ c)
            × (c < q.lap * n + n)
            × ((q.is_finished ≡ true) ↔ (c ≡ max 2 r.max_laps * n)))
  laps_count_circuits fuel ds r j p {r'} v e z d =
      let (v', (same, trip)) = OnSome-some (Driven j r p) _ (drive-Driven fuel ds r j p v e) d in
      let n = len_or_1 fl r.track.waypoints in
      let n' = len_or_1 fl r'.track.waypoints in
      let q = trip.player in
      let track : r'.track ≡ r.track = ap (λ (x : Race fl). x.track) same in
      let len : n' ≡ n = ap (λ (x : Track fl). len_or_1 fl x.waypoints) track in
      let laps : r'.max_laps ≡ r.max_laps = ap (λ (x : Race fl). x.max_laps) same in
      let entry : Entry r' j q = Every-lookup (Entry r') j r'.players v'.entries trip.found in
      let counted : passes n q ≡ count_passes j trip.fresh = omega (arith, trip.counted, z) in
      let full : FullLaps n r.max_laps q (passes n q) =
        subst (λ k. FullLaps n k q (passes n q)) laps
          (subst (λ k. FullLaps k r'.max_laps q (passes k q)) len
            (full_laps entry (length-len_or_1 fl r'.track.waypoints))) in
      (trip.player, trip.fresh, trip.found, trip.told, subst (FullLaps n r.max_laps q) counted full)
