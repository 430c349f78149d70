-- ===== src/Race/Returns.antt =====
-- When a tick returns, and when it does not: advanceTickLocked against the loops of wrapAngle.
pub mod Rounds
use car_video_game_backend.Base.{
  ℕ, ◌+◌, ◌/◌, ◌%◌, ◌<◌, ◌≡◌, ◌≢◌, refl, sym, ◌∙◌, ap, List, [], ◌∷◌, ◌++◌, Option, none, some,
  some-injective, Bool, true, false, ◌&&◌, length, get_elem?, ltb, leb, ◌==◌, if◌then◌else◌, arith,
  All, OnSome, OnSome-some, Dict, lookup, insert, lookup-insert, Option-cases, if-elim, inl, inr,
}
use car_video_game_backend.Race.Floats.{Floats}
use car_video_game_backend.Race.Model.{Uuid, Time, PlayerState, CarSpec, Race}
use car_video_game_backend.Race.Physics.{◌>>=◌, step, turned}
use car_video_game_backend.Race.Physics.Bounds.{FloatLaws, Settles, step_settled, step_hangs}
use car_video_game_backend.Race.Tick.{
  pass_checkpoint, complete_lap, is_hit, detect, spec_of, advance_player, advance_player_cases,
  advance_tick,
}
use car_video_game_backend.Race.Loop.{
  Readings, Loop, Round, is_in_progress, run_physics, after_tick, publish, prepare, round,
}
use car_video_game_backend.Race.Frame.{Reframed, detect-Reframed}

-- No id stands twice.
abbrev pub Distinct : List Uuid → Type 0
Distinct [] = Unit
Distinct (x ∷ xs) = All (λ y. y ≢ x) xs × Distinct xs

module _ (fl : Floats) where
  -- A step of the player at a key returns, if there is one and it is racing.
  abbrev pub Steps : ℕ → Race fl → fl.F64 → Uuid → Type 0
  Steps fuel r dt pid =
      (p : PlayerState fl)
      → lookup pid r.players ≡ some p
      → p.is_finished ≡ false
      → (q : PlayerState fl) × (step fl fuel p p.last_input (spec_of fl r p) dt ≡ some q)

  -- The second race differs from the first in no player but the one at `pid`.
  record Elsewhere (pid : Uuid) (r r' : Race fl) : Type 0 where
    others : (j : ℕ) → j ≢ pid → lookup j r'.players ≡ lookup j r.players
    specs : r'.specs ≡ r.specs

  detect_writes :
      (r : Race fl) (pid : ℕ) (p : PlayerState fl) (tick now : ℕ)
      → (w : PlayerState fl) × ((detect fl r pid p tick now).players ≡ insert pid w r.players)
  unfolding detect pass_checkpoint complete_lap
  detect_writes r pid p tick now =
      elim (Option-cases
        (get_elem? r.track.waypoints (p.next_checkpoint % length r.track.waypoints))) [
          | inl off ↦ rw (off, detect) (p, refl)
          | inr (wp, on) ↦
              rw (on, detect)
                (if-elim Writes (is_hit fl p wp)
                  (λ _. passes (p.next_checkpoint % length r.track.waypoints)) (λ _. (p, refl)))
        ]
    where
      Writes : Race fl → Type 0
      Writes x = (w : PlayerState fl) × (x.players ≡ insert pid w r.players)

      passes : (idx : ℕ) → Writes (pass_checkpoint fl r pid p idx tick now)
      passes idx =
          if-elim Writes (idx == 0 && ltb 0 p.lap)
            (λ _. if-elim Writes (leb r.max_laps (p.lap + 1)) (λ _. (_, refl)) (λ _. (_, refl)))
            (λ _. if-elim Writes (idx == 0 && p.lap == 0) (λ _. (_, refl)) (λ _. (_, refl)))

  detect-Elsewhere :
      (r : Race fl) (pid : ℕ) (p : PlayerState fl) (tick now : ℕ)
      → Elsewhere pid r (detect fl r pid p tick now)
  detect-Elsewhere r pid p tick now =
      let (w, e) = detect_writes r pid p tick now in
      record {
        others = λ j ne. ap (lookup j) e ∙ lookup-insert pid j w r.players ∙ (ground arith);
        specs = ap (λ (x : Race fl). x.specs) (detect-Reframed fl r pid p tick now);
      }

  advance_player_returns :
      (fuel : ℕ) (r : Race fl) (dt : fl.F64) (tick now pid : ℕ)
      → Steps fuel r dt pid
      → (r' : Race fl) × (advance_player fl fuel r dt tick now pid ≡ some r') × Elsewhere pid r r'
  advance_player_returns fuel r dt tick now pid steps =
      advance_player_cases fl (λ o. (r' : Race fl) × (o ≡ some r') × Elsewhere pid r r') fuel r dt
        tick now pid (r, refl, record { others = λ j ne. refl; specs = refl })
        (λ p e going hung. absurd (cc (hung, (steps p e going).1)))
        (λ p q e going s. (detect fl r pid q tick now, refl, detect-Elsewhere r pid q tick now))

  Steps-Elsewhere :
      (fuel : ℕ) (dt : fl.F64) (r r' : Race fl) (pid j : Uuid)
      → j ≢ pid
      → Elsewhere pid r r'
      → Steps fuel r dt j
      → Steps fuel r' dt j
  unfolding spec_of
  Steps-Elsewhere fuel dt r r' pid j ne h steps p e going =
      rw h.specs (steps p (sym (h.others j ne) ∙ e) going)

  Steps-rest :
      (fuel : ℕ) (dt : fl.F64) (r r' : Race fl) (pid : Uuid) (order : List Uuid)
      → Elsewhere pid r r'
      → All (λ y. y ≢ pid) order
      → All (Steps fuel r dt) order
      → All (Steps fuel r' dt) order
  Steps-rest fuel dt r r' pid [] h ne steps = tt
  Steps-rest fuel dt r r' pid (j ∷ order) h ne steps = (
    Steps-Elsewhere fuel dt r r' pid j ne.0 h steps.0,
    Steps-rest fuel dt r r' pid order h ne.1 steps.1,
  )

  pub advance_tick_returns :
      (fuel : ℕ) (order : List Uuid) (clock : Uuid → Time) (r : Race fl) (dt : fl.F64) (tick : ℕ)
      → Distinct order
      → All (Steps fuel r dt) order
      → (r' : Race fl) × (advance_tick fl fuel order clock r dt tick ≡ some r')
  unfolding advance_tick
  advance_tick_returns fuel [] clock r dt tick d steps = (r, refl)
  advance_tick_returns fuel (pid ∷ order) clock r dt tick d steps =
      let (r', e, h) = advance_player_returns fuel r dt tick (clock pid) pid steps.0 in
      let (r'', e') =
        advance_tick_returns fuel order clock r' dt tick d.1
          (Steps-rest fuel dt r r' pid order h d.0 steps.1) in
      (r'', rw (e, advance_tick) e')

  advance_player-Elsewhere :
      (fuel : ℕ) (r : Race fl) (dt : fl.F64) (tick now pid : ℕ)
      → OnSome (Elsewhere pid r) (advance_player fl fuel r dt tick now pid)
  advance_player-Elsewhere fuel r dt tick now pid =
      advance_player_cases fl (OnSome (Elsewhere pid r)) fuel r dt tick now pid
        (record { others = λ j ne. refl; specs = refl }) (λ _ _ _ _. tt)
        (λ p q e going s. detect-Elsewhere r pid q tick now)

  spec_of-cong :
      (r r' : Race fl) (p : PlayerState fl) → r'.specs ≡ r.specs → spec_of fl r' p ≡ spec_of fl r p
  unfolding spec_of
  spec_of-cong r r' p e = rw e refl

  advance_player_hangs :
      (fuel : ℕ) (r : Race fl) (dt : fl.F64) (tick now pid : ℕ) (p : PlayerState fl)
      → lookup pid r.players ≡ some p
      → p.is_finished ≡ false
      → step fl fuel p p.last_input (spec_of fl r p) dt ≡ none
      → advance_player fl fuel r dt tick now pid ≡ none
  unfolding advance_player
  advance_player_hangs fuel r dt tick now pid p e going stuck =
      rw (e, advance_player)
        (if-elim (λ (o : Option (Race fl)). o ≡ none) p.is_finished
          (λ over. absurd (cc (over, going))) (λ _. rw stuck refl))

  -- When the new heading of some racing player whom the tick visits is above π, and a turn back by
  -- 2π does not change it, as it is for +Inf, the tick returns for no amount of fuel.
  pub advance_tick_hangs :
      (fuel : ℕ) (before after : List Uuid) (pid : Uuid) (clock : Uuid → Time) (r : Race fl)
      (dt : fl.F64) (tick : ℕ) (p : PlayerState fl)
      → All (λ y. y ≢ pid) before
      → lookup pid r.players ≡ some p
      → p.is_finished ≡ false
      → fl.lt fl.pi (turned fl p p.last_input (spec_of fl r p) dt) ≡ true
      → fl.sub (turned fl p p.last_input (spec_of fl r p) dt) fl.two_pi
        ≡ turned fl p p.last_input (spec_of fl r p) dt
      → advance_tick fl fuel (before ++ pid ∷ after) clock r dt tick ≡ none
  unfolding advance_tick
  advance_tick_hangs fuel [] after pid clock r dt tick p ne e going up same =
      rw (advance_player_hangs fuel r dt tick (clock pid) pid p e going stuck, advance_tick) refl
    where
      stuck : step fl fuel p p.last_input (spec_of fl r p) dt ≡ none
      stuck = step_hangs fl fuel p p.last_input (spec_of fl r p) dt up same
  advance_tick_hangs fuel (x ∷ before) after pid clock r dt tick p ne e going up same =
      elim (Option-cases (advance_player fl fuel r dt tick (clock x) x)) [
        | inl hung ↦ rw (hung, advance_tick) refl
        | inr (r', first) ↦
            let h =
              OnSome-some (Elsewhere x r) _ (advance_player-Elsewhere fuel r dt tick (clock x) x)
                first in
            let spec = spec_of-cong r r' p h.specs in
            rw (first, advance_tick)
              (advance_tick_hangs fuel before after pid clock r' dt tick p ne.1
                (h.others pid (λ k. ne.0 (sym k)) ∙ e) going (rw spec up) (rw spec same))
      ]
