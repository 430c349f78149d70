-- ===== src/Race/Returns/Rounds.antt =====
-- When a round of the loop returns: Run of manager.go against the loops of wrapAngle.
use car_video_game_backend.Base.{
  ℕ, ◌+◌, ◌/◌, ◌<◌, ◌≡◌, refl, List, [], ◌∷◌, Option, some, false, All, lookup, if-elim,
}
use car_video_game_backend.Race.Floats.{Floats}
use car_video_game_backend.Race.Model.{Uuid, PlayerState, Race}
use car_video_game_backend.Race.Physics.{turned}
use car_video_game_backend.Race.Physics.Bounds.{FloatLaws, Settles, step_settled}
use car_video_game_backend.Race.Tick.{spec_of}
use car_video_game_backend.Race.Loop.{
  Readings, Loop, Round, is_in_progress, run_physics, prepare, round,
}
use car_video_game_backend.Race.Returns.{Distinct, Steps, advance_tick_returns}

module _ (fl : Floats) (laws : FloatLaws fl) where
  -- The racing player at `pid`, if there is one, has a heading that at most `n` turns bring into
  -- range, and a car whose top speed is not negative.
  abbrev pub Steady : ℕ → Race fl → fl.F64 → Uuid → Type 0
  Steady n r dt pid =
      (p : PlayerState fl)
      → lookup pid r.players ≡ some p
      → p.is_finished ≡ false
      → Settles fl n (turned fl p p.last_input (spec_of fl r p) dt)
        × (fl.lt (spec_of fl r p).max_speed (fl.neg (spec_of fl r p).max_speed) ≡ false)

  Steady-Steps :
      (n fuel : ℕ) (r : Race fl) (dt : fl.F64) (order : List Uuid)
      → n + 1 < fuel
      → All (Steady n r dt) order
      → All (Steps fl fuel r dt) order
  Steady-Steps n fuel r dt [] f h = tt
  Steady-Steps n fuel r dt (pid ∷ order) f h = (
    λ p e going.
        let (q, s, _, _, _, _, _) =
          step_settled fl laws n fuel p p.last_input (spec_of fl r p) dt f (h.0 p e going).0
            (h.0 p e going).1 in
        (q, s),
    Steady-Steps n fuel r dt order f h.1,
  )

  -- With floats that keep FloatLaws, a round of the loop returns, whatever it reads from outside,
  -- when the walk visits no player twice and, after the messages and inputs are taken up, every
  -- racing player has a heading that at most `n` turns bring into range and a car whose top speed
  -- is not negative; fuel above `n + 1` is enough.
  pub round_returns :
      (n fuel : ℕ) (t : Readings) (l : Loop fl)
      → n + 1 < fuel
      → Distinct t.visits
      → (let r = (prepare fl t l).race in
          All (Steady n r (fl.seconds (1_000_000_000 / r.tick_rate_hz))) t.visits)
      → (rd : Round fl) × (round fl fuel t l ≡ some rd)
  unfolding round run_physics
  round_returns n fuel t l f d h =
      if-elim Returns t.ctx_done (λ _. (_, refl))
        (λ _.
          if-elim Returns l.race.done (λ _. (_, refl))
            (λ _. let (r', e) = physics in rw e (_, refl)))
    where
      Returns : Option (Round fl) → Type 0
      Returns o = (rd : Round fl) × (o ≡ some rd)

      physics :
          (r' : Race fl) × (run_physics fl fuel t (prepare fl t l).race (prepare fl t l).tick_idx
            ≡ some r')
      physics =
          if-elim (λ (o : Option (Race fl)). (r' : Race fl) × (o ≡ some r'))
            (is_in_progress (prepare fl t l).race.status)
            (λ _.
              advance_tick_returns fl fuel t.visits t.tick_at (prepare fl t l).race _ _ d
                (Steady-Steps n fuel (prepare fl t l).race _ t.visits f h))
            (λ _. (_, refl))
