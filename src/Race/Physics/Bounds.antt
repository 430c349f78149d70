-- ===== src/Race/Physics/Bounds.antt =====
-- The bounds that physics.go promises, and when wrapAngle ends.
use car_video_game_backend.Base.{
  ℕ, zero, suc, ◌+◌, ◌<◌, ◌≡◌, refl, none, some, true, false, arith, ◌⊎◌, inl, inr,
}
use car_video_game_backend.Race.Floats.{Floats}
use car_video_game_backend.Race.Model.{PlayerState, PlayerInput, CarSpec}
use car_video_game_backend.Race.Physics.{
  clamp, unwind_down, unwind_up, wrap_angle, next_velocity, turned, moved, step,
}

-- What IEEE 754 says of the comparisons and of one turn: no number is less than itself, and a turn
-- back from beyond π, or forward from below -π, does not overshoot the other end.
pub record FloatLaws (fl : Floats) : Type 0 where
  pub lt_irrefl : (a : fl.F64) → fl.lt a a ≡ false
  pub turn_back :
      (a : fl.F64) → fl.lt fl.pi a ≡ true → fl.lt (fl.sub a fl.two_pi) (fl.neg fl.pi) ≡ false
  pub turn_forward :
      (a : fl.F64) → fl.lt a (fl.neg fl.pi) ≡ true → fl.lt fl.pi (fl.add a fl.two_pi) ≡ false

module _ (fl : Floats) where
  -- After `n` turns back, and not before, the angle is not above π.
  abbrev pub SettlesDown : ℕ → fl.F64 → Type 0
  SettlesDown zero a = fl.lt fl.pi a ≡ false
  SettlesDown (suc n) a = (fl.lt fl.pi a ≡ true) × SettlesDown n (fl.sub a fl.two_pi)

  abbrev pub SettlesUp : ℕ → fl.F64 → Type 0
  SettlesUp zero a = fl.lt a (fl.neg fl.pi) ≡ false
  SettlesUp (suc n) a = (fl.lt a (fl.neg fl.pi) ≡ true) × SettlesUp n (fl.add a fl.two_pi)

  -- An angle that at most `n` turns, or one turn back more, bring into range.
  abbrev pub Settles : ℕ → fl.F64 → Type 0
  Settles n a = SettlesDown (suc n) a ⊎ ((fl.lt fl.pi a ≡ false) × SettlesUp n a)

  abbrev pub InRange : fl.F64 → Type 0
  InRange a = (fl.lt fl.pi a ≡ false) × (fl.lt a (fl.neg fl.pi) ≡ false)

  pub clamp_bounds :
      (v lo hi : fl.F64)
      → fl.lt lo lo ≡ false
      → fl.lt hi hi ≡ false
      → fl.lt hi lo ≡ false
      → (fl.lt (clamp fl v lo hi) lo ≡ false) × (fl.lt hi (clamp fl v lo hi) ≡ false)
  unfolding clamp
  clamp_bounds v lo hi p q r = ground arith

module _ (fl : Floats) (laws : FloatLaws fl) where
  unwind_down_settled :
      (n fuel : ℕ) (a : fl.F64)
      → n < fuel
      → fl.lt a (fl.neg fl.pi) ≡ false
      → SettlesDown fl n a
      → (h : fl.F64) × (unwind_down fl fuel a ≡ some h) × InRange fl h
  unfolding unwind_down
  unwind_down_settled n zero a f low s = absurd (omega arith)
  unwind_down_settled zero (suc fuel) a f low s = (a, rw (s, unwind_down) refl, (s, low))
  unwind_down_settled (suc n) (suc fuel) a f low s =
      rw (s.0, unwind_down)
        (unwind_down_settled n fuel (fl.sub a fl.two_pi) (omega arith) (laws.turn_back a s.0) s.1)

  unwind_up_settled :
      (n fuel : ℕ) (a : fl.F64)
      → n < fuel
      → fl.lt fl.pi a ≡ false
      → SettlesUp fl n a
      → (h : fl.F64) × (unwind_up fl fuel a ≡ some h) × InRange fl h
  unfolding unwind_up
  unwind_up_settled n zero a f high s = absurd (omega arith)
  unwind_up_settled zero (suc fuel) a f high s = (a, rw (s, unwind_up) refl, (high, s))
  unwind_up_settled (suc n) (suc fuel) a f high s =
      rw (s.0, unwind_up)
        (unwind_up_settled n fuel (fl.add a fl.two_pi) (omega arith) (laws.turn_forward a s.0) s.1)

  unwind_up_still :
      (fuel : ℕ) (a : fl.F64)
      → 0 < fuel
      → fl.lt a (fl.neg fl.pi) ≡ false
      → unwind_up fl fuel a ≡ some a
  unfolding unwind_up
  unwind_up_still zero a f low = absurd (omega arith)
  unwind_up_still (suc fuel) a f low = rw (low, unwind_up) refl

  unwind_down_first :
      (n fuel : ℕ) (a : fl.F64)
      → n + 1 < fuel
      → SettlesDown fl (suc n) a
      → (h : fl.F64) × (unwind_down fl fuel a ≡ some h) × InRange fl h
  unfolding unwind_down
  unwind_down_first n zero a f s = absurd (omega arith)
  unwind_down_first n (suc fuel) a f s =
      rw (s.0, unwind_down)
        (unwind_down_settled n fuel (fl.sub a fl.two_pi) (omega arith) (laws.turn_back a s.0) s.1)

  unwind_down_still :
      (fuel : ℕ) (a : fl.F64) → 0 < fuel → fl.lt fl.pi a ≡ false → unwind_down fl fuel a ≡ some a
  unfolding unwind_down
  unwind_down_still zero a f high = absurd (omega arith)
  unwind_down_still (suc fuel) a f high = rw (high, unwind_down) refl

  pub wrap_angle_settled :
      (n fuel : ℕ) (a : fl.F64)
      → n + 1 < fuel
      → Settles fl n a
      → (h : fl.F64) × (wrap_angle fl fuel a ≡ some h) × InRange fl h
  unfolding wrap_angle
  wrap_angle_settled n fuel a f (inl s) =
      let (h, e, r) = unwind_down_first n fuel a f s in
      (h, rw (e, wrap_angle) (unwind_up_still fuel h (omega arith) r.1), r)
  wrap_angle_settled n fuel a f (inr (high, s)) =
      let (h, e, r) = unwind_up_settled n fuel a (omega arith) high s in
      (h, rw (unwind_down_still fuel a (omega arith) high, wrap_angle) e, r)

  -- A step with fuel for the turns returns, with no comparison of the code left that holds.
  pub step_settled :
      (n fuel : ℕ) (p : PlayerState fl) (input : PlayerInput fl) (spec : CarSpec fl) (dt : fl.F64)
      → n + 1 < fuel
      → Settles fl n (turned fl p input spec dt)
      → fl.lt spec.max_speed (fl.neg spec.max_speed) ≡ false
      → (q : PlayerState fl) × (step fl fuel p input spec dt ≡ some q)
        × (fl.lt q.velocity (fl.neg spec.max_speed) ≡ false)
        × (fl.lt spec.max_speed q.velocity ≡ false)
        × InRange fl q.heading
        × (q.position ≡ moved fl p.position q.velocity q.heading dt)
        × (q ≡ record p { velocity = q.velocity; heading = q.heading; position = q.position })
  unfolding step next_velocity
  step_settled n fuel p input spec dt f s h =
      let (heading, e, r) = wrap_angle_settled n fuel (turned fl p input spec dt) f s in
      let v = next_velocity fl p input spec dt in
      let b =
        clamp_bounds fl
          (fl.add p.velocity
            (fl.mul (fl.mul (fl.widen (fl.sub32 input.throttle input.brake)) spec.max_accel) dt))
          (fl.neg spec.max_speed) spec.max_speed (laws.lt_irrefl _) (laws.lt_irrefl _) h in
      (
        record p { velocity = v; heading = heading; position = moved fl p.position v heading dt },
        rw (e, step) refl,
        b.0,
        b.1,
        r,
        refl,
        refl,
      )

module _ (fl : Floats) where
  unwind_down_stuck :
      (fuel : ℕ) (a : fl.F64)
      → fl.lt fl.pi a ≡ true
      → fl.sub a fl.two_pi ≡ a
      → unwind_down fl fuel a ≡ none
  unfolding unwind_down
  unwind_down_stuck zero a up same = refl
  unwind_down_stuck (suc fuel) a up same =
      rw (up, unwind_down) (rw same (unwind_down_stuck fuel a up same))

  -- When a turn back from the new heading changes nothing and the heading is above π, as it is for
  -- +Inf and for numbers far above 2⁵³, a step returns for no amount of fuel.
  pub step_hangs :
      (fuel : ℕ) (p : PlayerState fl) (input : PlayerInput fl) (spec : CarSpec fl) (dt : fl.F64)
      → fl.lt fl.pi (turned fl p input spec dt) ≡ true
      → fl.sub (turned fl p input spec dt) fl.two_pi ≡ turned fl p input spec dt
      → step fl fuel p input spec dt ≡ none
  unfolding step wrap_angle
  step_hangs fuel p input spec dt up same =
      rw (unwind_down_stuck fuel (turned fl p input spec dt) up same, step, wrap_angle) refl
