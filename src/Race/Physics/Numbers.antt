-- ===== src/Race/Physics/Numbers.antt =====
-- The bounds that Step of internal/race/physics.go promises, where no number is a NaN.
use car_video_game_backend.Base.{
  ℕ, zero, suc, ◌+◌, ◌<◌, ◌≡◌, refl, some, Bool, true, false, if-elim, Bool-cases, inl, inr, OnSome,
  OnSome-some,
}
use car_video_game_backend.Race.Floats.{Floats}
use car_video_game_backend.Race.Model.{PlayerState, PlayerInput, CarSpec}
use car_video_game_backend.Race.Physics.{
  clamp, unwind_down, unwind_up, wrap_angle, next_velocity, turned, moved, step, OnSome-bind,
}
use car_video_game_backend.Race.Physics.Bounds.{
  FloatLaws, Settles, wrap_angle_settled, clamp_bounds,
}

-- What IEEE 754 says of a <= b: a NaN is what is not at most itself, the negation of a number and a
-- number after a turn are numbers, and of two numbers one is less than the other or the other is at
-- most the one.
pub record NumberLaws (fl : Floats) : Type 0 where
  pub le : fl.F64 → fl.F64 → Bool
  pub pi_number : le fl.pi fl.pi ≡ true
  pub neg_number : (a : fl.F64) → le a a ≡ true → le (fl.neg a) (fl.neg a) ≡ true
  pub back_number :
      (a : fl.F64) → le a a ≡ true → le (fl.sub a fl.two_pi) (fl.sub a fl.two_pi) ≡ true
  pub forward_number :
      (a : fl.F64) → le a a ≡ true → le (fl.add a fl.two_pi) (fl.add a fl.two_pi) ≡ true
  pub le_of_not_lt :
      (a b : fl.F64) → le a a ≡ true → le b b ≡ true → fl.lt a b ≡ false → le b a ≡ true

module _ (fl : Floats) (numbers : NumberLaws fl) where
  -- Not a NaN.
  abbrev pub IsNumber : fl.F64 → Type 0
  IsNumber a = numbers.le a a ≡ true

  -- Between two bounds, which no NaN is.
  abbrev pub IsWithin : (lo hi a : fl.F64) → Type 0
  IsWithin lo hi a = (numbers.le lo a ≡ true) × (numbers.le a hi ≡ true)

  unwind_down-IsNumber :
      (fuel : ℕ) (a : fl.F64) → IsNumber a → OnSome IsNumber (unwind_down fl fuel a)
  unfolding unwind_down
  unwind_down-IsNumber zero a h = tt
  unwind_down-IsNumber (suc fuel) a h = elim (Bool-cases (fl.lt fl.pi a)) [
    | inl y ↦
        rw (unwind_down, y)
          (unwind_down-IsNumber fuel (fl.sub a fl.two_pi) (numbers.back_number a h))
    | inr n ↦ rw (unwind_down, n) h
  ]

  unwind_up-IsNumber : (fuel : ℕ) (a : fl.F64) → IsNumber a → OnSome IsNumber (unwind_up fl fuel a)
  unfolding unwind_up
  unwind_up-IsNumber zero a h = tt
  unwind_up-IsNumber (suc fuel) a h = elim (Bool-cases (fl.lt a (fl.neg fl.pi))) [
    | inl y ↦
        rw (unwind_up, y)
          (unwind_up-IsNumber fuel (fl.add a fl.two_pi) (numbers.forward_number a h))
    | inr n ↦ rw (unwind_up, n) h
  ]

  wrap_angle-IsNumber :
      (fuel : ℕ) (a : fl.F64) → IsNumber a → OnSome IsNumber (wrap_angle fl fuel a)
  unfolding wrap_angle
  wrap_angle-IsNumber fuel a h =
      OnSome-bind IsNumber IsNumber (unwind_down fl fuel a) (unwind_up fl fuel)
        (unwind_down-IsNumber fuel a h) (λ b k. unwind_up-IsNumber fuel b k)

  clamp-IsNumber :
      (v lo hi : fl.F64) → IsNumber v → IsNumber lo → IsNumber hi → IsNumber (clamp fl v lo hi)
  unfolding clamp
  clamp-IsNumber v lo hi h l k =
      if-elim IsNumber (fl.lt v lo) (λ _. l) (λ _. if-elim IsNumber (fl.lt hi v) (λ _. k) (λ _. h))

  within :
      (lo hi a : fl.F64)
      → IsNumber lo
      → IsNumber hi
      → IsNumber a
      → fl.lt a lo ≡ false
      → fl.lt hi a ≡ false
      → IsWithin lo hi a
  within lo hi a l h k below above =
      (numbers.le_of_not_lt a lo k l below, numbers.le_of_not_lt hi a h k above)

  -- With floats that keep FloatLaws and NumberLaws, when neither the speed before it is clamped, nor
  -- MaxSpeed, nor the heading before it is wrapped is a NaN, when MaxSpeed is not negative, and when
  -- finitely many turns bring the heading into range: with fuel for them a step returns, its velocity
  -- is within ±MaxSpeed and its heading within ±π, neither of them a NaN, the car has moved along
  -- that heading at that velocity, and the lap data is as before.
  pub step_in_bounds :
      (laws : FloatLaws fl) (n fuel : ℕ) (p : PlayerState fl) (input : PlayerInput fl)
      (spec : CarSpec fl) (dt : fl.F64)
      → n + 1 < fuel
      → Settles fl n (turned fl p input spec dt)
      → fl.lt spec.max_speed (fl.neg spec.max_speed) ≡ false
      → IsNumber (
          fl.add p.velocity
            (fl.mul (fl.mul (fl.widen (fl.sub32 input.throttle input.brake)) spec.max_accel) dt))
      → IsNumber spec.max_speed
      → IsNumber (turned fl p input spec dt)
      → (q : PlayerState fl) × (step fl fuel p input spec dt ≡ some q)
        × IsWithin (fl.neg spec.max_speed) spec.max_speed q.velocity
        × IsWithin (fl.neg fl.pi) fl.pi q.heading
        × (q.position ≡ moved fl p.position q.velocity q.heading dt)
        × (q ≡ record p { velocity = q.velocity; heading = q.heading; position = q.position })
  unfolding step next_velocity
  step_in_bounds laws n fuel p input spec dt f s h drive top turn =
      let a = turned fl p input spec dt in
      let raw =
        fl.add p.velocity
          (fl.mul (fl.mul (fl.widen (fl.sub32 input.throttle input.brake)) spec.max_accel) dt) in
      let v = next_velocity fl p input spec dt in
      let (heading, e, (high, low)) = wrap_angle_settled fl laws n fuel a f s in
      let number : IsNumber heading =
        OnSome-some IsNumber (wrap_angle fl fuel a) (wrap_angle-IsNumber fuel a turn) e in
      let bottom : IsNumber (fl.neg spec.max_speed) = numbers.neg_number spec.max_speed top in
      let (below, above) =
        clamp_bounds fl raw (fl.neg spec.max_speed) spec.max_speed (laws.lt_irrefl _)
          (laws.lt_irrefl _) h in
      (
        record p { velocity = v; heading = heading; position = moved fl p.position v heading dt },
        rw (e, step) refl,
        within (fl.neg spec.max_speed) spec.max_speed v bottom top
            (clamp-IsNumber raw (fl.neg spec.max_speed) spec.max_speed drive bottom top) below
            above,
        within (fl.neg fl.pi) fl.pi heading (numbers.neg_number fl.pi numbers.pi_number)
            numbers.pi_number number low high,
        refl,
        refl,
      )
