-- ===== src/Race/Physics.antt =====
-- internal/race/physics.go: the kinematics of one car over one tick.
pub mod Bounds
pub mod Numbers
use car_video_game_backend.Base.{
  ℕ, zero, suc, Option, none, some, Bool, true, false, if◌then◌else◌, OnSome,
}
use car_video_game_backend.Race.Floats.{Floats}
use car_video_game_backend.Race.Model.{PlayerState, PlayerInput, CarSpec, Vec3}

infixl 5 ◌>>=◌
abbrev pub ◌>>=◌ {ℓ κ} : {A : Type ℓ} {B : Type κ} → Option A → (A → Option B) → Option B
none >>= f = none
some a >>= f = f a

pub OnSome-bind {ℓ κ μ ν} :
    {A : Type ℓ} {B : Type κ} (P : A → Type μ) (Q : B → Type ν) (o : Option A) (f : A → Option B)
    → OnSome P o
    → ((a : A) → P a → OnSome Q (f a))
    → OnSome Q (o >>= f)
OnSome-bind P Q none f h k = tt
OnSome-bind P Q (some a) f h k = k a h

module _ (fl : Floats) where
  abbrev pub default_spec : CarSpec fl
  default_spec = record {
    max_accel = fl.constant 12 1;
    max_steer_rate = fl.constant 3 2;
    max_speed = fl.constant 30 1;
  }

  unfoldable pub clamp : fl.F64 → fl.F64 → fl.F64 → fl.F64
  clamp v lo hi = if fl.lt v lo then lo else if fl.lt hi v then hi else v

  -- The two loops of wrapAngle, on fuel; `none` is a loop that has not ended yet.
  unfoldable pub unwind_down : ℕ → fl.F64 → Option fl.F64
  unwind_down zero a = none
  unwind_down (suc fuel) a = elim (fl.lt fl.pi a) [
    | true ↦ unwind_down fuel (fl.sub a fl.two_pi)
    | false ↦ some a
  ]

  unfoldable pub unwind_up : ℕ → fl.F64 → Option fl.F64
  unwind_up zero a = none
  unwind_up (suc fuel) a = elim (fl.lt a (fl.neg fl.pi)) [
    | true ↦ unwind_up fuel (fl.add a fl.two_pi)
    | false ↦ some a
  ]

  unfoldable pub wrap_angle : ℕ → fl.F64 → Option fl.F64
  wrap_angle fuel a = unwind_down fuel a >>= unwind_up fuel

  -- The speed after the throttle and the brake have acted for `dt`.
  unfoldable pub next_velocity : PlayerState fl → PlayerInput fl → CarSpec fl → fl.F64 → fl.F64
  unfolding clamp
  next_velocity p input spec dt =
      let drive = fl.widen (fl.sub32 input.throttle input.brake) in
      let accel = fl.mul drive spec.max_accel in
      clamp (fl.add p.velocity (fl.mul accel dt)) (fl.neg spec.max_speed) spec.max_speed

  unfoldable pub turned : PlayerState fl → PlayerInput fl → CarSpec fl → fl.F64 → fl.F64
  turned p input spec dt =
      fl.add p.heading (fl.mul (fl.mul (fl.widen input.steering) spec.max_steer_rate) dt)

  -- The position after the car has moved for `dt` at a velocity along a heading.
  unfoldable pub moved : Vec3 fl → fl.F64 → fl.F64 → fl.F64 → Vec3 fl
  moved v velocity heading dt = record v {
    x = fl.add32 v.x (fl.narrow (fl.mul (fl.mul velocity dt) (fl.cos heading)));
    z = fl.add32 v.z (fl.narrow (fl.mul (fl.mul velocity dt) (fl.sin heading)));
  }

  unfoldable pub step :
      ℕ → PlayerState fl → PlayerInput fl → CarSpec fl → fl.F64 → Option (PlayerState fl)
  step fuel p input spec dt = do
    heading ← wrap_angle fuel (turned p input spec dt)
    let velocity = next_velocity p input spec dt
    some (record p {
      velocity = velocity;
      heading = heading;
      position = moved p.position velocity heading dt;
    })
