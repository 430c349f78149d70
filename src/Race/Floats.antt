-- ===== src/Race/Floats.antt =====
-- The floating-point numbers of internal/race: the operations that the code applies to float32 and
-- float64 values. The type theory has no floats, so they are a parameter of the race's model.
use car_video_game_backend.Base.{ℕ, Bool}

pub record Floats : Type 1 where
  pub F32 : Type 0
  pub F64 : Type 0
  -- The constant n / d, and float32(n) of an integer.
  pub constant : ℕ → ℕ → F64
  pub int32 : ℕ → F32
  pub pi : F64
  pub two_pi : F64
  pub add32 : F32 → F32 → F32
  pub sub32 : F32 → F32 → F32
  pub mul32 : F32 → F32 → F32
  pub add : F64 → F64 → F64
  pub sub : F64 → F64 → F64
  pub mul : F64 → F64 → F64
  pub neg : F64 → F64
  -- a < b
  pub lt : F64 → F64 → Bool
  -- float64(a) and float32(a)
  pub widen : F32 → F64
  pub narrow : F64 → F32
  -- math.Cos, math.Sin, math.Hypot
  pub cos : F64 → F64
  pub sin : F64 → F64
  pub hypot : F64 → F64 → F64
  -- time.Duration.Seconds of a count of nanoseconds
  pub seconds : ℕ → F64
  -- a != 0
  pub ne_zero : F32 → Bool
