-- ===== src/Examples/Toy.antt =====
-- Numbers, a track and a race that compute, for the examples: the floats are whole numbers, π is 3,
-- every heading points along x, and two checkpoints stand at the first spawn.
use car_video_game_backend.Base.{
  refl, not, zero, ◌+◌, ◌/◌, ℤ, pos, pos_part, neg_part, ◌+ℤ◌, ◌-ℤ◌, ◌*ℤ◌, ltb_ℤ, [], ◌∷◌, Bool,
  true, false, arith,
}
use car_video_game_backend.Race.Floats.{Floats}
use car_video_game_backend.Race.Model.{Track, Race, PlayerState}
use car_video_game_backend.Race.Physics.{default_spec}
use car_video_game_backend.Race.Physics.Bounds.{FloatLaws}
use car_video_game_backend.Race.Physics.Numbers.{NumberLaws}
use car_video_game_backend.Race.Invariant.{Inv, add_player-Inv}
use car_video_game_backend.Race.Finish.Once.{new-Live}
use car_video_game_backend.Race.Roster.{new, new_player, add_player}

abbrev is_not_zero : ℤ → Bool
is_not_zero (pos zero) = false
is_not_zero _ = true

abbrev pub toy : Floats
toy = record {
  F32 = ℤ;
  F64 = ℤ;
  constant = λ n d. pos (n / d);
  int32 = pos;
  pi = pos 3;
  two_pi = pos 6;
  add32 = ◌+ℤ◌;
  sub32 = ◌-ℤ◌;
  mul32 = ◌*ℤ◌;
  add = ◌+ℤ◌;
  sub = ◌-ℤ◌;
  mul = ◌*ℤ◌;
  neg = λ a. pos 0 -ℤ a;
  lt = ltb_ℤ;
  widen = λ a. a;
  narrow = λ a. a;
  cos = λ a. pos 1;
  sin = λ a. pos 0;
  hypot = λ a b. pos (pos_part a + neg_part a + pos_part b + neg_part b);
  seconds = λ n. pos (n / 33_000_000);
  ne_zero = is_not_zero;
}

unfoldable pub toy_numbers : NumberLaws toy
unfolding ◌-ℤ◌ ◌+ℤ◌
toy_numbers = record {
  le = λ a b. not (ltb_ℤ b a);
  pi_number = refl;
  neg_number = λ a h. ground arith;
  back_number = λ a h. ground arith;
  forward_number = λ a h. ground arith;
  le_of_not_lt = λ a b h k less. ground (arith, less);
}

pub toy_laws : FloatLaws toy
unfolding ◌-ℤ◌ ◌+ℤ◌
toy_laws = record {
  lt_irrefl = λ a. ground arith;
  turn_back = λ a h. ground arith;
  turn_forward = λ a h. ground arith;
}

abbrev pub oval : Track toy
oval = record {
  id = 5;
  name = "oval";
  waypoints =
      record { x = pos 0; y = pos 0; z = pos 0 } ∷ record { x = pos 1; y = pos 0; z = pos 0 } ∷ [];
  spawns = record { x = pos 0; y = pos 0; z = pos 0 } ∷ [];
}

abbrev pub empty_race : Race toy
empty_race = new toy 1 oval (pos 0) (pos 0) (pos 0) 1_000

-- One player, 7, on the line.
abbrev pub one_player : Race toy
one_player = (add_player toy empty_race 7 (default_spec toy) 1_000 1_000).0

abbrev pub player_7 : PlayerState toy
player_7 = new_player toy empty_race 7 1_000 1_000

pub one_player-Inv : Inv one_player
unfolding new
one_player-Inv =
    add_player-Inv toy empty_race 7 (default_spec toy) 1_000 1_000
      (new-Live toy false 1 oval (pos 0) (pos 0) (pos 0) 1_000).inv
