-- ===== src/Race/Frame.antt =====
-- What the operations of a tick leave alone: all of a race but its players, its events and its
-- finish order.
use car_video_game_backend.Base.{ℕ, ◌≡◌, refl, List, [], ◌∷◌, arith, OnSome, OnSome-map}
use car_video_game_backend.Race.Floats.{Floats}
use car_video_game_backend.Race.Model.{Uuid, Time, PlayerState, InputMsg, Race}
use car_video_game_backend.Race.Physics.{OnSome-bind}
use car_video_game_backend.Race.Tick.{
  apply_input_locked, detect, advance_player, advance_player_cases, advance_tick,
}

module _ (fl : Floats) where
  -- The second race is the first with other players, events and finish order.
  abbrev pub Reframed : Race fl → Race fl → Type 0
  Reframed r r' =
      r' ≡ record r { players = r'.players; events = r'.events; finished_order = r'.finished_order }

  pub detect-Reframed :
      (r : Race fl) (pid : ℕ) (p : PlayerState fl) (tick now : ℕ)
      → Reframed r (detect fl r pid p tick now)
  unfolding detect
  detect-Reframed r pid p tick now = ground arith

  pub apply_input_locked-Reframed :
      (r : Race fl) (m : InputMsg fl) → Reframed r (apply_input_locked fl r m)
  unfolding apply_input_locked
  apply_input_locked-Reframed r m = ground arith

  pub Reframed-trans : (r s t : Race fl) → Reframed r s → Reframed s t → Reframed r t
  Reframed-trans r s t h k = ground arith

  pub advance_player-Reframed :
      (fuel : ℕ) (r : Race fl) (dt : fl.F64) (tick now pid : ℕ)
      → OnSome (Reframed r) (advance_player fl fuel r dt tick now pid)
  advance_player-Reframed fuel r dt tick now pid =
      advance_player_cases fl (OnSome (Reframed r)) fuel r dt tick now pid refl (λ _ _ _ _. tt)
        λ p q e going s. detect-Reframed r pid q tick now

  pub advance_tick-Reframed :
      (fuel : ℕ) (order : List Uuid) (clock : Uuid → Time) (r : Race fl) (dt : fl.F64) (tick : ℕ)
      → OnSome (Reframed r) (advance_tick fl fuel order clock r dt tick)
  unfolding advance_tick
  advance_tick-Reframed fuel [] clock r dt tick = refl
  advance_tick-Reframed fuel (pid ∷ order) clock r dt tick =
      OnSome-bind (Reframed r) (Reframed r) (advance_player fl fuel r dt tick (clock pid) pid) _
        (advance_player-Reframed fuel r dt tick (clock pid) pid)
        λ r' h.
          OnSome-map (Reframed r') (Reframed r) (advance_tick fl fuel order clock r' dt tick)
            (λ t k. Reframed-trans r r' t h k) (advance_tick-Reframed fuel order clock r' dt tick)
