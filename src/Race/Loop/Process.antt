-- ===== src/Race/Loop/Process.antt =====
-- A race in its process: internal/race/manager.go's Run, and the calls of race.go that other
-- goroutines make while it runs, as steps.
use car_video_game_backend.Base.{
  ℕ, List, [], ◌∷◌, ◌++◌, Option, none, some, Bool, true, false, if◌then◌else◌, drop,
}
use car_video_game_backend.Race.Floats.{Floats}
use car_video_game_backend.Race.Model.{
  Uuid, Time, CarSpec, JoinMsg, LeaveMsg, InputMsg, Event, Race,
}
use car_video_game_backend.Race.Physics.{◌>>=◌}
use car_video_game_backend.Race.Roster.{add_player, apply_input, enqueue_join, enqueue_leave}
use car_video_game_backend.Race.Loop.{Readings, Loop, Round, round}

-- What may happen to a running race: a round of its loop, a call of another goroutine, or the
-- broadcaster's receive from its snapshots (internal/networking/broadcast.go).
pub data Action (fl : Floats) : Type 0 where
  runs : Readings → Action fl
  adds : (player_id : Uuid) → CarSpec fl → (started lap_started : Time) → Action fl
  inputs : InputMsg fl → Action fl
  joins : JoinMsg fl → Action fl
  leaves : LeaveMsg → Action fl
  reads : Action fl

-- A race in its process: the loop, whether it still runs, the events drained so far, and the
-- races that the callback was given, in order.
pub record Process (fl : Floats) : Type 0 where
  pub loop : Loop fl
  pub running : Bool
  pub log : List Event
  pub callbacks : List (Race fl)

abbrev pub to_list {ℓ} : {A : Type ℓ} → Option A → List A
to_list none = []
to_list (some a) = a ∷ []

module _ (fl : Floats) where
  abbrev pub on_race : (Race fl → Race fl) → Process fl → Process fl
  on_race f s = record s { loop = record s.loop { race = f s.loop.race } }

  -- go r.Run(ctx)
  unfoldable pub launch : Race fl → Process fl
  launch r = record {
    loop = record { race = r; tick_idx = 0; started = false; last_empty = 0 };
    running = true;
    log = [];
    callbacks = [];
  }

  abbrev pub after_round : Process fl → Round fl → Process fl
  after_round s rd = record {
    loop = rd.loop;
    running = rd.running;
    log = s.log ++ rd.drained;
    callbacks = s.callbacks ++ to_list rd.callback;
  }

  unfoldable pub act : ℕ → Action fl → Process fl → Option (Process fl)
  act fuel (runs t) s =
      if s.running then (do rd ← round fl fuel t s.loop; some (after_round s rd)) else some s
  act fuel (adds pid spec started lap_started) s =
      some (on_race (λ r. (add_player fl r pid spec started lap_started).0) s)
  act fuel (inputs m) s = some (on_race (λ r. apply_input fl r m) s)
  act fuel (joins m) s = some (on_race (λ r. enqueue_join fl r m) s)
  act fuel (leaves m) s = some (on_race (λ r. enqueue_leave fl r m) s)
  act fuel reads s = some (on_race (λ r. record r { snapshot_out = drop 1 r.snapshot_out }) s)

  unfoldable pub act_all : ℕ → List (Action fl) → Process fl → Option (Process fl)
  unfolding act
  act_all fuel [] s = some s
  act_all fuel (a ∷ actions) s = do s' ← act fuel a s; act_all fuel actions s'
