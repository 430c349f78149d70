-- ===== src/Race/Frozen.antt =====
-- A finished race stays as it is.
use car_video_game_backend.Base.{
  ℕ, ◌≡◌, refl, ◌∙◌, List, [], ◌∷◌, ◌++◌, Option, some, false, length, ltb, if-elim, drop,
}
use car_video_game_backend.Race.Floats.{Floats}
use car_video_game_backend.Race.Model.{finished, JoinMsg, LeaveMsg, InputMsg, WorldSnapshot, Race}
use car_video_game_backend.Race.Roster.{
  add_player, apply_input, enqueue_join, enqueue_leave, final_results,
}
use car_video_game_backend.Race.Loop.Process.{
  Action, runs, adds, inputs, joins, leaves, reads, Process, on_race, act, act_all,
}
use car_video_game_backend.Race.Finish.{add_player_finished}

-- What a finished race keeps.
pub record Kept {fl : Floats} (s s' : Process fl) : Type 0 where
  pub stopped : s'.running ≡ false
  pub status : s'.loop.race.status ≡ finished
  pub players : s'.loop.race.players ≡ s.loop.race.players
  pub order : s'.loop.race.finished_order ≡ s.loop.race.finished_order
  pub results : final_results fl s'.loop.race ≡ final_results fl s.loop.race
  pub callbacks : s'.callbacks ≡ s.callbacks
  pub log : s'.log ≡ s.log

module _ (fl : Floats) where
  Kept-trans : (s t u : Process fl) → Kept s t → Kept t u → Kept s u
  Kept-trans s t u h k = record {
    stopped = k.stopped;
    status = k.status;
    players = k.players ∙ h.players;
    order = k.order ∙ h.order;
    results = k.results ∙ h.results;
    callbacks = k.callbacks ∙ h.callbacks;
    log = k.log ∙ h.log;
  }

  channels-Kept :
      (s : Process fl) (js : List (JoinMsg fl)) (ls : List LeaveMsg) (is : List (InputMsg fl))
      (ss : List (WorldSnapshot fl))
      → s.running ≡ false
      → s.loop.race.status ≡ finished
      → Kept s (
          on_race fl
            (λ r. record r { join_msg = js; leave_msg = ls; input_ch = is; snapshot_out = ss })
            s)
  unfolding final_results
  channels-Kept s js ls is ss h e = record {
    stopped = h;
    status = e;
    players = refl;
    order = refl;
    results = refl;
    callbacks = refl;
    log = refl;
  }

  Kept-refl : (s : Process fl) → s.running ≡ false → s.loop.race.status ≡ finished → Kept s s
  Kept-refl s h e =
      channels-Kept s s.loop.race.join_msg s.loop.race.leave_msg s.loop.race.input_ch
        s.loop.race.snapshot_out h e

  act_stopped :
      (fuel : ℕ) (a : Action fl) (s : Process fl)
      → s.running ≡ false
      → s.loop.race.status ≡ finished
      → (s' : Process fl) × (act fl fuel a s ≡ some s') × Kept s s'
  unfolding act apply_input enqueue_join enqueue_leave final_results
  act_stopped fuel (runs t) s h e =
      if-elim (λ (o : Option (Process fl)). (s' : Process fl) × (o ≡ some s') × Kept s s') s.running
        (λ k. absurd (cc h)) (λ _. (s, refl, Kept-refl s h e))
  act_stopped fuel (adds pid spec started lap_started) s h e =
      let same : add_player fl s.loop.race pid spec started lap_started ≡ (s.loop.race, false) =
        add_player_finished fl s.loop.race pid spec started lap_started e in
      (
        on_race fl (λ r. (add_player fl r pid spec started lap_started).0) s,
        refl,
        record {
          stopped = h;
          status = rw same e;
          players = rw same refl;
          order = rw same refl;
          results = rw same refl;
          callbacks = refl;
          log = refl;
        },
      )
  act_stopped fuel (inputs m) s h e =
      let r = s.loop.race in
      (
        on_race fl (λ x. apply_input fl x m) s,
        refl,
        if-elim (λ (x : Race fl). Kept s (on_race fl (λ _. x) s)) (ltb (length r.input_ch) 256)
            (λ _. channels-Kept s r.join_msg r.leave_msg (r.input_ch ++ m ∷ []) r.snapshot_out h e)
            (λ _. Kept-refl s h e),
      )
  act_stopped fuel (joins m) s h e =
      let r = s.loop.race in
      (
        on_race fl (λ x. enqueue_join fl x m) s,
        refl,
        if-elim (λ (x : Race fl). Kept s (on_race fl (λ _. x) s)) (ltb (length r.join_msg) 8)
            (λ _. channels-Kept s (r.join_msg ++ m ∷ []) r.leave_msg r.input_ch r.snapshot_out h e)
            (λ _. Kept-refl s h e),
      )
  act_stopped fuel (leaves m) s h e =
      let r = s.loop.race in
      (
        on_race fl (λ x. enqueue_leave fl x m) s,
        refl,
        if-elim (λ (x : Race fl). Kept s (on_race fl (λ _. x) s)) (ltb (length r.leave_msg) 8)
            (λ _. channels-Kept s r.join_msg (r.leave_msg ++ m ∷ []) r.input_ch r.snapshot_out h e)
            (λ _. Kept-refl s h e),
      )
  act_stopped fuel reads s h e =
      let r = s.loop.race in
      (
        on_race fl (λ x. record x { snapshot_out = drop 1 x.snapshot_out }) s,
        refl,
        channels-Kept s r.join_msg r.leave_msg r.input_ch (drop 1 r.snapshot_out) h e,
      )

  -- Once a race has finished and its loop has returned, no further actions of any kind change
  -- its players, its finish order, its results, its callbacks or its log; and each of them returns.
  pub finished_race_frozen :
      (fuel : ℕ) (actions : List (Action fl)) (s : Process fl)
      → s.running ≡ false
      → s.loop.race.status ≡ finished
      → (s' : Process fl) × (act_all fl fuel actions s ≡ some s') × Kept s s'
  unfolding act_all
  finished_race_frozen fuel [] s h e = (s, refl, Kept-refl s h e)
  finished_race_frozen fuel (a ∷ actions) s h e =
      let (t, d, k) = act_stopped fuel a s h e in
      let (s', d', k') = finished_race_frozen fuel actions t k.stopped k.status in
      (s', rw (d, act_all) d', Kept-trans s t s' k k')
