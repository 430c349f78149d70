-- ===== src/Race/Manager/Cleanup.antt =====
-- What CleanupFinished of internal/race/manager.go does to the matches of the finished races.
use car_video_game_backend.Base.{
  ◌≡◌, refl, ap, ◌∙◌, [], ◌∷◌, Option, none, some, true, if◌then◌else◌, arith, Dict, lookup, Every,
}
use car_video_game_backend.Race.Floats.{Floats}
use car_video_game_backend.Race.Model.{Uuid, finished, Track, Race}
use car_video_game_backend.Race.Physics.{default_spec}
use car_video_game_backend.Race.Finish.{add_player_finished}
use car_video_game_backend.Race.Manager.{
  Manager, refused, panicked, Moment, get, race_of_match, add_to, register_player, has_finished,
  drop_finished, cleanup_finished,
}
use car_video_game_backend.Race.Manager.Registry.{At, WellFormed, leads_to}

module _ (fl : Floats) where
  drop_finished-lookup :
      (m : Manager fl) (id : Uuid) (races : Dict Uuid)
      → Every (λ k rid. (rid ≡ k) × At m rid) races
      → lookup id (drop_finished fl m races)
        ≡ (if has_finished fl m id then none else lookup id races)
  unfolding drop_finished lookup
  drop_finished-lookup m id [] h = ground arith
  drop_finished-lookup m id ((k, rid) ∷ rest) h =
      ground (arith, drop_finished-lookup m id rest h.1, h.0.0)

  -- After a cleanup of a well-formed manager, Get finds what it found before, but for the finished
  -- races.
  cleanup_finished-get :
      (m : Manager fl) (id : Uuid)
      → WellFormed m
      → get fl (cleanup_finished fl m) id ≡ (if has_finished fl m id then none else get fl m id)
  unfolding get cleanup_finished
  cleanup_finished-get m id w = drop_finished-lookup m id m.races w.races

  -- A match of a well-formed manager whose race has finished: a registration is refused while the
  -- manager still has the race. After a cleanup ByMatch answers yes with a nil race, and every
  -- registration for the match panics.
  pub register_player_after_cleanup :
      (m : Manager fl) (track_fn : Uuid → Option (Track fl)) (match_id pid rid : Uuid) (t : Moment)
      (r : Race fl)
      → WellFormed m
      → lookup match_id m.by_match ≡ some rid
      → lookup rid m.races ≡ some rid
      → lookup rid m.heap ≡ some r
      → r.status ≡ finished
      → ((register_player fl m track_fn match_id pid t).1 ≡ refused)
        × (race_of_match fl (cleanup_finished fl m) match_id ≡ (none, true))
        × (register_player fl (cleanup_finished fl m) track_fn match_id pid t
            ≡ (cleanup_finished fl m, panicked))
  unfolding register_player add_to cleanup_finished has_finished
  register_player_after_cleanup m track_fn match_id pid rid t r w routed listed at over =
      let before : race_of_match fl m match_id ≡ (some rid, true) =
        leads_to fl m match_id rid routed ∙ ap (λ o. (o, true)) listed in
      let gone : lookup rid (drop_finished fl m m.races) ≡ none =
        rw (drop_finished-lookup m rid m.races w.races) (rw (at, has_finished) (rw over refl)) in
      let after : race_of_match fl (cleanup_finished fl m) match_id ≡ (none, true) =
        leads_to fl (cleanup_finished fl m) match_id rid routed ∙ ap (λ o. (o, true)) gone in
      let full =
        add_player_finished fl r pid (default_spec fl) t.started_at t.lap_started_at over in
      (rw before (rw (at, add_to) (rw full refl)), after, rw after refl)
