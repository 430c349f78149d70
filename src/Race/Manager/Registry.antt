-- ===== src/Race/Manager/Registry.antt =====
-- What holds of the manager of internal/race/manager.go between two operations, and that NewRace
-- keeps it.
use car_video_game_backend.Base.{
  ◌≡◌, refl, ap, ◌∙◌, inl, inr, pos, Option, none, some, Bool, true, length, leb, ◌==◌,
  if◌then◌else◌, if-elim, arith, Option-cases, OnSome, lookup, insert, lookup-insert,
  lookup-insert_same, insert_keeps, Every, Every-insert, Every-map,
}
use car_video_game_backend.Race.Floats.{Floats}
use car_video_game_backend.Race.Model.{Uuid, Time, Track, CarSpec, PlayerState, Race}
use car_video_game_backend.Race.Roster.{is_finished_status, new, new_player, add_player}
use car_video_game_backend.Race.Invariant.{Inv, add_player_cases}
use car_video_game_backend.Race.Live.{Live}
use car_video_game_backend.Race.Finish.Once.{new-Live}
use car_video_game_backend.Race.Manager.{Manager, Moment, race_of_match, new_race}

-- A race is at this ID.
abbrev pub At : {fl : Floats} → Manager fl → Uuid → Type 0
At {fl} m rid = (r : Race fl) × (lookup rid m.heap ≡ some r)

pub record WellFormed {fl : Floats} (m : Manager fl) : Type 0 where
  pub heap : Every (λ rid r. (r.id ≡ rid) × Inv r) m.heap
  pub races : Every (λ id rid. (rid ≡ id) × At m rid) m.races
  pub matched : Every (λ match_id rid. At m rid) m.by_match

module _ (fl : Floats) where
  pub add_player-id :
      (r : Race fl) (pid : Uuid) (spec : CarSpec fl) (started lap_started : Time)
      → (add_player fl r pid spec started lap_started).0.id ≡ r.id
  add_player-id r pid spec started lap_started =
      add_player_cases fl (λ x. x.id ≡ r.id) r pid spec started lap_started refl (λ _ _. refl)

  -- A player that AddPlayer says is in is in.
  pub add_player_in :
      (r : Race fl) (pid : Uuid) (spec : CarSpec fl) (started lap_started : Time)
      → (add_player fl r pid spec started lap_started).1 ≡ true
      → (p : PlayerState fl) × (lookup pid (add_player fl r pid spec started lap_started).0.players
          ≡ some p)
  unfolding add_player
  add_player_in r pid spec started lap_started =
      if-elim In (is_finished_status r.status) (λ _ e. absurd (cc (e)))
        (λ _.
          if-elim In (leb r.max_players (length r.players)) (λ _ e. absurd (cc (e)))
            (λ _. elim (Option-cases (lookup pid r.players)) [
              | inl e ↦ rw e (λ _.
                  let p = new_player fl r pid started lap_started in
                  (p, lookup-insert_same pid p r.players))
              | inr (q, e) ↦ rw e (λ _. (q, e))
            ]))
    where
      In : Race fl × Bool → Type 0
      In x = x.1 ≡ true → (p : PlayerState fl) × (lookup pid x.0.players ≡ some p)

  -- Another race at an ID leaves a race at every ID that had one.
  At-insert :
      (m : Manager fl) (rid : Uuid) (r : Race fl) (j : Uuid)
      → At m j
      → At (record m { heap = insert rid r m.heap }) j
  At-insert m rid r j at = insert_keeps rid j r m.heap at

  -- What is at an ID, but for the race at `rid`.
  abbrev pub but_for : Uuid → Manager fl → Uuid → Option (Race fl)
  but_for rid m j = if rid == j then none else lookup j m.heap

  pub store-WellFormed :
      (m : Manager fl) (rid : Uuid) (r : Race fl)
      → r.id ≡ rid
      → Inv r
      → WellFormed m
      → WellFormed (record m { heap = insert rid r m.heap })
  store-WellFormed m rid r e v w = record {
    heap = Every-insert _ rid r m.heap (e, v) w.heap;
    races = Every-map (λ k p h. (h.0, At-insert m rid r p h.1)) m.races w.races;
    matched = Every-map (λ k p h. At-insert m rid r p h) m.by_match w.matched;
  }

  pub leads_to :
      (m : Manager fl) (match_id rid : Uuid)
      → lookup match_id m.by_match ≡ some rid
      → race_of_match fl m match_id ≡ (lookup rid m.races, true)
  unfolding race_of_match
  leads_to m match_id rid e = rw (e, race_of_match) refl

  -- A new race is well-formed, is what its match leads to, and is the only change of the heap.
  pub record Made (m : Manager fl) (match_id : Uuid) (made : Manager fl × Uuid) : Type 0 where
    pub formed : WellFormed made.0
    pub routed : race_of_match fl made.0 match_id ≡ (some made.1, true)
    pub others : (j : Uuid) → but_for made.1 made.0 j ≡ but_for made.1 m j

  pub new_race-Made :
      (m : Manager fl) (track_fn : Uuid → Option (Track fl)) (match_id : Uuid) (t : Moment)
      → WellFormed m
      → OnSome (Made m match_id) (new_race fl m track_fn match_id t)
  unfolding new_race race_of_match new
  new_race-Made m track_fn match_id t w = elim (Option-cases (track_fn match_id)) [
    | inl e ↦ rw (e, new_race) tt
    | inr (track, e) ↦
        rw (e, new_race)
          (let r =
              record (new fl t.new_id track (pos m.tick_hz) (pos m.max_laps) (pos m.max_players)
                t.created_at) { on_finish = m.on_finish } in
            let live : Live m.on_finish r = new_Live track in
            let stored = store-WellFormed m t.new_id r refl live.inv w in
            let here : At (record m { heap = insert t.new_id r m.heap }) t.new_id =
              (r, lookup-insert_same t.new_id r m.heap) in
            let made : Manager fl = record m {
              heap = insert t.new_id r m.heap;
              races = insert t.new_id t.new_id m.races;
              by_match = insert match_id t.new_id m.by_match;
            } in
            record {
              formed = record {
                heap = stored.heap;
                races =
                    Every-insert
                      (λ id rid. (rid ≡ id) × At (record m { heap = insert t.new_id r m.heap }) rid)
                      t.new_id t.new_id m.races (refl, here) stored.races;
                matched =
                    Every-insert
                      (λ match_id rid. At (record m { heap = insert t.new_id r m.heap }) rid)
                      match_id t.new_id m.by_match here stored.matched;
              };
              routed =
                  leads_to made match_id t.new_id (lookup-insert_same match_id t.new_id m.by_match)
                  ∙ ap (λ o. (o, true)) (lookup-insert_same t.new_id t.new_id m.races);
              others = λ j.
                  ap (λ o. if t.new_id == j then none else o) (lookup-insert t.new_id j r m.heap)
                  ∙ (ground arith);
            })
  ]
    where
      new_Live :
          (track : Track fl)
          → Live m.on_finish
              (record (new fl t.new_id track
                (pos m.tick_hz)
                (pos m.max_laps)
                (pos m.max_players)
                t.created_at) { on_finish = m.on_finish })
      new_Live track =
          new-Live fl m.on_finish t.new_id track (pos m.tick_hz) (pos m.max_laps)
            (pos m.max_players) t.created_at
