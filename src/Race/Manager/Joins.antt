-- ===== src/Race/Manager/Joins.antt =====
-- What RegisterPlayer of internal/race/manager.go does: a match leads to one race, which takes the
-- player in.
use car_video_game_backend.Base.{
  ◌≡◌, refl, ap, subst, ◌∙◌, inl, inr, Option, none, some, Bool, true, false, ◌==◌, if◌then◌else◌,
  if-elim, arith, Option-cases, OnSome-some, lookup, insert, lookup-insert, lookup-insert_same,
  Every-lookup,
}
use car_video_game_backend.Race.Floats.{Floats}
use car_video_game_backend.Race.Model.{Uuid, Track, PlayerState, Race}
use car_video_game_backend.Race.Physics.{default_spec}
use car_video_game_backend.Race.Roster.{add_player}
use car_video_game_backend.Race.Invariant.{Inv, add_player-Inv}
use car_video_game_backend.Race.Manager.{
  Manager, Registered, joined, refused, Moment, race_of_match, new_race, add_to, register_player,
}
use car_video_game_backend.Race.Manager.Registry.{
  WellFormed, but_for, Made, add_player-id, add_player_in, store-WellFormed, new_race-Made,
}

module _ (fl : Floats) where
  -- What a match leads to after a registration that says `joined rid`.
  record Joins (m : Manager fl) (match_id pid : Uuid) (m' : Manager fl) (rid : Uuid) : Type 0 where
    race : Race fl
    player : PlayerState fl
    routed : race_of_match fl m' match_id ≡ (some rid, true)
    at : lookup rid m'.heap ≡ some race
    inside : lookup pid race.players ≡ some player
    others : (j : Uuid) → but_for fl rid m' j ≡ but_for fl rid m j

  joined_only :
      (b : Bool) (rid rid' : Uuid)
      → (if b then joined rid else refused) ≡ joined rid'
      → (b ≡ true) × (rid ≡ rid')
  joined_only true rid rid' e = (refl, cc e)
  joined_only false rid rid' e = absurd (cc (e))

  abbrev Outcome : Manager fl → Uuid → Uuid → Manager fl × Registered → Type 0
  Outcome m match_id pid out =
      WellFormed out.0 × ((rid : Uuid) → out.1 ≡ joined rid → Joins m match_id pid out.0 rid)

  add_to-Outcome :
      (m : Manager fl) (match_id pid rid : Uuid) (t : Moment)
      → WellFormed m
      → race_of_match fl m match_id ≡ (some rid, true)
      → Outcome m match_id pid (add_to fl m (some rid) pid t)
  unfolding add_to race_of_match
  add_to-Outcome m match_id pid rid t w e = elim (Option-cases (lookup rid m.heap)) [
    | inl f ↦ rw (f, add_to) (w, λ _ g. absurd (cc (g)))
    | inr (r, f) ↦
        rw (f, add_to)
          (let added = add_player fl r pid (default_spec fl) t.started_at t.lap_started_at in
            let here = Every-lookup (λ k x. (x.id ≡ k) × Inv x) rid m.heap w.heap f in
            (
              store-WellFormed fl m rid added.0
                  (add_player-id fl r pid (default_spec fl) t.started_at t.lap_started_at ∙ here.0)
                  (add_player-Inv fl r pid (default_spec fl) t.started_at t.lap_started_at here.1)
                  w,
              λ rid' g.
                  let (is_in, same) = joined_only added.1 rid rid' g in
                  let (p, inside) =
                    add_player_in fl r pid (default_spec fl) t.started_at t.lap_started_at is_in in
                  subst (Joins m match_id pid (record m { heap = insert rid added.0 m.heap })) same
                    (record {
                      race = added.0;
                      player = p;
                      routed = e;
                      at = lookup-insert_same rid added.0 m.heap;
                      inside = inside;
                      others = λ j.
                          ap (λ o. if rid == j then none else o)
                            (lookup-insert rid j added.0 m.heap)
                          ∙ (ground arith);
                    }),
            ))
  ]

  add_to_same :
      (m : Manager fl) (rid rid' pid : Uuid) (t : Moment)
      → (add_to fl m (some rid) pid t).1 ≡ joined rid'
      → rid ≡ rid'
  unfolding add_to
  add_to_same m rid rid' pid t = elim (Option-cases (lookup rid m.heap)) [
    | inl f ↦ rw (f, add_to) (λ g. absurd (cc (g)))
    | inr (r, f) ↦
        rw (f, add_to)
          (λ g.
            (joined_only (add_player fl r pid (default_spec fl) t.started_at t.lap_started_at).1 rid
              rid' g).1)
  ]

  Joins-from :
      (m s : Manager fl) (match_id pid : Uuid) (m' : Manager fl) (rid : Uuid)
      → ((j : Uuid) → but_for fl rid s j ≡ but_for fl rid m j)
      → Joins s match_id pid m' rid
      → Joins m match_id pid m' rid
  Joins-from m s match_id pid m' rid h k = record {
    race = k.race;
    player = k.player;
    routed = k.routed;
    at = k.at;
    inside = k.inside;
    others = λ j. k.others j ∙ h j;
  }

  register_player-Outcome :
      (m : Manager fl) (track_fn : Uuid → Option (Track fl)) (match_id pid : Uuid) (t : Moment)
      → WellFormed m
      → Outcome m match_id pid (register_player fl m track_fn match_id pid t)
  unfolding register_player add_to
  register_player-Outcome m track_fn match_id pid t w =
      if-elim (Outcome m match_id pid) (race_of_match fl m match_id).1
        (λ ok.
          found (race_of_match fl m match_id).0 (ap (λ b. ((race_of_match fl m match_id).0, b)) ok))
        (λ _. elim (Option-cases (new_race fl m track_fn match_id t)) [
          | inl e ↦ rw e (w, λ _ g. absurd (cc (g)))
          | inr (made, e) ↦ rw e (
              let h =
                OnSome-some (Made fl m match_id) _ (new_race-Made fl m track_fn match_id t w) e in
              let (formed, joins) = add_to-Outcome made.0 match_id pid made.1 t h.formed h.routed in
              (
                formed,
                λ rid g.
                    let same = add_to_same made.0 made.1 rid pid t g in
                    Joins-from m made.0 match_id pid _ rid
                      (subst (λ k. (j : Uuid) → but_for fl k made.0 j ≡ but_for fl k m j) same
                        h.others)
                      (joins rid g),
              ))
        ])
    where
      found :
          (o : Option Uuid)
          → race_of_match fl m match_id ≡ (o, true)
          → Outcome m match_id pid (add_to fl m o pid t)
      found none e = (w, λ _ g. absurd (cc (g)))
      found (some rid) e = add_to-Outcome m match_id pid rid t w e

  -- A registration on a well-formed manager that returns a race: the manager is still well-formed,
  -- the match leads to that race, the player is in it, and every other race is as it was.
  pub register_player_joins :
      (m : Manager fl) (track_fn : Uuid → Option (Track fl)) (match_id pid : Uuid) (t : Moment)
      {m' : Manager fl} {rid : Uuid}
      → WellFormed m
      → register_player fl m track_fn match_id pid t ≡ (m', joined rid)
      → WellFormed m'
        × (r : Race fl) × (p : PlayerState fl) × (race_of_match fl m' match_id ≡ (some rid, true))
        × (lookup rid m'.heap ≡ some r)
        × (lookup pid r.players ≡ some p)
        × ((j : Uuid)
            → (if rid == j then none else lookup j m'.heap)
              ≡ (if rid == j then none else lookup j m.heap))
  register_player_joins m track_fn match_id pid t {m'} {rid} w e =
      let (formed, joins) : Outcome m match_id pid (m', joined rid) =
        subst (Outcome m match_id pid) e (register_player-Outcome m track_fn match_id pid t w) in
      let k = joins rid refl in (formed, k.race, k.player, k.routed, k.at, k.inside, k.others)
