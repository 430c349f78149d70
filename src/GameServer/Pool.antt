-- ===== src/GameServer/Pool.antt =====
-- broadcasterPool of cmd/game-server/main.go starts one broadcaster for every race.
use car_video_game_backend.Base.{
  ℕ, ◌+◌, ◌≡◌, refl, List, [], ◌∷◌, ◌++◌, some, Bool, true, false, ◌||◌, ◌==◌, if◌then◌else◌,
  lookup, lookup-insert, Bool-cases, inl, inr, arith,
}
use car_video_game_backend.Race.Floats.{Floats}
use car_video_game_backend.Race.Model.{Uuid}
use car_video_game_backend.Race.Manager.{Manager, list}
use car_video_game_backend.GameServer.{
  BroadcasterPool, new_broadcaster_pool, is_known, spawn, spawn_all, wire_new_races, watch_tick,
}

abbrev pub count : Uuid → List Uuid → ℕ
count id [] = 0
count id (j ∷ ids) = (if j == id then 1 else 0) + count id ids

abbrev pub has : Uuid → List Uuid → Bool
has id [] = false
has id (j ∷ ids) = j == id || has id ids

count-append :
    (id : Uuid) (ids : List Uuid) (j : Uuid)
    → count id (ids ++ j ∷ []) ≡ count id ids + (if j == id then 1 else 0)
count-append id [] j = ground arith
count-append id (i ∷ ids) j = ground (arith, count-append id ids j)

-- The known races are those that have been spawned, each once.
abbrev pub IsOnce : BroadcasterPool → Type 0
IsOnce p = (id : Uuid) → count id p.spawned ≡ (if is_known p id then 1 else 0)

spawn-IsOnce : (p : BroadcasterPool) (id : Uuid) → IsOnce p → IsOnce (spawn p id)
unfolding spawn
spawn-IsOnce p id h j = elim (Bool-cases (is_known p id)) [
  | inl y ↦ rw (spawn, y) (h j)
  | inr n ↦
      rw (spawn, n, count-append j p.spawned id, is_known, lookup-insert id j true p.known)
        (ground (arith, h j, n))
]

spawn_all-IsOnce : (p : BroadcasterPool) (ids : List Uuid) → IsOnce p → IsOnce (spawn_all p ids)
unfolding spawn_all
spawn_all-IsOnce p [] h = h
spawn_all-IsOnce p (id ∷ ids) h = spawn_all-IsOnce (spawn p id) ids (spawn-IsOnce p id h)

spawn_known :
    (p : BroadcasterPool) (id j : Uuid) → is_known (spawn p id) j ≡ is_known p j || id == j
unfolding spawn
spawn_known p id j = elim (Bool-cases (is_known p id)) [
  | inl y ↦ rw (spawn, y) (ground (arith, y))
  | inr n ↦ rw (spawn, n, is_known, lookup-insert id j true p.known) (ground (arith, n))
]

spawn_all_known :
    (p : BroadcasterPool) (ids : List Uuid) (j : Uuid)
    → is_known (spawn_all p ids) j ≡ is_known p j || has j ids
unfolding spawn_all
spawn_all_known p [] j = ground arith
spawn_all_known p (id ∷ ids) j =
    rw (spawn_all_known (spawn p id) ids j, spawn_known p id j) (ground arith)

module _ (fl : Floats) where
  list-has :
      (m : Manager fl) (order : List Uuid) (key rid : Uuid)
      → lookup key m.races ≡ some rid
      → has key order ≡ true
      → has rid (list fl m order) ≡ true
  unfolding list
  list-has m [] key rid at h = absurd (cc (h))
  list-has m (k ∷ order) key rid at h = elim (Bool-cases (k == key)) [
    | inl y ↦ ground (arith, at, y, h)
    | inr n ↦ ground (arith, list-has m order key rid at, n, h)
  ]

  -- The ticks of watch, each with the manager as it is then.
  unfoldable pub watch : BroadcasterPool → List (Manager fl × List Uuid) → BroadcasterPool
  watch p [] = p
  watch p ((m, order) ∷ turns) = watch (watch_tick fl p m order).0 turns

  watch-IsOnce :
      (p : BroadcasterPool) (turns : List (Manager fl × List Uuid))
      → IsOnce p
      → IsOnce (watch p turns)
  unfolding watch watch_tick wire_new_races
  watch-IsOnce p [] h = h
  watch-IsOnce p ((m, order) ∷ turns) h =
      watch-IsOnce (watch_tick fl p m order).0 turns (spawn_all-IsOnce p (list fl m order) h)

  -- After any ticks of watch, one more gives every race that the manager lists a broadcaster, if it
  -- has none yet: each has been started exactly once. That goes for the races too that the same tick
  -- removes as finished.
  pub watch_tick_spawns_once :
      (turns : List (Manager fl × List Uuid)) (m : Manager fl) (order : List Uuid) (key rid : Uuid)
      → lookup key m.races ≡ some rid
      → has key order ≡ true
      → count rid (watch_tick fl (watch new_broadcaster_pool turns) m order).0.spawned ≡ 1
  unfolding watch_tick wire_new_races new_broadcaster_pool lookup
  watch_tick_spawns_once turns m order key rid at h =
      let p = watch new_broadcaster_pool turns in
      let once : IsOnce (spawn_all p (list fl m order)) =
        spawn_all-IsOnce p (list fl m order)
          (watch-IsOnce new_broadcaster_pool turns (λ id. refl)) in
      rw (once rid, spawn_all_known p (list fl m order) rid, list-has m order key rid at h)
        (ground arith)
