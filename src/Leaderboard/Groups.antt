-- ===== src/Leaderboard/Groups.antt =====
-- The groups of the queries in internal/leaderboard/repo.go, by player and in order.
use car_video_game_backend.Base.{
  ℕ, ◌≤◌, min, ◌≡◌, inl, inr, refl, ◌∙◌, subst, List, [], ◌∷◌, Option, none, some, some-injective,
  ltb, ◌==◌, if◌then◌else◌, Dict, lookup, insert, lookup-insert, All, All-map, Bool-cases, if-elim,
  arith, ==_refl, ==_iff,
}
use car_video_game_backend.Race.Model.{Uuid}
use car_video_game_backend.Leaderboard.{LapRow, Best, merge, group, insert_asc, order_by_lap}

-- The best lap of a player, read off the laps one by one.
abbrev pub best_of : List LapRow → Uuid → Option ℕ
best_of [] q = none
best_of (l ∷ ls) q =
    if l.player_id == q
    then some (elim (best_of ls q) [ none ↦ l.lap | some old ↦ min l.lap old ])
    else best_of ls q

abbrev pub lap_of : Option Best → Option ℕ
lap_of none = none
lap_of (some b) = some b.lap

merge_lap :
    (l : LapRow) (o : Option Best)
    → (merge l o).lap ≡ (elim (lap_of o) [ none ↦ l.lap | some old ↦ min l.lap old ])
merge_lap l none = refl
merge_lap l (some b) = refl

pub lookup-group : (ls : List LapRow) (q : Uuid) → lap_of (lookup q (group ls)) ≡ best_of ls q
unfolding group lookup
lookup-group [] q = refl
lookup-group (l ∷ ls) q = elim (Bool-cases (l.player_id == q)) [
  | inl y ↦
      rw
        (
          group,
          lookup-insert l.player_id q (merge l (lookup l.player_id (group ls))) (group ls),
          y,
          merge_lap l (lookup l.player_id (group ls)),
          lookup-group ls l.player_id,
          (==_iff l.player_id q).0 y,
        )
        refl
  | inr n ↦
      rw
        (group, lookup-insert l.player_id q (merge l (lookup l.player_id (group ls))) (group ls), n)
        (lookup-group ls q)
]

-- A table in which every entry is the one that its key finds.
abbrev IsKeyed : Dict Best → Type 0
IsKeyed [] = Unit
IsKeyed ((k, b) ∷ m) = (lookup k m ≡ none) × IsKeyed m

insert-IsKeyed : (k : Uuid) (b : Best) (m : Dict Best) → IsKeyed m → IsKeyed (insert k b m)
unfolding insert lookup
insert-IsKeyed k b [] h = (refl, tt)
insert-IsKeyed k b ((j, c) ∷ m) h =
    if-elim IsKeyed (j == k) (λ y. (subst (λ x. lookup x m ≡ none) ((==_iff j k).0 y) h.0, h.1))
      (λ n. (rw (lookup-insert k j b m) (ground (arith, n, h.0)), insert-IsKeyed k b m h.1))

pub group-IsKeyed : (ls : List LapRow) → IsKeyed (group ls)
unfolding group
group-IsKeyed [] = tt
group-IsKeyed (l ∷ ls) =
    insert-IsKeyed l.player_id (merge l (lookup l.player_id (group ls))) (group ls)
      (group-IsKeyed ls)

-- A group is found under its key.
pub found : (m : Dict Best) → IsKeyed m → All (λ g. lookup g.0 m ≡ some g.1) m
unfolding lookup
found [] h = tt
found ((k, b) ∷ m) h = (
  ground (arith, ==_refl k),
  All-map (λ g. lookup g.0 m ≡ some g.1) (λ g. lookup g.0 ((k, b) ∷ m) ≡ some g.1) m
      (λ g e. elim (Bool-cases (k == g.0)) [
        | inl y ↦ absurd (cc (h.0, e, (==_iff k g.0).0 y))
        | inr n ↦ ground (arith, n, e)
      ])
      (found m h.1),
)

All-insert_asc :
    (P : Uuid × Best → Type 0) (g : Uuid × Best) (rows : List (Uuid × Best))
    → P g
    → All P rows
    → All P (insert_asc g rows)
unfolding insert_asc
All-insert_asc P g [] p ps = (p, tt)
All-insert_asc P g (h ∷ rows) p ps =
    if-elim (All P) (ltb h.1.lap g.1.lap) (λ y. (ps.0, All-insert_asc P g rows p ps.1))
      (λ n. (p, ps))

pub All-order_by_lap : (P : Uuid × Best → Type 0) (m : Dict Best) → All P m → All P (order_by_lap m)
unfolding order_by_lap
All-order_by_lap P [] h = tt
All-order_by_lap P (g ∷ m) h = All-insert_asc P g (order_by_lap m) h.0 (All-order_by_lap P m h.1)

abbrev pub IsRising : List (Uuid × Best) → Type 0
IsRising [] = Unit
IsRising (g ∷ rows) = All (λ h. g.1.lap ≤ h.1.lap) rows × IsRising rows

insert_asc-IsRising :
    (g : Uuid × Best) (rows : List (Uuid × Best)) → IsRising rows → IsRising (insert_asc g rows)
unfolding insert_asc
insert_asc-IsRising g [] h = (tt, tt)
insert_asc-IsRising g (k ∷ rows) h =
    if-elim IsRising (ltb k.1.lap g.1.lap)
      (λ y. (
        All-insert_asc (λ j. k.1.lap ≤ j.1.lap) g rows (ground (arith, y)) h.0,
        insert_asc-IsRising g rows h.1,
      ))
      (λ n.
        let first : g.1.lap ≤ k.1.lap = ground (arith, n) in
        (
          (
            first,
            All-map (λ j. k.1.lap ≤ j.1.lap) (λ j. g.1.lap ≤ j.1.lap) rows
                (λ j le. omega (arith, first, le)) h.0,
          ),
          h,
        ))

pub order_by_lap-IsRising : (m : Dict Best) → IsRising (order_by_lap m)
unfolding order_by_lap
order_by_lap-IsRising [] = tt
order_by_lap-IsRising (g ∷ m) = insert_asc-IsRising g (order_by_lap m) (order_by_lap-IsRising m)

-- Sorting leaves every group under its key.
lookup-insert_asc :
    (k : Uuid) (b : Best) (rows : List (Uuid × Best)) (q : Uuid)
    → lookup k rows ≡ none
    → lookup q (insert_asc (k, b) rows) ≡ (if k == q then some b else lookup q rows)
unfolding insert_asc lookup
lookup-insert_asc k b [] q h = refl
lookup-insert_asc k b ((j, c) ∷ rows) q h = elim (Bool-cases (j == k)) [
  | inl y ↦ absurd (ground (arith, y, h))
  | inr n ↦
      let rest : lookup k rows ≡ none = ground (arith, n, h) in
      if-elim (λ found. lookup q found ≡ (if k == q then some b else lookup q ((j, c) ∷ rows)))
        (ltb c.lap b.lap) (λ y. rw (lookup-insert_asc k b rows q rest) (ground (arith, n)))
        (λ less. refl)
]

pub lookup-order_by_lap :
    (m : Dict Best) (q : Uuid) → IsKeyed m → lookup q (order_by_lap m) ≡ lookup q m
unfolding order_by_lap lookup
lookup-order_by_lap [] q h = refl
lookup-order_by_lap ((k, b) ∷ m) q h =
    rw
      (
        lookup-insert_asc k b (order_by_lap m) q (lookup-order_by_lap m k h.1 ∙ h.0),
        lookup-order_by_lap m q h.1,
      )
      refl

pub lookup_all :
    (P : Best → Type 0) (rows : List (Uuid × Best)) (q : Uuid) {b : Best}
    → All (λ g. P g.1) rows
    → lookup q rows ≡ some b
    → P b
unfolding lookup
lookup_all P [] q h e = absurd (cc (e))
lookup_all P ((k, c) ∷ rows) q {b} h e = elim (Bool-cases (k == q)) [
  | inl y ↦ subst P (some-injective _ _ (ground (arith, y, e))) h.0
  | inr n ↦ lookup_all P rows q h.1 (ground (arith, n, e))
]
