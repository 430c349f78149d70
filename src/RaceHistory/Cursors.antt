-- ===== src/RaceHistory/Cursors.antt =====
-- The rows before a cursor, in internal/racehistory/repo.go.
use car_video_game_backend.Base.{
  ◌≢◌, ◌≤◌, lookup, ltb, if-elim, some-injective, ℕ, zero, suc, ◌<◌, ◌≡◌, refl, ap, subst, List, [],
  ◌∷◌, ◌++◌, Option, none, some, false, ◌==◌, length, take, drop, map, All, All-map, arith,
}
use car_video_game_backend.Race.Model.{Uuid, Time}
use car_video_game_backend.Results.{RaceTables, ResultRow, Pairs}
use car_video_game_backend.RaceHistory.{
  Names, HistoryRow, scan, insert_desc, insert_all, join_race, rows_of, before, last_race,
  cursor_of,
}

-- Rows by falling finish times, no two of them the same.
abbrev pub IsFalling : List HistoryRow → Type 0
IsFalling [] = Unit
IsFalling (h ∷ rows) = All (λ g. g.finished_at < h.finished_at) rows × IsFalling rows

-- The rows of a page, and the cursor that the page ends with.
abbrev pub next : ℕ → List HistoryRow → Option Time
next n hs = cursor_of (last_race (map scan (take n hs)))

abbrev pub IsBelow : Time → List HistoryRow → Type 0
IsBelow c = All (λ g. g.finished_at < c)

pub last_cursor :
    (h : HistoryRow) (rows : List HistoryRow)
    → (c : Time) × (cursor_of (last_race (map scan (h ∷ rows))) ≡ some c)
last_cursor h [] = (h.finished_at, refl)
last_cursor h (g ∷ rows) = last_cursor g rows

pub next_below :
    (n : ℕ) (hs : List HistoryRow) (b c : Time) → IsBelow b hs → next n hs ≡ some c → c < b
next_below zero hs b c h e = absurd (cc (e))
next_below (suc n) [] b c h e = absurd (cc (e))
next_below (suc zero) (g ∷ hs) b c h e = subst (λ x. x < b) (some-injective _ _ e) h.0
next_below (suc (suc n)) (g ∷ []) b c h e = subst (λ x. x < b) (some-injective _ _ e) h.0
next_below (suc (suc n)) (g ∷ k ∷ hs) b c h e = next_below (suc n) (k ∷ hs) b c h.1 e

pub before_all : (c : Time) (hs : List HistoryRow) → IsBelow c hs → before (some c) hs ≡ hs
unfolding before
before_all c [] h = refl
before_all c (g ∷ hs) h = ground (arith, before_all c hs h.1, h.0)

pub before-IsBelow : (c : Time) (hs : List HistoryRow) → IsBelow c (before (some c) hs)
unfolding before
before-IsBelow c [] = tt
before-IsBelow c (g ∷ hs) =
    if-elim (IsBelow c) (ltb g.finished_at c) (λ y. (ground (arith, y), before-IsBelow c hs))
      (λ n. before-IsBelow c hs)

pub before-before :
    (c x : Time) (hs : List HistoryRow)
    → c < x
    → before (some c) (before (some x) hs) ≡ before (some c) hs
unfolding before
before-before c x [] h = refl
before-before c x (g ∷ hs) h = ground (arith, before-before c x hs h, h)

pub IsBelow-before :
    (b c : Time) (hs : List HistoryRow) → IsBelow b hs → IsBelow b (before (some c) hs)
unfolding before
IsBelow-before b c [] h = tt
IsBelow-before b c (g ∷ hs) h =
    if-elim (IsBelow b) (ltb g.finished_at c) (λ y. (h.0, IsBelow-before b c hs h.1))
      (λ n. IsBelow-before b c hs h.1)

pub before-IsFalling :
    (x : Option Time) (hs : List HistoryRow) → IsFalling hs → IsFalling (before x hs)
unfolding before
before-IsFalling none hs f = f
before-IsFalling (some c) [] f = tt
before-IsFalling (some c) (g ∷ hs) f =
    if-elim IsFalling (ltb g.finished_at c)
      (λ y. (IsBelow-before g.finished_at c hs f.0, before-IsFalling (some c) hs f.1))
      (λ n. before-IsFalling (some c) hs f.1)

-- The rows that a page leaves are those before its cursor.
pub before_next :
    (n : ℕ) (hs : List HistoryRow) (c : Time)
    → IsFalling hs
    → next (suc n) hs ≡ some c
    → before (some c) hs ≡ drop (suc n) hs
unfolding before
before_next n [] c f e = refl
before_next zero (h ∷ hs) c f e =
    let same : h.finished_at ≡ c = some-injective _ _ e in
    ground (arith, before_all c hs (subst (λ x. IsBelow x hs) same f.0), same)
before_next (suc n) (h ∷ []) c f e =
    let same : h.finished_at ≡ c = some-injective _ _ e in ground (arith, same)
before_next (suc n) (h ∷ g ∷ hs) c f e =
    let below = next_below (suc n) (g ∷ hs) h.finished_at c f.0 e in
    ground (arith, before_next n (g ∷ hs) c f.1 e, below)

pub map-append : (xs ys : List HistoryRow) → map scan xs ++ map scan ys ≡ map scan (xs ++ ys)
map-append [] ys = refl
map-append (x ∷ xs) ys = ap (◌∷◌ (scan x)) (map-append xs ys)

-- A page that is not full holds all that is left.
pub take_short :
    (n : ℕ) (hs : List HistoryRow) → (length (map scan (take n hs)) == n) ≡ false → take n hs ≡ hs
take_short zero hs h = absurd (ground (arith, h))
take_short (suc n) [] h = refl
take_short (suc n) (g ∷ hs) h = ap (◌∷◌ g) (take_short n hs (ground (arith, h)))

-- The rows of the query are in order, newest first.
abbrev pub IsSorted : List HistoryRow → Type 0
IsSorted [] = Unit
IsSorted (h ∷ rows) = All (λ g. g.finished_at ≤ h.finished_at) rows × IsSorted rows

-- No two rows have one time.
abbrev pub IsUntied : List HistoryRow → Type 0
IsUntied [] = Unit
IsUntied (h ∷ rows) = All (λ g. g.finished_at ≢ h.finished_at) rows × IsUntied rows

All-insert_desc :
    (P : HistoryRow → Type 0) (h : HistoryRow) (rows : List HistoryRow)
    → P h
    → All P rows
    → All P (insert_desc h rows)
unfolding insert_desc
All-insert_desc P h [] p ps = (p, tt)
All-insert_desc P h (g ∷ rows) p ps =
    if-elim (All P) (ltb h.finished_at g.finished_at) (λ y. (ps.0, All-insert_desc P h rows p ps.1))
      (λ n. (p, ps))

insert_desc-IsSorted :
    (h : HistoryRow) (rows : List HistoryRow) → IsSorted rows → IsSorted (insert_desc h rows)
unfolding insert_desc
insert_desc-IsSorted h [] s = (tt, tt)
insert_desc-IsSorted h (g ∷ rows) s =
    if-elim IsSorted (ltb h.finished_at g.finished_at)
      (λ y. (
        All-insert_desc (λ k. k.finished_at ≤ g.finished_at) h rows (ground (arith, y)) s.0,
        insert_desc-IsSorted h rows s.1,
      ))
      (λ n.
        let first : g.finished_at ≤ h.finished_at = ground (arith, n) in
        (
          (
            first,
            All-map (λ k. k.finished_at ≤ g.finished_at) (λ k. k.finished_at ≤ h.finished_at) rows
                (λ k le. omega (arith, first, le)) s.0,
          ),
          s,
        ))

insert_all-IsSorted : (hs rows : List HistoryRow) → IsSorted rows → IsSorted (insert_all hs rows)
insert_all-IsSorted [] rows s = s
insert_all-IsSorted (h ∷ hs) rows s =
    insert_desc-IsSorted h (insert_all hs rows) (insert_all-IsSorted hs rows s)

pub rows_of-IsSorted :
    (names : Names) (t : RaceTables) (player_id : Uuid) (results : Pairs ResultRow)
    → IsSorted (rows_of names t player_id results)
unfolding rows_of
rows_of-IsSorted names t player_id [] = tt
rows_of-IsSorted names t player_id ((race_id, q, row) ∷ rest) =
    let sorted = rows_of-IsSorted names t player_id rest in
    if-elim IsSorted (q == player_id)
      (λ y.
        insert_all-IsSorted (join_race names race_id row (lookup race_id t.races))
          (rows_of names t player_id rest) sorted)
      (λ n. sorted)

IsBelow-if :
    (b : Time) (hs : List HistoryRow)
    → All (λ g. g.finished_at ≤ b) hs
    → All (λ g. g.finished_at ≢ b) hs
    → IsBelow b hs
IsBelow-if b [] h k = tt
IsBelow-if b (g ∷ hs) h k = (ground (arith, h.0, k.0), IsBelow-if b hs h.1 k.1)

pub IsSorted-IsFalling : (hs : List HistoryRow) → IsSorted hs → IsUntied hs → IsFalling hs
IsSorted-IsFalling [] s u = tt
IsSorted-IsFalling (h ∷ hs) s u =
    (IsBelow-if h.finished_at hs s.0 u.0, IsSorted-IsFalling hs s.1 u.1)
