-- ===== src/RaceHistory/Pages.antt =====
-- Walking through the pages of ListByPlayer in internal/racehistory/repo.go by their cursors.
use car_video_game_backend.Base.{
  OnSome, if-elim, ℕ, zero, suc, ◌≤◌, ◌<◌, ◌≡◌, refl, sym, ap, ◌∙◌, ℤ, List, [], ◌∷◌, ◌++◌, Option,
  none, some, false, ◌==◌, length, take, map, All, All-map, Bool-cases, Option-cases, inl, inr,
  arith, ◌≢◌, some-injective, OnSome-some, subst, ==_iff, All-append,
}
use car_video_game_backend.Race.Model.{Uuid, Time}
use car_video_game_backend.Results.{RaceTables}
use car_video_game_backend.RaceHistory.{
  PlayerRace, PlayerHistoryPage, Names, HistoryRow, scan, rows_of, before, page_size, page_of,
  list_by_player, last_race, cursor_of,
}
use car_video_game_backend.RaceHistory.Cursors.{next, IsBelow, next_below, before-IsBelow}

abbrev pub more : Option PlayerHistoryPage → (Time → List PlayerRace) → List PlayerRace
more none k = []
more (some pg) k = pg.races ++ (elim pg.next_cursor [ none ↦ [] | some c ↦ k c ])

-- Races that finished before a time.
abbrev pub IsEarlier : Time → List PlayerRace → Type 0
IsEarlier c = All (λ r. OnSome (λ f. f < c) r.finished_at)

take-IsEarlier :
    (c : Time) (n : ℕ) (hs : List HistoryRow) → IsBelow c hs → IsEarlier c (map scan (take n hs))
take-IsEarlier c zero hs h = tt
take-IsEarlier c (suc n) [] h = tt
take-IsEarlier c (suc n) (g ∷ hs) h = (h.0, take-IsEarlier c n hs h.1)

module _ (names : Names) (t : RaceTables) (player_id : Uuid) (limit : ℤ) where
  abbrev rows : List HistoryRow
  rows = rows_of names t player_id t.race_results

  -- The races on at most so many pages, from a cursor on.
  unfoldable pub walk : (pages : ℕ) → (cursor : Option Time) → List PlayerRace
  walk zero cursor = []
  walk (suc pages) cursor =
      more (list_by_player false names t player_id cursor limit) (λ c. walk pages (some c))

  page-IsEarlier :
      (c : Time) (n : ℕ) (hs : List HistoryRow) (later : Time → List PlayerRace)
      → IsBelow c hs
      → ((d : Time) → d < c → IsEarlier c (later d))
      → IsEarlier c (more (some (page_of n (map scan (take n hs)))) later)
  page-IsEarlier c n hs later h k =
      All-append (λ r. OnSome (λ f. f < c) r.finished_at) (map scan (take n hs)) _
        (take-IsEarlier c n hs h)
        (if-elim (λ cursor. IsEarlier c (elim cursor [ none ↦ [] | some d ↦ later d ]))
          (length (map scan (take n hs)) == n) {x = next n hs} {y = none}
          (λ y. elim (Option-cases (next n hs)) [
            | inl e ↦ rw (e) tt
            | inr (d, e) ↦ rw (e) (k d (next_below n hs c d h e))
          ])
          (λ less. tt))

  walk_below : (pages : ℕ) (b c : Time) → c ≤ b → IsEarlier b (walk pages (some c))
  unfolding walk list_by_player
  walk_below zero b c h = tt
  walk_below (suc pages) b c h =
      page-IsEarlier b (page_size limit) (before (some c) rows) (λ d. walk pages (some d))
        (All-map (λ g. g.finished_at < c) (λ g. g.finished_at < b) (before (some c) rows)
          (λ g k. omega (arith, h, k)) (before-IsBelow c rows))
        (λ d less. walk_below pages b d (omega (arith, less)))

  -- A page that has a cursor is full, and its last race finished at the cursor.
  cursor-page_of :
      (n : ℕ) (races : List PlayerRace) (c : Time)
      → (page_of n races).next_cursor ≡ some c
      → (length races ≡ n) × (cursor_of (last_race races) ≡ some c)
  cursor-page_of n races c e = elim (Bool-cases (length races == n)) [
    | inl y ↦ ((==_iff (length races) n).0 y, ground (arith, y, e))
    | inr less ↦ absurd (ground (arith, less, e))
  ]

  -- A page with a cursor, and the walk from there.
  walk_page :
      (pages : ℕ) (x : Option Time) (pg : PlayerHistoryPage) (c : Time)
      → list_by_player false names t player_id x limit ≡ some pg
      → pg.next_cursor ≡ some c
      → walk (suc pages) x ≡ pg.races ++ walk pages (some c)
  unfolding walk
  walk_page pages x pg c shown cursor = rw (walk, shown) (rw (cursor) refl)

  -- A race that finished at a time is not among races that finished before it.
  IsEarlier-apart :
      (c : Time) (r : PlayerRace) (races : List PlayerRace)
      → r.finished_at ≡ some c
      → IsEarlier c races
      → All (λ p. p ≢ r) races
  IsEarlier-apart c r races at =
      All-map (λ p. OnSome (λ f. f < c) p.finished_at) (λ p. p ≢ r) races
        (λ p early same.
          let less : c < c =
            OnSome-some (λ f. f < c) p.finished_at early (ap (λ x. x.finished_at) same ∙ at) in
          absurd (omega (arith, less)))

  -- A page that ends with a cursor is full and its last race finished at the cursor. If another race
  -- finished at that very time and is not on the page, it is on no later page of the walk either. From
  -- the first page on, where the walk starts without a cursor, such a race is on no page at all.
  pub walk_skips_ties :
      (pages : ℕ) (x : Option Time) (pg : PlayerHistoryPage) (c : Time) (r : PlayerRace)
      → list_by_player false names t player_id x limit ≡ some pg
      → pg.next_cursor ≡ some c
      → r.finished_at ≡ some c
      → All (λ p. p ≢ r) pg.races
      → (length pg.races ≡ page_size limit)
        × (cursor_of (last_race pg.races) ≡ some c)
        × All (λ p. p ≢ r) (walk (suc pages) x)
  unfolding list_by_player
  walk_skips_ties pages x pg c r shown cursor at absent =
      let n = page_size limit in
      let races = map scan (take n (before x rows)) in
      let same : page_of n races ≡ pg = some-injective _ _ shown in
      let (full, last) = cursor-page_of n races c (ap (λ p. p.next_cursor) same ∙ cursor) in
      let later : All (λ p. p ≢ r) (walk pages (some c)) =
        IsEarlier-apart c r (walk pages (some c)) at (walk_below pages c c (omega arith)) in
      (
        subst (λ (p : PlayerHistoryPage). length p.races ≡ n) same full,
        subst (λ (p : PlayerHistoryPage). cursor_of (last_race p.races) ≡ some c) same last,
        subst (All (λ p. p ≢ r)) (sym (walk_page pages x pg c shown cursor))
            (All-append (λ p. p ≢ r) pg.races (walk pages (some c)) absent later),
      )
