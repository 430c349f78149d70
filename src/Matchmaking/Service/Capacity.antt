-- ===== src/Matchmaking/Service/Capacity.antt =====
-- The cap on the players of a match: Join of internal/matchmaking/service.go.
use car_video_game_backend.Base.{
  ℕ, ◌+◌, ◌≤◌, ◌<◌, ◌≡◌, refl, sym, ap, subst, ◌∙◌, inl, inr, List, [], ◌∷◌, ◌++◌, Option, false,
  ◌||◌, ltb, ◌==◌, if◌then◌else◌, if-elim, arith, Option-cases, Bool-cases, OnSome, OnSome-some,
}
use car_video_game_backend.Framing.{Bytes}
use car_video_game_backend.Race.Model.{Uuid, Time}
use car_video_game_backend.Matchmaking.Token.{
  Codecs, is_empty, Signed, token, unsigned, sign_game_token,
}
use car_video_game_backend.Matchmaking.Repo.{Assignment, count_for_match, create_assignment}
use car_video_game_backend.Matchmaking.Service.{
  Tables, MatchInfo, Joined, assigned, no_game_server, pick_failed, insert_failed, sign_failed,
  next_row, find_or_create_match, max_players_per_match, assign, join,
}

-- One more row is at most one more active assignment, of its own match.
count-append :
    (rows : List Assignment) (a : Assignment) (m : Uuid) (t : Time)
    → count_for_match (rows ++ a ∷ []) m t
      ≤ count_for_match rows m t + (if a.match_id == m then 1 else 0)
unfolding count_for_match
count-append [] a m t = ground arith
count-append (x ∷ rows) a m t = ground (arith, count-append rows a m t)

-- Time takes assignments away and adds none.
count_later :
    (rows : List Assignment) (m : Uuid) (now later : Time)
    → now ≤ later
    → count_for_match rows m later ≤ count_for_match rows m now
unfolding count_for_match
count_later [] m now later h = omega arith
count_later (x ∷ rows) m now later h = ground (arith, count_later rows m now later h)

-- A match that is found has room, by the count that is made last.
found_room :
    (t : Tables) (new_id : Uuid) (now : Time)
    → count_for_match t.counted new_id now ≡ 0
    → OnSome
        (λ m. count_for_match t.counted m now < max_players_per_match)
        (find_or_create_match t new_id now)
unfolding find_or_create_match
found_room t new_id now new =
    if-elim Room t.pick_fails (λ _. tt)
      (λ _. elim (Option-cases (next_row t now)) [
        | inl e ↦ rw e (omega (arith, new))
        | inr (m, e) ↦ rw e (
            if-elim Room t.count_fails (λ _. tt)
              (λ _.
                if-elim Room (ltb (count_for_match t.counted m now) max_players_per_match)
                  (λ h. ground arith) (λ _. omega (arith, new))))
      ])
  where
    Room : Option Uuid → Type 0
    Room = OnSome (λ m. count_for_match t.counted m now < max_players_per_match)

abbrev pub OnAssigned : (MatchInfo → List Assignment → Type 0) → Joined → Type 0
OnAssigned P (assigned info rows) = P info rows
OnAssigned P _ = Unit

OnAssigned-map :
    (P Q : MatchInfo → List Assignment → Type 0) (j : Joined)
    → ((info : MatchInfo) (rows : List Assignment) → P info rows → Q info rows)
    → OnAssigned P j
    → OnAssigned Q j
OnAssigned-map P Q (assigned info rows) f h = f info rows h
OnAssigned-map P Q no_game_server f h = tt
OnAssigned-map P Q pick_failed f h = tt
OnAssigned-map P Q insert_failed f h = tt
OnAssigned-map P Q (sign_failed err) f h = tt

-- The assignment that a Join adds.
abbrev Adds : Tables → Uuid → MatchInfo → List Assignment → Type 0
Adds t player_id info rows =
    rows
    ≡ t.inserted
      ++ record {
        match_id = info.match_id;
        player_id = player_id;
        game_token = info.game_token;
        expires_at = info.expires_at;
        consumed = false;
      }
        ∷ []

module _ (c : Codecs) (secret : Bytes) where
  assign-Adds :
      (host : Bytes) (port : ℕ) (t : Tables) (player_id match_id : Uuid) (s : Signed)
      → OnAssigned
          (λ info rows. Adds t player_id info rows × (info.match_id ≡ match_id))
          (assign c secret host port t player_id match_id s)
  unfolding assign create_assignment
  assign-Adds host port t player_id match_id (unsigned err) = tt
  assign-Adds host port t player_id match_id (token raw exp) = elim (Bool-cases t.insert_fails) [
    | inl h ↦ rw h tt
    | inr h ↦ rw h (refl, refl)
  ]

  join-Adds :
      (game_host : Bytes) (game_port : ℕ) (t : Tables) (player_id new_id : Uuid)
      (searched signed : Time)
      → count_for_match t.counted new_id searched ≡ 0
      → OnAssigned
          (λ info rows.
            Adds t player_id info rows
            × (count_for_match t.counted info.match_id searched < max_players_per_match))
          (join c secret game_host game_port t player_id new_id searched signed)
  unfolding join
  join-Adds game_host game_port t player_id new_id searched signed new =
      if-elim (OnAssigned P) (is_empty game_host || game_port == 0) (λ _. tt)
        (λ _. elim (Option-cases (find_or_create_match t new_id searched)) [
          | inl e ↦ rw e tt
          | inr (m, e) ↦ rw e (
              OnAssigned-map (λ info rows. Adds t player_id info rows × (info.match_id ≡ m)) P
                (assign c secret game_host game_port t player_id m
                  (sign_game_token c secret m player_id signed))
                (λ info rows h.
                  (h.0, rw h.1 (OnSome-some Room _ (found_room t new_id searched new) e)))
                (assign-Adds game_host game_port t player_id m
                  (sign_game_token c secret m player_id signed)))
        ])
    where
      Room : Uuid → Type 0
      Room m = count_for_match t.counted m searched < max_players_per_match

      P : MatchInfo → List Assignment → Type 0
      P info rows =
          Adds t player_id info rows
          × (count_for_match t.counted info.match_id searched < max_players_per_match)

  -- A Join that returns a match, when nothing else writes between its count and its insert and the
  -- new ID has no active assignment: if no match had more than four active assignments, none has
  -- more than four after it, then or later.
  pub join_keeps_cap :
      (game_host : Bytes) (game_port : ℕ) (t : Tables) (player_id new_id : Uuid)
      (searched signed : Time) (info : MatchInfo) (rows : List Assignment)
      → t.counted ≡ t.inserted
      → count_for_match t.counted new_id searched ≡ 0
      → ((m : Uuid) → count_for_match t.counted m searched ≤ max_players_per_match)
      → join c secret game_host game_port t player_id new_id searched signed ≡ assigned info rows
      → (m : Uuid) (later : Time) → searched ≤ later
      → count_for_match rows m later ≤ max_players_per_match
  join_keeps_cap game_host game_port t player_id new_id searched signed info rows quiet new full e m
        later h =
      let P = λ (i : MatchInfo) (r : List Assignment).
        Adds t player_id i r
        × (count_for_match t.counted i.match_id searched < max_players_per_match) in
      let (added, room) =
        subst (OnAssigned P) e
          (join-Adds game_host game_port t player_id new_id searched signed new) in
      let a : Assignment = record {
        match_id = info.match_id;
        player_id = player_id;
        game_token = info.game_token;
        expires_at = info.expires_at;
        consumed = false;
      } in
      let same : count_for_match rows m later ≡ count_for_match (t.counted ++ a ∷ []) m later =
        ap (λ x. count_for_match x m later) (added ∙ ap (λ x. x ++ a ∷ []) (sym quiet)) in
      rw same (
        at_most_cap info.match_id m (count-append t.counted a m later)
          (count_later t.counted m searched later h) (full m) room)
    where
      at_most_cap :
          (i m : Uuid) {x y : ℕ}
          → x ≤ y + (if i == m then 1 else 0)
          → y ≤ count_for_match t.counted m searched
          → count_for_match t.counted m searched ≤ max_players_per_match
          → count_for_match t.counted i searched < max_players_per_match
          → x ≤ max_players_per_match
      at_most_cap i m p q r s = elim (Bool-cases (i == m)) [
        | inl k ↦
            let eq : i ≡ m = ground arith in
            let room : count_for_match t.counted m searched < max_players_per_match =
              subst (λ x. count_for_match t.counted x searched < max_players_per_match) eq s in
            ground (arith, p, q, room)
        | inr k ↦ ground arith
      ]
