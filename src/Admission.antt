-- ===== src/Admission.antt =====
-- From the API to a race: Join of internal/matchmaking/service.go gives a token, and handleJoin of
-- internal/networking/dispatcher.go, with VerifyAndConsume of internal/matchmaking/repo.go as its
-- verifier, takes it.
use car_video_game_backend.Base.{
  ltb, pos, ◌+◌, ◌∙◌, ap, ℕ, ◌≤◌, ◌≡◌, refl, sym, subst, inl, inr, List, [], ◌∷◌, ◌++◌, Option,
  none, some, true, false, ◌||◌, ◌==◌, Option-cases, Bool-cases, if-elim, arith, ==_refl,
}
use car_video_game_backend.Framing.{Bytes}
use car_video_game_backend.Race.Floats.{Floats}
use car_video_game_backend.Race.Model.{Uuid, Time}
use car_video_game_backend.Race.Manager.{Moment, register_player}
use car_video_game_backend.Matchmaking.Token.{
  unix, token_ttl, Codecs, TokenError, Signed, token, unsigned, dot, is_empty, signature,
  same_bytes, sign_game_token, verify_hmac,
}
use car_video_game_backend.Matchmaking.Token.Signing.{CodecLaws, same_bytes_iff, signed_payload}
use car_video_game_backend.Matchmaking.Repo.{
  Assignment, Key, matches, select_row, update_rows, create_assignment, check_row, consume_row,
  verify_and_consume,
}
use car_video_game_backend.Matchmaking.Service.{
  Tables, MatchInfo, assigned, find_or_create_match, assign, join,
}
use car_video_game_backend.Matchmaking.Service.Capacity.{OnAssigned}
use car_video_game_backend.Networking.Sessions.{Addr}
use car_video_game_backend.Networking.Dispatcher.{
  JoinRequest, World, Game, handle_join, finish_join,
}

-- What a Join that returns a match has done.
pub record IsAdmitted (c : Codecs) (secret : Bytes) (t : Tables) (player_id : Uuid)
    (info : MatchInfo) (rows : List Assignment) : Type 0 where
  pub row :
      rows
      ≡ t.inserted
        ++ record {
          match_id = info.match_id;
          player_id = player_id;
          game_token = info.game_token;
          expires_at = info.expires_at;
          consumed = false;
        }
          ∷ []
  pub signed : verify_hmac c secret info.game_token ≡ true
  pub filled : is_empty info.game_token ≡ false

abbrev IsGood : Codecs → (secret : Bytes) → Signed → Type 0
IsGood c secret (unsigned err) = Unit
IsGood c secret (token raw exp) = (verify_hmac c secret raw ≡ true) × (is_empty raw ≡ false)

abbrev pub key : (match_id player_id : Uuid) → (raw : Bytes) → Key
key match_id player_id raw = record { match_id = match_id; player_id = player_id; game_token = raw }

-- The error of the verifier, as the text that the answer shows.
abbrev pub verdict :
    (TokenError → Bytes) → List Assignment × Option TokenError → List Assignment × Option Bytes
verdict text (rows, none) = (rows, none)
verdict text (rows, some err) = (rows, some (text err))

append_filled : (xs ys : Bytes) → is_empty (xs ++ dot ∷ ys) ≡ false
append_filled [] ys = refl
append_filled (x ∷ xs) ys = refl

select_row-append :
    (rows : List Assignment) (a : Assignment) (k : Key)
    → select_row rows k ≡ none
    → matches k a ≡ true
    → select_row (rows ++ a ∷ []) k ≡ some a
unfolding select_row
select_row-append [] a k h m = rw (m) refl
select_row-append (b ∷ rows) a k h m = ground (arith, h, select_row-append rows a k)

module _ (c : Codecs) (laws : CodecLaws c) (secret : Bytes) where
  verify_hmac-signed :
      (payload : Bytes) → verify_hmac c secret (payload ++ dot ∷ signature c secret payload) ≡ true
  unfolding verify_hmac
  verify_hmac-signed payload =
      rw (verify_hmac, signed_payload c laws secret payload)
        ((same_bytes_iff (signature c secret payload) (signature c secret payload)).1 refl)

  sign_game_token-IsGood :
      (match_id player_id : Uuid) (now : Time)
      → IsGood c secret (sign_game_token c secret match_id player_id now)
  unfolding sign_game_token
  sign_game_token-IsGood match_id player_id now =
      if-elim (IsGood c secret) (is_empty secret) (λ y. tt)
        (λ n.
          if-elim (IsGood c secret) (match_id == 0 || player_id == 0) (λ y. tt)
            (λ m.
              elim (Option-cases (
                c.to_json (record {
                  match_id = match_id;
                  player_id = player_id;
                  exp = pos (unix (now + token_ttl));
                }))) [
                  | inl e ↦ rw (e) tt
                  | inr (raw, e) ↦ rw (e) (
                    verify_hmac-signed (c.base64 raw),
                    append_filled (c.base64 raw) (signature c secret (c.base64 raw)),
                  )
                ]))

  assign-IsAdmitted :
      (host : Bytes) (port : ℕ) (t : Tables) (player_id match_id : Uuid) (s : Signed)
      → IsGood c secret s
      → OnAssigned
          (IsAdmitted c secret t player_id)
          (assign c secret host port t player_id match_id s)
  unfolding assign create_assignment
  assign-IsAdmitted host port t player_id match_id (unsigned err) h = tt
  assign-IsAdmitted host port t player_id match_id (token raw exp) h =
      elim (Bool-cases t.insert_fails) [
        | inl y ↦ rw (y) tt
        | inr n ↦ rw (n) (record { row = refl; signed = h.0; filled = h.1 })
      ]

  join-IsAdmitted :
      (host : Bytes) (port : ℕ) (t : Tables) (player_id new_id : Uuid) (searched signed : Time)
      → OnAssigned
          (IsAdmitted c secret t player_id)
          (join c secret host port t player_id new_id searched signed)
  unfolding join
  join-IsAdmitted host port t player_id new_id searched signed =
      if-elim (OnAssigned (IsAdmitted c secret t player_id)) (is_empty host || port == 0) (λ y. tt)
        (λ n. elim (Option-cases (find_or_create_match t new_id searched)) [
          | inl e ↦ rw (e) tt
          | inr (m, e) ↦ rw (e) (
              assign-IsAdmitted host port t player_id m
                (sign_game_token c secret m player_id signed)
                (sign_game_token-IsGood m player_id signed))
        ])

  verify_and_consume_admitted :
      (t : Tables) (player_id : Uuid) (info : MatchInfo) (rows : List Assignment) (now : Time)
      → IsAdmitted c secret t player_id info rows
      → select_row t.inserted (key info.match_id player_id info.game_token) ≡ none
      → now ≤ info.expires_at
      → verify_and_consume c secret false false rows
          (key info.match_id player_id info.game_token)
          now
        ≡ (update_rows rows (key info.match_id player_id info.game_token), none)
  unfolding verify_and_consume check_row consume_row
  verify_and_consume_admitted t player_id info rows now h new early =
      let k = key info.match_id player_id info.game_token in
      let a : Assignment = record {
        match_id = info.match_id;
        player_id = player_id;
        game_token = info.game_token;
        expires_at = info.expires_at;
        consumed = false;
      } in
      let bytes : same_bytes info.game_token info.game_token ≡ true =
        (same_bytes_iff info.game_token info.game_token).1 refl in
      let same : matches k a ≡ true = rw (==_refl info.match_id, ==_refl player_id, bytes) refl in
      let found : select_row rows k ≡ some a =
        subst (λ x. select_row x k ≡ some a) (sym h.row)
          (select_row-append t.inserted a k new same) in
      let late : ltb info.expires_at now ≡ false = ground (arith, early) in
      rw (verify_and_consume, check_row, found, late, h.signed, consume_row) refl

  module _ (fl : Floats) (w : World fl (List Assignment)) (text : TokenError → Bytes) where
    -- When a player to whom Join has given a token presents it for that match before it expires, the
    -- token is consumed, and the join comes to what RegisterPlayer makes of the player and the match: a
    -- place in the race, a refusal, or a panic. This holds if the game server's verifier is
    -- VerifyAndConsume with the secret of the API, over the table as Join has left it, no statement
    -- fails, and the token is in no older row.
    pub join-handle_join :
        (host : Bytes) (port : ℕ) (t : Tables) (player_id new_id : Uuid) (searched signed : Time)
        (info : MatchInfo) (rows : List Assignment) (g : Game fl (List Assignment))
        (req : JoinRequest) (from : Addr) (moment : Moment) (now : Time) (millis : ℕ)
        → join c secret host port t player_id new_id searched signed ≡ assigned info rows
        → select_row t.inserted (key info.match_id player_id info.game_token) ≡ none
        → now ≤ info.expires_at
        → g.verifier ≡ rows
        → w.parse_uuid req.match_id ≡ some info.match_id
        → w.parse_uuid req.player_id ≡ some player_id
        → req.game_token ≡ info.game_token
        → w.verify rows info.match_id player_id info.game_token
          ≡ verdict text (
              verify_and_consume c secret false false rows
                (key info.match_id player_id info.game_token)
                now)
        → handle_join fl (List Assignment) w g req from moment millis
          ≡ finish_join fl
              (List Assignment)
              w
              (record g {
                verifier = update_rows rows (key info.match_id player_id info.game_token);
              })
              player_id
              from
              millis
              (register_player fl g.manager w.track_fn info.match_id player_id moment)
    unfolding handle_join
    join-handle_join host port t player_id new_id searched signed info rows g req from moment now
          millis e new early at match_read player_read same checks =
        let h : IsAdmitted c secret t player_id info rows =
          subst (OnAssigned (IsAdmitted c secret t player_id)) e
            (join-IsAdmitted host port t player_id new_id searched signed) in
        let taken = verify_and_consume_admitted t player_id info rows now h new early in
        let accepts : w.verify rows info.match_id player_id info.game_token
            ≡ (update_rows rows (key info.match_id player_id info.game_token), none) =
          checks ∙ ap (verdict text) taken in
        let filled : is_empty req.game_token ≡ false = rw (same) h.filled in
        let presented : w.verify g.verifier info.match_id player_id req.game_token
            ≡ (update_rows rows (key info.match_id player_id info.game_token), none) =
          rw (at, same) accepts in
        rw (handle_join, match_read, player_read, filled, presented, presented) refl
