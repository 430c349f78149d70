-- ===== src/Matchmaking/Repo.antt =====
-- internal/matchmaking/repo.go: the table matchmaking_assignments, and the tokens that are taken from
-- it. Each statement that is sent to the database is one function; `fails` says that it returns an
-- error. A SELECT of one row takes the oldest of the rows that match.
pub mod Consumption
use car_video_game_backend.Base.{
  ℕ, ◌+◌, List, [], ◌∷◌, ◌++◌, Option, none, some, Bool, true, false, not, ◌&&◌, ltb, ◌==◌,
  if◌then◌else◌,
}
use car_video_game_backend.Framing.{Bytes}
use car_video_game_backend.Race.Model.{Uuid, Time}
use car_video_game_backend.Matchmaking.Token.{
  Codecs, TokenError, token_invalid, token_expired, token_consumed, lookup_failed, consume_failed,
  Verified, valid, invalid, same_bytes, verify_hmac, verify_game_token,
}

pub record Assignment : Type 0 where
  pub match_id : Uuid
  pub player_id : Uuid
  pub game_token : Bytes
  pub expires_at : Time
  pub consumed : Bool

-- What a WHERE clause names.
pub record Key : Type 0 where
  pub match_id : Uuid
  pub player_id : Uuid
  pub game_token : Bytes

abbrev pub matches : Key → Assignment → Bool
matches k a =
    a.match_id == k.match_id && (a.player_id == k.player_id && same_bytes a.game_token k.game_token)

-- CreateAssignment; `none` is its error.
unfoldable pub create_assignment :
    (fails : Bool) → List Assignment → Key → Time → Option (List Assignment)
create_assignment fails rows k exp =
    if fails
    then none
    else some (
        rows
        ++ record {
          match_id = k.match_id;
          player_id = k.player_id;
          game_token = k.game_token;
          expires_at = exp;
          consumed = false;
        }
          ∷ [])

unfoldable pub select_row : List Assignment → Key → Option Assignment
select_row [] k = none
select_row (a ∷ rows) k = let rest = select_row rows k in if matches k a then some a else rest

-- The row after an UPDATE that sets consumed.
abbrev pub set_consumed : Key → Assignment → Assignment
set_consumed k a = if matches k a then record a { consumed = true } else a

unfoldable pub update_rows : List Assignment → Key → List Assignment
update_rows [] k = []
update_rows (a ∷ rows) k = set_consumed k a ∷ update_rows rows k

-- MarkConsumed, and the UPDATE of VerifyAndConsume: its AND consumed = FALSE leaves out rows that the
-- update would not change.
unfoldable pub mark_consumed : (fails : Bool) → List Assignment → Key → Option (List Assignment)
unfolding update_rows
mark_consumed fails rows k = if fails then none else some (update_rows rows k)

module _ (c : Codecs) (secret : Bytes) where
  -- AssignmentIsFresh; `none` is its error.
  unfoldable pub assignment_is_fresh : (fails : Bool) → List Assignment → Key → Time → Option Bool
  assignment_is_fresh fails rows k now = if fails then none else elim (select_row rows k) [
    | none ↦ some false
    | some a ↦
        some (not a.consumed && (not (ltb a.expires_at now) && verify_hmac c secret k.game_token))
  ]

  -- The answer of VerifyAndConsume where there is no row.
  abbrev pub missing_row : Verified → TokenError
  missing_row (invalid token_expired) = token_expired
  missing_row _ = token_invalid

  -- The SELECT of VerifyAndConsume and the checks on the row: `none` if the UPDATE comes next.
  unfoldable pub check_row : (fails : Bool) → List Assignment → Key → Time → Option TokenError
  check_row fails rows k now = if fails then some lookup_failed else elim (select_row rows k) [
    | none ↦ some (missing_row (verify_game_token c secret k.game_token none now))
    | some a ↦
        if a.consumed
        then some token_consumed
        else if ltb a.expires_at now
        then some token_expired
        else if verify_hmac c secret k.game_token
        then none
        else some token_invalid
  ]

  -- The UPDATE of VerifyAndConsume, and what the call then returns: how many rows were updated is
  -- not looked at.
  unfoldable pub consume_row :
      (fails : Bool) → List Assignment → Key → List Assignment × Option TokenError
  unfolding update_rows
  consume_row fails rows k =
      if fails then (rows, some consume_failed) else (update_rows rows k, none)

  -- VerifyAndConsume with nothing between its two statements.
  unfoldable pub verify_and_consume :
      (select_fails update_fails : Bool)
      → List Assignment
      → Key
      → Time
      → List Assignment × Option TokenError
  unfolding check_row consume_row
  verify_and_consume select_fails update_fails rows k now =
      elim (check_row select_fails rows k now) [
        | some err ↦ (rows, some err)
        | none ↦ consume_row update_fails rows k
      ]

-- CountForMatch
unfoldable pub count_for_match : List Assignment → Uuid → Time → ℕ
count_for_match [] match_id now = 0
count_for_match (a ∷ rows) match_id now =
    let rest = count_for_match rows match_id now in
    if a.match_id == match_id && (not a.consumed && ltb now a.expires_at) then rest + 1 else rest
