-- ===== src/Examples/Matchmaking.antt =====
-- The matchmaking theorems on one token, with codecs that shift bytes.
use car_video_game_backend.Base.{
  ℕ, zero, suc, ◌+◌, ◌-◌, ◌≤◌, ◌≡◌, ◌≢◌, refl, subst, some-injective, ap, ℤ, pos, negsuc, ltb_ℤ,
  List, [], ◌∷◌, ◌++◌, Option, none, some, true, false, arith, All,
}
use car_video_game_backend.Framing.{Bytes}
use car_video_game_backend.Matchmaking.Token.{
  TokenPayload, Codecs, unix, token_consumed, valid, dot, signature, sign_game_token, split_token,
  same_bytes, verify_hmac, verify_payload, verify_game_token,
}
use car_video_game_backend.Matchmaking.Token.Signing.{
  CodecLaws, verify_game_token-sign_game_token, verify_game_token_sound,
}
use car_video_game_backend.Matchmaking.Repo.{
  Assignment, Key, select_row, update_rows, check_row, consume_row, verify_and_consume,
  count_for_match, create_assignment, mark_consumed,
}
use car_video_game_backend.Matchmaking.Repo.Consumption.{
  TableCall, creates, marks, verifies, table_call, table_calls, accepted_token_consumed,
  verify_and_consume_both, token_taken_twice,
}
use car_video_game_backend.Matchmaking.Service.{
  Tables, max_players_per_match, pick_match, find_or_create_match, assign, join,
}
use car_video_game_backend.Matchmaking.Service.Capacity.{join_keeps_cap}

abbrev up : Bytes → Bytes
up [] = []
up (b ∷ bs) = (b + 47) ∷ up bs

abbrev down : Bytes → Bytes
down [] = []
down (b ∷ bs) = (b - 47) ∷ down bs

abbrev write_pl : ℕ → ℕ → ℤ → Bytes
write_pl m p (pos n) = m ∷ p ∷ 0 ∷ n ∷ []
write_pl m p (negsuc n) = m ∷ p ∷ 1 ∷ n ∷ []

abbrev read_pl : Bytes → Option TokenPayload
read_pl (m ∷ p ∷ zero ∷ n ∷ []) = some (record { match_id = m; player_id = p; exp = pos n })
read_pl (m ∷ p ∷ suc k ∷ n ∷ []) = some (record { match_id = m; player_id = p; exp = negsuc n })
read_pl _ = none

abbrev pub codecs : Codecs
codecs = record {
  hmac = λ message secret. secret;
  base64 = up;
  from_base64 = λ b. some (down b);
  to_json = λ pl. some (write_pl pl.match_id pl.player_id pl.exp);
  from_json = read_pl;
}

down-up : (b : Bytes) → down (up b) ≡ b
down-up [] = refl
down-up (b ∷ bs) = ground (arith, down-up bs)

up_no_dot : (b : Bytes) → All (λ x. x ≢ dot) (up b)
up_no_dot [] = tt
up_no_dot (b ∷ bs) = (ground arith, up_no_dot bs)

read_pl-write_pl :
    (m p : ℕ) (e : ℤ)
    → read_pl (write_pl m p e) ≡ some (record { match_id = m; player_id = p; exp = e })
read_pl-write_pl m p (pos n) = refl
read_pl-write_pl m p (negsuc n) = refl

pub codec_laws : CodecLaws codecs
codec_laws = record {
  from_base64-base64 = λ b. ap some (down-up b);
  no_dot = up_no_dot;
  from_json-to_json = λ pl e.
      subst (λ x. read_pl x ≡ some pl) (some-injective _ _ e)
        (read_pl-write_pl pl.match_id pl.player_id pl.exp);
}

abbrev pub secret : Bytes
secret = 5 ∷ []

-- The token of player 7 for match 3, good until second 301.
abbrev pub raw : Bytes
raw = 50 ∷ 54 ∷ 47 ∷ 348 ∷ 46 ∷ 52 ∷ []

verify_game_token-sign_game_token_example :
    verify_game_token codecs secret raw none 2_000_000_000
    ≡ valid (record { match_id = 3; player_id = 7; exp = pos 301 })
unfolding sign_game_token
verify_game_token-sign_game_token_example =
    verify_game_token-sign_game_token codecs codec_laws secret raw 3 7 1_000_000_000 2_000_000_000
      (pos 301) refl (omega arith)

verify_game_token_sound_example :
    (payload : Bytes) × (body : Bytes) × (raw ≡ payload ++ dot ∷ signature codecs secret payload)
    × (codecs.from_base64 payload ≡ some body)
    × (codecs.from_json body ≡ some (record { match_id = 3; player_id = 7; exp = pos 301 }))
    × (ltb_ℤ (pos 301) (pos (unix 2_000_000_000)) ≡ false)
unfolding verify_game_token verify_payload split_token same_bytes
verify_game_token_sound_example =
    verify_game_token_sound codecs secret raw none 2_000_000_000
      (record { match_id = 3; player_id = 7; exp = pos 301 }) refl

abbrev key : Key
key = record { match_id = 3; player_id = 7; game_token = raw }

abbrev pub one_row : List Assignment
one_row =
    record {
      match_id = 3;
      player_id = 7;
      game_token = raw;
      expires_at = 301_000_000_000;
      consumed = false;
    }
    ∷ []

abbrev used_row : List Assignment
used_row =
    record {
      match_id = 3;
      player_id = 7;
      game_token = raw;
      expires_at = 301_000_000_000;
      consumed = true;
    }
    ∷ []

-- The token is stored once more, and another one is marked.
abbrev between : List TableCall
between =
    creates false key 301_000_000_000
    ∷ marks false (record key { player_id = 8 })
    ∷ verifies false false key 2_500_000_000
    ∷ []

abbrev spent_table : List Assignment
spent_table = used_row ++ one_row

accepted_token_consumed_example :
    verify_and_consume codecs secret false false spent_table key 3_000_000_000
    ≡ (spent_table, some token_consumed)
unfolding table_call table_calls create_assignment mark_consumed verify_and_consume check_row
    consume_row select_row update_rows verify_hmac split_token same_bytes
accepted_token_consumed_example =
    accepted_token_consumed codecs secret one_row used_row key 2_000_000_000 between 3_000_000_000
      false refl

token_taken_twice_example :
    (verify_and_consume_both codecs secret one_row key 2_000_000_000 2_000_000_001).1 ≡ (none, none)
unfolding verify_and_consume check_row consume_row select_row update_rows verify_hmac split_token
    same_bytes
token_taken_twice_example =
    token_taken_twice codecs secret one_row key 2_000_000_000 2_000_000_001 refl refl

abbrev tables : Tables
tables = record {
  picked = one_row;
  counted = one_row;
  inserted = one_row;
  pick_fails = false;
  pick_breaks = false;
  count_fails = false;
  insert_fails = false;
}

one_row_cap : (m : ℕ) → count_for_match one_row m 1_000_000_000 ≤ max_players_per_match
unfolding count_for_match
one_row_cap m = ground arith

abbrev two_rows : List Assignment
two_rows =
    one_row
    ++ record {
      match_id = 3;
      player_id = 8;
      game_token = 50 ∷ 55 ∷ 47 ∷ 348 ∷ 46 ∷ 52 ∷ [];
      expires_at = 301_000_000_000;
      consumed = false;
    }
      ∷ []

join_keeps_cap_example : count_for_match two_rows 3 2_000_000_000 ≤ max_players_per_match
unfolding join find_or_create_match pick_match assign create_assignment count_for_match
    sign_game_token
join_keeps_cap_example =
    join_keeps_cap codecs secret (1 ∷ []) 7777 tables 8 9 1_000_000_000 1_000_000_000
      (record {
        match_id = 3;
        game_server_host = 1 ∷ [];
        game_server_port = 7777;
        game_token = 50 ∷ 55 ∷ 47 ∷ 348 ∷ 46 ∷ 52 ∷ [];
        expires_at = 301_000_000_000;
      })
      two_rows refl refl one_row_cap refl 3 2_000_000_000 (omega arith)
