-- ===== src/Networking/Dispatcher/Joining.antt =====
-- What a datagram can do to the game server: Dispatcher of internal/networking/dispatcher.go.
use car_video_game_backend.Base.{
  ℕ, ◌%◌, ◌^◌, false, true, lookup, ◌≡◌, refl, ◌⊎◌, inl, inr, [], none, some, if-elim, Option-cases,
  arith,
}
use car_video_game_backend.Framing.{Bytes}
use car_video_game_backend.Race.Floats.{Floats}
use car_video_game_backend.Race.Model.{Uuid}
use car_video_game_backend.Race.Manager.{Manager, joined, Moment, register_player}
use car_video_game_backend.Networking.Sessions.{
  Addr, bind_addr, set_race, player_from_addr, race_from_player,
}
use car_video_game_backend.Networking.Sessions.Binding.{join_from_new_address, bound_address_kept}
use car_video_game_backend.Networking.Dispatcher.{
  JoinRequest, InputRequest, World, Game, Handled, replies, finish_join, handle_join, give_input,
  handle_input, marshal_join_resp, try_input, handle, is_empty, is_join, has_input,
}

module _ (fl : Floats) (V : Type 0) (w : World fl V) where
  -- The payload is a join request whose ids parse and whose token the verifier accepts.
  pub record Accepted (g : Game fl V) (payload : Bytes) : Type 0 where
    pub request : JoinRequest
    pub match_id : Uuid
    pub player_id : Uuid
    pub read : w.read_join payload ≡ some request
    pub match_parsed : w.parse_uuid request.match_id ≡ some match_id
    pub player_parsed : w.parse_uuid request.player_id ≡ some player_id
    pub verified : (w.verify g.verifier match_id player_id request.game_token).1 ≡ none

  -- The address speaks for a player in a race, and all that changed is that the race was given an
  -- input of that player.
  pub record Steered (g : Game fl V) (payload : Bytes) (from : Addr) (g' : Game fl V) : Type 0 where
    pub request : InputRequest fl
    pub player_id : Uuid
    pub race : Uuid
    pub read : w.read_input payload ≡ some request
    pub speaks : player_from_addr g.sessions from ≡ some player_id
    pub in_race : race_from_player g.sessions player_id ≡ some race
    pub effect : g' ≡ record g { manager = give_input fl V w g.manager race player_id request }

  abbrev Unchanged : Game fl V → Game fl V → Type 0
  Unchanged g g' = (g'.sessions ≡ g.sessions) × (g'.manager ≡ g.manager)

  abbrev Authorised : Game fl V → Bytes → Addr → Game fl V → Type 0
  Authorised g payload from g' = Unchanged g g' ⊎ (Accepted g payload ⊎ Steered g payload from g')

  handle_input-Authorised :
      (g : Game fl V) (payload : Bytes) (from : Addr) (req : InputRequest fl)
      → w.read_input payload ≡ some req
      → Authorised g payload from (handle_input fl V w g req from).0
  unfolding handle_input
  handle_input-Authorised g payload from req e =
      elim (Option-cases (player_from_addr g.sessions from)) [
        | inl f ↦ rw (f, handle_input) (inl (refl, refl))
        | inr (pid, f) ↦ elim (Option-cases (race_from_player g.sessions pid)) [
          | inl k ↦ rw (f, k, handle_input) (inl (refl, refl))
          | inr (rid, k) ↦
              rw (f, k, handle_input)
                (inr (
                  inr (record {
                    request = req;
                    player_id = pid;
                    race = rid;
                    read = e;
                    speaks = f;
                    in_race = k;
                    effect = refl;
                  })))
        ]
      ]

  try_input-Authorised :
      (g : Game fl V) (payload : Bytes) (from : Addr)
      → Authorised g payload from (try_input fl V w g (w.read_input payload) from).0
  unfolding try_input
  try_input-Authorised g payload from = elim (Option-cases (w.read_input payload)) [
    | inl e ↦ rw (e, try_input) (inl (refl, refl))
    | inr (req, e) ↦
        rw (e, try_input)
          (if-elim (λ (x : Game fl V × Handled). Authorised g payload from x.0)
            (has_input fl V w req.input) (λ _. handle_input-Authorised g payload from req e)
            (λ _. inl (refl, refl)))
  ]

  handle_join-Authorised :
      (g : Game fl V) (payload : Bytes) (from : Addr) (req : JoinRequest) (t : Moment) (millis : ℕ)
      → w.read_join payload ≡ some req
      → Authorised g payload from (handle_join fl V w g req from t millis).0
  unfolding handle_join
  handle_join-Authorised g payload from req t millis e =
      elim (Option-cases (w.parse_uuid req.match_id)) [
        | inl f ↦ rw (f, handle_join) (inl (refl, refl))
        | inr (match_id, f) ↦ elim (Option-cases (w.parse_uuid req.player_id)) [
          | inl k ↦ rw (f, k, handle_join) (inl (refl, refl))
          | inr (pid, k) ↦
              rw (f, k, handle_join)
                (if-elim (λ (x : Game fl V × Handled). Authorised g payload from x.0)
                  (is_empty req.game_token) (λ _. inl (refl, refl))
                  (λ _. elim (Option-cases (w.verify g.verifier match_id pid req.game_token).1) [
                    | inl ok ↦ inr (
                        inl (record {
                          request = req;
                          match_id = match_id;
                          player_id = pid;
                          read = e;
                          match_parsed = f;
                          player_parsed = k;
                          verified = ok;
                        }))
                    | inr (why, bad) ↦ rw bad (inl (refl, refl))
                  ]))
        ]
      ]

  -- Whatever a datagram holds, it leaves the sessions and the races as they were, or it is a join
  -- whose token the verifier accepts, or it gives a race one input, of the player that the sender's
  -- address is bound to.
  pub handle-Authorised :
      (g : Game fl V) (payload : Bytes) (from : Addr) (t : Moment) (millis : ℕ)
      → Authorised g payload from (handle fl V w g payload from t millis).0
  unfolding handle
  handle-Authorised g payload from t millis = elim (Option-cases (w.read_join payload)) [
    | inl e ↦ rw (e, handle) (try_input-Authorised g payload from)
    | inr (req, e) ↦
        rw (e, handle)
          (if-elim (λ (x : Game fl V × Handled). Authorised g payload from x.0)
            (is_join fl V w (some req)) (λ _. handle_join-Authorised g payload from req t millis e)
            (λ _. try_input-Authorised g payload from))
  ]

  -- After a join of a player that RegisterPlayer put into a race, from an address that was not
  -- bound, the next input from that address is given to that race as the player's.
  pub join_then_input :
      (g : Game fl V) (pid : Uuid) (from : Addr) (millis : ℕ) (m : Manager fl) (rid : Uuid)
      (req : InputRequest fl)
      → player_from_addr g.sessions from ≡ none
      → (let g' = (finish_join fl V w g pid from millis (m, joined rid)).0 in
          handle_input fl V w g' req from
          ≡ (record g' { manager = give_input fl V w m rid pid req }, replies []))
  unfolding finish_join handle_input
  join_then_input g pid from millis m rid req free =
      let (speaks, races) = join_from_new_address g.sessions from pid rid free in
      let s' = set_race (bind_addr g.sessions from pid).0 pid rid in
      let here : race_from_player s' pid ≡ some rid = rw (races pid) (ground arith) in
      rw (speaks, handle_input) (rw (here, handle_input) refl)

  -- RegisterPlayer has put a player without an entry into a race, and the address is bound.
  finish_join_bound :
      (g : Game fl V) (pid q : Uuid) (from : Addr) (millis : ℕ) (m : Manager fl) (rid : Uuid)
      → player_from_addr g.sessions from ≡ some q
      → lookup pid g.sessions.player ≡ none
      → finish_join fl V w g pid from millis (m, joined rid) ≡ (
        record g { manager = m },
        replies (marshal_join_resp fl V w true [] (some rid) (millis % 2 ^ 32)),
      )
  unfolding finish_join
  finish_join_bound g pid q from millis m rid bound new =
      rw (finish_join, bound_address_kept g.sessions from pid q rid bound new) refl

  -- A join with a good token that RegisterPlayer accepts, from an address that is bound to a player,
  -- of a player who has no session: it is answered as a success, with the race, but no session has
  -- changed. The player who joined has none and is in no race of the registry, and the next input from
  -- the address is given to the race of the first player, as the first player's.
  pub join_from_bound_address :
      (g : Game fl V) (req : JoinRequest) (from : Addr) (t : Moment) (millis : ℕ)
      (match_id pid q : Uuid) (v : V) (m : Manager fl) (rid rq : Uuid) (input : InputRequest fl)
      → w.parse_uuid req.match_id ≡ some match_id
      → w.parse_uuid req.player_id ≡ some pid
      → is_empty req.game_token ≡ false
      → w.verify g.verifier match_id pid req.game_token ≡ (v, none)
      → register_player fl g.manager w.track_fn match_id pid t ≡ (m, joined rid)
      → player_from_addr g.sessions from ≡ some q
      → race_from_player g.sessions q ≡ some rq
      → lookup pid g.sessions.player ≡ none
      → (let out = handle_join fl V w g req from t millis in
          (out ≡ (
            record { sessions = g.sessions; manager = m; verifier = v },
            replies (marshal_join_resp fl V w true [] (some rid) (millis % 2 ^ 32)),
          ))
          × (race_from_player out.0.sessions pid ≡ none)
          × (handle_input fl V w out.0 input from
              ≡ (record out.0 { manager = give_input fl V w m rq q input }, replies [])))
  unfolding handle_join handle_input race_from_player
  join_from_bound_address g req from t millis match_id pid q v m rid rq input match_read player_read
        filled accepts registered bound racing new =
      let done : handle_join fl V w g req from t millis ≡ (
        record { sessions = g.sessions; manager = m; verifier = v },
        replies (marshal_join_resp fl V w true [] (some rid) (millis % 2 ^ 32)),
      ) =
        rw (handle_join, match_read, player_read, filled, accepts, accepts, registered)
          (finish_join_bound (record g { verifier = v }) pid q from millis m rid bound new) in
      rw (done) (refl, rw (race_from_player, new) refl, rw (handle_input, bound, racing) refl)
