-- ===== src/Networking/Dispatcher.antt =====
-- internal/networking/dispatcher.go: Handle, handleJoin and handleInput on the game server's state.
-- A text is the list of its bytes. Protobuf, the parsing of ids and the verifier of the tokens are
-- parameters.
pub mod Joining
use car_video_game_backend.Base.{
  ℕ, ◌%◌, ◌^◌, List, [], ◌∷◌, ◌++◌, Option, none, some, Bool, true, false, ◌&&◌, ◌||◌, not, length,
  ltb, ◌==◌, if◌then◌else◌, Dict, lookup, insert,
}
use car_video_game_backend.Framing.{Bytes}
use car_video_game_backend.Race.Floats.{Floats}
use car_video_game_backend.Race.Model.{Uuid, Time, Track, PlayerInput, InputMsg, Race}
use car_video_game_backend.Race.Roster.{is_finished_status, apply_input}
use car_video_game_backend.Race.Manager.{
  Manager, Registered, joined, no_track, refused, panicked, Moment, register_player,
}
use car_video_game_backend.Networking.Sessions.{
  Addr, SessionRegistry, bind_addr, set_race, player_from_addr, race_from_player,
}

pub record JoinRequest : Type 0 where
  pub match_id : Bytes
  pub player_id : Bytes
  pub game_token : Bytes

pub record InputRequest (fl : Floats) : Type 0 where
  pub input : PlayerInput fl
  pub sequence : ℕ

pub record JoinResponse : Type 0 where
  pub ok : Bool
  pub error : Bytes
  pub race_id : Option Uuid
  pub initial_tick : ℕ

-- The errors that a join answers with: the verifier's text, or one of the code's own.
pub data Refusal : Type 0 where
  bad_match_id bad_player_id missing_token no_such_track full_or_finished : Refusal
  by_verifier : Bytes → Refusal

-- What is not under this code: proto.Unmarshal, proto.Marshal, uuid.Parse, err.Error() of each
-- refusal, the verifier with its state V, and the track lookup.
pub record World (fl : Floats) (V : Type 0) : Type 0 where
  pub read_join : Bytes → Option JoinRequest
  pub read_input : Bytes → Option (InputRequest fl)
  pub write_response : JoinResponse → Option Bytes
  pub parse_uuid : Bytes → Option Uuid
  pub text : Refusal → Bytes
  pub verify : V → (match_id player_id : Uuid) → (token : Bytes) → V × Option Bytes
  pub track_fn : Uuid → Option (Track fl)

pub record Game (fl : Floats) (V : Type 0) : Type 0 where
  pub sessions : SessionRegistry
  pub manager : Manager fl
  pub verifier : V

-- A reply, empty for nil; or the panic of RegisterPlayer.
pub data Handled : Type 0 where
  replies : Bytes → Handled
  crashes : Handled

abbrev pub is_empty : Bytes → Bool
is_empty [] = true
is_empty (b ∷ bs) = false

module _ (fl : Floats) (V : Type 0) (w : World fl V) where
  unfoldable pub marshal_join_resp : Bool → Bytes → Option Uuid → ℕ → Bytes
  marshal_join_resp ok reason race_id tick =
      elim (w.write_response
        (record { ok = ok; error = reason; race_id = race_id; initial_tick = tick })) [
          | none ↦ 8 ∷ 0 ∷ []
          | some out ↦ out
        ]

  abbrev pub refuse : Refusal → Bytes
  refuse why = marshal_join_resp false (w.text why) none 0

  -- From RegisterPlayer on; `millis` is time.Now().UnixMilli().
  unfoldable pub finish_join :
      Game fl V → (player_id : Uuid) → Addr → ℕ → Manager fl × Registered → Game fl V × Handled
  finish_join g player_id from millis (m, joined rid) = (
    record g {
      sessions = set_race (bind_addr g.sessions from player_id).0 player_id rid;
      manager = m;
    },
    replies (marshal_join_resp true [] (some rid) (millis % 2 ^ 32)),
  )
  finish_join g player_id from millis (m, no_track) =
      (record g { manager = m }, replies (refuse no_such_track))
  finish_join g player_id from millis (m, refused) =
      (record g { manager = m }, replies (refuse full_or_finished))
  finish_join g player_id from millis (m, panicked) = (record g { manager = m }, crashes)

  unfoldable pub handle_join : Game fl V → JoinRequest → Addr → Moment → ℕ → Game fl V × Handled
  unfolding finish_join
  handle_join g req from t millis = elim (w.parse_uuid req.match_id) [
    | none ↦ (g, replies (refuse bad_match_id))
    | some match_id ↦ elim (w.parse_uuid req.player_id) [
      | none ↦ (g, replies (refuse bad_player_id))
      | some player_id ↦
          if is_empty req.game_token
          then (g, replies (refuse missing_token))
          else let (v, err) = w.verify g.verifier match_id player_id req.game_token in
            elim err [
              | some why ↦ (record g { verifier = v }, replies (refuse (by_verifier why)))
              | none ↦
                  finish_join (record g { verifier = v }) player_id from millis
                    (register_player fl g.manager w.track_fn match_id player_id t)
            ]
    ]
  ]

  -- The race at `rid` after the input of `player_id`.
  unfoldable pub give_input : Manager fl → (rid player_id : Uuid) → InputRequest fl → Manager fl
  give_input m rid player_id req = elim (lookup rid m.heap) [
    | none ↦ m
    | some r ↦ if is_finished_status r.status then m else record m {
      heap =
          insert rid
            (apply_input fl r
              (record { player_id = player_id; input = req.input; sequence = req.sequence }))
            m.heap;
    }
  ]

  unfoldable pub handle_input : Game fl V → InputRequest fl → Addr → Game fl V × Handled
  unfolding give_input
  handle_input g req from = elim (player_from_addr g.sessions from) [
    | none ↦ (g, replies [])
    | some player_id ↦ elim (race_from_player g.sessions player_id) [
      | none ↦ (g, replies [])
      | some rid ↦ (record g { manager = give_input g.manager rid player_id req }, replies [])
    ]
  ]

  abbrev pub is_join : Option JoinRequest → Bool
  is_join none = false
  is_join (some req) = not (is_empty req.match_id) && not (is_empty req.game_token)

  abbrev pub has_input : PlayerInput fl → Bool
  has_input i = fl.ne_zero i.throttle || fl.ne_zero i.brake || fl.ne_zero i.steering

  unfoldable pub try_input : Game fl V → Option (InputRequest fl) → Addr → Game fl V × Handled
  unfolding handle_input
  try_input g none from = (g, replies [])
  try_input g (some req) from =
      if has_input req.input then handle_input g req from else (g, replies [])

  -- Handle
  unfoldable pub handle : Game fl V → (payload : Bytes) → Addr → Moment → ℕ → Game fl V × Handled
  unfolding handle_join try_input
  handle g payload from t millis = elim (w.read_join payload) [
    | none ↦ try_input g (w.read_input payload) from
    | some req ↦
        if is_join (some req)
        then handle_join g req from t millis
        else try_input g (w.read_input payload) from
  ]
