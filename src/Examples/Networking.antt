-- ===== src/Examples/Networking.antt =====
-- The networking theorems on a few addresses, players and datagrams.
use car_video_game_backend.Base.{
  ◌%◌, ◌^◌, insert, List, map, ℕ, suc, ◌≡◌, ◌⊎◌, refl, pos, [], ◌∷◌, Option, none, some, true,
  false, lookup, ◌==◌, if◌then◌else◌, length, arith,
}
use car_video_game_backend.Framing.{Bytes, frame, decode}
use car_video_game_backend.Framing.RoundTrip.{wire}
use car_video_game_backend.Race.Model.{Uuid, WorldSnapshot}
use car_video_game_backend.Race.Manager.{
  Moment, new_manager, joined, Manager, register_player, race_of_match, new_race, add_to,
}
use car_video_game_backend.Networking.Sessions.{
  Addr, SessionRegistry, player_from_addr, race_from_player,
}
use car_video_game_backend.Networking.Sessions.Binding.{
  Consistent, binds, races, call_all, call_all-binding,
}
use car_video_game_backend.Networking.Dispatcher.{
  JoinRequest, InputRequest, World, Game, Handled, replies, handle, handle_input, finish_join,
  give_input, handle_join, marshal_join_resp,
}
use car_video_game_backend.Networking.Dispatcher.Joining.{
  Accepted, Steered, handle-Authorised, join_then_input, join_from_bound_address,
}
use car_video_game_backend.Race.Roster.{new, add_player}
use car_video_game_backend.Networking.Server.Loop.{serving, serve_loop}
use car_video_game_backend.Networking.Server.Runs.{
  Arrival, quiet, broken, arrives, wake_of, deliver, serve_loop-deliver,
}
use car_video_game_backend.Networking.Subscriptions.{Subscriptions, new_subscriptions, add, publish}
use car_video_game_backend.Networking.Subscriptions.Tables.{
  Agree, adds, removes, call_all-Agree, addresses, to_each, publish-decode,
}
use car_video_game_backend.Networking.Subscriptions.Tables.{call_all as table_calls}
use car_video_game_backend.Examples.Toy.{toy, oval}

-- Player 7 is bound to address 70, and in race 1.
abbrev one_session : SessionRegistry
one_session = record {
  addr = (70, 7) ∷ [];
  player = (7, record { key = some 70; race = some 1 }) ∷ [];
}

one_session-Consistent : Consistent one_session
unfolding lookup player_from_addr
one_session-Consistent = record {
  bound = ((record { key = some 70; race = some 1 }, refl), tt);
  keyed = (refl, tt);
}

call_all-binding_example :
    (player_from_addr (call_all (binds 70 8 ∷ binds 71 7 ∷ races 7 2 ∷ []) one_session) 70 ≡ some 7)
    × Consistent (call_all (binds 70 8 ∷ binds 71 7 ∷ races 7 2 ∷ []) one_session)
unfolding lookup player_from_addr
call_all-binding_example =
    call_all-binding (binds 70 8 ∷ binds 71 7 ∷ races 7 2 ∷ []) one_session 70 7
      one_session-Consistent refl

-- Payloads of four bytes are joins, those of one byte are inputs.
abbrev read_join : Bytes → Option JoinRequest
read_join (k ∷ m ∷ p ∷ t ∷ []) =
    some (record { match_id = m ∷ []; player_id = p ∷ []; game_token = t ∷ [] })
read_join _ = none

abbrev read_input : Bytes → Option (InputRequest toy)
read_input (s ∷ []) =
    some (record {
      input = record { throttle = pos 1; brake = pos 0; steering = pos 0 };
      sequence = s;
    })
read_input _ = none

abbrev first_byte : Bytes → Option Uuid
first_byte [] = none
first_byte (b ∷ bs) = some b

-- The token 9 is good.
abbrev world : World toy Unit
world = record {
  read_join = read_join;
  read_input = read_input;
  write_response = λ r. some (1 ∷ []);
  parse_uuid = first_byte;
  text = λ why. [];
  verify = λ v m p token. (v, if length token == 1 then none else some (0 ∷ []));
  track_fn = λ m. some oval;
}

abbrev moment : Moment
moment = record { new_id = 1; created_at = 1_000; started_at = 1_000; lap_started_at = 1_000 }

abbrev game : Game toy Unit
game = record {
  sessions = one_session;
  manager = new_manager toy (pos 0) (pos 0) (pos 0) true;
  verifier = tt;
}

abbrev handled : Game toy Unit
handled = (handle toy Unit world game (1 ∷ 3 ∷ 8 ∷ 9 ∷ []) 71 moment 5).0

handle-Authorised_example :
    ((handled.sessions ≡ game.sessions) × (handled.manager ≡ game.manager))
    ⊎ (Accepted toy Unit world game (1 ∷ 3 ∷ 8 ∷ 9 ∷ [])
        ⊎ Steered toy Unit world game (1 ∷ 3 ∷ 8 ∷ 9 ∷ []) 71 handled)
handle-Authorised_example = handle-Authorised toy Unit world game (1 ∷ 3 ∷ 8 ∷ 9 ∷ []) 71 moment 5

abbrev steering : InputRequest toy
steering = record {
  input = record { throttle = pos 1; brake = pos 0; steering = pos 0 };
  sequence = 4;
}

abbrev after_join : Game toy Unit
after_join = (finish_join toy Unit world game 8 71 5 (game.manager, joined 1)).0

join_then_input_example : handle_input toy Unit world after_join steering 71 ≡ (
  record after_join { manager = give_input toy Unit world game.manager 1 8 steering },
  replies [],
)
unfolding lookup player_from_addr
join_then_input_example = join_then_input toy Unit world game 8 71 5 game.manager 1 steering refl

-- Player 8 joins race 1 of match 3 from the address of player 7, who is in race 1 too.
abbrev bound_request : JoinRequest
bound_request = record { match_id = 3 ∷ []; player_id = 8 ∷ []; game_token = 9 ∷ [] }

abbrev after_bound : Manager toy
after_bound = (register_player toy game.manager world.track_fn 3 8 moment).0

registered-joined :
    register_player toy game.manager world.track_fn 3 8 moment ≡ (after_bound, joined 1)
unfolding register_player race_of_match new_race add_to new_manager new add_player lookup insert
registered-joined = refl

join_from_bound_address_example :
    (let out = handle_join toy Unit world game bound_request 70 moment 5 in
      (out ≡ (
        record { sessions = one_session; manager = after_bound; verifier = tt },
        replies (marshal_join_resp toy Unit world true [] (some 1) (5 % 2 ^ 32)),
      ))
      × (race_from_player out.0.sessions 8 ≡ none)
      × (handle_input toy Unit world out.0 steering 70 ≡ (
        record out.0 { manager = give_input toy Unit world after_bound 1 7 steering },
        replies [],
      )))
unfolding lookup player_from_addr race_from_player
join_from_bound_address_example =
    join_from_bound_address toy Unit world game bound_request 70 moment 5 3 8 7 tt after_bound 1 1
      steering refl refl refl refl registered-joined refl refl refl

-- A dispatcher that counts the payloads and answers with one byte.
abbrev counter : ℕ → Bytes → Addr → ℕ × Handled
counter n payload from = (suc n, replies (5 ∷ []))

-- A timeout, a payload of player 70, a failed read, and a payload of 71, whose reply is lost.
abbrev arrivals : List Arrival
arrivals = quiet ∷ arrives (1 ∷ 2 ∷ []) 70 false ∷ broken ∷ arrives (3 ∷ []) 71 true ∷ []

serve_loop-deliver_example :
    serve_loop ℕ (some counter) 0 (map wake_of arrivals)
    ≡ record { state = 2; written = (70, wire (5 ∷ [])) ∷ []; ending = serving }
unfolding deliver
serve_loop-deliver_example =
    serve_loop-deliver ℕ (some counter) 0 arrivals (tt, (omega arith, (tt, (omega arith, tt))))

call_all-Agree_example :
    Agree (table_calls (adds 7 (some 70) ∷ adds 8 none ∷ removes 7 ∷ []) new_subscriptions)
call_all-Agree_example = call_all-Agree (adds 7 (some 70) ∷ adds 8 none ∷ removes 7 ∷ [])

abbrev one_subscription : Subscriptions
one_subscription = (add new_subscriptions 7 (some 70)).0

abbrev no_cars : WorldSnapshot toy
no_cars = record { tick = 4; cars = [] }

publish-decode_example :
    (bytes : Bytes) × (publish toy (λ snap. some (8 ∷ snap.tick ∷ [])) one_subscription no_cars
      ≡ to_each bytes (addresses one_subscription.all))
    × (decode bytes ≡ frame (8 ∷ 4 ∷ []) [])
publish-decode_example =
    publish-decode toy (λ snap. some (8 ∷ snap.tick ∷ [])) one_subscription no_cars (8 ∷ 4 ∷ [])
      refl (omega arith)
