-- ===== src/Networking/Server/Loop.antt =====
-- internal/networking/server.go: the loop of Serve, and Close. Each round of the loop finds one of the
-- `ReadWake`s: a stop, a failed read, or a datagram.
use car_video_game_backend.Base.{List, [], ◌∷◌, Option, none, some, Bool, true, false}
use car_video_game_backend.Framing.{Bytes}
use car_video_game_backend.Networking.Sessions.{Addr}
use car_video_game_backend.Networking.Dispatcher.{Handled, replies}
use car_video_game_backend.Networking.Server.{Served, silent, sent, crashed, serve}

pub data ReadWake : Type 0 where
  context_done server_closed : ReadWake
  -- the deadline of the read, a closed socket, any other error of the read
  timed_out socket_closed read_failed : ReadWake
  -- and whether the write of a reply to it fails
  received : Bytes → Addr → (write_fails : Bool) → ReadWake

pub data LoopEnd : Type 0 where
  serving returned panicked : LoopEnd

-- The state behind the dispatcher, what was written, and whether the loop has ended.
pub record ServeRun (S : Type 0) : Type 0 where
  pub state : S
  pub written : List (Addr × Bytes)
  pub ending : LoopEnd

abbrev pub end_loop : {S : Type 0} → S → LoopEnd → ServeRun S
end_loop s ending = record { state = s; written = []; ending = ending }

abbrev pub write_reply :
    {S : Type 0} → (write_fails : Bool) → Addr → Bytes → ServeRun S → ServeRun S
write_reply true from out run = run
write_reply false from out run = record run { written = (from, out) ∷ run.written }

-- The dispatcher, if SetDispatcher was called: without one nothing is answered.
abbrev pub dispatch_or_drop :
    {S : Type 0} → Option (S → Bytes → Addr → S × Handled) → S → Bytes → Addr → S × Handled
dispatch_or_drop none s payload from = (s, replies [])
dispatch_or_drop (some dispatch) s payload from = dispatch s payload from

-- What follows a datagram; `rest` is the run of the later rounds.
abbrev pub after_datagram :
    {S : Type 0} → S × Served → Addr → (write_fails : Bool) → (rest : ServeRun S) → ServeRun S
after_datagram (s, silent) from write_fails rest = rest
after_datagram (s, sent out) from write_fails rest = write_reply write_fails from out rest
after_datagram (s, crashed) from write_fails rest = end_loop s panicked

module _ (S : Type 0) (dispatcher : Option (S → Bytes → Addr → S × Handled)) where
  -- Serve
  unfoldable pub serve_loop : S → List ReadWake → ServeRun S
  unfolding serve
  serve_loop s [] = end_loop s serving
  serve_loop s (context_done ∷ wakes) = end_loop s returned
  serve_loop s (server_closed ∷ wakes) = end_loop s returned
  serve_loop s (socket_closed ∷ wakes) = end_loop s returned
  serve_loop s (timed_out ∷ wakes) = serve_loop s wakes
  serve_loop s (read_failed ∷ wakes) = serve_loop s wakes
  serve_loop s (received datagram from write_fails ∷ wakes) =
      let served = serve S (dispatch_or_drop dispatcher) s datagram from in
      let rest = serve_loop served.0 wakes in after_datagram served from write_fails rest

-- Close, of the channel `done`: it is closed once. The other answer says whether it was closed here.
abbrev pub close_server : (done : Bool) → Bool × Bool
close_server true = (true, false)
close_server false = (true, true)
