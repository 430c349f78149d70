-- ===== src/Networking/Server.antt =====
-- internal/networking/server.go: what Serve does with one datagram. Its read buffer holds 2048
-- bytes, and the rest of a longer datagram is lost. `S` is the state behind the dispatcher.
pub mod Datagrams
pub mod Loop
pub mod Runs
use car_video_game_backend.Base.{ℕ, List, [], ◌∷◌, Option, none, some, take}
use car_video_game_backend.Framing.{
  Bytes, Decoded, frame, refused, Encoded, framed, too_large, encode, decode,
}
use car_video_game_backend.Networking.Sessions.{Addr}
use car_video_game_backend.Networking.Dispatcher.{Handled, replies, crashes}

abbrev pub read_size : ℕ
read_size = 2048

-- What goes back to the sender of a datagram: nothing, a datagram; or the handler's panic.
pub data Served : Type 0 where
  silent : Served
  sent : Bytes → Served
  crashed : Served

abbrev pub send_framed : Encoded → Served
send_framed (framed out) = sent out
send_framed (too_large err) = silent

abbrev pub answer : Handled → Served
answer crashes = crashed
answer (replies []) = silent
answer (replies (b ∷ bs)) = send_framed (encode (b ∷ bs))

module _ (S : Type 0) (dispatch : S → Bytes → Addr → S × Handled) where
  abbrev pub answered : S × Handled → S × Served
  answered out = (out.0, answer out.1)

  abbrev pub serve_frame : Decoded → S → Addr → S × Served
  serve_frame (refused err) s from = (s, silent)
  serve_frame (frame payload rest) s from = answered (dispatch s payload from)

  unfoldable pub serve : S → (datagram : Bytes) → Addr → S × Served
  serve s datagram from = serve_frame (decode (take read_size datagram)) s from
