-- ===== src/Networking/Server/Runs.antt =====
-- A run of Serve of internal/networking/server.go, against the payloads that its clients frame.
use car_video_game_backend.Base.{
  ◌≤◌, ◌≡◌, refl, ap, ◌∙◌, List, [], ◌∷◌, map, Option, Bool, if◌then◌else◌, leb, length, arith, All,
  Bool-cases, inl, inr,
}
use car_video_game_backend.Framing.{Bytes, max_frame}
use car_video_game_backend.Framing.RoundTrip.{wire, encode-wire, encode_long}
use car_video_game_backend.Networking.Sessions.{Addr}
use car_video_game_backend.Networking.Dispatcher.{Handled, replies, crashes}
use car_video_game_backend.Networking.Server.{answered}
use car_video_game_backend.Networking.Server.Datagrams.{serve-wire}
use car_video_game_backend.Networking.Server.Loop.{
  ReadWake, timed_out, read_failed, received, ServeRun, serving, panicked, end_loop, write_reply,
  dispatch_or_drop, after_datagram, serve_loop,
}

-- What may happen to a server that nobody stops: a read without a datagram, or a framed payload.
pub data Arrival : Type 0 where
  quiet broken : Arrival
  arrives : (payload : Bytes) → Addr → (write_fails : Bool) → Arrival

abbrev pub wake_of : Arrival → ReadWake
wake_of quiet = timed_out
wake_of broken = read_failed
wake_of (arrives payload from write_fails) = received (wire payload) from write_fails

-- A payload is one that the protocol allows.
abbrev pub IsAllowed : Arrival → Type 0
IsAllowed (arrives payload from write_fails) = length payload ≤ max_frame
IsAllowed _ = Unit

module _ {S : Type 0} (handle : S → Bytes → Addr → S × Handled) where
  -- An answer goes back as its frame, if it is neither empty nor longer than a frame may be.
  abbrev reply : Handled → S → Addr → (write_fails : Bool) → ServeRun S → ServeRun S
  reply crashes s from write_fails rest = end_loop s panicked
  reply (replies []) s from write_fails rest = rest
  reply (replies (b ∷ bs)) s from write_fails rest =
      if leb (length (b ∷ bs)) max_frame
      then write_reply write_fails from (wire (b ∷ bs)) rest
      else rest

  -- The payloads, one after the other, without frames: those of at most 2044 bytes are handled.
  unfoldable pub deliver : S → List Arrival → ServeRun S
  deliver s [] = end_loop s serving
  deliver s (quiet ∷ events) = deliver s events
  deliver s (broken ∷ events) = deliver s events
  deliver s (arrives payload from write_fails ∷ events) =
      let out = handle s payload from in
      let handled = deliver out.0 events in
      let dropped = deliver s events in
      if leb (length payload) 2044 then reply out.1 out.0 from write_fails handled else dropped

after_answer :
    {S : Type 0} (handle : S → Bytes → Addr → S × Handled) (out : S × Handled) (from : Addr)
    (write_fails : Bool) (rest : ServeRun S)
    → after_datagram (answered S handle out) from write_fails rest
      ≡ reply handle out.1 out.0 from write_fails rest
after_answer handle (s, crashes) from write_fails rest = refl
after_answer handle (s, replies []) from write_fails rest = refl
after_answer handle (s, replies (b ∷ bs)) from write_fails rest =
    elim (Bool-cases (leb (length (b ∷ bs)) max_frame)) [
      | inl y ↦ rw (encode-wire (b ∷ bs) (ground (arith, y)), y) refl
      | inr n ↦ rw (encode_long (b ∷ bs) n, n) refl
    ]

module _ (S : Type 0) (dispatcher : Option (S → Bytes → Addr → S × Handled)) where
  -- While nobody stops it, and up to the first panic of the dispatcher, Serve hands the payloads that
  -- its clients frame to the dispatcher, each once and in the order of their arrival, as if there were
  -- no frames, no timeouts and no failed reads: of payloads of at most 64 KiB all but those above 2044
  -- bytes, which the read buffer cuts. It writes the frame of each reply of 1 byte to 64 KiB to the
  -- sender of its payload, unless that write fails.
  pub serve_loop-deliver :
      (s : S) (events : List Arrival)
      → All IsAllowed events
      → serve_loop S dispatcher s (map wake_of events)
        ≡ deliver (dispatch_or_drop dispatcher) s events
  unfolding serve_loop deliver
  serve_loop-deliver s [] h = refl
  serve_loop-deliver s (quiet ∷ events) h = serve_loop-deliver s events h.1
  serve_loop-deliver s (broken ∷ events) h = serve_loop-deliver s events h.1
  serve_loop-deliver s (arrives payload from write_fails ∷ events) h =
      let handle = dispatch_or_drop dispatcher in
      let out = handle s payload from in
      elim (Bool-cases (leb (length payload) 2044)) [
        | inl y ↦
            rw (serve-wire S handle s payload from h.0, y)
              (after_answer handle out from write_fails
                  (serve_loop S dispatcher out.0 (map wake_of events))
                ∙ ap (reply handle out.1 out.0 from write_fails)
                    (serve_loop-deliver out.0 events h.1))
        | inr n ↦ rw (serve-wire S handle s payload from h.0, n) (serve_loop-deliver s events h.1)
      ]
