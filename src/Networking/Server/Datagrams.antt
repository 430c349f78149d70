-- ===== src/Networking/Server/Datagrams.antt =====
-- Which datagrams reach the dispatcher: Serve of internal/networking/server.go.
use car_video_game_backend.Base.{
  ℕ, ◌≤◌, ◌≡◌, refl, sym, ◌∙◌, ap, [], ◌∷◌, append-nil, length, take, leb, if◌then◌else◌, zero, suc,
  if-elim, arith,
}
use car_video_game_backend.Framing.{Bytes, max_frame, frame, decode}
use car_video_game_backend.Framing.RoundTrip.{wire, decode-wire, decode-encode, decode-take_short}
use car_video_game_backend.Networking.Sessions.{Addr}
use car_video_game_backend.Networking.Dispatcher.{Handled, replies}
use car_video_game_backend.Networking.Server.{
  read_size, Served, silent, sent, answered, serve_frame, serve,
}

take_all : (n : ℕ) (xs : Bytes) → length xs ≤ n → take n xs ≡ xs
take_all zero [] h = refl
take_all (suc n) [] h = refl
take_all zero (x ∷ xs) h = absurd (omega arith)
take_all (suc n) (x ∷ xs) h = ap (◌∷◌ x) (take_all n xs (omega arith))

module _ (S : Type 0) (dispatch : S → Bytes → Addr → S × Handled) where
  -- A datagram that is the frame of a payload of at most 2044 bytes reaches the dispatcher as that
  -- payload, and one of a longer payload, up to the 64 KiB of the protocol, is dropped: the state
  -- is as before and nothing goes back.
  pub serve-wire :
      (s : S) (payload : Bytes) (from : Addr)
      → length payload ≤ max_frame
      → serve S dispatch s (wire payload) from ≡ (
          if leb (length payload) 2044
          then answered S dispatch (dispatch s payload from)
          else (s, silent))
  unfolding serve
  serve-wire s payload from h =
      if-elim (λ (x : S × Served). serve S dispatch s (wire payload) from ≡ x)
        (leb (length payload) 2044)
        (λ fits.
          let whole : decode (take read_size (wire payload)) ≡ frame payload [] =
            ap decode
              (take_all read_size (wire payload) (ground arith) ∙ sym (append-nil (wire payload)))
            ∙ decode-wire payload [] h in
          ap (λ d. serve_frame S dispatch d s from) whole)
        (λ long.
          ap (λ d. serve_frame S dispatch d s from)
            (decode-take_short payload read_size h (ground arith)))

  -- When the dispatcher answers a payload of at most 2044 bytes with a reply of 1 byte to 64 KiB,
  -- what goes back to its framed datagram decodes to that reply.
  serve-reply :
      (s s' : S) (payload : Bytes) (from : Addr) (b : ℕ) (bs : Bytes)
      → length payload ≤ 2044
      → length (b ∷ bs) ≤ max_frame
      → dispatch s payload from ≡ (s', replies (b ∷ bs))
      → (out : Bytes) × (serve S dispatch s (wire payload) from ≡ (s', sent out))
        × (decode out ≡ frame (b ∷ bs) [])
  serve-reply s s' payload from b bs h k e =
      let (out, enc, dec) = decode-encode (b ∷ bs) [] k in
      (
        out,
        serve-wire s payload from (omega arith)
            ∙ if-elim (λ (x : S × Served). x ≡ (s', sent out)) (leb (length payload) 2044)
                (λ _. rw e (rw enc refl)) (λ long. absurd (ground arith)),
        rw (append-nil out) at dec,
      )
