-- ===== src/Examples/Framing.antt =====
-- The framing on a payload of three bytes.
use car_video_game_backend.Base.{◌≤◌, ◌↔◌, ◌≡◌, [], ◌∷◌, ◌++◌, length, arith}
use car_video_game_backend.Framing.{Bytes, max_frame, frame, decode}
use car_video_game_backend.Framing.RoundTrip.{wire, decode-eq-frame_iff}

abbrev three_bytes : Bytes
three_bytes = 7 ∷ 8 ∷ 9 ∷ []

decode-eq-frame_iff_example :
    (decode (0 ∷ 0 ∷ 0 ∷ 3 ∷ 7 ∷ 8 ∷ 9 ∷ 1 ∷ []) ≡ frame three_bytes (1 ∷ [])) ↔ (
      (0 ∷ 0 ∷ 0 ∷ 3 ∷ 7 ∷ 8 ∷ 9 ∷ 1 ∷ [] ≡ wire three_bytes ++ 1 ∷ [])
      × (length three_bytes ≤ max_frame))
decode-eq-frame_iff_example =
    decode-eq-frame_iff (0 ∷ 0 ∷ 0 ∷ 3 ∷ 7 ∷ 8 ∷ 9 ∷ 1 ∷ []) three_bytes (1 ∷ []) (ground arith)
