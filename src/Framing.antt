-- ===== src/Framing.antt =====
-- internal/protoframing/framing.go, and framingEncode of internal/networking/broadcast.go.
-- A byte is a number below 256, and a slice of bytes is the list of them.
pub mod RoundTrip
use car_video_game_backend.Base.{
  ℕ, ◌+◌, ◌*◌, ◌/◌, ◌%◌, ◌^◌, List, [], ◌∷◌, ◌++◌, Option, none, some, length, take, drop, get_or,
  ltb, ◌==◌, if◌then◌else◌,
}

abbrev pub Bytes : Type 0
Bytes = List ℕ

abbrev pub header_size : ℕ
header_size = 4

abbrev pub max_frame : ℕ
max_frame = 65536

pub data FrameError : Type 0 where
  short_frame frame_too_large : FrameError

-- (payload, rest, nil), or an error beside two nil slices.
pub data Decoded : Type 0 where
  frame : (payload rest : Bytes) → Decoded
  refused : FrameError → Decoded

-- (out, nil) or (nil, err).
pub data Encoded : Type 0 where
  framed : Bytes → Encoded
  too_large : FrameError → Encoded

-- binary.BigEndian.PutUint32 of uint32(n)
abbrev pub put_uint32 : ℕ → Bytes
put_uint32 n = (n / 2 ^ 24 % 256) ∷ (n / 2 ^ 16 % 256) ∷ (n / 2 ^ 8 % 256) ∷ (n % 256) ∷ []

-- binary.BigEndian.Uint32 of the first four bytes
abbrev pub uint32 : Bytes → ℕ
uint32 b = get_or b 0 0 * 2 ^ 24 + get_or b 1 0 * 2 ^ 16 + get_or b 2 0 * 2 ^ 8 + get_or b 3 0

pub encode : Bytes → Encoded
encode payload =
    if ltb max_frame (length payload)
    then too_large frame_too_large
    else framed (put_uint32 (length payload % 2 ^ 32) ++ payload)

decode_body : ℕ → Bytes → Decoded
decode_body l buf =
    if l == 0
    then frame [] (drop header_size buf)
    else if ltb max_frame l
    then refused frame_too_large
    else if ltb (length buf) (header_size + l)
    then refused short_frame
    else frame (take l (drop header_size buf)) (drop (header_size + l) buf)

pub decode : Bytes → Decoded
unfolding decode_body
decode buf =
    if ltb (length buf) header_size
    then refused short_frame
    else decode_body (uint32 (take header_size buf)) buf

-- The copy of Encode in the broadcaster: byte(n >> k) keeps the low eight bits.
pub framing_encode : Bytes → Option Bytes
framing_encode payload =
    if ltb 65536 (length payload)
    then none
    else some (
        (length payload / 2 ^ 24 % 256)
        ∷ (length payload / 2 ^ 16 % 256)
        ∷ (length payload / 2 ^ 8 % 256)
        ∷ (length payload % 256)
        ∷ payload)
