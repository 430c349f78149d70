-- ===== src/Framing/RoundTrip.antt =====
-- What framing.go promises: a frame decodes to its payload, and only whole frames decode.
use car_video_game_backend.Base.{
  ℕ, zero, suc, leb, false, ◌+◌, ◌/◌, ◌%◌, ◌^◌, ◌≤◌, ◌<◌, ◌≡◌, refl, ◌↔◌, [], ◌∷◌, ◌++◌, none, some,
  length, take, drop, All, arith, length-append, take-append_left, drop-append_left,
  take-append-drop, length-take,
}
use car_video_game_backend.Framing.{
  Bytes, max_frame, short_frame, frame_too_large, frame, refused, framed, too_large, put_uint32,
  uint32, encode, decode, decode_body, framing_encode,
}

uint32-put_uint32 : (n : ℕ) → n < 2 ^ 32 → uint32 (put_uint32 n) ≡ n
uint32-put_uint32 n h = omega arith

-- The bytes of a frame.
abbrev pub wire : Bytes → Bytes
wire payload = put_uint32 (length payload) ++ payload

pub encode-wire :
    (payload : Bytes) → length payload ≤ max_frame → encode payload ≡ framed (wire payload)
unfolding encode
encode-wire payload h = ground arith

pub encode_long :
    (payload : Bytes)
    → leb (length payload) max_frame ≡ false
    → encode payload ≡ too_large frame_too_large
unfolding encode
encode_long payload h = ground (arith, h)

drop_header : (l a b c d : ℕ) (bs : Bytes) → drop (4 + l) (a ∷ b ∷ c ∷ d ∷ bs) ≡ drop l bs
drop_header l a b c d bs = let e : 4 + l ≡ suc (suc (suc (suc l))) = omega arith in rw e refl

decode_body-wire :
    (payload rest : Bytes) (a b c d : ℕ)
    → length payload ≤ max_frame
    → decode_body (length payload) (a ∷ b ∷ c ∷ d ∷ (payload ++ rest)) ≡ frame payload rest
unfolding decode_body
decode_body-wire [] rest a b c d h = refl
decode_body-wire (x ∷ xs) rest a b c d h = ground (
  arith,
  length-append xs rest,
  take-append_left (x ∷ xs) rest,
  drop-append_left (x ∷ xs) rest,
  drop_header (length (x ∷ xs)) a b c d (x ∷ (xs ++ rest)),
)

pub decode-wire :
    (payload rest : Bytes)
    → length payload ≤ max_frame
    → decode (wire payload ++ rest) ≡ frame payload rest
unfolding decode
decode-wire payload rest h = ground (
  arith,
  uint32-put_uint32 (length payload) (omega arith),
  decode_body-wire payload rest (length payload / 2 ^ 24 % 256) (length payload / 2 ^ 16 % 256)
      (length payload / 2 ^ 8 % 256) (length payload % 256),
)

-- Encoding a payload of at most 64 KiB succeeds, and decoding what it gives, whatever bytes follow
-- it in the buffer, returns the payload and exactly the bytes that follow.
pub decode-encode :
    (payload rest : Bytes)
    → length payload ≤ max_frame
    → (out : Bytes) × (encode payload ≡ framed out) × (decode (out ++ rest) ≡ frame payload rest)
decode-encode payload rest h = (wire payload, encode-wire payload h, decode-wire payload rest h)

put_uint32-uint32 :
    (a b c d : ℕ)
    → a < 256
    → b < 256
    → c < 256
    → d < 256
    → put_uint32 (uint32 (a ∷ b ∷ c ∷ d ∷ [])) ≡ a ∷ b ∷ c ∷ d ∷ []
put_uint32-uint32 a b c d ha hb hc hd = ground arith

-- A buffer of at least four bytes, taken apart.
decode_body_sound :
    (l a b c d : ℕ) (bs payload rest : Bytes)
    → decode_body l (a ∷ b ∷ c ∷ d ∷ bs) ≡ frame payload rest
    → (length payload ≡ l) × (l ≤ max_frame) × (bs ≡ payload ++ rest)
unfolding decode_body
decode_body_sound l a b c d bs payload rest e =
    ground (arith, length-take l bs, drop_header l a b c d bs, take-append-drop l bs)

-- A buffer of bytes decodes to a payload and a rest exactly when it is the frame of that payload
-- followed by that rest, and the payload is at most 64 KiB.
pub decode-eq-frame_iff :
    (buf payload rest : Bytes)
    → All (λ b. b < 256) buf
    → (decode buf ≡ frame payload rest)
      ↔ ((buf ≡ wire payload ++ rest) × (length payload ≤ max_frame))
unfolding decode
decode-eq-frame_iff buf payload rest bytes =
    (sound buf bytes, λ h. rw h.0 (decode-wire payload rest h.1))
  where
    sound :
        (buf : Bytes)
        → All (λ b. b < 256) buf
        → decode buf ≡ frame payload rest
        → (buf ≡ wire payload ++ rest) × (length payload ≤ max_frame)
    sound (a ∷ b ∷ c ∷ d ∷ bs) h e = ground (
      arith,
      decode_body_sound (uint32 (a ∷ b ∷ c ∷ d ∷ [])) a b c d bs payload rest,
      put_uint32-uint32 a b c d,
    )
    sound _ h e = absurd (ground arith)

-- The broadcaster's own copy of the encoder agrees with protoframing on every payload.
pub framing_encode-encode :
    (payload : Bytes)
    → framing_encode payload
      ≡ (elim (encode payload) [ framed out ↦ some out | too_large _ ↦ none ])
unfolding framing_encode encode
framing_encode-encode payload = ground arith

-- The frame of a payload of at most 64 KiB is refused as short when it is cut, wherever it is cut.
pub decode-take_short :
    (payload : Bytes) (n : ℕ)
    → length payload ≤ max_frame
    → n < length (wire payload)
    → decode (take n (wire payload)) ≡ refused short_frame
unfolding decode decode_body
decode-take_short payload zero h lt = refl
decode-take_short payload (suc zero) h lt = refl
decode-take_short payload (suc (suc zero)) h lt = refl
decode-take_short payload (suc (suc (suc zero))) h lt = refl
decode-take_short payload (suc (suc (suc (suc n)))) h lt =
    ground (arith, uint32-put_uint32 (length payload) (omega arith), length-take n payload)
