-- ===== src/Matchmaking/Token/Signing.antt =====
-- Which tokens are verified: SignGameToken and VerifyGameToken of internal/matchmaking/token.go.
use car_video_game_backend.Base.{
  ◌+◌, ◌≤◌, ◌≡◌, ◌≢◌, ◌↔◌, refl, sym, ap, subst, ◌||◌, ◌∙◌, inl, inr, ℤ, pos, ltb_ℤ, [], ◌∷◌, ◌++◌,
  Option, none, some, true, false, ◌==◌, if-elim, arith, All, Option-cases,
}
use car_video_game_backend.Framing.{Bytes}
use car_video_game_backend.Race.Model.{Uuid, Time}
use car_video_game_backend.Matchmaking.Token.{
  TokenPayload, Codecs, token_ttl, unix, Signed, token, unsigned, Verified, valid, invalid, dot,
  is_empty, signature, sign_game_token, split_token, same_bytes, Store, check_store, verify_payload,
  verify_game_token,
}

-- What the packages promise: JSON and base64url read back what they wrote, and base64url writes no
-- dot.
pub record CodecLaws (c : Codecs) : Type 0 where
  pub from_base64-base64 : (b : Bytes) → c.from_base64 (c.base64 b) ≡ some b
  pub no_dot : (b : Bytes) → All (λ x. x ≢ dot) (c.base64 b)
  pub from_json-to_json :
      (pl : TokenPayload) {raw : Bytes} → c.to_json pl ≡ some raw → c.from_json raw ≡ some pl

pub same_bytes_iff : (a b : Bytes) → (same_bytes a b ≡ true) ↔ (a ≡ b)
unfolding same_bytes
same_bytes_iff [] [] = ground arith
same_bytes_iff [] (b ∷ bs) = ground arith
same_bytes_iff (a ∷ rest) [] = ground arith
same_bytes_iff (a ∷ rest) (b ∷ bs) = ground (arith, same_bytes_iff rest bs)

split_token-none : (bs : Bytes) → All (λ x. x ≢ dot) bs → split_token bs ≡ none
unfolding split_token
split_token-none [] h = refl
split_token-none (b ∷ bs) h = ground (arith, split_token-none bs, h)

-- A text splits at a dot that no other follows.
split_token-append :
    (left right : Bytes)
    → All (λ x. x ≢ dot) right
    → split_token (left ++ dot ∷ right) ≡ some (left, right)
unfolding split_token
split_token-append [] right h = rw (split_token-none right h) refl
split_token-append (b ∷ left) right h = rw (split_token-append left right h) refl

split_token_sound :
    (raw left right : Bytes) → split_token raw ≡ some (left, right) → raw ≡ left ++ dot ∷ right
unfolding split_token
split_token_sound [] left right e = absurd (cc (e))
split_token_sound (b ∷ bs) left right e = elim (Option-cases (split_token bs)) [
  | inl f ↦ ground (arith, f, e)
  | inr ((l, r), f) ↦ ground (arith, f, e, split_token_sound bs l r f)
]

module _ (c : Codecs) (laws : CodecLaws c) where
  pub signed_payload :
      (secret payload : Bytes)
      → split_token (payload ++ dot ∷ signature c secret payload)
        ≡ some (payload, signature c secret payload)
  signed_payload secret payload =
      split_token-append payload (signature c secret payload) (laws.no_dot _)

  -- What a signed token is verified as.
  Reads : (secret : Bytes) (match_id player_id : Uuid) (later : Time) → Signed → Type 0
  Reads secret match_id player_id later (unsigned err) = Unit
  Reads secret match_id player_id later (token raw exp) =
      verify_game_token c secret raw none later
      ≡ valid (record { match_id = match_id; player_id = player_id; exp = exp })

  verify_signed :
      (secret raw : Bytes) (pl : TokenPayload) (later : Time)
      → c.to_json pl ≡ some raw
      → ltb_ℤ pl.exp (pos (unix later)) ≡ false
      → verify_game_token c secret
          (c.base64 raw ++ dot ∷ signature c secret (c.base64 raw))
          none
          later
        ≡ valid pl
  unfolding verify_game_token verify_payload
  verify_signed secret raw pl later e h =
      let sig = signature c secret (c.base64 raw) in
      let same : same_bytes sig sig ≡ true = (same_bytes_iff sig sig).1 refl in
      let payload : verify_payload c none (c.base64 raw ++ dot ∷ sig) (c.base64 raw) later
          ≡ valid pl =
        rw (laws.from_base64-base64 raw, verify_payload)
          (rw (laws.from_json-to_json pl e) (
            if-elim (λ x. x ≡ valid pl) (ltb_ℤ pl.exp (pos (unix later))) (λ k. absurd (cc (k, h)))
              (λ _. refl))) in
      rw (signed_payload secret (c.base64 raw), verify_game_token) (rw same payload)

  sign_game_token-Reads :
      (secret : Bytes) (match_id player_id : Uuid) (now later : Time)
      → unix later ≤ unix (now + token_ttl)
      → Reads secret match_id player_id later (sign_game_token c secret match_id player_id now)
  unfolding sign_game_token Reads
  sign_game_token-Reads secret match_id player_id now later h =
      let pl : TokenPayload = record {
        match_id = match_id;
        player_id = player_id;
        exp = pos (unix (now + token_ttl));
      } in
      let P = Reads secret match_id player_id later in
      if-elim P (is_empty secret) (λ _. tt)
        (λ _.
          if-elim P (match_id == 0 || player_id == 0) (λ _. tt)
            (λ _. elim (Option-cases (c.to_json pl)) [
              | inl e ↦ rw e tt
              | inr (raw, e) ↦ rw e (verify_signed secret raw pl later e (ground arith))
            ]))

  -- With codecs that keep CodecLaws, a token that SignGameToken gives is verified, without a
  -- store, until its expiry, and what is read from it is the match, the player and the expiry that
  -- were signed.
  pub verify_game_token-sign_game_token :
      (secret raw : Bytes) (match_id player_id : Uuid) (now later : Time) (exp : ℤ)
      → sign_game_token c secret match_id player_id now ≡ token raw exp
      → unix later ≤ unix (now + token_ttl)
      → verify_game_token c secret raw none later
        ≡ valid (record { match_id = match_id; player_id = player_id; exp = exp })
  unfolding Reads
  verify_game_token-sign_game_token secret raw match_id player_id now later exp e h =
      subst (Reads secret match_id player_id later) e
        (sign_game_token-Reads secret match_id player_id now later h)

module _ (c : Codecs) where
  -- What a verified token is.
  Sound : (secret raw : Bytes) → Time → Verified → Type 0
  Sound secret raw now (invalid err) = Unit
  Sound secret raw now (valid pl) =
      (payload : Bytes) × (body : Bytes) × (raw ≡ payload ++ dot ∷ signature c secret payload)
      × (c.from_base64 payload ≡ some body)
      × (c.from_json body ≡ some pl)
      × (ltb_ℤ pl.exp (pos (unix now)) ≡ false)

  check_store-Sound :
      (store : Option Store) (secret raw : Bytes) (now : Time) (pl : TokenPayload)
      → Sound secret raw now (valid pl)
      → Sound secret raw now (check_store store pl raw)
  unfolding Sound
  check_store-Sound none secret raw now pl h = h
  check_store-Sound (some fresh) secret raw now pl h =
      elim (Option-cases (fresh pl.match_id pl.player_id raw)) [
        | inl e ↦ rw (e, check_store) tt
        | inr (ok, e) ↦ rw (e, check_store) (if-elim (Sound secret raw now) ok (λ _. h) (λ _. tt))
      ]

  verify_payload-Sound :
      (store : Option Store) (secret raw payload : Bytes) (now : Time)
      → raw ≡ payload ++ dot ∷ signature c secret payload
      → Sound secret raw now (verify_payload c store raw payload now)
  unfolding verify_payload Sound
  verify_payload-Sound store secret raw payload now split =
      elim (Option-cases (c.from_base64 payload)) [
        | inl e ↦ rw (e, verify_payload) tt
        | inr (body, e) ↦
            rw (e, verify_payload)
              (elim (Option-cases (c.from_json body)) [
                | inl f ↦ rw f tt
                | inr (pl, f) ↦ rw f (
                    if-elim (Sound secret raw now) (ltb_ℤ pl.exp (pos (unix now))) (λ _. tt)
                      (λ live.
                        check_store-Sound store secret raw now pl
                          (payload, body, split, e, f, live)))
              ])
      ]

  verify_game_token-Sound :
      (secret raw : Bytes) (store : Option Store) (now : Time)
      → Sound secret raw now (verify_game_token c secret raw store now)
  unfolding verify_game_token Sound
  verify_game_token-Sound secret raw store now = elim (Option-cases (split_token raw)) [
    | inl e ↦ rw (e, verify_game_token) tt
    | inr ((payload, sig), e) ↦
        rw (e, verify_game_token)
          (if-elim (Sound secret raw now) (same_bytes (signature c secret payload) sig)
            (λ same. verify_payload-Sound store secret raw payload now (
              split_token_sound raw payload sig e
              ∙ ap (λ x. payload ++ dot ∷ x)
                  (sym ((same_bytes_iff (signature c secret payload) sig).0 same))))
            (λ _. tt))
  ]

  -- A verified token is a payload and its HMAC under the secret, with a dot between them; the payload
  -- reads back as what is returned, and it has not expired.
  pub verify_game_token_sound :
      (secret raw : Bytes) (store : Option Store) (now : Time) (pl : TokenPayload)
      → verify_game_token c secret raw store now ≡ valid pl
      → (payload : Bytes) × (body : Bytes) × (raw ≡ payload ++ dot ∷ signature c secret payload)
        × (c.from_base64 payload ≡ some body)
        × (c.from_json body ≡ some pl)
        × (ltb_ℤ pl.exp (pos (unix now)) ≡ false)
  unfolding Sound
  verify_game_token_sound secret raw store now pl e =
      subst (Sound secret raw now) e (verify_game_token-Sound secret raw store now)
