-- ===== src/Auth/Service/Return.antt =====
-- Who has registered can log in: Register and Login of internal/auth/service.go together.
use car_video_game_backend.Base.{
  ℕ, inl, inr, ◌≡◌, refl, subst, ◌∙◌, List, [], ◌∷◌, none, some, true, false, Bool-cases,
  Option-cases, arith,
}
use car_video_game_backend.Framing.{Bytes}
use car_video_game_backend.Race.Model.{Uuid, Time}
use car_video_game_backend.Matchmaking.Token.{same_bytes, is_empty}
use car_video_game_backend.Matchmaking.Token.Signing.{same_bytes_iff}
use car_video_game_backend.Auth.{
  Outcome, ok, hs256, Claims, Packages, bcrypt_cost, hash_password, verify_password,
}
use car_video_game_backend.Auth.Access.{access_claims, issue_access_token}
use car_video_game_backend.Auth.Accounts.{
  Accounts, select_user, credentials_of, select_player, lookup_user_by_email, player_by_user_id,
}
use car_video_game_backend.Auth.Accounts.Keys.{Book, book, entry, IsOwned}
use car_video_game_backend.Auth.Service.{
  Settings, RegisterRequest, Draws, accepted, Session, normalize_email, give_token, register, enter,
  login,
}
use car_video_game_backend.Auth.Service.Directory.{
  Request, sign_up, log_in, visit, granted, no_token, Step, signed_up, logged_in, visited, denied,
  Steps, rest, then, call_all,
}
use car_video_game_backend.Auth.Service.Directory.Lookups.{Outcome-cases}
use car_video_game_backend.Auth.Service.Directory.Refinement.{register-Simulated, call_all_refines}

-- What bcrypt and HMAC promise: a hash is accepted with the password that it was made from, and a key
-- that is not empty signs.
pub record PackageLaws (p : Packages) : Type 0 where
  pub compare-generate :
      (plain : Bytes) (cost salt : ℕ) {hash : Bytes}
      → p.generate_from_password plain cost salt ≡ some hash
      → p.compare_hash_and_password hash plain ≡ true
  pub signs :
      (c : Claims) (key : Bytes)
      → is_empty key ≡ false
      → (raw : Bytes) × (p.signed_string hs256 c key ≡ some raw)

module _ (p : Packages) (v : Settings) where
  -- No step takes an address away or changes it.
  Step-keeps :
      (d d' : Book) (req : Request) (r : Outcome Session) (e : Bytes) {x : Bytes × Uuid}
      → Step p v d req r d'
      → d.entries e ≡ some x
      → d'.entries e ≡ some x
  Step-keeps d d' req r e (signed_up q email hash player_id salt n w h free new g) known =
      elim (Bool-cases (same_bytes email e)) [
        | inl y ↦ absurd (cc (free, known, (same_bytes_iff email e).0 y))
        | inr m ↦ ground (arith, m, known)
      ]
  Step-keeps d d' req r e (logged_in raw password email hash player_id n k w g) known = known
  Step-keeps d d' req r e (visited player_id new g) known = known
  Step-keeps d d' req r e (denied q err) known = known

  Steps-keep :
      (d d' : Book) (reqs : List Request) (rs : List (Outcome Session)) (e : Bytes)
      {x : Bytes × Uuid}
      → Steps p v d reqs rs d'
      → d.entries e ≡ some x
      → d'.entries e ≡ some x
  Steps-keep d d' reqs rs e (rest f) known = known
  Steps-keep d d' reqs rs e (then {e = between} {req = req} {r = r} first later) known =
      Steps-keep between d' _ _ e later (Step-keeps d between req r e first known)

  -- What an answer with a token says of a registration.
  abbrev IsEntered : Book → Request → Outcome Session → Type 0
  IsEntered d (sign_up req) (ok (tok, player_id)) =
      (email : Bytes) × (hash : Bytes) × (salt : ℕ) × (normalize_email p req.email ≡ accepted email)
      × (hash_password p req.password salt ≡ ok hash)
      × (d.entries email ≡ some (hash, player_id))
  IsEntered d _ _ = Unit

  Step-IsEntered :
      (d d' : Book) (req : Request) (r : Outcome Session) → Step p v d req r d' → IsEntered d' req r
  Step-IsEntered d d' req r (signed_up q email hash player_id salt n w h free new no_token) = tt
  Step-IsEntered d d' req r
        (signed_up q email hash player_id salt n w h free new (granted uid at tok i)) =
      (email, hash, salt, n, h, rw ((same_bytes_iff email email).1 refl) refl)
  Step-IsEntered d d' req r (logged_in raw password email hash player_id n k w g) = tt
  Step-IsEntered d d' req r (visited player_id new g) = tt
  Step-IsEntered d d' req r (denied (sign_up q) err) = tt
  Step-IsEntered d d' req r (denied (log_in raw password) err) = tt
  Step-IsEntered d d' req r (denied visit err) = tt

entry_inv :
    (s : Accounts) (e : Bytes) {hash : Bytes} {player_id : Uuid}
    → entry s e ≡ some (hash, player_id)
    → (user_id : Uuid) × (credentials_of (select_user s.users e) ≡ ok (user_id, hash))
      × (select_player s.players user_id ≡ some player_id)
unfolding entry
entry_inv s e k = elim (Outcome-cases (credentials_of (select_user s.users e))) [
  | inl (err, c) ↦ absurd (cc (k, c))
  | inr ((user_id, hash'), c) ↦ elim (Option-cases (select_player s.players user_id)) [
    | inl q ↦ absurd (ground (arith, k, c, q))
    | inr (id, q) ↦ (user_id, ground (arith, k, c, q), ground (arith, k, c, q))
  ]
]

module _ (p : Packages) (laws : PackageLaws p) (v : Settings)
    (secret : is_empty v.secret ≡ false) where
  give_token-ok :
      (user_id player_id : Uuid) (now : Time)
      → (tok : Bytes) × (give_token p v user_id player_id now ≡ ok (tok, player_id))
  unfolding give_token issue_access_token
  give_token-ok user_id player_id now =
      let (raw, e) =
        laws.signs (access_claims v.issuer v.ttl user_id player_id now) v.secret secret in
      (raw, rw (give_token, issue_access_token, secret, e) refl)

  verify_password-hash_password :
      (plain : Bytes) (salt : ℕ) {hash : Bytes}
      → hash_password p plain salt ≡ ok hash
      → verify_password p hash plain ≡ none
  unfolding hash_password verify_password
  verify_password-hash_password [] salt e = absurd (cc (e))
  verify_password-hash_password (b ∷ bs) salt {hash} e =
      elim (Option-cases (p.generate_from_password (b ∷ bs) bcrypt_cost salt)) [
        | inl n ↦ absurd (cc (n, e))
        | inr (made, n) ↦ ground (arith, n, e, laws.compare-generate (b ∷ bs) bcrypt_cost salt n)
      ]

  login_known :
      (d : Draws) (s : Accounts) (raw password email hash : Bytes) (player_id : Uuid)
      → d.lookup_fails ≡ false
      → d.player_fails ≡ false
      → normalize_email p raw ≡ accepted email
      → verify_password p hash password ≡ none
      → entry s email ≡ some (hash, player_id)
      → (tok : Bytes) × ((login p v d s raw password).1 ≡ ok (tok, player_id))
  unfolding login lookup_user_by_email enter player_by_user_id
  login_known d s raw password email hash player_id up found n w k =
      let (user_id, c, q) = entry_inv s email k in
      let (tok, e) = give_token-ok user_id player_id d.now in
      (tok, rw (login, n, lookup_user_by_email, up, c, enter, w, player_by_user_id, found, q) e)

  -- After a registration that returned a token, and after any calls that followed, a login with the same
  -- password and an address that is normalised to the same one returns a token for the same player, if
  -- its queries do not fail.
  pub registered_logs_in :
      (s : Accounts) (d : Draws) (req : RegisterRequest) (tok : Bytes) (player_id : Uuid)
      → IsOwned s
      → (register p v d s req).1 ≡ ok (tok, player_id)
      → (calls : List (Draws × Request)) (later : Draws) (raw : Bytes)
      → normalize_email p raw ≡ normalize_email p req.email
      → later.lookup_fails ≡ false
      → later.player_fails ≡ false
      → (again : Bytes) × ((login p v later
            (call_all p v (register p v d s req).0 calls).0
            raw
            req.password).1
          ≡ ok (again, player_id))
  registered_logs_in s d req tok player_id owned e calls later raw same up found =
      let (owned_next, first) = register-Simulated p v d s owned req in
      let (email, hash, salt, n, h, k) =
        subst (IsEntered p v (book (register p v d s req).0) (sign_up req)) e
          (Step-IsEntered p v _ _ (sign_up req) _ first) in
      let (owned_end, steps) = call_all_refines p v (register p v d s req).0 calls owned_next in
      login_known later (call_all p v (register p v d s req).0 calls).0 raw req.password email hash
        player_id up found (same ∙ n) (verify_password-hash_password req.password salt h)
        (Steps-keep p v _ _ _ _ email steps k)
