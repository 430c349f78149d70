-- ===== src/Player/Registered.antt =====
-- Register of internal/auth/service.go and Me of internal/player/handler.go together.
use car_video_game_backend.Base.{
  ◌≡◌, refl, subst, sym, List, [], ◌∷◌, Bool, true, false, inl, inr, Option-cases, if-elim,
}
use car_video_game_backend.Framing.{Bytes}
use car_video_game_backend.Race.Model.{Uuid, Time}
use car_video_game_backend.Auth.{
  Outcome, ok, failed, internal, Packages, hash_password, verify_password,
}
use car_video_game_backend.Auth.Access.{Context, player_id_from_context, issue_access_token}
use car_video_game_backend.Auth.Accounts.{
  User, Player, Accounts, user_exists, registered_user, guest_user, player_row,
  create_user_with_player, create_guest, lookup_user_by_email, player_by_user_id, touch_last_login,
}
use car_video_game_backend.Auth.Accounts.Keys.{added}
use car_video_game_backend.Auth.Accounts.Created.{
  IsCreated, create_user_with_player-IsCreated, create_guest-IsCreated,
}
use car_video_game_backend.Auth.Service.{
  Settings, RegisterRequest, Draws, Checked, accepted, Session, guest_name, validate_password,
  normalize_email, validate_display_name, give_token, answer_created, create_account, register,
  enter, login, guest,
}
use car_video_game_backend.Auth.Service.Directory.{Request, sign_up, log_in, visit, call, call_all}
use car_video_game_backend.Auth.Service.Directory.Lookups.{Checked-cases, Outcome-cases}
use car_video_game_backend.Player.{Profile, profile, Columns, get_by_id, profile_shown, show_me}
use car_video_game_backend.Player.Kept.{
  IsShown, IsKept, added-IsKept, added-IsShown, seen-IsKept, find_player_id,
}

abbrev OnSession : (Uuid → Type 0) → Outcome Session → Type 0
OnSession P (failed err) = Unit
OnSession P (ok (tok, player_id)) = P player_id

module _ (p : Packages) (v : Settings) where
  give_token-OnSession :
      (P : Uuid → Type 0) (user_id player_id : Uuid) (now : Time)
      → P player_id
      → OnSession P (give_token p v user_id player_id now)
  unfolding give_token
  give_token-OnSession P user_id player_id now h =
      elim (issue_access_token p v.secret v.issuer v.ttl user_id player_id now)
        as (λ x.
          OnSession P (elim x [ failed err ↦ failed internal | ok tok ↦ ok (tok, player_id) ])) [
            | failed err ↦ tt
            | ok tok ↦ h
          ]

  -- The player of an answer with a token has a profile with the name.
  abbrev IsRecorded :
      (s : Accounts) (name : Bytes) (is_guest : Bool) → Accounts × Outcome Session → Type 0
  IsRecorded s name is_guest (after, r) =
      IsKept s after × OnSession (λ q. IsShown after q name is_guest) r

  answer_created-IsRecorded :
      (s : Accounts) (row : Uuid → User) (name : Bytes) (is_guest : Bool) (now : Time)
      (c : Accounts × Outcome (Uuid × Uuid))
      → ((id : Uuid) → (row id).id ≡ id)
      → ((id : Uuid) → (row id).is_guest ≡ is_guest)
      → IsCreated s row name c
      → IsRecorded s name is_guest (answer_created p v c now)
  answer_created-IsRecorded s row name is_guest now (after, failed err) keyed guests e =
      (subst (IsKept s) (sym e) (λ id n g h. h), tt)
  answer_created-IsRecorded s row name is_guest now (after, ok (user_id, player_id)) keyed guests
        (fresh, free, unused, e) =
      let q : Player = player_row player_id user_id name in
      let made = added s (row user_id) q in
      let shown : IsShown made player_id name is_guest =
        subst (IsShown made player_id name) (guests user_id) (
          added-IsShown s (row user_id) q
            (subst (λ id. user_exists s.users id ≡ false) (sym (keyed user_id)) fresh) unused
            (sym (keyed user_id))) in
      (
        subst (IsKept s) (sym e) (added-IsKept s (row user_id) q),
        give_token-OnSession (λ id. IsShown after id name is_guest) user_id player_id now
            (subst (λ x. IsShown x player_id name is_guest) (sym e) shown),
      )

  module _ (d : Draws) (s : Accounts) where
    same : IsKept s s
    same id name is_guest h = h

    guest-IsKept : IsKept s (guest p v d s).0
    unfolding guest
    guest-IsKept =
        (answer_created-IsRecorded s guest_user (guest_name d.random) true d.now
          (create_guest d.transaction s (guest_name d.random)) (λ id. refl) (λ id. refl)
          (create_guest-IsCreated d.transaction s (guest_name d.random))).0

    touch_last_login-IsKept :
        (user_id : Uuid) → IsKept s (touch_last_login d.update_fails s user_id d.now)
    unfolding touch_last_login
    touch_last_login-IsKept user_id =
        if-elim (IsKept s) d.update_fails (λ y. same) (λ n. seen-IsKept s user_id d.now)

    enter-IsKept :
        (user_id : Uuid) (hash password : Bytes) → IsKept s (enter p v d s user_id hash password).0
    unfolding enter
    enter-IsKept user_id hash password = elim (Option-cases (verify_password p hash password)) [
      | inr (err, w) ↦ rw (enter, w) same
      | inl w ↦ elim (Outcome-cases (player_by_user_id d.player_fails s user_id)) [
        | inl (err, q) ↦ rw (enter, w, q) same
        | inr (player_id, q) ↦ rw (enter, w, q) (touch_last_login-IsKept user_id)
      ]
    ]

    login-IsKept : (raw password : Bytes) → IsKept s (login p v d s raw password).0
    unfolding login
    login-IsKept raw password = elim (Checked-cases (normalize_email p raw)) [
      | inl (why, n) ↦ rw (login, n) same
      | inr (email, n) ↦ elim (Outcome-cases (lookup_user_by_email d.lookup_fails s email)) [
        | inl (err, l) ↦ rw (login, n, l) same
        | inr ((user_id, hash), l) ↦ rw (login, n, l) (enter-IsKept user_id hash password)
      ]
    ]

    -- A registration keeps the profiles, and a player that it gives a token has one with the name.
    abbrev IsSignedUp : (checked : Checked) → Accounts × Outcome Session → Type 0
    IsSignedUp checked (after, r) =
        IsKept s after
        × OnSession (λ q. (name : Bytes) × (checked ≡ accepted name) × IsShown after q name false) r

    signed_up :
        (name : Bytes) (c : Accounts × Outcome Session)
        → IsRecorded s name false c
        → IsSignedUp (accepted name) c
    signed_up name (after, failed err) h = (h.0, tt)
    signed_up name (after, ok (tok, q)) h = (h.0, (name, refl, h.1))

    register-IsSignedUp :
        (req : RegisterRequest)
        → IsSignedUp (validate_display_name p req.display_name) (register p v d s req)
    unfolding register create_account
    register-IsSignedUp req = elim (Checked-cases (normalize_email p req.email)) [
      | inl (why, n) ↦ rw (register, n) (same, tt)
      | inr (email, n) ↦ elim (Option-cases (validate_password req.password)) [
        | inr (why, w) ↦ rw (register, n, w) (same, tt)
        | inl w ↦ elim (Checked-cases (validate_display_name p req.display_name)) [
          | inl (why, m) ↦ rw (register, n, w, m) (same, tt)
          | inr (name, m) ↦ elim (Outcome-cases (hash_password p req.password d.salt)) [
            | inl (err, h) ↦ rw (register, n, w, m, create_account, h) (same, tt)
            | inr (hash, h) ↦
                rw (register, n, w, m, create_account, h)
                  (signed_up name _ (
                    answer_created-IsRecorded s (λ id. registered_user id email hash) name false
                      d.now (create_user_with_player d.transaction s email hash name) (λ id. refl)
                      (λ id. refl)
                      (create_user_with_player-IsCreated d.transaction s email hash name)))
          ]
        ]
      ]
    ]

  call-IsKept : (d : Draws) (s : Accounts) (req : Request) → IsKept s (call p v d s req).0
  unfolding call
  call-IsKept d s (sign_up req) = (register-IsSignedUp d s req).0
  call-IsKept d s (log_in raw password) = login-IsKept d s raw password
  call-IsKept d s visit = guest-IsKept d s

  call_all-IsKept :
      (s : Accounts) (calls : List (Draws × Request)) → IsKept s (call_all p v s calls).0
  unfolding call_all
  call_all-IsKept s [] id name is_guest h = h
  call_all-IsKept s ((d, req) ∷ calls) id name is_guest h =
      call_all-IsKept (call p v d s req).0 calls id name is_guest
        (call-IsKept d s req id name is_guest h)

  -- After a registration that returned a token, and after any calls that followed, Me shows the player
  -- of that token its own profile, if the query does not fail: with the display name as
  -- validateDisplayName accepted it, and not as a guest.
  pub register-show_me :
      (s : Accounts) (d : Draws) (req : RegisterRequest) (tok : Bytes) (player_id : Uuid)
      (calls : List (Draws × Request)) (cols : Columns) (ctx : Context)
      → (register p v d s req).1 ≡ ok (tok, player_id)
      → player_id_from_context ctx ≡ (player_id, true)
      → (shown : Profile) × (show_me false cols (call_all p v (register p v d s req).0 calls).0 ctx
          ≡ profile_shown shown)
        × (shown.player_id ≡ player_id)
        × (validate_display_name p req.display_name ≡ accepted shown.display_name)
        × (shown.is_guest ≡ false)
  unfolding show_me get_by_id
  register-show_me s d req tok player_id calls cols ctx e known =
      let after = (register p v d s req).0 in
      let (name, m, recorded) =
        subst
          (OnSession (λ q.
            (name : Bytes) × (validate_display_name p req.display_name ≡ accepted name)
            × IsShown after q name false))
          e (register-IsSignedUp d s req).1 in
      let shown : IsShown (call_all p v after calls).0 player_id name false =
        call_all-IsKept after calls player_id name false recorded in
      (
        profile cols shown.player shown.user,
        rw (show_me, known, get_by_id, shown.found_player, shown.found_user) refl,
        find_player_id (call_all p v after calls).0.players player_id shown.found_player,
        rw (shown.name_shown) m,
        shown.guest_shown,
      )
