-- ===== src/Auth/Service/Directory/Refinement.antt =====
-- The calls of internal/auth/service.go as steps of the book.
use car_video_game_backend.Base.{
  false, ap, ◌∙◌, ◌++◌, some, ◌≡◌, inl, inr, refl, sym, subst, List, [], ◌∷◌, map, Option-cases,
  if-elim,
}
use car_video_game_backend.Framing.{Bytes}
use car_video_game_backend.Race.Model.{Uuid, Time}
use car_video_game_backend.Auth.{
  AuthError, invalid_credentials, invalid_input, Outcome, ok, failed, Packages, hash_password,
  verify_password,
}
use car_video_game_backend.Auth.Access.{issue_access_token}
use car_video_game_backend.Auth.Accounts.{
  User, Player, Accounts, player_row, user_exists, player_exists, email_is_taken, registered_user,
  guest_user, select_user, credentials_of, create_user_with_player, create_guest,
  lookup_user_by_email, player_by_user_id, touch_last_login,
}
use car_video_game_backend.Auth.Accounts.Keys.{
  entry, IsOwned, entry-none, added-IsOwned, entry-added_guest, entry-added_user, added,
  seen-IsOwned, entry-seen, book, Directory, take_player, taken-added, update,
}
use car_video_game_backend.Auth.Accounts.Created.{
  IsCreated, create_user_with_player-IsCreated, create_guest-IsCreated,
}
use car_video_game_backend.Auth.Service.{
  Settings, RegisterRequest, Draws, accepted, Session, guest_name, validate_password,
  normalize_email, validate_display_name, give_token, answer_created, create_account, register,
  enter, login, guest,
}
use car_video_game_backend.Auth.Service.Directory.Lookups.{
  Checked-cases, Outcome-cases, lookup_ok, player_ok, entry_found,
}
use car_video_game_backend.Auth.Service.Directory.{
  Request, sign_up, log_in, visit, Grant, granted, no_token, Step, signed_up, logged_in, visited,
  denied, Steps, rest, then, call, call_all,
}

-- One user more, and its player: the book has the player, and what the addresses become.
book-added :
    (s : Accounts) (w : User) (q : Player) (d : Directory)
    → entry (added s w q) ≡ d
    → book (added s w q)
      ≡ record { entries = d; taken = take_player (player_exists s.players) q.id }
book-added s w q d e =
    ap (λ x. record { entries = x; taken = player_exists (s.players ++ q ∷ []) }) e
    ∙ ap (λ x. record { entries = d; taken = x }) (taken-added s w q)

module _ (p : Packages) (v : Settings) where
  give_token-Grant :
      (user_id player_id : Uuid) (now : Time)
      → Grant p v player_id (give_token p v user_id player_id now)
  unfolding give_token
  give_token-Grant user_id player_id now =
      elim (Outcome-cases (issue_access_token p v.secret v.issuer v.ttl user_id player_id now)) [
        | inl (err, e) ↦ rw (e, give_token) no_token
        | inr (tok, e) ↦ rw (e, give_token) (granted user_id now tok e)
      ]

  -- One call is one step of the book, and keeps the tables owned.
  abbrev pub Simulated : Accounts → Request → Accounts × Outcome Session → Type 0
  Simulated s req (after, r) = IsOwned after × Step p v (book s) req r (book after)

  module _ (d : Draws) (s : Accounts) (owned : IsOwned s) where
    kept : (req : Request) (err : AuthError) → Simulated s req (s, failed err)
    kept req err = (owned, denied req err)

    finish :
        (req : Request) (row : Uuid → User) (name : Bytes) (now : Time)
        (c : Accounts × Outcome (Uuid × Uuid))
        → ((id : Uuid) → (row id).id ≡ id)
        → ((user_id player_id : Uuid)
            → user_exists s.users user_id ≡ false
            → email_is_taken s.users (row user_id).email ≡ false
            → player_exists s.players player_id ≡ false
            → (r : Outcome Session) → Grant p v player_id r
            → Step p v
                (book s)
                req
                r
                (book (added s (row user_id) (player_row player_id user_id name))))
        → IsCreated s row name c
        → Simulated s req (answer_created p v c now)
    finish req row name now (after, failed err) keyed build e =
        subst (λ x. Simulated s req (x, failed err)) (sym e) (kept req err)
    finish req row name now (after, ok (user_id, player_id)) keyed build (fresh, free, new, e) =
        subst (λ x. Simulated s req (x, give_token p v user_id player_id now)) (sym e)
          (
            added-IsOwned s owned user_id player_id name fresh (row user_id) (keyed user_id),
            build user_id player_id fresh free new _ (give_token-Grant user_id player_id now),
          )

    guest-Simulated : Simulated s visit (guest p v d s)
    unfolding guest
    guest-Simulated =
        finish visit guest_user (guest_name d.random) d.now
          (create_guest d.transaction s (guest_name d.random)) (λ id. refl)
          (λ user_id player_id fresh free new r g.
            let q = player_row player_id user_id (guest_name d.random) in
            subst (Step p v (book s) visit r)
              (sym (
                book-added s (guest_user user_id) q (entry s)
                  (entry-added_guest s owned user_id player_id (guest_name d.random) fresh)))
              (visited player_id new g))
          (create_guest-IsCreated d.transaction s (guest_name d.random))

    touch_last_login-Simulated :
        (user_id : Uuid) (req : Request) (r : Outcome Session)
        → Step p v (book s) req r (book s)
        → Simulated s req (touch_last_login d.update_fails s user_id d.now, r)
    unfolding touch_last_login
    touch_last_login-Simulated user_id req r step =
        if-elim (λ after. Simulated s req (after, r)) d.update_fails (λ y. (owned, step))
          (λ n. (
            seen-IsOwned s user_id d.now owned,
            subst (Step p v (book s) req r)
                (sym (
                  ap (λ e. record { entries = e; taken = player_exists s.players })
                    (entry-seen s user_id d.now)))
                step,
          ))

    enter-Simulated :
        (raw password email hash : Bytes) (user_id : Uuid)
        → normalize_email p raw ≡ accepted email
        → credentials_of (select_user s.users email) ≡ ok (user_id, hash)
        → Simulated s (log_in raw password) (enter p v d s user_id hash password)
    unfolding enter
    enter-Simulated raw password email hash user_id n c =
        elim (Option-cases (verify_password p hash password)) [
          | inr (err, w) ↦ rw (enter, w) (kept (log_in raw password) invalid_credentials)
          | inl w ↦ elim (Outcome-cases (player_by_user_id d.player_fails s user_id)) [
            | inl (err, q) ↦ rw (enter, w, q) (kept (log_in raw password) err)
            | inr (player_id, q) ↦
                rw (enter, w, q)
                  (let step : Step p v (book s) (log_in raw password)
                        (give_token p v user_id player_id d.now) (book s) =
                      logged_in raw password email hash player_id n
                        (entry_found s email c (player_ok d.player_fails s user_id q)) w
                        (give_token-Grant user_id player_id d.now) in
                    touch_last_login-Simulated user_id (log_in raw password)
                      (give_token p v user_id player_id d.now) step)
          ]
        ]

    login-Simulated :
        (raw password : Bytes) → Simulated s (log_in raw password) (login p v d s raw password)
    unfolding login lookup_user_by_email
    login-Simulated raw password = elim (Checked-cases (normalize_email p raw)) [
      | inl (why, n) ↦ rw (login, n) (kept (log_in raw password) invalid_credentials)
      | inr (email, n) ↦ elim (Outcome-cases (lookup_user_by_email d.lookup_fails s email)) [
        | inl (err, l) ↦ rw (login, n, l) (kept (log_in raw password) invalid_credentials)
        | inr ((user_id, hash), l) ↦
            rw (login, n, l)
              (enter-Simulated raw password email hash user_id n
                (lookup_ok d.lookup_fails s email l))
      ]
    ]

    pub register-Simulated :
        (req : RegisterRequest) → Simulated s (sign_up req) (register p v d s req)
    unfolding register create_account
    register-Simulated req = elim (Checked-cases (normalize_email p req.email)) [
      | inl (why, n) ↦ rw (register, n) (kept (sign_up req) (invalid_input why))
      | inr (email, n) ↦ elim (Option-cases (validate_password req.password)) [
        | inr (why, w) ↦ rw (register, n, w) (kept (sign_up req) (invalid_input why))
        | inl w ↦ elim (Checked-cases (validate_display_name p req.display_name)) [
          | inl (why, m) ↦ rw (register, n, w, m) (kept (sign_up req) (invalid_input why))
          | inr (name, m) ↦ elim (Outcome-cases (hash_password p req.password d.salt)) [
            | inl (err, h) ↦ rw (register, n, w, m, create_account, h) (kept (sign_up req) err)
            | inr (hash, h) ↦
                rw (register, n, w, m, create_account, h)
                  (finish (sign_up req) (λ id. registered_user id email hash) name d.now
                    (create_user_with_player d.transaction s email hash name) (λ id. refl)
                    (λ user_id player_id fresh free new r g.
                      subst (Step p v (book s) (sign_up req) r)
                        (sym (
                          book-added s (registered_user user_id email hash)
                            (player_row player_id user_id name)
                            (update (entry s) email (some (hash, player_id)))
                            (entry-added_user s owned user_id player_id name fresh email hash
                              free)))
                        (signed_up req email hash player_id d.salt n w h (entry-none s email free)
                          new g))
                    (create_user_with_player-IsCreated d.transaction s email hash name))
          ]
        ]
      ]
    ]

  call-Simulated :
      (d : Draws) (s : Accounts) (req : Request) → IsOwned s → Simulated s req (call p v d s req)
  unfolding call
  call-Simulated d s (sign_up req) owned = register-Simulated d s owned req
  call-Simulated d s (log_in raw password) owned = login-Simulated d s owned raw password
  call-Simulated d s visit owned = guest-Simulated d s owned

  -- Any calls to the service, with any of their statements failing, are steps of the book that the
  -- tables hold, its addresses and its players. An answer with a token holds an access token issued
  -- for the player that it names: for a registration, a player that was not there before, of an
  -- address that had none; for a login, the player of an address whose password was given; for a
  -- guest, a player that was not there before. No other call changes an address or adds a player.
  -- The tables keep a user for every player.
  pub call_all_refines :
      (s : Accounts) (calls : List (Draws × Request))
      → IsOwned s
      → IsOwned (call_all p v s calls).0
        × Steps p v
            (book s)
            (map (λ c. c.1) calls)
            (call_all p v s calls).1
            (book (call_all p v s calls).0)
  unfolding call_all
  call_all_refines s [] owned = (owned, rest (book s))
  call_all_refines s ((d, req) ∷ calls) owned =
      let first : Simulated s req (call p v d s req) = call-Simulated d s req owned in
      let later = call_all_refines (call p v d s req).0 calls first.0 in
      (later.0, then first.1 later.1)
