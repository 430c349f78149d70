-- ===== src/Auth/Accounts/Keys.antt =====
-- What the tables say of an e-mail address, and how each statement of internal/auth/repo.go changes
-- it.
use mathlib.Core.Path.{fun_ext}
use car_video_game_backend.Base.{
  ◌≡◌, refl, List, [], ◌∷◌, ◌++◌, Option, none, some, Bool, true, false, ◌||◌, ◌==◌, if◌then◌else◌,
  All, inl, All-map, All-append_last, ==_iff, subst, inr, Option-cases, Bool-cases, if-elim, OnSome,
  OnSome-map, OnSome-some, ==_refl, arith,
}
use car_video_game_backend.Framing.{Bytes}
use car_video_game_backend.Race.Model.{Uuid, Time}
use car_video_game_backend.Matchmaking.Token.{same_bytes}
use car_video_game_backend.Matchmaking.Token.Signing.{same_bytes_iff}
use car_video_game_backend.Auth.{Outcome, failed, ok}
use car_video_game_backend.Auth.Accounts.{
  User, Player, Accounts, registered_user, guest_user, player_row, has_email, email_exists,
  user_exists, player_exists, select_user, credentials_of, select_player, touch_rows,
}

-- An e-mail address, with the hash of its password and its player.
abbrev pub Directory : Type 0
Directory = Bytes → Option (Bytes × Uuid)

abbrev pub entry_of : List Player → Outcome (Uuid × Bytes) → Option (Bytes × Uuid)
entry_of ps (failed err) = none
entry_of ps (ok (user_id, hash)) = elim (select_player ps user_id) [
  | none ↦ none
  | some player_id ↦ some (hash, player_id)
]

-- The accounts as their callers see them: the addresses, and the players that there are.
pub record Book : Type 0 where
  pub entries : Directory
  pub taken : Uuid → Bool

abbrev pub take_player : (Uuid → Bool) → Uuid → Uuid → Bool
take_player taken player_id id = taken id || player_id == id

unfoldable pub entry : Accounts → Directory
unfolding select_user select_player
entry s e = entry_of s.players (credentials_of (select_user s.users e))

abbrev pub update : Directory → Bytes → Option (Bytes × Uuid) → Directory
update d email v e = if same_bytes email e then v else d e

abbrev pub book : Accounts → Book
book s = record { entries = entry s; taken = player_exists s.players }

-- Every player is the player of a user.
abbrev pub IsOwned : Accounts → Type 0
IsOwned s = All (λ p. user_exists s.users p.user_id ≡ true) s.players

select_user-append :
    (us : List User) (w : User) (e : Bytes)
    → select_user (us ++ w ∷ []) e ≡ (elim (select_user us e) [
      | some u ↦ some u
      | none ↦ if has_email w.email e then some w else none
    ])
unfolding select_user
select_user-append [] w e = refl
select_user-append (u ∷ us) w e = ground (arith, select_user-append us w e)

select_user-none :
    (us : List User) (e : Bytes) → email_exists us e ≡ false → select_user us e ≡ none
unfolding select_user email_exists
select_user-none [] e h = refl
select_user-none (u ∷ us) e h = ground (arith, select_user-none us e)

select_user_exists :
    (us : List User) (e : Bytes) → OnSome (λ u. user_exists us u.id ≡ true) (select_user us e)
unfolding select_user user_exists
select_user_exists [] e = tt
select_user_exists (w ∷ us) e =
    if-elim (OnSome (λ u. user_exists (w ∷ us) u.id ≡ true)) (has_email w.email e)
      (λ y. ground (arith, ==_refl w.id))
      (λ n. OnSome-map _ _ (select_user us e) (λ u h. ground (arith, h)) (select_user_exists us e))

user_exists-append :
    (us : List User) (w : User) (id : Uuid)
    → user_exists (us ++ w ∷ []) id ≡ user_exists us id || w.id == id
unfolding user_exists
user_exists-append [] w id = ground arith
user_exists-append (u ∷ us) w id = ground (arith, user_exists-append us w id)

player_exists-append :
    (ps : List Player) (q : Player) (id : Uuid)
    → player_exists (ps ++ q ∷ []) id ≡ take_player (player_exists ps) q.id id
unfolding player_exists
player_exists-append [] q id = ground arith
player_exists-append (p ∷ ps) q id = ground (arith, player_exists-append ps q id)

pub taken-added :
    (s : Accounts) (w : User) (q : Player)
    → player_exists (s.players ++ q ∷ []) ≡ take_player (player_exists s.players) q.id
taken-added s w q = fun_ext (λ id. player_exists-append s.players q id)

select_player-append :
    (ps : List Player) (q : Player) (id : Uuid)
    → select_player (ps ++ q ∷ []) id ≡ (elim (select_player ps id) [
      | some p ↦ some p
      | none ↦ if q.user_id == id then some q.id else none
    ])
unfolding select_player
select_player-append [] q id = refl
select_player-append (p ∷ ps) q id = ground (arith, select_player-append ps q id)

-- A user that is not there has no player.
select_player-none :
    (us : List User) (ps : List Player) (id : Uuid)
    → All (λ p. user_exists us p.user_id ≡ true) ps
    → user_exists us id ≡ false
    → select_player ps id ≡ none
unfolding select_player
select_player-none us [] id h n = refl
select_player-none us (p ∷ ps) id h n = ground (arith, select_player-none us ps id h.1 n)

credentials_of-touch :
    (us : List User) (id : Uuid) (now : Time) (e : Bytes)
    → credentials_of (select_user (touch_rows us id now) e) ≡ credentials_of (select_user us e)
unfolding select_user touch_rows
credentials_of-touch [] id now e = refl
credentials_of-touch (u ∷ us) id now e = ground (arith, credentials_of-touch us id now e)

user_exists-touch :
    (us : List User) (id : Uuid) (now : Time) (j : Uuid)
    → user_exists (touch_rows us id now) j ≡ user_exists us j
unfolding user_exists touch_rows
user_exists-touch [] id now j = refl
user_exists-touch (u ∷ us) id now j = ground (arith, user_exists-touch us id now j)

pub entry-none : (s : Accounts) (e : Bytes) → email_exists s.users e ≡ false → entry s e ≡ none
unfolding entry
entry-none s e h = rw (select_user-none s.users e h) refl

-- The tables with one more user and its player.
abbrev pub added : Accounts → User → Player → Accounts
added s w q = record { users = s.users ++ w ∷ []; players = s.players ++ q ∷ [] }

-- One user more, whose address no other has: only that address changes its entry.
module _ (s : Accounts) (owned : IsOwned s) (id player_id : Uuid) (display_name : Bytes)
    (fresh : user_exists s.users id ≡ false) where
  abbrev player : Player
  player = player_row player_id id display_name

  -- The player of a user that was there is found as before.
  old_player :
      (user_id : Uuid)
      → user_exists s.users user_id ≡ true
      → select_player (s.players ++ player ∷ []) user_id ≡ select_player s.players user_id
  old_player user_id h =
      let other : (id == user_id) ≡ false = elim (Bool-cases (id == user_id)) [
        | inl y ↦ absurd (cc (h, fresh, (==_iff id user_id).0 y))
        | inr n ↦ n
      ] in
      elim (Option-cases (select_player s.players user_id)) [
        | inl n ↦ rw (select_player-append s.players player user_id, n, other) refl
        | inr (p, y) ↦ rw (select_player-append s.players player user_id, y) refl
      ]

  new_player : select_player (s.players ++ player ∷ []) id ≡ some player_id
  new_player =
      rw
        (
          select_player-append s.players player id,
          select_player-none s.users s.players id owned fresh,
        )
        (ground arith)

  new_entry :
      (hash : Bytes) → entry_of (s.players ++ player ∷ []) (ok (id, hash)) ≡ some (hash, player_id)
  new_entry hash = ground (arith, new_player)

  old_entry :
      (u : User)
      → user_exists s.users u.id ≡ true
      → entry_of (s.players ++ player ∷ []) (credentials_of (some u))
        ≡ entry_of s.players (credentials_of (some u))
  old_entry u h = ground (arith, old_player u.id h)

  pub added-IsOwned : (w : User) → w.id ≡ id → IsOwned (added s w player)
  added-IsOwned w e =
      All-append_last _ s.players player
        (All-map _ _ s.players (λ p h. rw (user_exists-append s.users w p.user_id, h) refl) owned)
        (rw (user_exists-append s.users w id, e, fresh, ==_refl id) refl)

  pub entry-added_guest : entry (added s (guest_user id) player) ≡ entry s
  unfolding entry
  entry-added_guest = fun_ext (λ e. elim (Option-cases (select_user s.users e)) [
    | inl n ↦ rw (select_user-append s.users (guest_user id) e, n) refl
    | inr (u, y) ↦
        rw (select_user-append s.users (guest_user id) e, y)
          (old_entry u (OnSome-some _ _ (select_user_exists s.users e) y))
  ])

  pub entry-added_user :
      (email hash : Bytes)
      → email_exists s.users email ≡ false
      → entry (added s (registered_user id email hash) player)
        ≡ update (entry s) email (some (hash, player_id))
  unfolding entry
  entry-added_user email hash free = fun_ext (λ e. elim (Bool-cases (same_bytes email e)) [
    | inl same ↦
        let gone : select_user s.users e ≡ none =
          select_user-none s.users e
            (subst (λ x. email_exists s.users x ≡ false) ((same_bytes_iff email e).0 same) free) in
        rw (select_user-append s.users (registered_user id email hash) e, gone, same)
          (new_entry hash)
    | inr n ↦ elim (Option-cases (select_user s.users e)) [
      | inl m ↦ rw (select_user-append s.users (registered_user id email hash) e, m, n) refl
      | inr (u, y) ↦
          rw (select_user-append s.users (registered_user id email hash) e, y, n)
            (old_entry u (OnSome-some _ _ (select_user_exists s.users e) y))
    ]
  ])

-- A login changes no entry.
module _ (s : Accounts) (id : Uuid) (now : Time) where
  abbrev pub seen : Accounts
  seen = record s { users = touch_rows s.users id now }

  pub seen-IsOwned : IsOwned s → IsOwned seen
  seen-IsOwned h =
      All-map _ _ s.players (λ p k. rw (user_exists-touch s.users id now p.user_id) k) h

  pub entry-seen : entry seen ≡ entry s
  unfolding entry
  entry-seen = fun_ext (λ e. rw (credentials_of-touch s.users id now e) refl)
