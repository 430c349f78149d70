-- ===== src/Player/Kept.antt =====
-- The profiles of internal/player/player.go over the tables that the calls of internal/auth change.
use car_video_game_backend.Base.{
  ◌≡◌, refl, List, [], ◌∷◌, ◌++◌, some, Bool, false, ◌==◌, Bool-cases, if-elim, inl, inr, arith,
  ==_refl, ==_iff, ◌∙◌, ap, sym, some-injective,
}
use car_video_game_backend.Framing.{Bytes}
use car_video_game_backend.Race.Model.{Uuid, Time}
use car_video_game_backend.Auth.Accounts.{
  User, Player, Accounts, user_exists, player_exists, touched, touch_rows,
}
use car_video_game_backend.Auth.Accounts.Keys.{added, seen}
use car_video_game_backend.Player.{find_player, find_user}

-- A player whose profile shows the name, and whether it is a guest.
pub record IsShown (s : Accounts) (id : Uuid) (name : Bytes) (is_guest : Bool) : Type 0 where
  pub player : Player
  pub user : User
  pub found_player : find_player s.players id ≡ some player
  pub found_user : find_user s.users player.user_id ≡ some user
  pub name_shown : player.display_name ≡ name
  pub guest_shown : user.is_guest ≡ is_guest

-- What a profile shows is shown later too.
abbrev pub IsKept : Accounts → (later : Accounts) → Type 0
IsKept s later =
    (id : Uuid) (name : Bytes) (is_guest : Bool)
    → IsShown s id name is_guest
    → IsShown later id name is_guest

find_player-append :
    (ps : List Player) (q : Player) (id : Uuid) {p : Player}
    → find_player ps id ≡ some p
    → find_player (ps ++ q ∷ []) id ≡ some p
unfolding find_player
find_player-append [] q id e = absurd (cc (e))
find_player-append (h ∷ ps) q id {p} e = elim (Bool-cases (h.id == id)) [
  | inl y ↦ ground (arith, y, e)
  | inr n ↦ rw (n) (find_player-append ps q id {p = p} (ground (arith, n, e)))
]

pub find_player_id :
    (ps : List Player) (id : Uuid) {p : Player} → find_player ps id ≡ some p → p.id ≡ id
unfolding find_player
find_player_id [] id e = absurd (cc (e))
find_player_id (q ∷ ps) id {p} e = elim (Bool-cases (q.id == id)) [
  | inl y ↦
      let first : some q ≡ some p = ground (arith, y, e) in
      ap (λ w. w.id) (sym (some-injective _ _ first)) ∙ (==_iff q.id id).0 y
  | inr n ↦ find_player_id ps id {p = p} (ground (arith, n, e))
]

find_user-append :
    (us : List User) (w : User) (id : Uuid) {u : User}
    → find_user us id ≡ some u
    → find_user (us ++ w ∷ []) id ≡ some u
unfolding find_user
find_user-append [] w id e = absurd (cc (e))
find_user-append (h ∷ us) w id {u} e = elim (Bool-cases (h.id == id)) [
  | inl y ↦ ground (arith, y, e)
  | inr n ↦ rw (n) (find_user-append us w id {u = u} (ground (arith, n, e)))
]

find_player-new :
    (ps : List Player) (q : Player)
    → player_exists ps q.id ≡ false
    → find_player (ps ++ q ∷ []) q.id ≡ some q
unfolding find_player player_exists
find_player-new [] q h = rw (==_refl q.id) refl
find_player-new (p ∷ ps) q h = ground (arith, h, find_player-new ps q)

find_user-new :
    (us : List User) (w : User)
    → user_exists us w.id ≡ false
    → find_user (us ++ w ∷ []) w.id ≡ some w
unfolding find_user user_exists
find_user-new [] w h = rw (==_refl w.id) refl
find_user-new (u ∷ us) w h = ground (arith, h, find_user-new us w)

touched-id : (id : Uuid) (now : Time) (u : User) → (touched id now u).id ≡ u.id
touched-id id now u = if-elim (λ (w : User). w.id ≡ u.id) (u.id == id) (λ y. refl) (λ n. refl)

touched-guest : (id : Uuid) (now : Time) (u : User) → (touched id now u).is_guest ≡ u.is_guest
touched-guest id now u =
    if-elim (λ (w : User). w.is_guest ≡ u.is_guest) (u.id == id) (λ y. refl) (λ n. refl)

-- A login changes the time of one user.
find_user-touch :
    (us : List User) (id : Uuid) (now : Time) (j : Uuid) {u : User}
    → find_user us j ≡ some u
    → (later : User) × (find_user (touch_rows us id now) j ≡ some later)
      × (later.is_guest ≡ u.is_guest)
unfolding find_user touch_rows
find_user-touch [] id now j e = absurd (cc (e))
find_user-touch (h ∷ us) id now j {u} e = elim (Bool-cases (h.id == j)) [
  | inl y ↦
      let first : some h ≡ some u = ground (arith, y, e) in
      (
        touched id now h,
        rw (touched-id id now h, y) refl,
        touched-guest id now h ∙ ap (λ w. w.is_guest) (some-injective _ _ first),
      )
  | inr n ↦
      let (later, found, same) = find_user-touch us id now j {u = u} (ground (arith, n, e)) in
      (later, rw (touched-id id now h, n) found, same)
]

pub added-IsKept : (s : Accounts) (w : User) (q : Player) → IsKept s (added s w q)
added-IsKept s w q id name is_guest h = record {
  player = h.player;
  user = h.user;
  found_player = find_player-append s.players q id h.found_player;
  found_user = find_user-append s.users w h.player.user_id h.found_user;
  name_shown = h.name_shown;
  guest_shown = h.guest_shown;
}

pub added-IsShown :
    (s : Accounts) (w : User) (q : Player)
    → user_exists s.users w.id ≡ false
    → player_exists s.players q.id ≡ false
    → q.user_id ≡ w.id
    → IsShown (added s w q) q.id q.display_name w.is_guest
added-IsShown s w q fresh new own = record {
  player = q;
  user = w;
  found_player = find_player-new s.players q new;
  found_user = rw (own) (find_user-new s.users w fresh);
  name_shown = refl;
  guest_shown = refl;
}

pub seen-IsKept : (s : Accounts) (user_id : Uuid) (now : Time) → IsKept s (seen s user_id now)
seen-IsKept s user_id now id name is_guest h =
    let (u, e, same) = find_user-touch s.users user_id now h.player.user_id h.found_user in
    record {
      player = h.player;
      user = u;
      found_player = h.found_player;
      found_user = e;
      name_shown = h.name_shown;
      guest_shown = same ∙ h.guest_shown;
    }
