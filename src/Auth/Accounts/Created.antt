-- ===== src/Auth/Accounts/Created.antt =====
-- The transactions of internal/auth/repo.go: what they leave in the tables when they return.
use car_video_game_backend.Base.{
  ◌≡◌, refl, List, [], ◌∷◌, ◌++◌, Bool, false, ◌||◌, if◌then◌else◌, if-elim, subst, arith,
}
use car_video_game_backend.Framing.{Bytes}
use car_video_game_backend.Race.Model.{Uuid}
use car_video_game_backend.Auth.{AuthError, Outcome, ok, failed, internal, email_taken}
use car_video_game_backend.Auth.Accounts.{
  User, Accounts, Transaction, registered_user, guest_user, player_row, email_is_taken, user_exists,
  player_exists, Inserted, inserted, unique_violation, insert_error, insert_user, add_player_row,
  create_user_with_player, create_guest,
}
use car_video_game_backend.Auth.Accounts.Keys.{added}

-- A failed transaction leaves the tables as they were; one that returns has added one user, whose ID
-- and address no other user had, and its player, whose ID is new too.
abbrev pub IsCreated :
    (s : Accounts)
    → (row : Uuid → User) → (name : Bytes) → Accounts × Outcome (Uuid × Uuid)
    → Type 0
IsCreated s row name (after, failed err) = after ≡ s
IsCreated s row name (after, ok (user_id, player_id)) =
    (user_exists s.users user_id ≡ false)
    × (email_is_taken s.users (row user_id).email ≡ false)
    × (player_exists s.players player_id ≡ false)
    × (after ≡ added s (row user_id) (player_row player_id user_id name))

abbrev IsInserted : List User → User → Inserted → Type 0
IsInserted us u unique_violation = Unit
IsInserted us u insert_error = Unit
IsInserted us u (inserted after) =
    (user_exists us u.id ≡ false) × (email_is_taken us u.email ≡ false) × (after ≡ us ++ u ∷ [])

insert_user-IsInserted :
    (fails : Bool) (us : List User) (u : User) → IsInserted us u (insert_user fails us u)
unfolding insert_user
insert_user-IsInserted fails us u =
    if-elim (IsInserted us u) fails (λ y. tt)
      (λ n.
        if-elim (IsInserted us u) (user_exists us u.id || email_is_taken us u.email) (λ y. tt)
          (λ m. (ground (arith, m), ground (arith, m), refl)))

module _ (t : Transaction) (s : Accounts) (row : Uuid → User)
    (keyed : (row t.new_user).id ≡ t.new_user) (name : Bytes) where
  add_player_row-IsCreated :
      user_exists s.users t.new_user ≡ false
      → email_is_taken s.users (row t.new_user).email ≡ false
      → IsCreated s row name (add_player_row t s (s.users ++ row t.new_user ∷ []) name)
  unfolding add_player_row
  add_player_row-IsCreated fresh free =
      if-elim (IsCreated s row name)
        (t.player_fails || (player_exists s.players t.new_player || t.commit_fails)) (λ y. refl)
        (λ n. (fresh, free, ground (arith, n), refl))

  -- The INSERT into users and what follows it, with the error for each of its failures.
  after_insert :
      (violated broken : AuthError) (o : Inserted)
      → IsInserted s.users (row t.new_user) o
      → IsCreated s row name (elim o [
        | insert_error ↦ (s, failed broken)
        | unique_violation ↦ (s, failed violated)
        | inserted us ↦ add_player_row t s us name
      ])
  after_insert violated broken insert_error h = refl
  after_insert violated broken unique_violation h = refl
  after_insert violated broken (inserted us) (fresh, free, e) =
      rw (e)
        (add_player_row-IsCreated (subst (λ id. user_exists s.users id ≡ false) keyed fresh) free)

  transaction-IsCreated :
      (violated broken : AuthError)
      → IsCreated s row name (
          if t.begin_fails
          then (s, failed internal)
          else elim (insert_user t.user_fails s.users (row t.new_user)) [
            | insert_error ↦ (s, failed broken)
            | unique_violation ↦ (s, failed violated)
            | inserted us ↦ add_player_row t s us name
          ])
  transaction-IsCreated violated broken =
      if-elim (IsCreated s row name) t.begin_fails (λ y. refl)
        (λ n.
          after_insert violated broken (insert_user t.user_fails s.users (row t.new_user))
            (insert_user-IsInserted t.user_fails s.users (row t.new_user)))

pub create_user_with_player-IsCreated :
    (t : Transaction) (s : Accounts) (email hash name : Bytes)
    → IsCreated s
        (λ id. registered_user id email hash)
        name
        (create_user_with_player t s email hash name)
unfolding create_user_with_player
create_user_with_player-IsCreated t s email hash name =
    transaction-IsCreated t s (λ id. registered_user id email hash) refl name email_taken internal

pub create_guest-IsCreated :
    (t : Transaction) (s : Accounts) (name : Bytes)
    → IsCreated s guest_user name (create_guest t s name)
unfolding create_guest
create_guest-IsCreated t s name = transaction-IsCreated t s guest_user refl name internal internal
