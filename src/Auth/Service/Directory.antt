-- ===== src/Auth/Service/Directory.antt =====
-- internal/auth/service.go refines a book of accounts: a function from e-mail addresses to the hash
-- of the password and the player, with the players that there are.
pub mod Lookups
pub mod Refinement
use car_video_game_backend.Base.{
  ℕ, Bool, true, false, ◌≡◌, ◌⊎◌, inl, inr, refl, sym, subst, ap, List, [], ◌∷◌, map, Option, none,
  some, Option-cases, if-elim, arith,
}
use car_video_game_backend.Framing.{Bytes}
use car_video_game_backend.Race.Model.{Uuid, Time}
use car_video_game_backend.Auth.{
  InputError, AuthError, invalid_credentials, internal, invalid_input, Outcome, ok, failed,
  Packages, hash_password, verify_password,
}
use car_video_game_backend.Auth.Access.{issue_access_token}
use car_video_game_backend.Auth.Accounts.{
  User, Accounts, player_row, user_exists, email_is_taken, registered_user, guest_user, select_user,
  credentials_of, select_player, create_user_with_player, create_guest, lookup_user_by_email,
  player_by_user_id, touch_last_login,
}
use car_video_game_backend.Auth.Accounts.Keys.{
  Book, take_player, Directory, entry, update, IsOwned, entry-none, added-IsOwned,
  entry-added_guest, entry-added_user, added, seen-IsOwned, entry-seen,
}
use car_video_game_backend.Auth.Accounts.Created.{
  IsCreated, create_user_with_player-IsCreated, create_guest-IsCreated,
}
use car_video_game_backend.Auth.Service.{
  Settings, RegisterRequest, Draws, Checked, accepted, refused, Session, guest_name,
  validate_password, normalize_email, validate_display_name, give_token, answer_created,
  create_account, register, enter, login, guest,
}

pub data Request : Type 0 where
  sign_up : RegisterRequest → Request
  log_in : (email password : Bytes) → Request
  visit : Request

module _ (p : Packages) (v : Settings) where
  -- An answer that is an access token for the player, or an error where none could be made.
  pub data Grant (player_id : Uuid) : Outcome Session → Type 0 where
    granted :
        (user_id : Uuid) (now : Time) (tok : Bytes)
        → issue_access_token p v.secret v.issuer v.ttl user_id player_id now ≡ ok tok
        → Grant player_id (ok (tok, player_id))
    no_token : Grant player_id (failed internal)

  -- What one request may do to the book of accounts, and answer.
  pub data Step (d : Book) : Request → Outcome Session → Book → Type 0 where
    signed_up :
        (req : RegisterRequest) (email hash : Bytes) (player_id : Uuid) (salt : ℕ)
        {r : Outcome Session}
        → normalize_email p req.email ≡ accepted email
        → validate_password req.password ≡ none
        → hash_password p req.password salt ≡ ok hash
        → d.entries email ≡ none
        → d.taken player_id ≡ false
        → Grant player_id r
        → Step d (sign_up req) r (record {
          entries = update d.entries email (some (hash, player_id));
          taken = take_player d.taken player_id;
        })
    logged_in :
        (raw password email hash : Bytes) (player_id : Uuid) {r : Outcome Session}
        → normalize_email p raw ≡ accepted email
        → d.entries email ≡ some (hash, player_id)
        → verify_password p hash password ≡ none
        → Grant player_id r
        → Step d (log_in raw password) r d
    visited :
        (player_id : Uuid) {r : Outcome Session}
        → d.taken player_id ≡ false
        → Grant player_id r
        → Step d visit r (record d { taken = take_player d.taken player_id })
    denied : (req : Request) (err : AuthError) → Step d req (failed err) d

  pub data Steps : Book → List Request → List (Outcome Session) → Book → Type 0 where
    rest : (d : Book) → Steps d [] [] d
    then :
        {d e f : Book} {req : Request} {reqs : List Request} {r : Outcome Session}
        {rs : List (Outcome Session)}
        → Step d req r e
        → Steps e reqs rs f
        → Steps d (req ∷ reqs) (r ∷ rs) f

  unfoldable pub call : Draws → Accounts → Request → Accounts × Outcome Session
  unfolding register login guest
  call d s (sign_up req) = register p v d s req
  call d s (log_in email password) = login p v d s email password
  call d s visit = guest p v d s

  unfoldable pub call_all : Accounts → List (Draws × Request) → Accounts × List (Outcome Session)
  unfolding call
  call_all s [] = (s, [])
  call_all s ((d, req) ∷ calls) =
      let now = call d s req in let later = call_all now.0 calls in (later.0, now.1 ∷ later.1)
